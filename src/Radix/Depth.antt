-- ===== src/Radix/Depth.antt =====
-- The depth of the tree under ngx_radix32tree_insert.
use inside_nginx.Base.{ℕ, zero, suc, refl, inl, inr, Bool, true, false, ◌==◌, Bool-cases}
use inside_nginx.Radix.Find.{IsWithin, IsWithin-child}
use inside_nginx.Radix.{
  Tree, nil, node, Memory, no_value, bit_of, child, with_child, alloc, sprout, insert_at, insert,
  is_leaf,
}

IsWithin-with_child :
    (b : Bool) (k v : ℕ) (l r t : Tree)
    → IsWithin k l
    → IsWithin k r
    → IsWithin k t
    → IsWithin (suc k) (with_child b v l r t)
unfolding IsWithin with_child
IsWithin-with_child true k v l r t hl hr h = (hl, h)
IsWithin-with_child false k v l r t hl hr h = (h, hr)

IsWithin-nil : (k : ℕ) → IsWithin k nil
unfolding IsWithin
IsWithin-nil zero = tt
IsWithin-nil (suc k) = tt

IsWithin-leaf : (k value : ℕ) → IsWithin k (node value nil nil)
unfolding IsWithin is_leaf
IsWithin-leaf zero value = refl
IsWithin-leaf (suc k) value = (IsWithin-nil k, IsWithin-nil k)

-- The value of a node is free.
IsWithin-value :
    (k v value : ℕ) (l r : Tree) → IsWithin k (node v l r) → IsWithin k (node value l r)
unfolding IsWithin
IsWithin-value zero v value l r h = h
IsWithin-value (suc k) v value l r h = h

module _ (page_size node_size : ℕ) (page : ℕ → Bool) where
  sprout-IsWithin :
      (k key mask value : ℕ) (m : Memory)
      → IsWithin k (sprout page_size node_size page k key mask value m).1
  unfolding sprout
  sprout-IsWithin zero key mask value m = elim (Bool-cases (alloc page_size node_size page m).0) [
    | inl e ↦ rw e (IsWithin-leaf zero value)
    | inr e ↦ rw e (IsWithin-nil zero)
  ]
  sprout-IsWithin (suc k) key mask value m =
      let m' : Memory = (alloc page_size node_size page m).1 in
      elim (Bool-cases (alloc page_size node_size page m).0) [
        | inl e ↦ elim (Bool-cases (bit_of mask (suc k))) [
          | inl e' ↦
              rw (e, e')
                (IsWithin-with_child (bit_of key (suc k)) k no_value nil nil
                  (sprout page_size node_size page k key mask value m').1 (IsWithin-nil k)
                  (IsWithin-nil k) (sprout-IsWithin k key mask value m'))
          | inr e' ↦ rw (e, e') (IsWithin-leaf (suc k) value)
        ]
        | inr e ↦ rw e (IsWithin-nil (suc k))
      ]

  insert_at-IsWithin :
      (k key mask value : ℕ) (t : Tree) (m : Memory)
      → IsWithin k t
      → IsWithin k (insert_at page_size node_size page k key mask value t m).1
  unfolding insert_at child
  insert_at-IsWithin k key mask value nil m h = sprout-IsWithin k key mask value m
  insert_at-IsWithin zero key mask value (node v l r) m h = elim (Bool-cases (v == no_value)) [
    | inl e ↦ rw e (IsWithin-value zero v value l r h)
    | inr e ↦ rw e h
  ]
  insert_at-IsWithin (suc k) key mask value (node v l r) m h =
      let b : Bool = bit_of key (suc k) in
      elim (Bool-cases (bit_of mask (suc k))) [
        | inl e ↦ rw e (
            IsWithin-with_child b k v l r
              (insert_at page_size node_size page k key mask value (child b l r) m).1
              (IsWithin-child false k v l r h) (IsWithin-child true k v l r h)
              (insert_at-IsWithin k key mask value (child b l r) m (IsWithin-child b k v l r h)))
        | inr e ↦ elim (Bool-cases (v == no_value)) [
          | inl e' ↦ rw (e, e') (IsWithin-value (suc k) v value l r h)
          | inr e' ↦ rw (e, e') h
        ]
      ]

  -- Insertion keeps the tree within 32 levels below its root.
  pub insert-IsWithin :
      (key mask value : ℕ) (root : Tree) (m : Memory)
      → IsWithin 32 root
      → IsWithin 32 (insert page_size node_size page key mask value root m).1
  unfolding insert
  insert-IsWithin key mask value root m h = insert_at-IsWithin 32 key mask value root m h
