-- ===== src/RbTree/Insert/Ordered.antt =====
-- ngx_rbtree_insert_value keeps the keys in order.
use inside_nginx.Base.{
  subst, ℕ, ◌≤◌, ◌≡◌, refl, sym, ap, ◌∙◌, ◌≢◌, inl, inr, Bool, some, List, [], ◌∷◌, ◌++◌, arith,
  Bool-cases, All,
}
use inside_nginx.Base.{occurrences, occurrences-append}
use inside_nginx.RbTree.{RedBlack}
use inside_nginx.RbTree.Shape.{Shape, leaf, fork, IsShape, inorder, size}
use inside_nginx.RbTree.Insert.{insert_value, value_less}
use inside_nginx.RbTree.Insert.Placed.{find_parent-IsFound}
use inside_nginx.RbTree.Insert.Attach.{
  attach-root, attach-key, attach, insert_value-attach, insert_shape,
}
use inside_nginx.Queue.Ring.{IsOut, IsApart}
use inside_nginx.Queue.Splice.{All-cut, All-join}
use inside_nginx.Queue.Sort.Place.{All-map}

module _ (key : ℕ → ℕ) where
  -- The key of a is at most the keys of the nodes.
  abbrev pub IsLow : ℕ → List ℕ → Type 0
  IsLow a xs = All (λ x. key a ≤ key x) xs

  abbrev pub IsOrdered : List ℕ → Type 0
  IsOrdered [] = Unit
  IsOrdered (x ∷ xs) = IsLow x xs × IsOrdered xs

  IsOrdered-cut :
      (us vs : List ℕ)
      → IsOrdered (us ++ vs)
      → IsOrdered us × IsOrdered vs × All (λ u. IsLow u vs) us
  IsOrdered-cut [] vs h = (tt, h, tt)
  IsOrdered-cut (u ∷ us) vs h =
      let (k, l, m) = IsOrdered-cut us vs h.1 in
      let (o, p) = All-cut (λ x. key u ≤ key x) us vs h.0 in ((o, k), l, (p, m))

  IsOrdered-join :
      (us vs : List ℕ)
      → IsOrdered us
      → IsOrdered vs
      → All (λ u. IsLow u vs) us
      → IsOrdered (us ++ vs)
  IsOrdered-join [] vs h k m = k
  IsOrdered-join (u ∷ us) vs h k m =
      (All-join (λ x. key u ≤ key x) us vs h.0 m.0, IsOrdered-join us vs h.1 k m.1)

  IsLow-trans : (a b : ℕ) (xs : List ℕ) → key a ≤ key b → IsLow b xs → IsLow a xs
  IsLow-trans a b xs h k = All-map (λ x l. omega (arith, h, l)) xs k

  insert_shape-All :
      (P : ℕ → Type 0) (less : ℕ → ℕ → Bool) (n : ℕ) (sh : Shape)
      → P n
      → All P (inorder sh)
      → All P (inorder (insert_shape less key n sh))
  insert_shape-All P less n leaf p h = (p, tt)
  insert_shape-All P less n (fork l x r) p h =
      let (hl, hr) = All-cut P (inorder l) (x ∷ inorder r) h in
      elim (Bool-cases (less (key n) (key x))) [
        | inl b ↦ rw b (
            All-join P (inorder (insert_shape less key n l)) (x ∷ inorder r)
              (insert_shape-All P less n l p hl) hr)
        | inr b ↦ rw b (
            All-join P (inorder l) (x ∷ inorder (insert_shape less key n r)) hl
              (hr.0, insert_shape-All P less n r p hr.1))
      ]

  insert_shape-occurrences :
      (y : ℕ) (less : ℕ → ℕ → Bool) (n : ℕ) (sh : Shape)
      → occurrences y (inorder (insert_shape less key n sh)) ≡ occurrences y (n ∷ inorder sh)
  insert_shape-occurrences y less n leaf = refl
  insert_shape-occurrences y less n (fork l x r) = elim (Bool-cases (less (key n) (key x))) [
    | inl b ↦ rw b (
        omega (
          arith,
          occurrences-append y (inorder (insert_shape less key n l)) (x ∷ inorder r),
          occurrences-append y (inorder l) (x ∷ inorder r),
          insert_shape-occurrences y less n l,
        ))
    | inr b ↦ rw b (
        omega (
          arith,
          occurrences-append y (inorder l) (x ∷ inorder (insert_shape less key n r)),
          occurrences-append y (inorder l) (x ∷ inorder r),
          insert_shape-occurrences y less n r,
        ))
  ]

  insert_shape-IsOrdered :
      (n : ℕ) (sh : Shape)
      → IsOrdered (inorder sh)
      → IsOrdered (inorder (insert_shape value_less key n sh))
  insert_shape-IsOrdered n leaf h = (tt, tt)
  insert_shape-IsOrdered n (fork l x r) h =
      let (hl, hr, cross) = IsOrdered-cut (inorder l) (x ∷ inorder r) h in
      elim (Bool-cases (value_less (key n) (key x))) [
        | inl b ↦
            (let low : key n ≤ key x = ground (arith, b) in
              rw b (
                IsOrdered-join (inorder (insert_shape value_less key n l)) (x ∷ inorder r)
                  (insert_shape-IsOrdered n l hl) hr
                  (insert_shape-All (λ u. IsLow u (x ∷ inorder r)) value_less n l
                    (low, IsLow-trans n x (inorder r) low hr.0) cross)))
        | inr b ↦
            (let high : key x ≤ key n = ground (arith, b) in
              let r' = inorder (insert_shape value_less key n r) in
              let low : IsLow x r' =
                insert_shape-All (λ v. key x ≤ key v) value_less n r high hr.0 in
              rw b (
                IsOrdered-join (inorder l) (x ∷ r') hl (low, insert_shape-IsOrdered n r hr.1)
                  (All-map (λ u o. (o.0, IsLow-trans u x r' o.0 low)) (inorder l) cross)))
      ]

-- In a tree that is not empty, ngx_rbtree_insert_value of a node that is not in it, not NULL and not
-- the sentinel ends when there are no more nodes than its rounds, keeps the keys of the nodes in order
-- when they are, and the tree has the nodes from before and the new one.
pub insert_value-IsOrdered :
    (fuel n : ℕ) (t : RedBlack) (l : Shape) (x : ℕ) (r : Shape)
    → size (fork l x r) ≤ fuel
    → IsShape t t.root (fork l x r)
    → n ≢ 0
    → n ≢ t.sentinel
    → IsOut n (inorder (fork l x r))
    → IsApart (inorder (fork l x r))
    → IsOrdered t.key (inorder (fork l x r))
    → (t' : RedBlack) × (sh : Shape) × (insert_value value_less fuel t.root n t ≡ some t')
      × IsShape t' t'.root sh
      × IsOrdered t'.key (inorder sh)
      × ((y : ℕ) → occurrences y (inorder sh) ≡ occurrences y (n ∷ inorder (fork l x r)))
insert_value-IsOrdered fuel n t l x r bound h nz ns out apart ordered =
    let ((place, dir), (found, shape, pz, away)) =
      find_parent-IsFound value_less n t nz ns fuel t.root l x r bound h out apart in
    let sh = insert_shape value_less t.key n (fork l x r) in
    let done : insert_value value_less fuel t.root n t ≡ some (attach dir place n t) =
      ap (λ z. insert_value value_less fuel z n t) h.0
      ∙ insert_value-attach value_less fuel x n place dir t found pz nz in
    (
      attach dir place n t,
      sh,
      done,
      subst (λ z. IsShape (attach dir place n t) z sh) (sym (attach-root dir place n t ∙ h.0))
          shape,
      subst (λ k. IsOrdered k (inorder sh)) (sym (attach-key dir place n t))
          (insert_shape-IsOrdered t.key n (fork l x r) ordered),
      λ y. insert_shape-occurrences t.key y value_less n (fork l x r),
    )
