-- ===== src/Radix/Delete.antt =====
-- What ngx_radix32tree_delete does to the entries of the tree.
use inside_nginx.Base.{
  error, ok, ℕ, zero, suc, ◌≡◌, refl, sym, ◌∙◌, ◌⊎◌, inl, inr, Bool, true, false, Option, none,
  some, List, [], ◌∷◌, arith, ◌==◌, if◌then◌else◌, Bool-cases, Rc,
}
use inside_nginx.Radix.{
  end_delete, Tree, nil, node, Memory, no_value, bit_of, child, with_child, is_leaf, Removal,
  missing, fault, removed, prune, remove_here, rejoin, delete_at, delete,
}
use inside_nginx.Radix.Entry.{
  bit_eq-true, entry-nil-node, prefix, entry, bit_eq, same_bits, entry-nil, entry-with_child,
  entry_of_child, entry-nil-with_child,
}

-- The value at q after the one at p was removed.
unfoldable pub without : List Bool → List Bool → ℕ → ℕ
without p q old = if same_bits p q then no_value else old

-- What a removal has done to the tree t: nothing was at the prefix p; or the tree was its root
-- alone, and the search ended there; or exactly the entry at p is gone.
unfoldable pub IsRemoval : Bool → List Bool → Tree → Removal → Type 0
IsRemoval root p t missing = entry p t ≡ no_value
IsRemoval root p t fault = (root ≡ true) × (p ≡ [])
IsRemoval root p t (removed t' n) = (q : List Bool) → entry q t' ≡ without p q (entry q t)

-- A tree with the same entries.
abbrev Same : Tree → Removal → Type 0
Same t missing = ⊥
Same t fault = ⊥
Same t (removed t' n) = (q : List Bool) → entry q t' ≡ entry q t

entry-blank :
    (q : List Bool) (v : ℕ) (l r : Tree)
    → is_leaf l r ≡ true
    → (v == no_value) ≡ true
    → entry q nil ≡ entry q (node v l r)
unfolding entry is_leaf
entry-blank [] v l r h e = ground arith
entry-blank (true ∷ q) v nil nil h e = sym (entry-nil q)
entry-blank (false ∷ q) v nil nil h e = sym (entry-nil q)
entry-blank (b ∷ q) v nil (node v' l r) h e = ground arith
entry-blank (b ∷ q) v (node v' l r) t h e = ground arith

prune-Same : (root : Bool) (v : ℕ) (l r : Tree) (n : ℕ) → Same (node v l r) (prune root v l r n)
unfolding prune
prune-Same root v l r n = elim (Bool-cases (is_leaf l r)) [
  | inl e ↦ elim (Bool-cases (v == no_value)) [
    | inl e' ↦ elim (Bool-cases root) [
      | inl e'' ↦ rw (e, e', e'') (λ q. refl)
      | inr e'' ↦ rw (e, e', e'') (λ q. entry-blank q v l r e e')
    ]
    | inr e' ↦ rw (e, e') (λ q. refl)
  ]
  | inr e ↦ rw e (λ q. refl)
]

-- The same entries as after a removal is what the removal has left.
carry :
    (root root' : Bool) (p : List Bool) (t t' : Tree) (n : ℕ) (r : Removal)
    → IsRemoval root p t (removed t' n)
    → Same t' r
    → IsRemoval root' p t r
unfolding IsRemoval
carry root root' p t t' n missing h s = absurd s
carry root root' p t t' n fault h s = absurd s
carry root root' p t t' n (removed u m) h s = λ q. s q ∙ h q

without-leaf :
    (v : ℕ) (l r : Tree) (q : List Bool)
    → is_leaf l r ≡ true
    → without [] q (entry q (node v l r)) ≡ no_value
unfolding without entry is_leaf same_bits
without-leaf v l r [] e = refl
without-leaf v nil nil (true ∷ q) e = entry-nil q
without-leaf v nil nil (false ∷ q) e = entry-nil q
without-leaf v nil (node v' l r) (b ∷ q) e = ground arith
without-leaf v (node v' l r) t (b ∷ q) e = ground arith

without-here :
    (v : ℕ) (l r : Tree) (q : List Bool)
    → entry q (node no_value l r) ≡ without [] q (entry q (node v l r))
unfolding entry without same_bits
without-here v l r [] = refl
without-here v l r (b ∷ q) = refl

remove_here-IsRemoval :
    (root : Bool) (v : ℕ) (l r : Tree) → IsRemoval root [] (node v l r) (remove_here root v l r)
unfolding remove_here IsRemoval
remove_here-IsRemoval root v l r = elim (Bool-cases (is_leaf l r)) [
  | inl e ↦ elim (Bool-cases root) [
    | inl e' ↦ rw (e, e') (refl, refl)
    | inr e' ↦ rw (e, e') (λ q. entry-nil q ∙ sym (without-leaf v l r q e))
  ]
  | inr e ↦ elim (Bool-cases (v == no_value)) [
    | inl e' ↦ rw (e, e') (entry-nil-node v l r ∙ ground arith)
    | inr e' ↦ rw (e, e') (without-here v l r)
  ]
]

-- A node with a removal in its child, before the node itself is considered.
below-IsRemoval :
    (root b : Bool) (p : List Bool) (v : ℕ) (l r t' : Tree) (n : ℕ)
    → IsRemoval false p (child b l r) (removed t' n)
    → IsRemoval root (b ∷ p) (node v l r) (removed (with_child b v l r t') n)
unfolding IsRemoval without same_bits
below-IsRemoval root b p v l r t' n h [] = rw entry-nil-with_child (sym (entry-nil-node v l r))
below-IsRemoval root b p v l r t' n h (c ∷ q) =
    rw entry-with_child (elim (Bool-cases (bit_eq b c)) [
      | inl e ↦
          let same : b ≡ c = bit_eq-true b c e in
          let old : entry (c ∷ q) (node v l r) ≡ entry q (child b l r) =
            rw (sym same) (entry_of_child b q v l r) in
          let below : entry q t' ≡ without p q (entry (c ∷ q) (node v l r)) = rw old (h q) in
          rw e below
      | inr e ↦ rw e refl
    ])

rejoin-IsRemoval :
    (root b : Bool) (p : List Bool) (v : ℕ) (l r : Tree) (below : Removal)
    → IsRemoval false p (child b l r) below
    → IsRemoval root (b ∷ p) (node v l r) (rejoin root b v l r below)
unfolding rejoin IsRemoval with_child
rejoin-IsRemoval root b p v l r missing h = entry_of_child b p v l r ∙ h
rejoin-IsRemoval root b p v l r fault h = ground (arith, h.0)
rejoin-IsRemoval root true p v l r (removed nil n) h =
    carry root root (true ∷ p) (node v l r) (node v l nil) n (prune root v l nil n)
      (below-IsRemoval root true p v l r nil n h) (prune-Same root v l nil n)
rejoin-IsRemoval root false p v l r (removed nil n) h =
    carry root root (false ∷ p) (node v l r) (node v nil r) n (prune root v nil r n)
      (below-IsRemoval root false p v l r nil n h) (prune-Same root v nil r n)
rejoin-IsRemoval root b p v l r (removed (node v' l' r') n) h =
    below-IsRemoval root b p v l r (node v' l' r') n h

nil-IsRemoval : (root : Bool) (p : List Bool) → IsRemoval root p nil missing
unfolding IsRemoval
nil-IsRemoval root p = entry-nil p

pub delete_at-IsRemoval :
    (root : Bool) (k key mask : ℕ) (t : Tree)
    → IsRemoval root (prefix k key mask) t (delete_at root k key mask t)
unfolding delete_at prefix
delete_at-IsRemoval root zero key mask nil = nil-IsRemoval root []
delete_at-IsRemoval root (suc k) key mask nil = nil-IsRemoval root (prefix (suc k) key mask)
delete_at-IsRemoval root zero key mask (node v l r) = remove_here-IsRemoval root v l r
delete_at-IsRemoval root (suc k) key mask (node v l r) =
    let b : Bool = bit_of key (suc k) in
    let below = delete_at false k key mask (child b l r) in
    elim (Bool-cases (bit_of mask (suc k))) [
      | inl e ↦ rw e (
          rejoin-IsRemoval root b (prefix k key mask) v l r below
            (delete_at-IsRemoval false k key mask (child b l r)))
      | inr e ↦ rw e (remove_here-IsRemoval root v l r)
    ]

-- What a call of ngx_radix32tree_delete for the prefix p has done to the tree: the read through a
-- NULL parent is only reached with the empty prefix; NGX_ERROR leaves the tree as it was, without a
-- value at p; after NGX_OK there is none at p, and all other prefixes keep their values.
unfoldable pub IsDeleted : List Bool → Tree → Option (Rc × Tree × Memory) → Type 0
IsDeleted p root none = p ≡ []
IsDeleted p root (some (rc, t, m)) =
    ((rc ≡ ok) × ((q : List Bool) → entry q t ≡ without p q (entry q root)))
    ⊎ ((rc ≡ error) × (t ≡ root) × (entry p root ≡ no_value))

ended :
    (p : List Bool) (root : Tree) (r : Removal) (m : Memory)
    → IsRemoval true p root r
    → IsDeleted p root (end_delete root m r)
unfolding IsDeleted IsRemoval end_delete
ended p root missing m h = inr (refl, refl, h)
ended p root fault m h = h.1
ended p root (removed t n) m h = inl (refl, h)

-- ngx_radix32tree_delete removes the value at the prefix of the key under the mask and no other; it
-- ends with NGX_ERROR only if that prefix has no value, and the tree is then as before. Only the
-- empty prefix can lead to the read through the NULL parent of the root.
pub delete-IsDeleted :
    (key mask : ℕ) (root : Tree) (m : Memory)
    → IsDeleted (prefix 32 key mask) root (delete key mask root m)
unfolding delete
delete-IsDeleted key mask root m =
    ended (prefix 32 key mask) root (delete_at true 32 key mask root) m
      (delete_at-IsRemoval true 32 key mask root)
