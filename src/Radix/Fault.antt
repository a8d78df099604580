-- ===== src/Radix/Fault.antt =====
-- ngx_radix32tree_delete: where it reads through the NULL parent of the root.
use inside_nginx.Base.{
  ℕ, ◌≡◌, refl, ◌≢◌, ◌↔◌, inl, inr, Bool, true, false, none, List, arith, Bool-cases,
}
use inside_nginx.Radix.{
  end_delete, Tree, nil, node, Memory, bit_of, child, is_leaf, Removal, missing, fault, removed,
  prune, remove_here, rejoin, delete_at, delete,
}
use inside_nginx.Radix.Entry.{prefix}
use inside_nginx.Radix.Delete.{delete_at-IsRemoval, IsRemoval}

-- A root without a child.
unfoldable pub IsLoneRoot : Tree → Type 0
IsLoneRoot nil = ⊥
IsLoneRoot (node v l r) = is_leaf l r ≡ true

IsRemoval-ne-fault : (p : List Bool) (t : Tree) (r : Removal) → IsRemoval false p t r → r ≢ fault
unfolding IsRemoval
IsRemoval-ne-fault p t missing w h = cc
IsRemoval-ne-fault p t fault w h = ground (arith, w.0)
IsRemoval-ne-fault p t (removed t' n) w h = cc

below-ne-fault : (k key mask : ℕ) (t : Tree) → delete_at false k key mask t ≢ fault
below-ne-fault k key mask t =
    IsRemoval-ne-fault (prefix k key mask) t (delete_at false k key mask t)
      (delete_at-IsRemoval false k key mask t)

prune-ne-fault : (root : Bool) (v : ℕ) (l r : Tree) (n : ℕ) → prune root v l r n ≢ fault
unfolding prune
prune-ne-fault root v l r n h = ground arith

rejoin-ne-fault :
    (root b : Bool) (v : ℕ) (l r : Tree) (below : Removal)
    → below ≢ fault
    → rejoin root b v l r below ≢ fault
unfolding rejoin
rejoin-ne-fault root b v l r missing ne h = cc
rejoin-ne-fault root b v l r fault ne h = ne refl
rejoin-ne-fault root true v l r (removed nil n) ne h = prune-ne-fault root v l nil n h
rejoin-ne-fault root false v l r (removed nil n) ne h = prune-ne-fault root v nil r n h
rejoin-ne-fault root b v l r (removed (node v' l' r') n) ne h = cc

remove_here-fault_iff :
    (v : ℕ) (l r : Tree) → (remove_here true v l r ≡ fault) ↔ (is_leaf l r ≡ true)
unfolding remove_here
remove_here-fault_iff v l r = elim (Bool-cases (is_leaf l r)) [
  | inl e ↦ rw e ((λ h. refl), λ h. refl)
  | inr e ↦ rw e ((λ h. ground (arith, h)), λ h. ground (arith, h))
]

delete_at-fault_iff :
    (key mask : ℕ) (t : Tree)
    → (delete_at true 32 key mask t ≡ fault) ↔ ((bit_of mask 32 ≡ false) × IsLoneRoot t)
unfolding delete_at IsLoneRoot
delete_at-fault_iff key mask nil = ((λ h. cc), λ h. absurd h.1)
delete_at-fault_iff key mask (node v l r) =
    let b : Bool = bit_of key 32 in
    let below = delete_at false 31 key mask (child b l r) in
    elim (Bool-cases (bit_of mask 32)) [
      | inl e ↦ rw e (
        (λ h.
            absurd
              (rejoin-ne-fault true b v l r below (below-ne-fault 31 key mask (child b l r)) h)),
        λ h. ground (arith, h.0),
      )
      | inr e ↦ rw e (
        (λ h. (refl, (remove_here-fault_iff v l r).0 h)),
        λ h. (remove_here-fault_iff v l r).1 h.1,
      )
    ]

ended-none : (root : Tree) (m : Memory) (r : Removal) → end_delete root m r ≡ none → r ≡ fault
unfolding end_delete
ended-none root m missing h = cc
ended-none root m fault h = refl
ended-none root m (removed t n) h = cc

-- ngx_radix32tree_delete reads through a NULL pointer exactly if the mask lacks the highest bit, so
-- that the search ends at the root, and the root has no child.
pub delete-none_iff :
    (key mask : ℕ) (root : Tree) (m : Memory)
    → (delete key mask root m ≡ none) ↔ ((bit_of mask 32 ≡ false) × IsLoneRoot root)
unfolding delete end_delete
delete-none_iff key mask root m =
    let r = delete_at-fault_iff key mask root in
    ((λ h. r.0 (ended-none root m (delete_at true 32 key mask root) h)), λ h. rw (r.1 h) refl)
