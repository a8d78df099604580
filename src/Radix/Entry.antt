-- ===== src/Radix/Entry.antt =====
-- The table that a tree stands for: a value at each prefix of bits.
use inside_nginx.Base.{
  arith, ℕ, zero, suc, ◌≡◌, refl, Bool, true, false, not, ◌&&◌, List, [], ◌∷◌, if◌then◌else◌,
}
use inside_nginx.Radix.{Tree, nil, node, no_value, bit_of, child, with_child}

-- The bits of the prefix of a key under a mask, with k bits left: up to the first bit that is not
-- in the mask.
unfoldable pub prefix : ℕ → ℕ → ℕ → List Bool
prefix zero key mask = []
prefix (suc k) key mask =
    let rest = bit_of key (suc k) ∷ prefix k key mask in if bit_of mask (suc k) then rest else []

-- The value at a prefix, or NGX_RADIX_NO_VALUE.
unfoldable pub entry : List Bool → Tree → ℕ
entry [] nil = no_value
entry [] (node v l r) = v
entry (b ∷ bs) nil = no_value
entry (b ∷ bs) (node v l r) = if b then entry bs r else entry bs l

unfoldable pub bit_eq : Bool → Bool → Bool
bit_eq true b = b
bit_eq false b = not b

unfoldable pub same_bits : List Bool → List Bool → Bool
same_bits [] [] = true
same_bits [] (c ∷ cs) = false
same_bits (b ∷ bs) [] = false
same_bits (b ∷ bs) (c ∷ cs) = bit_eq b c && same_bits bs cs

pub entry-nil : (bs : List Bool) → entry bs nil ≡ no_value
unfolding entry
entry-nil [] = refl
entry-nil (b ∷ bs) = refl

-- The entries of a node with one child exchanged.
pub entry-with_child :
    (b c : Bool) (bs : List Bool) (v : ℕ) (l r t : Tree)
    → entry (c ∷ bs) (with_child b v l r t)
      ≡ (if bit_eq b c then entry bs t else entry (c ∷ bs) (node v l r))
unfolding entry with_child bit_eq
entry-with_child true true bs v l r t = refl
entry-with_child true false bs v l r t = refl
entry-with_child false true bs v l r t = refl
entry-with_child false false bs v l r t = refl

pub entry_of_child :
    (b : Bool) (bs : List Bool) (v : ℕ) (l r : Tree)
    → entry (b ∷ bs) (node v l r) ≡ entry bs (child b l r)
unfolding entry child
entry_of_child true bs v l r = refl
entry_of_child false bs v l r = refl

pub entry-nil-with_child : (b : Bool) (v : ℕ) (l r t : Tree) → entry [] (with_child b v l r t) ≡ v
unfolding entry with_child
entry-nil-with_child true v l r t = refl
entry-nil-with_child false v l r t = refl

pub entry-nil-node : (v : ℕ) (l r : Tree) → entry [] (node v l r) ≡ v
unfolding entry
entry-nil-node v l r = refl

pub bit_eq-true : (b c : Bool) → bit_eq b c ≡ true → b ≡ c
unfolding bit_eq
bit_eq-true true true e = refl
bit_eq-true true false e = ground arith
bit_eq-true false true e = ground arith
bit_eq-true false false e = refl
