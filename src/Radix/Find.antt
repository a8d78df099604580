-- ===== src/Radix/Find.antt =====
-- ngx_radix32tree_find and the longest prefix of a key that has a value.
use inside_nginx.Base.{
  ℕ, zero, suc, ◌-◌, ◌≡◌, refl, sym, ap, ◌∙◌, inl, inr, Bool, true, false, List, [], ◌∷◌, arith,
  ◌==◌, if◌then◌else◌, Bool-cases,
}
use inside_nginx.Radix.{Tree, nil, node, no_value, bit_of, child, find_from, find, is_leaf}
use inside_nginx.Radix.Entry.{entry, entry-nil}

-- The first k bits of a key.
unfoldable pub bits : ℕ → ℕ → List Bool
bits zero key = []
bits (suc k) key = bit_of key (suc k) ∷ bits k key

-- The value that a table of prefixes has for the longest prefix of a list of bits.
unfoldable pub best_match : (List Bool → ℕ) → List Bool → ℕ
best_match table [] = table []
best_match table (b ∷ bs) =
    let deeper = best_match (λ q. table (b ∷ q)) bs in
    if deeper == no_value then table [] else deeper

-- A tree of at most k levels below its root.
unfoldable pub IsWithin : ℕ → Tree → Type 0
IsWithin zero nil = Unit
IsWithin (suc k) nil = Unit
IsWithin zero (node v l r) = is_leaf l r ≡ true
IsWithin (suc k) (node v l r) = IsWithin k l × IsWithin k r

-- What find_from answers when the entries below it have `best`.
abbrev or_else : ℕ → ℕ → ℕ
or_else best value = if best == no_value then value else best

best_match-blank :
    (table : List Bool → ℕ) (bs : List Bool)
    → ((q : List Bool) → table q ≡ no_value)
    → best_match table bs ≡ no_value
unfolding best_match
best_match-blank table [] h = h []
best_match-blank table (b ∷ bs) h =
    let deeper = best_match-blank (λ q. table (b ∷ q)) bs (λ q. h (b ∷ q)) in rw deeper (h [])

or_else-or_else :
    (best v value : ℕ)
    → or_else best (if v == no_value then value else v)
      ≡ or_else (if best == no_value then v else best) value
or_else-or_else best v value = ground arith

or_else_idem : (best : ℕ) → or_else best no_value ≡ best
or_else_idem best = ground arith

find_from-leaf :
    (k key value : ℕ) (v : ℕ) (l r : Tree)
    → is_leaf l r ≡ true
    → find_from k key (node v l r) value ≡ or_else v value
unfolding find_from is_leaf
find_from-leaf k key value v nil nil h = ground arith
find_from-leaf k key value v nil (node v' l r) h = ground arith
find_from-leaf k key value v (node v' l r) t h = ground arith

find_from-child :
    (k key value v : ℕ) (l r : Tree)
    → find_from (suc k) key (node v l r) value
      ≡ find_from k key (child (bit_of key (suc k)) l r) (if v == no_value then value else v)
unfolding find_from child
find_from-child k key value v l r =
    let one : suc k - 1 ≡ k = omega arith in
    elim (Bool-cases (bit_of key (suc k))) [ inl e ↦ rw (e, one) refl | inr e ↦ rw (e, one) refl ]

best_match-child :
    (b : Bool) (bs : List Bool) (v : ℕ) (l r : Tree)
    → (let deeper = best_match (λ q. entry q (child b l r)) bs in
        best_match (λ q. entry q (node v l r)) (b ∷ bs)
        ≡ (if deeper == no_value then v else deeper))
unfolding best_match entry child
best_match-child true bs v l r = refl
best_match-child false bs v l r = refl

pub IsWithin-child :
    (b : Bool) (k v : ℕ) (l r : Tree) → IsWithin (suc k) (node v l r) → IsWithin k (child b l r)
unfolding IsWithin child
IsWithin-child true k v l r h = h.1
IsWithin-child false k v l r h = h.0

or_else-no_value : (value : ℕ) → or_else no_value value ≡ value
or_else-no_value value = refl

find_from-nil :
    (k key value : ℕ)
    → find_from k key nil value ≡ or_else (best_match (λ q. entry q nil) (bits k key)) value
unfolding find_from
find_from-nil k key value = rw (best_match-blank (λ q. entry q nil) (bits k key) entry-nil) refl

-- From a node on, the walk ends with the best match below the node, or with the value found before.
find_from-best_match :
    (k key value : ℕ) (t : Tree)
    → IsWithin k t
    → find_from k key t value ≡ or_else (best_match (λ q. entry q t) (bits k key)) value
unfolding bits IsWithin best_match entry
find_from-best_match zero key value nil h = find_from-nil zero key value
find_from-best_match (suc k) key value nil h = find_from-nil (suc k) key value
find_from-best_match zero key value (node v l r) h = find_from-leaf zero key value v l r h
find_from-best_match (suc k) key value (node v l r) h =
    let b : Bool = bit_of key (suc k) in
    let value' : ℕ = if v == no_value then value else v in
    let deeper : ℕ = best_match (λ q. entry q (child b l r)) (bits k key) in
    find_from-child k key value v l r
    ∙ find_from-best_match k key value' (child b l r) (IsWithin-child b k v l r h)
    ∙ or_else-or_else deeper v value
    ∙ ap (λ x. or_else x value) (sym (best_match-child b (bits k key) v l r))

-- In a tree of at most 32 levels below its root, ngx_radix32tree_find returns the value of the
-- longest prefix of the key that has one, and NGX_RADIX_NO_VALUE if none has.
pub find-best_match :
    (key : ℕ) (root : Tree)
    → IsWithin 32 root
    → find key root ≡ best_match (λ q. entry q root) (bits 32 key)
unfolding find
find-best_match key root h =
    find_from-best_match 32 key no_value root h
    ∙ or_else_idem (best_match (λ q. entry q root) (bits 32 key))
