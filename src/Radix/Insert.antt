-- ===== src/Radix/Insert.antt =====
-- What ngx_radix32tree_insert does to the entries of the tree, and its codes.
use inside_nginx.Base.{
  ◌↔◌, again, declined, error, busy, ok, ℕ, zero, suc, ◌≡◌, refl, sym, ap, ◌∙◌, ◌≢◌, inl, inr, Bool,
  true, false, ◌&&◌, List, [], ◌∷◌, arith, ◌==◌, if◌then◌else◌, Bool-cases, Rc,
}
use inside_nginx.Radix.{
  Tree, nil, node, Memory, no_value, bit_of, child, with_child, alloc, sprout, insert_at, insert,
}
use inside_nginx.Radix.Entry.{
  bit_eq-true, entry-nil-node, prefix, entry, bit_eq, same_bits, entry-nil, entry-with_child,
  entry_of_child, entry-nil-with_child,
}

abbrev pub is_ok : Rc → Bool
is_ok ok = true
is_ok rc = false

-- The value at the prefix q after one at p was written, if the code is NGX_OK.
unfoldable pub after : Rc → List Bool → List Bool → ℕ → ℕ → ℕ
after rc p q value old = if is_ok rc && same_bits p q then value else old

after-nil :
    (rc : Rc) (value : ℕ) (bs : List Bool) (b : Bool) (old : ℕ)
    → after rc [] (b ∷ bs) value old ≡ old
unfolding after same_bits
after-nil ok value bs b old = refl
after-nil error value bs b old = refl
after-nil again value bs b old = refl
after-nil busy value bs b old = refl
after-nil declined value bs b old = refl

after-cons :
    (rc : Rc) (b c : Bool) (p q : List Bool) (value old : ℕ)
    → after rc (b ∷ p) (c ∷ q) value old ≡ (if bit_eq b c then after rc p q value old else old)
unfolding after same_bits
after-cons ok b c p q value old = ground arith
after-cons error b c p q value old = ground arith
after-cons again b c p q value old = ground arith
after-cons busy b c p q value old = ground arith
after-cons declined b c p q value old = ground arith

after-cons-nil :
    (rc : Rc) (b : Bool) (p : List Bool) (value old : ℕ) → after rc (b ∷ p) [] value old ≡ old
unfolding after same_bits
after-cons-nil ok b p value old = refl
after-cons-nil error b p value old = refl
after-cons-nil again b p value old = refl
after-cons-nil busy b p value old = refl
after-cons-nil declined b p value old = refl

after-error : (p q : List Bool) (value old : ℕ) → after error p q value old ≡ old
unfolding after
after-error p q value old = refl

after-busy : (p q : List Bool) (value old : ℕ) → after busy p q value old ≡ old
unfolding after
after-busy p q value old = refl

-- A node whose own entry is written.
entry-own :
    (q : List Bool) (v value : ℕ) (l r : Tree)
    → entry q (node value l r) ≡ after ok [] q value (entry q (node v l r))
unfolding entry after same_bits
entry-own [] v value l r = refl
entry-own (b ∷ q) v value l r = refl

-- A node under which an entry is written.
entry-below :
    (rc : Rc) (b : Bool) (p q : List Bool) (v value : ℕ) (l r t : Tree)
    → ((q' : List Bool) → entry q' t ≡ after rc p q' value (entry q' (child b l r)))
    → entry q (with_child b v l r t) ≡ after rc (b ∷ p) q value (entry q (node v l r))
entry-below rc b p [] v value l r t h =
    rw (entry-nil-with_child, after-cons-nil) (sym (entry-nil-node v l r))
entry-below rc b p (c ∷ q) v value l r t h =
    rw (entry-with_child, after-cons)
      (elim (Bool-cases (bit_eq b c)) [
        | inl e ↦
            let same : b ≡ c = bit_eq-true b c e in
            let old : entry (c ∷ q) (node v l r) ≡ entry q (child b l r) =
              rw (sym same) (entry_of_child b q v l r) in
            let below : entry q t ≡ after rc p q value (entry (c ∷ q) (node v l r)) =
              rw old (h q) in
            rw e below
        | inr e ↦ rw e refl
      ])

pub entry-blank : (q : List Bool) → entry q (node no_value nil nil) ≡ no_value
unfolding entry
entry-blank [] = refl
entry-blank (true ∷ q) = entry-nil q
entry-blank (false ∷ q) = entry-nil q

entry-leaf :
    (q : List Bool) (value : ℕ) → entry q (node value nil nil) ≡ after ok [] q value no_value
entry-leaf q value =
    entry-own q no_value value nil nil ∙ ap (λ x. after ok [] q value x) (entry-blank q)

entry-child-nil : (b : Bool) (q : List Bool) → entry q (child b nil nil) ≡ no_value
unfolding child
entry-child-nil true q = entry-nil q
entry-child-nil false q = entry-nil q

module _ (page_size node_size : ℕ) (page : ℕ → Bool) where
  sprout-entry :
      (k key mask value : ℕ) (m : Memory) (q : List Bool)
      → (let r = sprout page_size node_size page k key mask value m in
          entry q r.1 ≡ after r.0 (prefix k key mask) q value no_value)
  unfolding sprout prefix
  sprout-entry zero key mask value m q = elim (Bool-cases ((alloc page_size node_size page m).0)) [
    | inl e ↦ rw e (entry-leaf q value)
    | inr e ↦ rw e (entry-nil q ∙ sym (after-error [] q value no_value))
  ]
  sprout-entry (suc k) key mask value m q =
      let m' : Memory = (alloc page_size node_size page m).1 in
      let below = sprout page_size node_size page k key mask value m' in
      elim (Bool-cases ((alloc page_size node_size page m).0)) [
        | inl e ↦ elim (Bool-cases (bit_of mask (suc k))) [
          | inl e' ↦
              rw (e, e')
                (entry-below below.0 (bit_of key (suc k)) (prefix k key mask) q no_value value nil
                    nil below.1
                    (λ q'.
                      sprout-entry k key mask value m' q'
                      ∙ sym (
                          ap (λ x. after below.0 (prefix k key mask) q' value x)
                            (entry-child-nil (bit_of key (suc k)) q')))
                  ∙ ap (λ x. after below.0 (bit_of key (suc k) ∷ prefix k key mask) q value x)
                      (entry-blank q))
          | inr e' ↦ rw (e, e') (entry-leaf q value)
        ]
        | inr e ↦ rw e (entry-nil q ∙ sym (after-error (prefix (suc k) key mask) q value no_value))
      ]

  -- Whatever the code, insertion from a node on writes the value at the prefix of the key if the
  -- code is NGX_OK, and changes the value at no other prefix; on another code it changes none.
  pub entry-insert_at :
      (k key mask value : ℕ) (t : Tree) (m : Memory) (q : List Bool)
      → (let r = insert_at page_size node_size page k key mask value t m in
          entry q r.1 ≡ after r.0 (prefix k key mask) q value (entry q t))
  unfolding insert_at prefix
  entry-insert_at k key mask value nil m q =
      sprout-entry k key mask value m q
      ∙ sym (
          ap
            (λ x.
              after (sprout page_size node_size page k key mask value m).0 (prefix k key mask) q
                value x)
            (entry-nil q))
  entry-insert_at zero key mask value (node v l r) m q = elim (Bool-cases (v == no_value)) [
    | inl e ↦ rw e (entry-own q v value l r)
    | inr e ↦ rw e (sym (after-busy [] q value (entry q (node v l r))))
  ]
  entry-insert_at (suc k) key mask value (node v l r) m q =
      let b : Bool = bit_of key (suc k) in
      let below = insert_at page_size node_size page k key mask value (child b l r) m in
      elim (Bool-cases (bit_of mask (suc k))) [
        | inl e ↦ rw e (
            entry-below below.0 b (prefix k key mask) q v value l r below.1
              (λ q'. entry-insert_at k key mask value (child b l r) m q'))
        | inr e ↦ elim (Bool-cases (v == no_value)) [
          | inl e' ↦ rw (e, e') (entry-own q v value l r)
          | inr e' ↦ rw (e, e') (sym (after-busy [] q value (entry q (node v l r))))
        ]
      ]

  -- Insertion writes the value at the prefix of the key under the mask if its code is NGX_OK, and
  -- changes the value at no other prefix; on another code it changes the value at none, also where
  -- nodes were made before the memory ran out.
  pub entry-insert :
      (key mask value : ℕ) (root : Tree) (m : Memory) (q : List Bool)
      → (let r = insert page_size node_size page key mask value root m in
          entry q r.1 ≡ after r.0 (prefix 32 key mask) q value (entry q root))
  unfolding insert
  entry-insert key mask value root m q = entry-insert_at 32 key mask value root m q

  sprout-ne-busy :
      (k key mask value : ℕ) (m : Memory)
      → (sprout page_size node_size page k key mask value m).0 ≢ busy
  unfolding sprout
  sprout-ne-busy zero key mask value m = ground arith
  sprout-ne-busy (suc k) key mask value m =
      let h = sprout-ne-busy k key mask value ((alloc page_size node_size page m).1) in ground arith

  -- The write at the node where the search ends.
  write-busy_iff :
      (v value : ℕ) (l r : Tree) (m : Memory)
      → (let end : Rc × Tree × Memory =
            if v == no_value then (ok, node value l r, m) else (busy, node v l r, m) in
          (end.0 ≡ busy) ↔ v ≢ no_value)
  write-busy_iff v value l r m = ((λ h e. ground (arith, h, e)), λ h. ground (arith, h))

  insert_at-busy_iff :
      (k key mask value : ℕ) (t : Tree) (m : Memory)
      → ((insert_at page_size node_size page k key mask value t m).0 ≡ busy)
        ↔ entry (prefix k key mask) t ≢ no_value
  unfolding insert_at prefix
  insert_at-busy_iff k key mask value nil m = (
    (λ h. absurd (sprout-ne-busy k key mask value m h)),
    λ h. absurd (h (entry-nil (prefix k key mask))),
  )
  insert_at-busy_iff zero key mask value (node v l r) m =
      rw (entry-nil-node) (write-busy_iff v value l r m)
  insert_at-busy_iff (suc k) key mask value (node v l r) m =
      let b : Bool = bit_of key (suc k) in
      elim (Bool-cases (bit_of mask (suc k))) [
        | inl e ↦ rw (e, entry_of_child) (insert_at-busy_iff k key mask value (child b l r) m)
        | inr e ↦ rw (e, entry-nil-node) (write-busy_iff v value l r m)
      ]

  -- Insertion ends with NGX_BUSY exactly when the prefix of the key under the mask has a value.
  pub insert-busy_iff :
      (key mask value : ℕ) (root : Tree) (m : Memory)
      → ((insert page_size node_size page key mask value root m).0 ≡ busy)
        ↔ entry (prefix 32 key mask) root ≢ no_value
  unfolding insert
  insert-busy_iff key mask value root m = insert_at-busy_iff 32 key mask value root m
