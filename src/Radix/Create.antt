-- ===== src/Radix/Create.antt =====
-- ngx_radix_tree_create: a tree with nodes for the first bits.
use inside_nginx.Base.{
  ℕ, zero, suc, ◌+◌, ◌-◌, ◌*◌, ◌/◌, ◌%◌, ◌^◌, ◌≤◌, ◌<◌, ◌≡◌, refl, sym, ap, ◌∙◌, ◌⊎◌, inl, inr,
  Bool, true, false, not, ◌&&◌, Option, none, some, List, arith, ◌==◌, if◌then◌else◌, Bool-cases,
  Option-cases, Rc,
}
use inside_nginx.Radix.{Tree, nil, node, Memory, no_value, alloc, insert}
use native.Mathlib.Nat.{pow-suc, mul-div_cancel}
use inside_nginx.Radix.Entry.{entry-nil, same_bits, prefix, entry}
use inside_nginx.Radix.Insert.{after, entry-insert, is_ok, entry-blank}

-- `preallocate`: -1, or a number of bits.
pub data Preallocate : Type 0 where
  by_page : Preallocate
  for_bits : ℕ → Preallocate

-- The rounds of the loop over the keys of one length: `key` reaches 2 ^ 32 after them, which is 0.
unfoldable pub rounds : ℕ → ℕ
rounds inc = if inc == 0 then 1 else 2 ^ 32 / inc

-- A step between keys: 0, or a power of 2 that divides 2 ^ 32.
unfoldable pub IsStep : ℕ → Type 0
IsStep inc = (inc ≡ 0) ⊎ ((d : ℕ) × (e : ℕ) × (inc ≡ 2 ^ e) × (2 ^ d * 2 ^ e ≡ 2 ^ 32))

two_pow-pos : (e : ℕ) → 0 < 2 ^ e
two_pow-pos zero = omega arith
two_pow-pos (suc e) = omega (arith, two_pow-pos e, pow-suc 2 e)

rounds-two_pow : (inc d e : ℕ) → inc ≡ 2 ^ e → 2 ^ d * 2 ^ e ≡ 2 ^ 32 → rounds inc ≡ 2 ^ d
unfolding rounds
rounds-two_pow inc d e at all =
    let p = two_pow-pos e in
    let some_step : (inc == 0) ≡ false = ground (arith, at, p) in
    let split : 2 ^ d * 2 ^ e / 2 ^ e ≡ 2 ^ d = mul-div_cancel (2 ^ d) p in
    rw some_step (rw at (rw all at split))

regroup : (x y : ℕ) → x * 2 * y ≡ x * (y * 2)
regroup x y = grind arith

IsStep-half : (inc : ℕ) → IsStep inc → IsStep (inc / 2)
unfolding IsStep
IsStep-half inc (inl z) = inl (omega (arith, z))
IsStep-half inc (inr (d, zero, at, all)) = inl (omega (arith, at))
IsStep-half inc (inr (d, suc e, at, all)) =
    let half : inc / 2 ≡ 2 ^ e = omega (arith, at, pow-suc 2 e) in
    let same : 2 ^ suc d * 2 ^ e ≡ 2 ^ 32 =
      ap (λ x. x * 2 ^ e) (pow-suc 2 d)
      ∙ regroup (2 ^ d) (2 ^ e)
      ∙ ap (λ x. 2 ^ d * x) (sym (pow-suc 2 e))
      ∙ all in
    inr (suc d, e, half, same)

module _ (page_size node_size : ℕ) (page : ℕ → Bool) where
  -- The loop over the keys, on fuel: whether all insertions were NGX_OK, and the tree. `none` is the
  -- end of the fuel.
  unfoldable pub fill : ℕ → ℕ → ℕ → ℕ → Tree → Memory → Option (Bool × Tree × Memory)
  fill zero key mask inc t m = none
  fill (suc n) key mask inc t m =
      let (rc, t', m') = insert page_size node_size page key mask no_value t m in
      let key' = (key + inc) % 2 ^ 32 in
      let rest = fill n key' mask inc t' m' in
      if not (is_ok rc)
      then some (false, t', m')
      else if key' == 0
      then some (true, t', m')
      else rest

  -- The loop over the lengths. The highest bit of `mask >> 1` is 0, so to set it is to add it.
  unfoldable pub levels : ℕ → ℕ → ℕ → Tree → Memory → Option (Bool × Tree × Memory)
  levels zero mask inc t m = some (true, t, m)
  levels (suc n) mask inc t m =
      let mask' = mask / 2 + 2 ^ 31 in
      elim (fill (rounds inc) 0 mask' inc t m) [
        | none ↦ none
        | some (done, t', m') ↦
            (if done then levels n mask' (inc / 2) t' m' else some (false, t', m'))
      ]

  -- `switch (ngx_pagesize / sizeof(ngx_radix_node_t))`
  unfoldable pub bits_to_fill : Preallocate → ℕ
  bits_to_fill (for_bits n) = n
  bits_to_fill by_page =
      if page_size / node_size == 128 then 6 else if page_size / node_size == 256 then 7 else 8

  -- ngx_radix_tree_create, once the tree itself is allocated: whether it returns the tree, the tree
  -- and its memory.
  unfoldable pub create : Preallocate → Option (Bool × Tree × Memory)
  create preallocate =
      let (got, m) =
        alloc page_size node_size page (record { free_nodes = 0; size = 0; pages = 0 }) in
      if not got
      then some (false, nil, m)
      else levels (bits_to_fill preallocate) 0 (2 ^ 31) (node no_value nil nil) m

  -- Every prefix is without a value.
  abbrev pub IsEmpty : Tree → Type 0
  IsEmpty t = (q : List Bool) → entry q t ≡ no_value

  -- The outcome of a loop: it had fuel enough, and the tree is still empty.
  unfoldable pub IsFilled : Option (Bool × Tree × Memory) → Type 0
  IsFilled none = ⊥
  IsFilled (some (done, t, m)) = IsEmpty t

  after-same :
      (rc : Rc) (p q : List Bool) (old : ℕ) → old ≡ no_value → after rc p q no_value old ≡ no_value
  unfolding after
  after-same rc p q old h = elim (Bool-cases (is_ok rc && same_bits p q)) [
    | inl e ↦ rw e refl
    | inr e ↦ rw e h
  ]

  insert-IsEmpty :
      (key mask : ℕ) (t : Tree) (m : Memory)
      → IsEmpty t
      → IsEmpty (insert page_size node_size page key mask no_value t m).1
  unfolding after
  insert-IsEmpty key mask t m h q =
      let r = entry-insert page_size node_size page key mask no_value t m q in
      r
      ∙ after-same (insert page_size node_size page key mask no_value t m).0 (prefix 32 key mask) q
          (entry q t) (h q)

  -- The keys of a level: steps of `inc` that end at 2 ^ 32, or one round without a step.
  abbrev Steps : ℕ → ℕ → ℕ → Type 0
  Steps n key inc = ((inc ≡ 0) × (key ≡ 0)) ⊎ ((0 < inc) × (key + suc n * inc ≡ 2 ^ 32))

  next-Steps :
      (n key inc : ℕ)
      → Steps (suc n) key inc
      → ((key + inc) % 2 ^ 32 == 0) ≡ false
      → Steps n ((key + inc) % 2 ^ 32) inc
  next-Steps n key inc (inl (z, k)) e = absurd (ground (arith, e))
  next-Steps n key inc (inr (z, k)) e =
      let more : suc (suc n) * inc ≡ inc + suc n * inc = grind arith in
      let some_left : inc ≤ suc n * inc = grind arith in
      let small : (key + inc) % 2 ^ 32 ≡ key + inc = omega (arith, k, more, some_left, z) in
      inr (z, omega (arith, k, more, small))

  last-Steps : (key inc : ℕ) → Steps zero key inc → ((key + inc) % 2 ^ 32 == 0) ≡ true
  last-Steps key inc (inl (z, k)) = ground arith
  last-Steps key inc (inr (z, k)) = ground (arith, k)

  fill-IsFilled :
      (n key mask inc : ℕ) (t : Tree) (m : Memory)
      → IsEmpty t
      → Steps n key inc
      → IsFilled (fill (suc n) key mask inc t m)
  unfolding fill IsFilled
  fill-IsFilled zero key mask inc t m h k =
      let r = insert page_size node_size page key mask no_value t m in
      let later = insert-IsEmpty key mask t m h in
      elim (Bool-cases (is_ok r.0)) [
        | inr e ↦ rw e later
        | inl e ↦ rw (e, last-Steps key inc k) later
      ]
  fill-IsFilled (suc n) key mask inc t m h k =
      let r = insert page_size node_size page key mask no_value t m in
      let later = insert-IsEmpty key mask t m h in
      elim (Bool-cases (is_ok r.0)) [
        | inr e ↦ rw e later
        | inl e ↦ (elim (Bool-cases ((key + inc) % 2 ^ 32 == 0)) [
          | inl e' ↦ rw (e, e') later
          | inr e' ↦
              rw (e, e')
                (fill-IsFilled n ((key + inc) % 2 ^ 32) mask inc r.1 r.2 later
                  (next-Steps n key inc k e'))
        ])
      ]

  fill_of_rounds :
      (n key mask inc : ℕ) (t : Tree) (m : Memory)
      → IsEmpty t
      → 0 < n
      → Steps (n - 1) key inc
      → IsFilled (fill n key mask inc t m)
  fill_of_rounds zero key mask inc t m h k s = absurd (omega arith)
  fill_of_rounds (suc n) key mask inc t m h k s =
      let same : suc n - 1 ≡ n = omega arith in fill-IsFilled n key mask inc t m h (rw same at s)

  level-IsFilled :
      (mask inc : ℕ) (t : Tree) (m : Memory)
      → IsEmpty t
      → IsStep inc
      → IsFilled (fill (rounds inc) 0 mask inc t m)
  unfolding rounds IsStep
  level-IsFilled mask inc t m h (inl z) =
      rw z (fill_of_rounds 1 0 mask 0 t m h (omega arith) (inl (refl, refl)))
  level-IsFilled mask inc t m h (inr (d, e, at, all)) =
      let p = two_pow-pos e in
      let q = two_pow-pos d in
      let count : rounds inc ≡ 2 ^ d = rounds-two_pow inc d e at all in
      let before : suc (2 ^ d - 1) ≡ 2 ^ d = omega (arith, q) in
      rw count (
        fill_of_rounds (2 ^ d) 0 mask inc t m h q
          (inr (omega (arith, p, at), rw before (rw at (omega (arith, all))))))

  -- What follows one level.
  unfoldable next_level : ℕ → ℕ → ℕ → Option (Bool × Tree × Memory) → Option (Bool × Tree × Memory)
  unfolding levels
  next_level n mask inc none = none
  next_level n mask inc (some (true, t, m)) = levels n mask inc t m
  next_level n mask inc (some (false, t, m)) = some (false, t, m)

  levels-next_level :
      (n mask inc : ℕ) (t : Tree) (m : Memory)
      → levels (suc n) mask inc t m
        ≡ next_level n
            (mask / 2 + 2 ^ 31)
            (inc / 2)
            (fill (rounds inc) 0 (mask / 2 + 2 ^ 31) inc t m)
  unfolding levels next_level
  levels-next_level n mask inc t m =
      elim (Option-cases (fill (rounds inc) 0 (mask / 2 + 2 ^ 31) inc t m)) [
        | inl e ↦ rw (e, levels) refl
        | inr ((true, t', m'), e) ↦ rw (e, levels) refl
        | inr ((false, t', m'), e) ↦ rw (e, levels) refl
      ]

  levels-zero :
      (mask inc : ℕ) (t : Tree) (m : Memory) → levels zero mask inc t m ≡ some (true, t, m)
  unfolding levels
  levels-zero mask inc t m = refl

  next_level-IsFilled :
      (n mask inc : ℕ) (o : Option (Bool × Tree × Memory))
      → ((t : Tree) (m : Memory) → IsEmpty t → IsFilled (levels n mask inc t m))
      → IsFilled o
      → IsFilled (next_level n mask inc o)
  unfolding next_level IsFilled
  next_level-IsFilled n mask inc none k f = f
  next_level-IsFilled n mask inc (some (true, t, m)) k f = k t m f
  next_level-IsFilled n mask inc (some (false, t, m)) k f = f

  levels-IsFilled :
      (n mask inc : ℕ) (t : Tree) (m : Memory)
      → IsEmpty t
      → IsStep inc
      → IsFilled (levels n mask inc t m)
  unfolding IsFilled
  levels-IsFilled zero mask inc t m h k =
      let start : IsFilled (some (true, t, m)) = h in rw (levels-zero mask inc t m) start
  levels-IsFilled (suc n) mask inc t m h k =
      let mask' = mask / 2 + 2 ^ 31 in
      rw (levels-next_level n mask inc t m) (
        next_level-IsFilled n mask' (inc / 2) (fill (rounds inc) 0 mask' inc t m)
          (λ t' m' f. levels-IsFilled n mask' (inc / 2) t' m' f (IsStep-half inc k))
          (level-IsFilled mask' inc t m h k))

  -- ngx_radix_tree_create ends: its loops have fuel enough. The tree that it leaves has no value at
  -- any prefix, whether or not the memory ran out.
  pub create-IsFilled : (preallocate : Preallocate) → IsFilled (create preallocate)
  unfolding create IsFilled IsStep
  create-IsFilled preallocate =
      let m = (alloc page_size node_size page (record { free_nodes = 0; size = 0; pages = 0 })) in
      elim (Bool-cases m.0) [
        | inl e ↦ rw e (
            levels-IsFilled (bits_to_fill preallocate) 0 (2 ^ 31) (node no_value nil nil) m.1
              entry-blank (inr (1, 31, refl, refl)))
        | inr e ↦ rw e entry-nil
      ]
