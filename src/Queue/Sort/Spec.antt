-- ===== src/Queue/Sort/Spec.antt =====
-- Insertion sort of a list, as ngx_queue_sort does it: each element is placed from the end of the
-- sorted ones, which are kept in reverse.
use mathlib.Core.List.{append-nil}
use inside_nginx.Base.{
  ℕ, ◌+◌, ◌≡◌, refl, ap, ◌∙◌, inl, inr, Bool, true, false, ◌&&◌, List, [], ◌∷◌, ◌++◌, arith,
  if◌then◌else◌, Bool-cases, All,
}
use inside_nginx.Base.Int.{ℤ, pos, leb_ℤ}
use inside_nginx.Base.{occurrences}

abbrev pub rev_onto : List ℕ → List ℕ → List ℕ
rev_onto acc [] = acc
rev_onto acc (x ∷ xs) = rev_onto (x ∷ acc) xs

rev_onto-rev_onto : (a b xs : List ℕ) → rev_onto a (rev_onto b xs) ≡ rev_onto (xs ++ a) b
rev_onto-rev_onto a b [] = refl
rev_onto-rev_onto a b (x ∷ xs) = rev_onto-rev_onto a (x ∷ b) xs

occurrences-rev_onto :
    (t : ℕ) (acc xs : List ℕ)
    → occurrences t (rev_onto acc xs) ≡ occurrences t acc + occurrences t xs
occurrences-rev_onto t acc [] = omega arith
occurrences-rev_onto t acc (x ∷ xs) = omega (arith, occurrences-rev_onto t (x ∷ acc) xs)

module _ (cmp : ℕ → ℕ → ℤ) where
  -- `cmp(x, y) <= 0`
  abbrev pub at_most : ℕ → ℕ → Bool
  at_most x y = leb_ℤ (cmp x y) (pos 0)

  abbrev pub insert_back : ℕ → List ℕ → List ℕ
  insert_back q [] = q ∷ []
  insert_back q (p ∷ ps) =
      let rest = insert_back q ps in if at_most p q then q ∷ p ∷ ps else p ∷ rest

  abbrev pub insert_all : List ℕ → List ℕ → List ℕ
  insert_all ps [] = ps
  insert_all ps (q ∷ qs) = insert_all (insert_back q ps) qs

  abbrev pub sort_list : List ℕ → List ℕ
  sort_list [] = []
  sort_list (x ∷ xs) = rev_onto [] (insert_all (x ∷ []) xs)

  occurrences-insert_back :
      (t q : ℕ) (ps : List ℕ) → occurrences t (insert_back q ps) ≡ occurrences t (q ∷ ps)
  occurrences-insert_back t q [] = refl
  occurrences-insert_back t q (p ∷ ps) = elim (Bool-cases (at_most p q)) [
    | inl e ↦ rw e refl
    | inr e ↦ rw e (omega (arith, occurrences-insert_back t q ps))
  ]

  occurrences-insert_all :
      (t : ℕ) (ps qs : List ℕ)
      → occurrences t (insert_all ps qs) ≡ occurrences t ps + occurrences t qs
  occurrences-insert_all t ps [] = omega arith
  occurrences-insert_all t ps (q ∷ qs) =
      omega (arith, occurrences-insert_all t (insert_back q ps) qs, occurrences-insert_back t q ps)

  -- Sorting keeps the elements.
  pub occurrences-sort_list :
      (t : ℕ) (xs : List ℕ) → occurrences t (sort_list xs) ≡ occurrences t xs
  occurrences-sort_list t [] = refl
  occurrences-sort_list t (x ∷ xs) = omega (
    arith,
    occurrences-rev_onto t [] (insert_all (x ∷ []) xs),
    occurrences-insert_all t (x ∷ []) xs,
  )

  -- Each is at most the ones behind it.
  abbrev pub IsSorted : List ℕ → Type 0
  IsSorted [] = Unit
  IsSorted (x ∷ xs) = All (λ y. at_most x y ≡ true) xs × IsSorted xs

  abbrev IsReversed : List ℕ → Type 0
  IsReversed [] = Unit
  IsReversed (p ∷ ps) = All (λ r. at_most r p ≡ true) ps × IsReversed ps

  abbrev pub IsTransitive : Type 0
  IsTransitive = (x y z : ℕ) → at_most x y ≡ true → at_most y z ≡ true → at_most x z ≡ true

  abbrev pub IsTotal : Type 0
  IsTotal = (x y : ℕ) → at_most x y ≡ false → at_most y x ≡ true

  -- The elements that are equal to t for `cmp`.
  abbrev is_equal : ℕ → ℕ → Bool
  is_equal t x = at_most t x && at_most x t

  abbrev pub equals : ℕ → List ℕ → List ℕ
  equals t [] = []
  equals t (x ∷ xs) = let rest = equals t xs in if is_equal t x then x ∷ rest else rest

  equals-rev_onto :
      (t : ℕ) (acc xs : List ℕ) → equals t (rev_onto acc xs) ≡ rev_onto (equals t acc) (equals t xs)
  equals-rev_onto t acc [] = refl
  equals-rev_onto t acc (x ∷ xs) = elim (Bool-cases (is_equal t x)) [
    | inl e ↦ equals-rev_onto t (x ∷ acc) xs ∙ rw e refl
    | inr e ↦ equals-rev_onto t (x ∷ acc) xs ∙ rw e refl
  ]

  module _ (trans : IsTransitive) (total : IsTotal) where
    All-insert_back :
        (P : ℕ → Type 0) (q : ℕ) (ps : List ℕ) → P q → All P ps → All P (insert_back q ps)
    All-insert_back P q [] h k = (h, tt)
    All-insert_back P q (p ∷ ps) h k = elim (Bool-cases (at_most p q)) [
      | inl e ↦ rw e (h, k)
      | inr e ↦ rw e (k.0, All-insert_back P q ps h k.1)
    ]

    All-below :
        (p q : ℕ) (ps : List ℕ)
        → at_most p q ≡ true
        → All (λ r. at_most r p ≡ true) ps
        → All (λ r. at_most r q ≡ true) ps
    All-below p q [] e h = tt
    All-below p q (r ∷ rs) e h = (trans r p q h.0 e, All-below p q rs e h.1)

    insert_back-IsReversed : (q : ℕ) (ps : List ℕ) → IsReversed ps → IsReversed (insert_back q ps)
    insert_back-IsReversed q [] h = (tt, tt)
    insert_back-IsReversed q (p ∷ ps) h = elim (Bool-cases (at_most p q)) [
      | inl e ↦ rw e ((e, All-below p q ps e h.0), h)
      | inr e ↦ rw e (
        All-insert_back (λ r. at_most r p ≡ true) q ps (total p q e) h.0,
        insert_back-IsReversed q ps h.1,
      )
    ]

    insert_all-IsReversed : (ps qs : List ℕ) → IsReversed ps → IsReversed (insert_all ps qs)
    insert_all-IsReversed ps [] h = h
    insert_all-IsReversed ps (q ∷ qs) h =
        insert_all-IsReversed (insert_back q ps) qs (insert_back-IsReversed q ps h)

    abbrev IsBelow : List ℕ → List ℕ → Type 0
    IsBelow ps acc = All (λ p. All (λ y. at_most p y ≡ true) acc) ps

    IsBelow-cons :
        (p : ℕ) (ps acc : List ℕ)
        → All (λ r. at_most r p ≡ true) ps
        → IsBelow ps acc
        → IsBelow ps (p ∷ acc)
    IsBelow-cons p [] acc h k = tt
    IsBelow-cons p (r ∷ rs) acc h k = ((h.0, k.0), IsBelow-cons p rs acc h.1 k.1)

    rev_onto-IsSorted :
        (acc ps : List ℕ)
        → IsSorted acc
        → IsReversed ps
        → IsBelow ps acc
        → IsSorted (rev_onto acc ps)
    rev_onto-IsSorted acc [] h k b = h
    rev_onto-IsSorted acc (p ∷ ps) h k b =
        rev_onto-IsSorted (p ∷ acc) ps (b.0, h) k.1 (IsBelow-cons p ps acc k.0 b.1)

    IsBelow-nil : (ps : List ℕ) → IsBelow ps []
    IsBelow-nil [] = tt
    IsBelow-nil (p ∷ ps) = (tt, IsBelow-nil ps)

    pub sort_list-IsSorted : (xs : List ℕ) → IsSorted (sort_list xs)
    sort_list-IsSorted [] = tt
    sort_list-IsSorted (x ∷ xs) =
        let ps = insert_all (x ∷ []) xs in
        rev_onto-IsSorted [] ps tt (insert_all-IsReversed (x ∷ []) xs (tt, tt)) (IsBelow-nil ps)

    -- Two elements that are equal to t compare as equal.
    is_equal-at_most : (t p q : ℕ) → is_equal t p ≡ true → is_equal t q ≡ true → at_most p q ≡ true
    is_equal-at_most t p q e f = trans p t q (ground (arith, e)) (ground (arith, f))

    equals-insert_back : (t q : ℕ) (ps : List ℕ) → equals t (insert_back q ps) ≡ equals t (q ∷ ps)
    equals-insert_back t q [] = refl
    equals-insert_back t q (p ∷ ps) = elim (Bool-cases (at_most p q)) [
      | inl e ↦ rw e refl
      | inr e ↦ (elim (Bool-cases (is_equal t p)) [
        | inr f ↦ rw (e, f) (equals-insert_back t q ps)
        | inl f ↦ (elim (Bool-cases (is_equal t q)) [
          | inl g ↦ absurd (let clash = is_equal-at_most t p q f g in cc)
          | inr g ↦ rw (e, f, g) (ap (λ ys. p ∷ ys) (equals-insert_back t q ps ∙ rw g refl))
        ])
      ])
    ]

    equals-insert_all :
        (t : ℕ) (ps qs : List ℕ)
        → equals t (insert_all ps qs) ≡ rev_onto (equals t ps) (equals t qs)
    equals-insert_all t ps [] = refl
    equals-insert_all t ps (q ∷ qs) = elim (Bool-cases (is_equal t q)) [
      | inl e ↦ equals-insert_all t (insert_back q ps) qs ∙ rw (equals-insert_back t q ps, e) refl
      | inr e ↦ equals-insert_all t (insert_back q ps) qs ∙ rw (equals-insert_back t q ps, e) refl
    ]

    -- Elements that compare as equal stay in their order.
    pub equals-sort_list : (t : ℕ) (xs : List ℕ) → equals t (sort_list xs) ≡ equals t xs
    equals-sort_list t [] = refl
    equals-sort_list t (x ∷ xs) =
        equals-rev_onto t [] (insert_all (x ∷ []) xs)
        ∙ ap (λ ys. rev_onto [] ys) (equals-insert_all t (x ∷ []) xs)
        ∙ rev_onto-rev_onto [] (equals t (x ∷ [])) (equals t xs)
        ∙ ap (λ ys. rev_onto ys (equals t (x ∷ []))) (append-nil (equals t xs))
        ∙ (elim (Bool-cases (is_equal t x)) [ inl e ↦ rw e refl | inr e ↦ rw e refl ])
