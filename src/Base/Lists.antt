-- ===== src/Base/Lists.antt =====
-- Lists measured and indexed by native numbers, under the library's names.
use Prim.Native.Nat.{ℕ, zero, suc, ◌+◌, ◌<◌}
use mathlib.Core.Path.{◌≡◌, refl, ap, ap₂, subst}
use mathlib.Core.Bool.{Bool, true, false, ◌&&◌}
use inside_nginx.Base.Tests.{◌==◌, if◌then◌else◌, Bool-cases}
use mathlib.Core.Logic.{◌≢◌}
use mathlib.Core.List.{List, [], ◌∷◌, ◌++◌, map}
use mathlib.Core.Logic.{◌⊎◌, inl, inr}
use mathlib.Core.Option.{Option, none, some}
use native.Mathlib.Omega.{arith}

module _ {ℓ} {A : Type ℓ} where
  abbrev pub length : List A → ℕ
  length [] = 0
  length (x ∷ xs) = suc (length xs)

  abbrev pub get_elem? : List A → ℕ → Option A
  get_elem? [] i = none
  get_elem? (x ∷ xs) zero = some x
  get_elem? (x ∷ xs) (suc i) = get_elem? xs i

  abbrev pub get_or : List A → ℕ → A → A
  get_or [] i d = d
  get_or (x ∷ xs) zero d = x
  get_or (x ∷ xs) (suc i) d = get_or xs i d

  -- A write out of bounds changes nothing.
  abbrev pub set : List A → ℕ → A → List A
  set [] i v = []
  set (x ∷ xs) zero v = v ∷ xs
  set (x ∷ xs) (suc i) v = x ∷ set xs i v

  abbrev pub modify : List A → ℕ → (A → A) → List A
  modify [] i f = []
  modify (x ∷ xs) zero f = f x ∷ xs
  modify (x ∷ xs) (suc i) f = x ∷ modify xs i f

  abbrev pub replicate : ℕ → A → List A
  replicate zero a = []
  replicate (suc n) a = a ∷ replicate n a

  pub length-append : (xs ys : List A) → length (xs ++ ys) ≡ length xs + length ys
  length-append [] ys = omega arith
  length-append (x ∷ xs) ys = omega (arith, length-append xs ys)

  pub length-set : (xs : List A) (i : ℕ) (v : A) → length (set xs i v) ≡ length xs
  length-set [] i v = refl
  length-set (x ∷ xs) zero v = refl
  length-set (x ∷ xs) (suc i) v = ap suc (length-set xs i v)

  pub length-modify : (xs : List A) (i : ℕ) (f : A → A) → length (modify xs i f) ≡ length xs
  length-modify [] i f = refl
  length-modify (x ∷ xs) zero f = refl
  length-modify (x ∷ xs) (suc i) f = ap suc (length-modify xs i f)

  pub length-replicate : (n : ℕ) (a : A) → length (replicate n a) ≡ n
  length-replicate zero a = refl
  length-replicate (suc n) a = ap suc (length-replicate n a)

  pub get_or-replicate : (n i : ℕ) (a : A) → get_or (replicate n a) i a ≡ a
  get_or-replicate zero i a = refl
  get_or-replicate (suc n) zero a = refl
  get_or-replicate (suc n) (suc i) a = get_or-replicate n i a

  pub get_or-set_self :
      (xs : List A) (i : ℕ) (v d : A) → i < length xs → get_or (set xs i v) i d ≡ v
  get_or-set_self [] i v d h = absurd (omega arith)
  get_or-set_self (x ∷ xs) zero v d h = refl
  get_or-set_self (x ∷ xs) (suc i) v d h = get_or-set_self xs i v d (omega arith)

  pub get_or-set_ne :
      (xs : List A) {i j : ℕ} (v d : A) → i ≢ j → get_or (set xs i v) j d ≡ get_or xs j d
  get_or-set_ne [] v d h = refl
  get_or-set_ne (x ∷ xs) {i = zero} {j = zero} v d h = absurd (h refl)
  get_or-set_ne (x ∷ xs) {i = zero} {j = suc j} v d h = refl
  get_or-set_ne (x ∷ xs) {i = suc i} {j = zero} v d h = refl
  get_or-set_ne (x ∷ xs) {i = suc i} {j = suc j} v d h = get_or-set_ne xs v d (λ e. h (ap suc e))

  -- A read that succeeds is in bounds.
  pub get_elem?-lt : (xs : List A) (i : ℕ) {a : A} → get_elem? xs i ≡ some a → i < length xs
  get_elem?-lt [] i h = cc
  get_elem?-lt (x ∷ xs) zero h = omega arith
  get_elem?-lt (x ∷ xs) (suc i) h = omega (arith, get_elem?-lt xs i h)

-- A predicate that holds of every element.
abbrev pub All {ℓ κ} : {A : Type ℓ} → (A → Type κ) → List A → Type κ
All P [] = Unit
All P (x ∷ xs) = P x × All P xs

module _ {ℓ κ} {A : Type ℓ} (P : A → Type κ) where
  pub All-get_elem? : (xs : List A) (i : ℕ) {a : A} → All P xs → get_elem? xs i ≡ some a → P a
  All-get_elem? [] i h e = cc
  All-get_elem? (x ∷ xs) zero {a} h e = let same : x ≡ a = cc in subst P same h.0
  All-get_elem? (x ∷ xs) (suc i) h e = All-get_elem? xs i h.1 e

  pub All-modify :
      (xs : List A) (i : ℕ) (f : A → A)
      → ((a : A) → get_elem? xs i ≡ some a → P a → P (f a))
      → All P xs
      → All P (modify xs i f)
  All-modify [] i f keep h = h
  All-modify (x ∷ xs) zero f keep h = (keep x refl h.0, h.1)
  All-modify (x ∷ xs) (suc i) f keep h = (h.0, All-modify xs i f keep h.1)

module _ {ℓ} {A : Type ℓ} where
  pub get_elem?-modify_self :
      (xs : List A) (i : ℕ) (f : A → A) {a : A}
      → get_elem? xs i ≡ some a
      → get_elem? (modify xs i f) i ≡ some (f a)
  get_elem?-modify_self [] i f e = cc
  get_elem?-modify_self (x ∷ xs) zero f e = cc
  get_elem?-modify_self (x ∷ xs) (suc i) f e = get_elem?-modify_self xs i f e

  pub get_elem?-modify_ne :
      (xs : List A) (i j : ℕ) (f : A → A) → j ≢ i → get_elem? (modify xs i f) j ≡ get_elem? xs j
  get_elem?-modify_ne [] i j f ne = refl
  get_elem?-modify_ne (x ∷ xs) zero zero f ne = absurd (ne refl)
  get_elem?-modify_ne (x ∷ xs) zero (suc j) f ne = refl
  get_elem?-modify_ne (x ∷ xs) (suc i) zero f ne = refl
  get_elem?-modify_ne (x ∷ xs) (suc i) (suc j) f ne =
      get_elem?-modify_ne xs i j f (λ e. ne (ap suc e))

module _ {ℓ κ} {A : Type ℓ} (P : A → Type κ) where
  pub All-append : (xs ys : List A) → All P xs → All P ys → All P (xs ++ ys)
  All-append [] ys hx hy = hy
  All-append (x ∷ xs) ys hx hy = (hx.0, All-append xs ys hx.1 hy)

pub length-map {ℓ κ} :
    {A : Type ℓ} {B : Type κ} (f : A → B) (xs : List A) → length (map f xs) ≡ length xs
length-map f [] = refl
length-map f (x ∷ xs) = ap suc (length-map f xs)

-- To split on a computed list and keep the equation.
pub List-cases {ℓ} :
    {A : Type ℓ} (xs : List A) → (xs ≡ []) ⊎ ((x : A) × (ys : List A) × (xs ≡ x ∷ ys))
List-cases [] = inl refl
List-cases (x ∷ xs) = inr (x, xs, refl)

-- `a.len == b.len && ngx_strncmp(a.data, b.data, b.len) == 0`, the equality of two texts without a
-- NUL inside.
abbrev pub same_name : List ℕ → List ℕ → Bool
same_name [] [] = true
same_name [] (y ∷ ys) = false
same_name (x ∷ xs) [] = false
same_name (x ∷ xs) (y ∷ ys) = (x == y) && same_name xs ys

pub same_name_refl : (xs : List ℕ) → same_name xs xs ≡ true
same_name_refl [] = refl
same_name_refl (x ∷ xs) = ground (arith, same_name_refl xs)

pub same_name-eq : (xs ys : List ℕ) → same_name xs ys ≡ true → xs ≡ ys
same_name-eq [] [] h = refl
same_name-eq [] (y ∷ ys) h = absurd (cc)
same_name-eq (x ∷ xs) [] h = absurd (cc)
same_name-eq (x ∷ xs) (y ∷ ys) h = elim (Bool-cases (x == y)) [
  | inr e ↦ absurd (let clash = rw e at h in cc)
  | inl e ↦
      (let first : x ≡ y = ground (arith, e) in
        ap₂ (λ a b. a ∷ b) first (same_name-eq xs ys (rw e at h)))
]

-- How often a number is in a list.
abbrev pub occurrences : ℕ → List ℕ → ℕ
occurrences t [] = 0
occurrences t (u ∷ us) = (if u == t then 1 else 0) + occurrences t us

pub occurrences-append :
    (t : ℕ) (us vs : List ℕ) → occurrences t (us ++ vs) ≡ occurrences t us + occurrences t vs
occurrences-append t [] vs = omega arith
occurrences-append t (u ∷ us) vs = omega (arith, occurrences-append t us vs)
