-- ===== src/Base/Bits.antt =====
-- Single bits of a word: `w & (1 << k)` and `w | (1 << k)` at every k, from the digit recursion that
-- the native operations stand for.
use Prim.Native.Nat.{min, max, bit_and, bit_or, digits, bit_and-bitwise, bit_or-bitwise}
use native.Mathlib.Nat.{pow-suc}
use inside_nginx.Base.Tests.{◌==◌, if◌then◌else◌}
use inside_nginx.Base.Words.{one_shl}
use Prim.Native.Nat.{ℕ, zero, suc, ◌+◌, ◌-◌, ◌*◌, ◌/◌, ◌%◌, ◌^◌, ◌≤◌}
use mathlib.Core.Path.{◌≡◌, refl, ◌∙◌}
use mathlib.Core.Bool.{Bool, true, false, not}
use native.Mathlib.Omega.{arith}

-- The first operand bounds the rounds of the recursion, so more rounds change nothing.
module _ (rest : ℕ → ℕ) (combine : ℕ → ℕ → ℕ) where
  one_more :
      (x rounds y : ℕ)
      → x ≤ rounds
      → digits rest combine (suc rounds) x y ≡ digits rest combine rounds x y
  one_more zero zero y h = refl
  one_more zero (suc rounds) y h = refl
  one_more (suc x) zero y h = absurd (omega arith)
  one_more (suc x) (suc rounds) y h =
      omega (arith, one_more (suc x / 2) rounds (y / 2) (omega arith))

  any_more :
      (extra rounds total x y : ℕ)
      → x ≤ rounds
      → total ≡ rounds + extra
      → digits rest combine total x y ≡ digits rest combine rounds x y
  any_more zero rounds total x y h e = let same : total ≡ rounds = omega (arith, e) in rw same
  any_more (suc extra) rounds total x y h e =
      let same : total ≡ suc (rounds + extra) = omega (arith, e) in
      let step = one_more x (rounds + extra) y (omega arith) in
      rw same (step ∙ any_more extra rounds (rounds + extra) x y h refl)

bit_and-of_zero : (w : ℕ) → bit_and 0 w ≡ 0
bit_and-of_zero w = bit_and-bitwise 0 w

bit_or-of_zero : (w : ℕ) → bit_or 0 w ≡ w
bit_or-of_zero w = bit_or-bitwise 0 w

-- The lowest digit and the others, of both operations.
and_parts : (x y : ℕ) → bit_and x y ≡ bit_and (x / 2) (y / 2) * 2 + min (x % 2) (y % 2)
and_parts zero y = omega (arith, bit_and-of_zero y, bit_and-of_zero (y / 2))
and_parts (suc x) y =
    let half = suc x / 2 in
    let fewer = any_more (λ _. 0) min (x - half) half x half (y / 2) (omega arith) (omega arith) in
    omega (arith, fewer, bit_and-bitwise (suc x) y, bit_and-bitwise half (y / 2))

or_parts : (x y : ℕ) → bit_or x y ≡ bit_or (x / 2) (y / 2) * 2 + max (x % 2) (y % 2)
or_parts zero y = omega (arith, bit_or-of_zero y, bit_or-of_zero (y / 2))
or_parts (suc x) y =
    let half = suc x / 2 in
    let fewer = any_more (λ r. r) max (x - half) half x half (y / 2) (omega arith) (omega arith) in
    omega (arith, fewer, bit_or-bitwise (suc x) y, bit_or-bitwise half (y / 2))

and-zero_below : (limit x : ℕ) → x ≤ limit → bit_and x 0 ≡ 0
and-zero_below limit zero h = refl
and-zero_below zero (suc x) h = absurd (omega arith)
and-zero_below (suc limit) (suc x) h =
    omega (arith, and-zero_below limit (suc x / 2) (omega arith), and_parts (suc x) 0)

or-zero_below : (limit x : ℕ) → x ≤ limit → bit_or x 0 ≡ x
or-zero_below limit zero h = refl
or-zero_below zero (suc x) h = absurd (omega arith)
or-zero_below (suc limit) (suc x) h =
    omega (arith, or-zero_below limit (suc x / 2) (omega arith), or_parts (suc x) 0)

-- `w & (1 << k)`, as a test.
unfoldable pub test_bit : ℕ → ℕ → Bool
test_bit w k = not (bit_and w (one_shl k) == 0)

-- `w | (1 << k)`.
unfoldable pub set_bit : ℕ → ℕ → ℕ
set_bit w k = bit_or w (one_shl k)

double_half : (k : ℕ) → 2 ^ suc k / 2 ≡ 2 ^ k
double_half k = omega (arith, pow-suc 2 k)

double_even : (k : ℕ) → 2 ^ suc k % 2 ≡ 0
double_even k = omega (arith, pow-suc 2 k)

test_bit-zero : (w : ℕ) → test_bit w 0 ≡ (w % 2 == 1)
unfolding test_bit
test_bit-zero w = ground (arith, and_parts w 1, and-zero_below (w / 2) (w / 2))

test_bit-suc : (w k : ℕ) → test_bit w (suc k) ≡ test_bit (w / 2) k
unfolding test_bit
test_bit-suc w k = ground (arith, and_parts w (2 ^ suc k), double_half k, double_even k)

set_bit-zero : (w : ℕ) → set_bit w 0 ≡ w / 2 * 2 + 1
unfolding set_bit
set_bit-zero w = omega (arith, or_parts w 1, or-zero_below (w / 2) (w / 2) (omega arith))

set_bit-suc : (w k : ℕ) → set_bit w (suc k) ≡ set_bit (w / 2) k * 2 + w % 2
unfolding set_bit
set_bit-suc w k = ground (arith, or_parts w (2 ^ suc k), double_half k, double_even k)

-- After `w |= 1 << k` bit k is set, and every other bit is as it was.
pub test_bit-set_bit :
    (w k j : ℕ) → test_bit (set_bit w k) j ≡ (if j == k then true else test_bit w j)
test_bit-set_bit w zero zero = ground (arith, set_bit-zero w, test_bit-zero (w / 2 * 2 + 1))
test_bit-set_bit w zero (suc j) =
    let half : (w / 2 * 2 + 1) / 2 ≡ w / 2 = omega arith in
    rw (set_bit-zero w, test_bit-suc, test_bit-suc, half) (ground arith)
test_bit-set_bit w (suc k) zero =
    let low : (set_bit (w / 2) k * 2 + w % 2) % 2 ≡ w % 2 = omega arith in
    rw (set_bit-suc w k, test_bit-zero, test_bit-zero, low) (ground arith)
test_bit-set_bit w (suc k) (suc j) =
    let half : (set_bit (w / 2) k * 2 + w % 2) / 2 ≡ set_bit (w / 2) k = omega arith in
    rw (set_bit-suc w k, test_bit-suc, test_bit-suc, half, test_bit-set_bit (w / 2) k j)
      (ground arith)

-- A word with no bit set.
pub test_bit-of_zero : (k : ℕ) → test_bit 0 k ≡ false
unfolding test_bit
test_bit-of_zero k = ground (arith, bit_and-of_zero (2 ^ k))
