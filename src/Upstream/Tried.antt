-- ===== src/Upstream/Tried.antt =====
-- The bitmap `tried` of a request: word `i / 64`, bit `i % 64` is set once peer i was handed out.
-- `8 * sizeof(uintptr_t)` is 64.
use inside_nginx.Base.{
  ℕ, zero, suc, ◌+◌, ◌-◌, ◌*◌, ◌/◌, ◌%◌, ◌≤◌, ◌<◌, ◌≡◌, refl, sym, ◌≢◌, Bool, true, false, List, [],
  ◌∷◌, arith, ◌==◌, if◌then◌else◌, length, get_or, set, length-set, get_or-set_self, get_or-set_ne,
}
use native.Mathlib.Decide.{ℕ_discrete}
use inside_nginx.Base.Bits.{test_bit, set_bit, test_bit-set_bit, test_bit-of_zero}

abbrev pub word_bits : ℕ
word_bits = 64

-- `tried[n] & m`, with n and m of peer i.
unfoldable pub is_tried : List ℕ → ℕ → Bool
is_tried tried i = test_bit (get_or tried (i / word_bits) 0) (i % word_bits)

-- `tried[n] |= m`
unfoldable pub mark_tried : List ℕ → ℕ → List ℕ
mark_tried tried i =
    set tried (i / word_bits) (set_bit (get_or tried (i / word_bits) 0) (i % word_bits))

-- The number of words for n peers.
abbrev pub words_for : ℕ → ℕ
words_for n = (n + (word_bits - 1)) / word_bits

-- `for (i = 0; i < n; i++) tried[i] = 0`
pub clear_words : ℕ → List ℕ → List ℕ
clear_words zero ws = ws
clear_words (suc n) [] = []
clear_words (suc n) (w ∷ ws) = 0 ∷ clear_words n ws

-- Every bit of n peers lies inside the words.
abbrev pub Covers : List ℕ → ℕ → Type 0
Covers tried n = n ≤ length tried * word_bits

pub length-mark_tried : (tried : List ℕ) (i : ℕ) → length (mark_tried tried i) ≡ length tried
unfolding mark_tried
length-mark_tried tried i = length-set tried (i / word_bits) _

pub length-clear_words : (n : ℕ) (ws : List ℕ) → length (clear_words n ws) ≡ length ws
unfolding clear_words
length-clear_words zero ws = refl
length-clear_words (suc n) [] = refl
length-clear_words (suc n) (w ∷ ws) = omega (arith, length-clear_words n ws)

same_word : (i j : ℕ) → i / word_bits ≡ j / word_bits → (i % word_bits == j % word_bits) ≡ (i == j)
same_word i j h = ground arith

other_word : (i j : ℕ) → i / word_bits ≢ j / word_bits → (i == j) ≡ false
other_word i j h = ground arith

-- Marking a peer sets its own bit and no other.
pub is_tried-mark_tried :
    (tried : List ℕ) (i j : ℕ)
    → i < length tried * word_bits
    → is_tried (mark_tried tried i) j ≡ (if j == i then true else is_tried tried j)
unfolding is_tried mark_tried
is_tried-mark_tried tried i j h = elim (ℕ_discrete (i / word_bits) (j / word_bits)) [
  | yes e ↦
      let word =
        get_or-set_self tried (j / word_bits)
          (set_bit (get_or tried (j / word_bits) 0) (i % word_bits)) 0 (omega arith) in
      rw (e, word, test_bit-set_bit, same_word j i (sym e))
  | no ne ↦ rw (get_or-set_ne tried _ 0 ne, other_word j i (λ e. ne (sym e)))
]

get_or-clear_words : (n : ℕ) (ws : List ℕ) (i : ℕ) → i < n → get_or (clear_words n ws) i 0 ≡ 0
unfolding clear_words
get_or-clear_words zero ws i h = absurd (omega arith)
get_or-clear_words (suc n) [] i h = refl
get_or-clear_words (suc n) (w ∷ ws) zero h = refl
get_or-clear_words (suc n) (w ∷ ws) (suc i) h = get_or-clear_words n ws i (omega arith)

-- After the words of n peers are cleared, none of them is marked.
pub is_tried-clear_words :
    (n : ℕ) (ws : List ℕ) (i : ℕ) → i < n → is_tried (clear_words (words_for n) ws) i ≡ false
unfolding is_tried
is_tried-clear_words n ws i h =
    rw (get_or-clear_words (words_for n) ws (i / word_bits) (omega arith)) (test_bit-of_zero _)
