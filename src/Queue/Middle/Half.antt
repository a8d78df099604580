-- ===== src/Queue/Middle/Half.antt =====
-- ngx_queue_middle returns the node in the middle.
use inside_nginx.Base.{
  ℕ, zero, suc, ◌/◌, ◌≤◌, ◌<◌, ◌≡◌, refl, ap, ◌∙◌, ◌≢◌, true, false, some, List, [], ◌∷◌, arith,
  ◌==◌, length, get_or,
}
use inside_nginx.Queue.{Nodes}
use inside_nginx.Queue.Ring.{IsChain, IsQueue, IsApart}
use inside_nginx.Queue.Middle.{middle_from, queue_middle}
use inside_nginx.Queue.Sort.Sorted.{IsChain-last}
use inside_nginx.Queue.Sort.Place.{ne_sym}

half_step : (n : ℕ) → suc (suc (suc n)) / 2 ≡ suc (suc n / 2)
half_step n = omega arith

-- The node m moves one step while n moves two.
middle_from-lem :
    (fuel queue n m : ℕ) (s : Nodes) (ns ms : List ℕ)
    → length ns < fuel
    → length ns ≤ length ms
    → IsChain s n ns queue
    → IsChain s m ms queue
    → IsApart (n ∷ ns)
    → middle_from fuel queue n m s ≡ some (get_or (m ∷ ms) (suc (length ns) / 2) queue)
unfolding middle_from
middle_from-lem zero queue n m s ns ms bound long c d apart = absurd (omega (arith, bound))
middle_from-lem (suc fuel) queue n m s [] ms bound long c d apart = rw c.1 (ground arith)
middle_from-lem (suc fuel) queue n m s (b ∷ ns) [] bound long c d apart =
    absurd (omega (arith, long))
middle_from-lem (suc fuel) queue n m s (b ∷ []) (m' ∷ ms) bound long (l, k) (i, d) apart =
    let other : (n == b) ≡ false = ground (arith, ne_sym apart.0.0) in
    let same : (b == b) ≡ true = ground arith in rw (k.1, l.0, i.0, other, same) refl
middle_from-lem (suc fuel) queue n m s (b ∷ c ∷ ns) (m' ∷ ms) bound long (l, (k, rest)) (i, d)
      apart =
    let not_n : (n == s.prev queue) ≡ false =
      (let other = IsChain-last (λ z. z ≢ n) s c ns queue rest apart.0.1.0 apart.0.1.1 in
        ground (arith, other)) in
    let not_b : (b == s.prev queue) ≡ false =
      (let other = IsChain-last (λ z. z ≢ b) s c ns queue rest apart.1.0.0 apart.1.0.1 in
        ground (arith, other)) in
    rw (l.0, k.0, i.0, not_n, not_b, half_step (length ns))
      (middle_from-lem fuel queue c m' s ns ms (omega (arith, bound)) (omega (arith, long)) rest d
        apart.1.1)

-- On a queue of fewer nodes than its rounds ngx_queue_middle returns the node behind the first half,
-- rounded down, and the sentinel of an empty queue.
pub queue_middle-get_or :
    (fuel queue : ℕ) (s : Nodes) (xs : List ℕ)
    → IsQueue s queue xs
    → length xs < fuel
    → queue_middle fuel queue s ≡ some (get_or xs (length xs / 2) queue)
unfolding queue_middle middle_from
queue_middle-get_or zero queue s xs (c, apart) bound = absurd (omega (arith, bound))
queue_middle-get_or (suc fuel) queue s [] (c, apart) bound = rw (c.0, c.1) (ground arith)
queue_middle-get_or (suc fuel) queue s (x ∷ xs) ((l, c), apart) bound =
    ap (λ z. middle_from (suc fuel) queue z z s) l.0
    ∙ middle_from-lem (suc fuel) queue x x s xs xs (omega (arith, bound)) (omega arith) c c apart.1
