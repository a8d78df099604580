-- ===== src/Queue/Tests.antt =====
-- Runs of ngx_queue.c on a queue of three nodes with the sentinel 1.
use inside_nginx.Base.{ℕ, ◌≤◌, ◌≡◌, refl, true, some, List, [], ◌∷◌, arith, ltb, if◌then◌else◌}
use inside_nginx.Base.Int.{ℤ, pos}
use inside_nginx.Base.{occurrences}
use inside_nginx.Queue.{Nodes, insert_tail, init_node, split, merge}
use inside_nginx.Queue.Ring.{IsQueue}
use inside_nginx.Queue.Sort.{sort_queue}
use inside_nginx.Queue.Sort.Spec.{at_most, IsSorted, IsTransitive, IsTotal, equals}
use inside_nginx.Queue.Sort.Sorted.{sort_queue-IsSorted}
use inside_nginx.Queue.Middle.{queue_middle}
use inside_nginx.Queue.Middle.Half.{queue_middle-get_or}
use inside_nginx.Queue.Parts.{split-IsQueue, merge-IsQueue}

abbrev no_nodes : Nodes
no_nodes = record { prev = λ a. 0; next = λ a. 0 }

-- The nodes 30, 10 and 20.
abbrev three_nodes : Nodes
three_nodes = insert_tail 1 20 (insert_tail 1 10 (insert_tail 1 30 (init_node 1 no_nodes)))

three_nodes-IsQueue : IsQueue three_nodes 1 (30 ∷ 10 ∷ 20 ∷ [])
unfolding insert_tail init_node
three_nodes-IsQueue = (
  ((refl, refl), ((refl, refl), ((refl, refl), (refl, refl)))),
  (
    (ground arith, (ground arith, (ground arith, tt))),
    ((ground arith, (ground arith, tt)), ((ground arith, tt), (tt, tt))),
  ),
)

-- Positive when the first address is above the second one.
abbrev compare : ℕ → ℕ → ℤ
compare x y = if ltb y x then pos 1 else pos 0

compare-le : (x y : ℕ) → at_most compare x y ≡ true → x ≤ y
compare-le x y h = ground (arith, h)

le-compare : (x y : ℕ) → x ≤ y → at_most compare x y ≡ true
le-compare x y h = ground (arith, h)

compare-IsTransitive : IsTransitive compare
compare-IsTransitive x y z h k = le-compare x z (omega (arith, compare-le x y h, compare-le y z k))

compare-IsTotal : IsTotal compare
compare-IsTotal x y h = ground (arith, h)

sort_queue-IsSorted_example :
    (s' : Nodes) × (ys : List ℕ) × (sort_queue compare 1 4 three_nodes ≡ some s')
    × IsQueue s' 1 ys
    × IsSorted compare ys
    × ((t : ℕ) → occurrences t ys ≡ occurrences t (30 ∷ 10 ∷ 20 ∷ []))
    × ((t : ℕ) → equals compare t ys ≡ equals compare t (30 ∷ 10 ∷ 20 ∷ []))
sort_queue-IsSorted_example =
    sort_queue-IsSorted compare 1 4 three_nodes (30 ∷ 10 ∷ 20 ∷ []) compare-IsTransitive
      compare-IsTotal three_nodes-IsQueue (omega arith)

queue_middle-get_or_example : queue_middle 4 1 three_nodes ≡ some 10
queue_middle-get_or_example =
    queue_middle-get_or 4 1 three_nodes (30 ∷ 10 ∷ 20 ∷ []) three_nodes-IsQueue (omega arith)

split_nodes-IsQueue :
    IsQueue (split 1 10 2 three_nodes) 1 (30 ∷ [])
    × IsQueue (split 1 10 2 three_nodes) 2 (10 ∷ 20 ∷ [])
split_nodes-IsQueue =
    split-IsQueue 1 10 2 three_nodes (30 ∷ []) (20 ∷ []) three_nodes-IsQueue
      (ground arith, (ground arith, (ground arith, (ground arith, tt))))

split-IsQueue_example :
    IsQueue (split 1 10 2 three_nodes) 1 (30 ∷ [])
    × IsQueue (split 1 10 2 three_nodes) 2 (10 ∷ 20 ∷ [])
split-IsQueue_example =
    split-IsQueue 1 10 2 three_nodes (30 ∷ []) (20 ∷ []) three_nodes-IsQueue
      (ground arith, (ground arith, (ground arith, (ground arith, tt))))

merge-IsQueue_example : IsQueue (merge 1 2 (split 1 10 2 three_nodes)) 1 (30 ∷ 10 ∷ 20 ∷ [])
merge-IsQueue_example =
    merge-IsQueue 1 2 (split 1 10 2 three_nodes) (30 ∷ []) 10 (20 ∷ []) split_nodes-IsQueue.0
      split_nodes-IsQueue.1
      (
        (ground arith, (ground arith, (ground arith, tt))),
        ((ground arith, (ground arith, (ground arith, tt))), tt),
      )
