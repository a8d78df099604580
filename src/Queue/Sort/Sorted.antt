-- ===== src/Queue/Sort/Sorted.antt =====
-- ngx_queue_sort sorts the queue, and the sort is stable.
use inside_nginx.Base.{
  subst, ℕ, ◌<◌, ◌≡◌, refl, sym, ◌≢◌, false, some, List, [], ◌∷◌, arith, ◌==◌, length, All,
}
use inside_nginx.Base.Int.{ℤ}
use inside_nginx.Base.{occurrences}
use inside_nginx.Queue.{Nodes}
use inside_nginx.Queue.Ring.{IsLink, IsChain, IsQueue, IsOut, IsApart}
use inside_nginx.Queue.Sort.{sort_queue}
use inside_nginx.Queue.Sort.Spec.{
  insert_all, sort_list, rev_onto, IsSorted, IsTransitive, IsTotal, equals, occurrences-sort_list,
  sort_list-IsSorted, equals-sort_list,
}
use inside_nginx.Queue.Sort.Place.{ne_sym, IsBack, IsFwd, IsChain-split}
use inside_nginx.Queue.Sort.Rounds.{sort_from-IsSplit}

-- Nodes that are chained backwards make a chain.
IsBack-IsChain :
    (s : Nodes) (f : ℕ) (acc ps : List ℕ) (h h' : ℕ)
    → IsBack s f ps h
    → IsFwd s f acc h'
    → IsChain s h (rev_onto acc ps) h'
IsBack-IsChain s f [] [] h h' l e = subst (λ z. IsLink s h z) e l
IsBack-IsChain s f (a ∷ acc) [] h h' l (e, c) = (subst (λ z. IsLink s h z) e l, c)
IsBack-IsChain s f [] (p ∷ ps) h h' (l, b) e =
    IsBack-IsChain s p (p ∷ []) ps h h' b (refl, subst (λ z. IsLink s p z) e l)
IsBack-IsChain s f (a ∷ acc) (p ∷ ps) h h' (l, b) (e, c) =
    IsBack-IsChain s p (p ∷ a ∷ acc) ps h h' b (refl, (subst (λ z. IsLink s p z) e l, c))

All-rev_onto : (P : ℕ → Type 0) (acc ps : List ℕ) → All P acc → All P ps → All P (rev_onto acc ps)
All-rev_onto P acc [] h k = h
All-rev_onto P acc (p ∷ ps) h k = All-rev_onto P (p ∷ acc) ps (k.0, h) k.1

cross-cons :
    (p : ℕ) (ps acc : List ℕ)
    → IsOut p ps
    → All (λ r. IsOut r acc) ps
    → All (λ r. IsOut r (p ∷ acc)) ps
cross-cons p [] acc h k = tt
cross-cons p (r ∷ rs) acc h k = ((ne_sym h.0, k.0), cross-cons p rs acc h.1 k.1)

rev_onto-IsApart :
    (acc ps : List ℕ)
    → IsApart acc
    → IsApart ps
    → All (λ r. IsOut r acc) ps
    → IsApart (rev_onto acc ps)
rev_onto-IsApart acc [] h k c = h
rev_onto-IsApart acc (p ∷ ps) h k c =
    rev_onto-IsApart (p ∷ acc) ps (c.0, h) k.1 (cross-cons p ps acc k.0 c.1)

All-empty : (ps : List ℕ) → All (λ r. IsOut r []) ps
All-empty [] = tt
All-empty (p ∷ ps) = (tt, All-empty ps)

-- The last node of a chain is one of its nodes.
pub IsChain-last :
    (P : ℕ → Type 0) (s : Nodes) (a : ℕ) (xs : List ℕ) (h : ℕ)
    → IsChain s a xs h
    → P a
    → All P xs
    → P (s.prev h)
IsChain-last P s a [] h l p k = subst P (sym l.1) p
IsChain-last P s a (x ∷ xs) h (l, c) p k = IsChain-last P s x xs h c k.0 k.1

module _ (cmp : ℕ → ℕ → ℤ) (queue : ℕ) where
  -- More rounds than nodes are enough.
  sort_queue-IsQueue :
      (rounds : ℕ) (s : Nodes) (xs : List ℕ)
      → IsQueue s queue xs
      → length xs < rounds
      → (s' : Nodes) × (sort_queue cmp queue rounds s ≡ some s')
        × IsQueue s' queue (sort_list cmp xs)
  unfolding sort_queue
  sort_queue-IsQueue rounds s [] (l, apart) bound = (s, rw (l.0, l.1) (ground arith), (l, apart))
  sort_queue-IsQueue rounds s (x ∷ []) ((l, k), apart) bound =
      (s, rw (l.0, k.1) (ground arith), ((l, k), apart))
  sort_queue-IsQueue rounds s (x ∷ y ∷ ys) ((l, c), apart) bound =
      let last : s.prev queue ≢ x =
        IsChain-last (λ z. z ≢ x) s y ys queue c.1 apart.1.0.0 apart.1.0.1 in
      let several : (x == s.prev queue) ≡ false = ground (arith, last) in
      let (k, fwd) = IsChain-split s x (y ∷ ys) queue c in
      let (s', sorted, (back, e, apart', other, cross)) =
        sort_from-IsSplit cmp queue rounds rounds s (s.next x) (x ∷ []) (y ∷ ys)
          (omega (arith, bound)) (omega arith) (omega (arith, bound))
          (
            (k, l),
            fwd,
            ((apart.0.0, tt), (tt, tt)),
            (apart.0.1, apart.1.1),
            cross-cons x (y ∷ ys) [] apart.1.0 (All-empty (y ∷ ys)),
          ) in
      (
        s',
        rw (l.0, several) sorted,
        (
          IsBack-IsChain s' queue [] (insert_all cmp (x ∷ []) (y ∷ ys)) queue queue back refl,
          (
            All-rev_onto (λ z. z ≢ queue) [] (insert_all cmp (x ∷ []) (y ∷ ys)) tt apart'.0,
            rev_onto-IsApart [] (insert_all cmp (x ∷ []) (y ∷ ys)) tt apart'.1
                (All-empty (insert_all cmp (x ∷ []) (y ∷ ys))),
          ),
        ),
      )

  -- When `cmp(x, y) <= 0` is transitive and holds of x and y or of y and x, ngx_queue_sort ends on a
  -- queue of fewer nodes than the rounds given to its loops, and leaves a queue of the same nodes, each
  -- as often as before, in which each node is at most the ones behind it and equal ones have kept their
  -- order.
  pub sort_queue-IsSorted :
      (rounds : ℕ) (s : Nodes) (xs : List ℕ)
      → IsTransitive cmp
      → IsTotal cmp
      → IsQueue s queue xs
      → length xs < rounds
      → (s' : Nodes) × (ys : List ℕ) × (sort_queue cmp queue rounds s ≡ some s')
        × IsQueue s' queue ys
        × IsSorted cmp ys
        × ((t : ℕ) → occurrences t ys ≡ occurrences t xs)
        × ((t : ℕ) → equals cmp t ys ≡ equals cmp t xs)
  sort_queue-IsSorted rounds s xs trans total h bound =
      let (s', sorted, queued) = sort_queue-IsQueue rounds s xs h bound in
      (
        s',
        sort_list cmp xs,
        sorted,
        queued,
        sort_list-IsSorted cmp trans total xs,
        λ t. occurrences-sort_list cmp t xs,
        λ t. equals-sort_list cmp trans total t xs,
      )
