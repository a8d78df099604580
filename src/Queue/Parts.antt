-- ===== src/Queue/Parts.antt =====
-- ngx_queue_split takes a queue apart and ngx_queue_merge puts two together.
use inside_nginx.Base.{subst, ℕ, ◌≡◌, refl, sym, ◌∙◌, ◌≢◌, List, [], ◌∷◌, ◌++◌, All}
use inside_nginx.Queue.{Nodes, split, merge}
use inside_nginx.Queue.Ring.{IsLink, IsQueue, IsOut, ne_test, eq_test}
use inside_nginx.Queue.Sort.Place.{ne_sym, All-map, IsOut-sym}
use inside_nginx.Queue.Sort.Sorted.{IsChain-last}
use inside_nginx.Queue.Splice.{
  IsChain-redirect, IsChain-end, IsChain-cut, IsChain-join, All-cut, All-join, IsApart-cut,
  IsApart-join, from_other, split-next, split-prev, merge-next, merge-prev,
}

-- v is none of the three.
abbrev IsNone : ℕ → ℕ → ℕ → ℕ → Type 0
IsNone q h n v = (q ≢ v) × (h ≢ v) × (n ≢ v)

All-IsNone :
    (q h n : ℕ) (xs : List ℕ)
    → All (λ x. q ≢ x) xs
    → IsOut h xs
    → IsOut n xs
    → All (IsNone q h n) xs
All-IsNone q h n [] a b c = tt
All-IsNone q h n (x ∷ xs) a b c = ((a.0, ne_sym b.0, ne_sym c.0), All-IsNone q h n xs a.1 b.1 c.1)

split-other :
    (h q n u v : ℕ) (s : Nodes)
    → n ≢ q
    → s.next (s.prev q) ≡ q
    → s.next (s.prev h) ≡ h
    → n ≢ u
    → IsNone q h n v
    → IsLink s u v
    → IsLink (split h q n s) u v
split-other h q n u v s nq to_q to_h i j l = (
  split-next h q n u s nq
      ∙ rw
          (
            ne_test (s.prev q) u (from_other s (s.prev q) q u v to_q l.0 j.0),
            ne_test n u i,
            ne_test (s.prev h) u (from_other s (s.prev h) h u v to_h l.0 j.1),
          )
          l.0,
  split-prev h q n v s nq ∙ rw (ne_test q v j.0, ne_test h v j.1, ne_test n v j.2) l.1,
)

split-front : (h q n u : ℕ) (s : Nodes) → n ≢ q → q ≢ h → IsLink s u q → IsLink (split h q n s) u h
split-front h q n u s nq qh l = (
  split-next h q n u s nq ∙ rw (l.1, eq_test u) refl,
  split-prev h q n h s nq ∙ rw (ne_test q h qh, eq_test h) l.1,
)

split-back :
    (h q n u : ℕ) (s : Nodes)
    → n ≢ q
    → q ≢ h
    → h ≢ n
    → s.next (s.prev q) ≡ q
    → n ≢ u
    → IsLink s u h
    → IsLink (split h q n s) u n
split-back h q n u s nq qh hn to_q i l = (
  split-next h q n u s nq
      ∙ rw
          (
            ne_test (s.prev q) u (from_other s (s.prev q) q u h to_q l.0 qh),
            ne_test n u i,
            l.1,
            eq_test u,
          )
          refl,
  split-prev h q n n s nq ∙ rw (ne_test q n (ne_sym nq), ne_test h n hn, eq_test n) l.1,
)

split-here : (h q n : ℕ) (s : Nodes) → n ≢ q → s.prev q ≢ n → IsLink (split h q n s) n q
split-here h q n s nq k = (
  split-next h q n n s nq ∙ rw (ne_test (s.prev q) n k, eq_test n) refl,
  split-prev h q n q s nq ∙ rw (eq_test q) refl,
)

-- ngx_queue_split leaves the nodes before q to the queue h, and makes q and the nodes behind it the
-- queue of the sentinel n, which was in no queue.
pub split-IsQueue :
    (h q n : ℕ) (s : Nodes) (us vs : List ℕ)
    → IsQueue s h (us ++ q ∷ vs)
    → IsOut n (h ∷ us ++ q ∷ vs)
    → IsQueue (split h q n s) h us × IsQueue (split h q n s) n (q ∷ vs)
split-IsQueue h q n s us vs (chain, apart) out =
    let s' = split h q n s in
    let (front, back) = IsChain-cut s h us q vs h chain in
    let (out_u, out_v) = All-cut (λ x. x ≢ n) us (q ∷ vs) out.1 in
    let (h_u, h_v) = All-cut (λ x. x ≢ h) us (q ∷ vs) apart.0 in
    let (apart_u, apart_v, cross) = IsApart-cut us (q ∷ vs) apart.1 in
    let nq = ne_sym out_v.0 in
    let to_q = IsChain-end s h us q front in
    let to_h = IsChain-end s q vs h back in
    let keep = λ (u v : ℕ) (i : n ≢ u) (j : IsNone q h n v) (l : IsLink s u v).
      split-other h q n u v s nq to_q to_h i j l in
    (
      (
        IsChain-redirect s s' (λ u. n ≢ u) (IsNone q h n) h us q h keep
            (λ u i l. split-front h q n u s nq h_v.0 l) (ne_sym out.0) (IsOut-sym n us out_u)
            (All-IsNone q h n us (All-map (λ x o. o.0) us cross) h_u out_u) front,
        (h_u, apart_u),
      ),
      (
        (
          split-here h q n s nq (IsChain-last (λ z. z ≢ n) s h us q front out.0 out_u),
          IsChain-redirect s s' (λ u. n ≢ u) (IsNone q h n) q vs h n keep
              (λ u i l. split-back h q n u s nq h_v.0 out.0 to_q i l) nq (IsOut-sym n vs out_v.1)
              (All-IsNone q h n vs (IsOut-sym q vs apart_v.0) h_v.1 out_v.1) back,
        ),
        (out_v, apart_v),
      ),
    )

All-unit : (xs : List ℕ) → All (λ x. Unit {0}) xs
All-unit [] = tt
All-unit (x ∷ xs) = (tt, All-unit xs)

-- The conditions on the two queues of ngx_queue_merge.
abbrev IsPair : Nodes → ℕ → ℕ → ℕ → Type 0
IsPair s h n v =
    (s.next n ≡ v)
    × (s.next (s.prev h) ≡ h)
    × (s.next (s.prev n) ≡ n)
    × (s.prev h ≢ n)
    × (v ≢ n)
    × (h ≢ v)
    × (h ≢ n)

module _ (s : Nodes) (h n v : ℕ) (two : IsPair s h n v) where
  merge-at :
      (u w : ℕ)
      → s.prev n ≢ u
      → s.prev h ≢ u
      → h ≢ w
      → v ≢ w
      → IsLink s u w
      → IsLink (merge h n s) u w
  merge-at u w a b c d l =
      let off : s.next n ≢ n = subst (λ z. z ≢ n) (sym two.0) two.4 in
      (
        merge-next h n u s two.3 off ∙ rw (ne_test (s.prev n) u a, ne_test (s.prev h) u b) l.0,
        merge-prev h n w s two.3 off
            ∙ rw (ne_test h w c, ne_test (s.next n) w (subst (λ z. z ≢ w) (sym two.0) d)) l.1,
      )

  merge-other : (u w : ℕ) → n ≢ w → h ≢ w → v ≢ w → IsLink s u w → IsLink (merge h n s) u w
  merge-other u w a b c l =
      merge-at u w (from_other s (s.prev n) n u w two.2 l.0 a)
        (from_other s (s.prev h) h u w two.1 l.0 b) b c l

  -- The last node of the first queue is followed by the first node of the second one.
  merge-middle : (u : ℕ) → IsLink s u h → IsLink (merge h n s) u v
  merge-middle u l =
      let off : s.next n ≢ n = subst (λ z. z ≢ n) (sym two.0) two.4 in
      (
        merge-next h n u s two.3 off
            ∙ rw
                (
                  ne_test (s.prev n) u (from_other s (s.prev n) n u h two.2 l.0 (ne_sym two.6)),
                  l.1,
                  eq_test u,
                )
                two.0,
        merge-prev h n v s two.3 off ∙ rw (ne_test h v two.5, two.0, eq_test v) l.1,
      )

  merge-last : (u : ℕ) → IsLink s u n → IsLink (merge h n s) u h
  merge-last u l =
      let off : s.next n ≢ n = subst (λ z. z ≢ n) (sym two.0) two.4 in
      (
        merge-next h n u s two.3 off ∙ rw (l.1, eq_test u) refl,
        merge-prev h n h s two.3 off ∙ rw (eq_test h) l.1,
      )

-- ngx_queue_merge puts the nodes of the queue n, which is not empty, behind those of the queue h.
pub merge-IsQueue :
    (h n : ℕ) (s : Nodes) (us : List ℕ) (v : ℕ) (vs : List ℕ)
    → IsQueue s h us
    → IsQueue s n (v ∷ vs)
    → All (λ x. IsOut x (n ∷ v ∷ vs)) (h ∷ us)
    → IsQueue (merge h n s) h (us ++ v ∷ vs)
merge-IsQueue h n s us v vs (front, apart_u) ((l, back), apart_v) cross =
    let two : IsPair s h n v = (
      l.0,
      IsChain-end s h us h front,
      IsChain-end s v vs n back,
      IsChain-last (λ z. z ≢ n) s h us h front (ne_sym cross.0.0)
          (All-map (λ x o. ne_sym o.0) us cross.1),
      apart_v.0.0,
      ne_sym cross.0.1.0,
      ne_sym cross.0.0,
    ) in
    (
      IsChain-join (merge h n s) h us v vs h
          (IsChain-redirect s (merge h n s) (λ u. Unit {0}) (IsNone h n v) h us h v
            (λ u w i j k. merge-other s h n v two u w j.1 j.0 j.2 k)
            (λ u i k. merge-middle s h n v two u k) tt (All-unit us)
            (All-IsNone h n v us (IsOut-sym h us apart_u.0) (All-map (λ x o. ne_sym o.0) us cross.1)
              (All-map (λ x o. ne_sym o.1.0) us cross.1))
            front)
          (IsChain-redirect s (merge h n s) (λ u. Unit {0}) (IsNone h n v) v vs n h
            (λ u w i j k. merge-other s h n v two u w j.1 j.0 j.2 k)
            (λ u i k. merge-last s h n v two u k) tt (All-unit vs)
            (All-IsNone h n v vs (IsOut-sym h vs cross.0.1.1) apart_v.0.1 apart_v.1.0) back),
      (
        All-join (λ x. x ≢ h) us (v ∷ vs) apart_u.0 cross.0.1,
        IsApart-join us (v ∷ vs) apart_u.1 apart_v.1 (All-map (λ x o. o.1) us cross.1),
      ),
    )
