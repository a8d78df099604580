-- ===== src/Queue/Sort/Rounds.antt =====
-- ngx_queue_sort: the rounds of the loop over the nodes.
use inside_nginx.Base.{
  subst, ℕ, zero, suc, ◌+◌, ◌≤◌, ◌<◌, ◌≡◌, refl, sym, ap, ◌∙◌, ◌≢◌, inl, inr, true, false, some,
  List, [], ◌∷◌, arith, ◌==◌, Bool-cases, length, All,
}
use inside_nginx.Base.Int.{ℤ}
use inside_nginx.Queue.{Nodes, insert_head, remove}
use inside_nginx.Queue.Ring.{IsLink, IsOut, IsApart, insert_head-other, remove-other, remove-IsLink}
use inside_nginx.Queue.Sort.{find_place, sort_from}
use inside_nginx.Queue.Sort.Spec.{at_most, insert_back, insert_all}
use inside_nginx.Queue.Sort.Place.{
  ne_sym, All-map, All-both, IsOut-sym, IsBack, IsFwd, IsFwd-here, IsChain-split, IsBack-keep,
  IsFwd-keep, find_place-IsPlace,
}

module _ (cmp : ℕ → ℕ → ℤ) (queue : ℕ) where
  -- The nodes ps, in reverse, are sorted, and the nodes xs from f on are to follow.
  abbrev pub IsSplit : Nodes → ℕ → List ℕ → List ℕ → Type 0
  IsSplit s f ps xs =
      IsBack s f ps queue
      × IsFwd s f xs queue
      × IsApart (queue ∷ ps)
      × IsApart (queue ∷ xs)
      × All (λ x. IsOut x ps) xs

  abbrev IsFree : ℕ → ℕ → List ℕ → List ℕ → Type 0
  IsFree q f ps xs = (q ≢ f) × (q ≢ queue) × IsOut q ps × IsOut q xs × IsOut f ps

  -- A node is taken out.
  remove-IsSplit :
      (s : Nodes) (q p : ℕ) (ps xs : List ℕ)
      → IsSplit s q (p ∷ ps) (q ∷ xs)
      → IsSplit (remove q s) (s.next q) (p ∷ ps) xs × IsFree q (s.next q) (p ∷ ps) xs
  remove-IsSplit s q p ps xs ((l, back), (e, chain), apart, apart', cross) =
      let f = s.next q in
      let (k, fwd) = IsChain-split s q xs queue chain in
      let at : s.prev q ≡ p = l.1 in
      let out_f : IsOut f (p ∷ ps) =
        IsFwd-here (λ z. IsOut z (p ∷ ps)) s f xs queue fwd apart.0 cross.1 in
      let fq : f ≢ q = IsFwd-here (λ z. z ≢ q) s f xs queue fwd (ne_sym apart'.0.0) apart'.1.0 in
      let keep : (u v : ℕ)
          → (q ≢ u) × (p ≢ u)
          → (q ≢ v)
          → f ≢ v
          → IsLink s u v
          → IsLink (remove q s) u v =
        λ u v i j g. remove-other q u v s i.0 j (subst (λ z. z ≢ u) (sym at) i.1) g fq in
      (
        (
          (
            remove-IsLink q p f s (ne_sym cross.0.0) (ne_sym fq) l k,
            IsBack-keep s (remove q s) (λ u. (q ≢ u) × (p ≢ u)) (λ v. (q ≢ v) × (f ≢ v))
                (λ u v i j. keep u v i j.0 j.1) p ps queue (apart'.0.0, apart.0.0)
                (All-both _ _ ps (IsOut-sym q ps cross.0.1) (IsOut-sym p ps apart.1.0))
                (ne_sym cross.0.0, ne_sym out_f.0)
                (All-both _ _ ps (IsOut-sym q ps cross.0.1) (IsOut-sym f ps out_f.1)) back,
          ),
          IsFwd-keep s (remove q s) (λ u. (q ≢ u) × (p ≢ u)) (λ v. q ≢ v) f xs queue keep
              (All-both _ _ xs (IsOut-sym q xs apart'.1.0) (All-map (λ x o. o.0) xs cross.1))
              apart'.0.0 (IsOut-sym q xs apart'.1.0) (apart'.0.1, apart'.1.1) fwd,
          apart,
          (apart'.0.1, apart'.1.1),
          cross.1,
        ),
        (ne_sym fq, apart'.0.0, cross.0, apart'.1.0, out_f),
      )

  insert_back-All :
      (P : ℕ → Type 0) (q : ℕ) (ps : List ℕ) → P q → All P ps → All P (insert_back cmp q ps)
  insert_back-All P q [] h k = (h, tt)
  insert_back-All P q (p ∷ ps) h k = elim (Bool-cases (at_most cmp p q)) [
    | inl e ↦ rw e (h, k)
    | inr e ↦ rw e (k.0, insert_back-All P q ps h k.1)
  ]

  insert_back-IsApart :
      (q : ℕ) (ps : List ℕ) → IsOut q ps → IsApart ps → IsApart (insert_back cmp q ps)
  insert_back-IsApart q [] h k = (tt, tt)
  insert_back-IsApart q (p ∷ ps) h k = elim (Bool-cases (at_most cmp p q)) [
    | inl e ↦ rw e (h, k)
    | inr e ↦
        rw e (insert_back-All (λ x. x ≢ p) q ps (ne_sym h.0) k.0, insert_back-IsApart q ps h.1 k.1)
  ]

  length-insert_back : (q : ℕ) (ps : List ℕ) → length (insert_back cmp q ps) ≡ suc (length ps)
  length-insert_back q [] = refl
  length-insert_back q (p ∷ ps) = elim (Bool-cases (at_most cmp p q)) [
    | inl e ↦ rw e refl
    | inr e ↦ rw e (ap suc (length-insert_back q ps))
  ]

  -- The node that was taken out is put at its place.
  insert_head-IsSplit :
      (s : Nodes) (q f p : ℕ) (ps xs : List ℕ) (fuel : ℕ)
      → length (p ∷ ps) ≤ fuel
      → IsSplit s f (p ∷ ps) xs
      → IsFree q f (p ∷ ps) xs
      → (place : ℕ) × (find_place cmp queue fuel q p s ≡ some place)
        × IsSplit (insert_head place q s) f (insert_back cmp q (p ∷ ps)) xs
  insert_head-IsSplit s q f p ps xs fuel bound (back, fwd, apart, apart', cross)
        (qf, qh, out_q, out_x, out_f) =
      let (place, found, (back', out, next_out)) =
        find_place-IsPlace cmp queue f q p ps fuel s bound back apart out_f out_q qf qh in
      (
        place,
        found,
        (
          back',
          IsFwd-keep s (insert_head place q s) (λ u. (place ≢ u) × (q ≢ u))
              (λ v. (q ≢ v) × (IsOut v (p ∷ ps))) f xs queue
              (λ u v i j g. insert_head-other place q u v s i.0 i.1 j.0 (next_out v g j.1))
              (All-both _ _ xs
                (All-map (λ x o. out x o.0 o.1) xs
                  (All-both _ _ xs (IsOut-sym queue xs apart'.0) cross))
                (IsOut-sym q xs out_x))
              (qh, apart.0) (All-both _ _ xs (IsOut-sym q xs out_x) cross) apart' fwd,
          (
            insert_back-All (λ x. x ≢ queue) q (p ∷ ps) qh apart.0,
            insert_back-IsApart q (p ∷ ps) out_q apart.1,
          ),
          apart',
          All-map (λ x o. insert_back-All (λ y. y ≢ x) q (p ∷ ps) o.0 o.1) xs
              (All-both _ _ xs (IsOut-sym q xs out_x) cross),
        ),
      )

  sort_from-step :
      (rounds fuel q place : ℕ) (s : Nodes)
      → q ≢ queue
      → find_place cmp queue rounds q (s.prev q) (remove q s) ≡ some place
      → sort_from cmp queue rounds (suc fuel) q s
        ≡ sort_from cmp queue rounds fuel (s.next q) (insert_head place q (remove q s))
  unfolding sort_from
  sort_from-step rounds fuel q place s h e =
      let other : (q == queue) ≡ false = ground (arith, h) in rw (other, e) refl

  sort_from-end :
      (rounds fuel : ℕ) (s : Nodes) → sort_from cmp queue rounds (suc fuel) queue s ≡ some s
  unfolding sort_from
  sort_from-end rounds fuel s = let same : (queue == queue) ≡ true = ground arith in rw same refl

  -- Enough rounds sort all that follows.
  pub sort_from-IsSplit :
      (rounds fuel : ℕ) (s : Nodes) (f : ℕ) (ps xs : List ℕ)
      → length xs < fuel
      → 0 < length ps
      → length ps + length xs ≤ rounds
      → IsSplit s f ps xs
      → (s' : Nodes) × (sort_from cmp queue rounds fuel f s ≡ some s')
        × IsSplit s' queue (insert_all cmp ps xs) []
  sort_from-IsSplit rounds zero s f ps xs bound some_ps enough split = absurd (omega (arith, bound))
  sort_from-IsSplit rounds (suc fuel) s f [] xs bound some_ps enough split =
      absurd (omega (arith, some_ps))
  sort_from-IsSplit rounds (suc fuel) s f (p ∷ ps) [] bound some_ps enough
        (back, e, apart, apart', cross) =
      (
        s,
        ap (λ z. sort_from cmp queue rounds (suc fuel) z s) e ∙ sort_from-end rounds fuel s,
        (subst (λ z. IsBack s z (p ∷ ps) queue) e back, refl, apart, apart', cross),
      )
  sort_from-IsSplit rounds (suc fuel) s f (p ∷ ps) (q ∷ xs) bound some_ps enough split =
      let e : f ≡ q = split.1.0 in
      let here : IsSplit s q (p ∷ ps) (q ∷ xs) = (
        subst (λ z. IsBack s z (p ∷ ps) queue) e split.0,
        (refl, split.1.1),
        split.2,
        split.3,
        split.4,
      ) in
      let (out, free) = remove-IsSplit s q p ps xs here in
      let (place, found, back) =
        insert_head-IsSplit (remove q s) q (s.next q) p ps xs rounds (omega (arith, enough)) out
          free in
      let grown = length-insert_back q (p ∷ ps) in
      let (s', sorted, end) =
        sort_from-IsSplit rounds fuel (insert_head place q (remove q s)) (s.next q)
          (insert_back cmp q (p ∷ ps)) xs (omega (arith, bound)) (omega (arith, grown))
          (omega (arith, grown, enough)) back in
      (
        s',
        ap (λ z. sort_from cmp queue rounds (suc fuel) z s) e
            ∙ sort_from-step rounds fuel q place s free.1 (
                subst (λ z. find_place cmp queue rounds q z (remove q s) ≡ some place)
                  (sym here.0.0.1) found)
            ∙ sorted,
        end,
      )
