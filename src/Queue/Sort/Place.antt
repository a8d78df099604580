-- ===== src/Queue/Sort/Place.antt =====
-- ngx_queue_sort: one node is taken out of the queue and put back at its place.
use inside_nginx.Base.{
  subst, ℕ, zero, suc, ◌≤◌, ◌≡◌, refl, sym, ap, ◌∙◌, ◌≢◌, inl, inr, false, some, List, [], ◌∷◌,
  arith, ◌==◌, Bool-cases, length, All,
}
use inside_nginx.Base.Int.{ℤ}
use inside_nginx.Queue.{Nodes, insert_head}
use inside_nginx.Queue.Ring.{IsLink, IsChain, IsOut, IsApart, insert_head-other, insert_head-IsLink}
use inside_nginx.Queue.Sort.{find_place}
use inside_nginx.Queue.Sort.Spec.{at_most, insert_back}

pub ne_sym : {x y : ℕ} → x ≢ y → y ≢ x
ne_sym h e = h (sym e)

pub All-map : {P Q : ℕ → Type 0} (f : (x : ℕ) → P x → Q x) (xs : List ℕ) → All P xs → All Q xs
All-map f [] h = tt
All-map f (x ∷ xs) h = (f x h.0, All-map f xs h.1)

pub All-both : (P Q : ℕ → Type 0) (xs : List ℕ) → All P xs → All Q xs → All (λ x. P x × Q x) xs
All-both P Q [] h k = tt
All-both P Q (x ∷ xs) h k = ((h.0, k.0), All-both P Q xs h.1 k.1)

pub IsOut-sym : (a : ℕ) (xs : List ℕ) → IsOut a xs → All (λ x. a ≢ x) xs
IsOut-sym a xs h = All-map (λ x k. ne_sym k) xs h

-- From b backwards along the nodes ps to h.
abbrev pub IsBack : Nodes → ℕ → List ℕ → ℕ → Type 0
IsBack s b [] h = IsLink s h b
IsBack s b (p ∷ ps) h = IsLink s p b × IsBack s p ps h

-- f is the first of the nodes xs, or h if there are none.
abbrev pub IsFwd : Nodes → ℕ → List ℕ → ℕ → Type 0
IsFwd s f [] h = f ≡ h
IsFwd s f (x ∷ xs) h = (f ≡ x) × IsChain s x xs h

pub IsFwd-here :
    (P : ℕ → Type 0) (s : Nodes) (f : ℕ) (xs : List ℕ) (h : ℕ)
    → IsFwd s f xs h
    → P h
    → All P xs
    → P f
IsFwd-here P s f [] h e p k = subst P (sym e) p
IsFwd-here P s f (x ∷ xs) h e p k = subst P (sym e.0) k.0

pub IsChain-split :
    (s : Nodes) (q : ℕ) (xs : List ℕ) (h : ℕ)
    → IsChain s q xs h
    → IsLink s q (s.next q) × IsFwd s (s.next q) xs h
IsChain-split s q [] h l = ((refl, ap s.prev l.0 ∙ l.1), l.0)
IsChain-split s q (x ∷ xs) h (l, c) = ((refl, ap s.prev l.0 ∙ l.1), (l.0, c))

-- A change of the nodes that keeps the links from N to P.
module _ (s s' : Nodes) (N P : ℕ → Type 0)
    (keep : (u v : ℕ) → N u → P v → IsLink s u v → IsLink s' u v) where
  pub IsBack-keep :
      (b : ℕ) (ps : List ℕ) (h : ℕ)
      → N h
      → All N ps
      → P b
      → All P ps
      → IsBack s b ps h
      → IsBack s' b ps h
  IsBack-keep b [] h n ns p k l = keep h b n p l
  IsBack-keep b (q ∷ qs) h n ns p k l = (keep q b ns.0 p l.0, IsBack-keep q qs h n ns.1 k.0 k.1 l.1)

  pub IsChain-keep :
      (a : ℕ) (xs : List ℕ) (h : ℕ)
      → N a
      → All N xs
      → P h
      → All P xs
      → IsChain s a xs h
      → IsChain s' a xs h
  IsChain-keep a [] h n ns p k l = keep a h n p l
  IsChain-keep a (x ∷ xs) h n ns p k l =
      (keep a x n k.0 l.0, IsChain-keep x xs h ns.0 ns.1 p k.1 l.1)

pub IsFwd-keep :
    (s s' : Nodes) (N P : ℕ → Type 0) (f : ℕ) (xs : List ℕ) (h : ℕ)
    → ((u v : ℕ) → N u → P v → f ≢ v → IsLink s u v → IsLink s' u v)
    → All N xs
    → P h
    → All P xs
    → IsApart (h ∷ xs)
    → IsFwd s f xs h
    → IsFwd s' f xs h
IsFwd-keep s s' N P f [] h keep n p k a l = l
IsFwd-keep s s' N P f (x ∷ xs) h keep n p k a (e, c) = (
  e,
  IsChain-keep s s' N (λ v. P v × (x ≢ v))
      (λ u v i j. keep u v i j.0 (subst (λ z. z ≢ v) (sym e) j.1)) x xs h n.0 n.1 (p, a.0.0)
      (All-both _ _ xs k.1 (IsOut-sym x xs a.1.0)) c,
)

module _ (cmp : ℕ → ℕ → ℤ) (queue : ℕ) where
  -- What find_place says of the place that it finds, between a node of ps or the sentinel and the node
  -- behind it.
  abbrev pub IsPlace : Nodes → ℕ → ℕ → List ℕ → ℕ → Type 0
  IsPlace s b q ps place =
      IsBack (insert_head place q s) b (insert_back cmp q ps) queue
      × ((y : ℕ) → queue ≢ y → IsOut y ps → place ≢ y)
      × ((y : ℕ) → b ≢ y → IsOut y ps → s.next place ≢ y)

  pub find_place-IsPlace :
      (b q p : ℕ) (ps : List ℕ) (fuel : ℕ) (s : Nodes)
      → length (p ∷ ps) ≤ fuel
      → IsBack s b (p ∷ ps) queue
      → IsApart (queue ∷ p ∷ ps)
      → IsOut b (p ∷ ps)
      → IsOut q (p ∷ ps)
      → q ≢ b
      → q ≢ queue
      → (place : ℕ) × (find_place cmp queue fuel q p s ≡ some place) × IsPlace s b q (p ∷ ps) place
  unfolding find_place
  find_place-IsPlace b q p ps zero s bound back apart out_b out_q qb qh =
      absurd (omega (arith, bound))
  find_place-IsPlace b q p [] (suc fuel) s bound (l, l') apart out_b out_q qb qh =
      elim (Bool-cases (at_most cmp p q)) [
        | inl e ↦ (
          p,
          rw e refl,
          (
            rw e (
                let (lp, lq) = insert_head-IsLink p q b s out_q.0 qb l in
                (
                  lq,
                  (
                    lp,
                    insert_head-other p q queue p s apart.0.0 qh (ne_sym out_q.0)
                        (subst (λ z. z ≢ p) (sym l.0) (ne_sym out_b.0)) l',
                  ),
                )),
            λ y k o. o.0,
            λ y k o. subst (λ z. z ≢ y) (sym l.0) k,
          ),
        )
        | inr e ↦ (
          queue,
          rw (e, l'.1) (ground arith),
          (
            rw e (
                let (lh, lq) = insert_head-IsLink queue q p s (ne_sym qh) (ne_sym out_q.0) l' in
                (
                  insert_head-other queue q p b s (ne_sym apart.0.0) (ne_sym out_q.0) qb
                      (subst (λ z. z ≢ b) (sym l'.0) out_b.0) l,
                  (lq, lh),
                )),
            λ y k o. k,
            λ y k o. subst (λ z. z ≢ y) (sym l'.0) o.0,
          ),
        )
      ]
  find_place-IsPlace b q p (r ∷ rs) (suc fuel) s bound (l, back) apart out_b out_q qb qh =
      elim (Bool-cases (at_most cmp p q)) [
        | inl e ↦ (
          p,
          rw e refl,
          (
            rw e (
                let (lp, lq) = insert_head-IsLink p q b s out_q.0 qb l in
                (
                  lq,
                  (
                    lp,
                    IsBack-keep s (insert_head p q s) (λ u. (p ≢ u) × (q ≢ u))
                        (λ v. (q ≢ v) × (s.next p ≢ v))
                        (λ u v i j. insert_head-other p q u v s i.0 i.1 j.0 j.1) p (r ∷ rs) queue
                        (apart.0.0, qh)
                        (All-both _ _ (r ∷ rs) (IsOut-sym p (r ∷ rs) apart.1.0)
                          (IsOut-sym q (r ∷ rs) out_q.1))
                        (ne_sym out_q.0, subst (λ z. z ≢ p) (sym l.0) (ne_sym out_b.0))
                        (All-both _ _ (r ∷ rs) (IsOut-sym q (r ∷ rs) out_q.1) (
                          subst (λ z. All (λ v. z ≢ v) (r ∷ rs)) (sym l.0)
                            (IsOut-sym b (r ∷ rs) out_b.1)))
                        back,
                  ),
                )),
            λ y k o. o.0,
            λ y k o. subst (λ z. z ≢ y) (sym l.0) k,
          ),
        )
        | inr e ↦
            (let (place, found, (back', out, next_out)) =
                find_place-IsPlace p q r rs fuel s (omega (arith, bound)) back
                  (apart.0.1, apart.1.1) apart.1.0 out_q.1 (ne_sym out_q.0) qh in
              let before : s.prev p ≡ r = back.0.1 in
              let inner : (r == queue) ≡ false = ground (arith, apart.0.1.0) in
              (
                place,
                rw (e, before, inner) found,
                (
                  rw e (
                    insert_head-other place q p b s (out p (ne_sym apart.0.0) apart.1.0)
                        (ne_sym out_q.0) qb (next_out b out_b.0 out_b.1) l,
                    back',
                  ),
                  λ y k o. out y k o.1,
                  λ y k o. next_out y o.0 o.1,
                ),
              ))
      ]
