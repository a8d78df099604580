-- ===== src/Upstream/RoundRobin/Scan.antt =====
-- The loop of ngx_http_upstream_get_peer: which peers it raises and which one is the best.
use inside_nginx.Base.{
  ℕ, zero, suc, ◌+◌, ◌<◌, ◌≡◌, refl, sym, ap, ◌≢◌, ◌⊎◌, inl, inr, false, none, some, List, [], ◌∷◌,
  arith, Bool-cases, get_elem?,
}
use inside_nginx.Base.Int.{ℤ, ◌+ℤ◌, ◌≤ℤ◌, ◌<ℤ◌, ltb_ℤ}
use inside_nginx.Upstream.Peer.{Peer, raise}
use inside_nginx.Upstream.RoundRobin.{Best, better, is_skipped, scan}

-- The best peer has at least the weight w, and more than w if it stands behind position n.
abbrev pub Beats : ℤ → ℕ → Best → Type 0
Beats w n none = ⊥
Beats w n (some (k, b)) = (w ≤ℤ b.current_weight) × (n < k → w <ℤ b.current_weight)

abbrev pub Before : ℕ → Best → Type 0
Before i none = Unit {0}
Before i (some (k, b)) = k < i

better-Before : (i : ℕ) (p : Peer) (best : Best) → Before i best → Before (i + 1) (better i p best)
unfolding better
better-Before i p none h = omega arith
better-Before i p (some (k, b)) h = elim (Bool-cases (ltb_ℤ b.current_weight p.current_weight)) [
  | inl e ↦ rw e (omega arith)
  | inr e ↦ rw e (omega arith)
]

Before-suc : (i : ℕ) (best : Best) → Before i best → Before (i + 1) best
Before-suc i none h = tt
Before-suc i (some (k, b)) h = omega arith

better-ne-none : (i : ℕ) (p : Peer) (best : Best) → better i p best ≢ none
unfolding better
better-ne-none i p none h = cc
better-ne-none i p (some (k, b)) h = ground arith

better-origin :
    (i k : ℕ) (p b : Peer) (best : Best)
    → better i p best ≡ some (k, b)
    → (best ≡ some (k, b)) ⊎ ((k ≡ i) × (b ≡ p))
unfolding better
better-origin i k p b none h = inr (ground arith, ground arith)
better-origin i k p b (some (l, c)) h =
    elim (Bool-cases (ltb_ℤ c.current_weight p.current_weight)) [
      | inl e ↦ let h' = rw e at h in inr (ground arith, ground arith)
      | inr e ↦ inl (rw e at h)
    ]

better-Beats :
    (i : ℕ) (p : Peer) (best : Best) → Before i best → Beats p.current_weight i (better i p best)
unfolding better
better-Beats i p none h = (omega arith, λ l. absurd (omega arith))
better-Beats i p (some (k, b)) h = elim (Bool-cases (ltb_ℤ b.current_weight p.current_weight)) [
  | inl e ↦ rw e (omega arith, λ l. absurd (omega arith))
  | inr e ↦ rw e (ground arith, λ l. absurd (omega arith))
]

better-keeps :
    (i n : ℕ) (p : Peer) (w : ℤ) (best : Best) → Beats w n best → Beats w n (better i p best)
unfolding better
better-keeps i n p w none h = absurd h
better-keeps i n p w (some (k, b)) h = elim (Bool-cases (ltb_ℤ b.current_weight p.current_weight)) [
  | inl e ↦ rw e (ground arith, λ l. ground arith)
  | inr e ↦ rw e h
]

module _ (now : ℤ) (tried : List ℕ) where
  -- What beats w goes on beating it.
  pub scan-keeps :
      (i n : ℕ) (ps : List Peer) (w : ℤ) (best : Best) (total : ℤ)
      → Beats w n best
      → Beats w n (scan now tried i ps best total).1
  unfolding scan
  scan-keeps i n [] w best total h = h
  scan-keeps i n (p ∷ ps) w best total h = elim (Bool-cases (is_skipped now tried i p)) [
    | inl e ↦ rw e (scan-keeps (i + 1) n ps w best total h)
    | inr e ↦ rw e (
        scan-keeps (i + 1) n ps w (better i (raise p) best) (total +ℤ p.effective_weight)
          (better-keeps i n (raise p) w best h))
  ]

  -- The best peer beats every eligible one.
  pub scan-Beats :
      (i j : ℕ) (ps : List Peer) (p : Peer) (best : Best) (total : ℤ)
      → Before i best
      → get_elem? ps j ≡ some p
      → is_skipped now tried (i + j) p ≡ false
      → Beats (raise p).current_weight (i + j) (scan now tried i ps best total).1
  unfolding scan
  scan-Beats i j [] p best total f h e = cc
  scan-Beats i zero (q ∷ ps) p best total f h e =
      let here : i + 0 ≡ i = omega arith in
      let same : q ≡ p = ground arith in
      let free : is_skipped now tried i p ≡ false = rw (← here) e in
      rw (same, here, free)
        (scan-keeps (i + 1) i ps (raise p).current_weight (better i (raise p) best)
          (total +ℤ p.effective_weight) (better-Beats i (raise p) best f))
  scan-Beats i (suc j) (q ∷ ps) p best total f h e =
      let there : i + suc j ≡ i + 1 + j = omega arith in
      let free : is_skipped now tried (i + 1 + j) p ≡ false = rw (← there) e in
      rw there (elim (Bool-cases (is_skipped now tried i q)) [
        | inl s ↦ rw s (scan-Beats (i + 1) j ps p best total (Before-suc i best f) h free)
        | inr s ↦ rw s (
            scan-Beats (i + 1) j ps p (better i (raise q) best) (total +ℤ q.effective_weight)
              (better-Before i (raise q) best f) h free)
      ])

  -- With no best peer nothing is changed.
  pub scan-none :
      (i : ℕ) (ps : List Peer) (best : Best) (total : ℤ)
      → (scan now tried i ps best total).1 ≡ none
      → (best ≡ none) × ((scan now tried i ps best total).0 ≡ ps)
  unfolding scan
  scan-none i [] best total h = (h, refl)
  scan-none i (q ∷ ps) best total h = elim (Bool-cases (is_skipped now tried i q)) [
    | inl e ↦
        let (b, same) = scan-none (i + 1) ps best total (rw e at h) in
        (b, rw e (ap (λ l. q ∷ l) same))
    | inr e ↦
        let (b, _) =
          scan-none (i + 1) ps (better i (raise q) best) (total +ℤ q.effective_weight)
            (rw e at h) in
        absurd (better-ne-none i (raise q) best b)
  ]

-- The best peer (k, b) comes from the list: it is an eligible peer, raised, and stands in the result.
pub record Origin (now : ℤ) (tried : List ℕ) (i : ℕ) (ps ps' : List Peer) (k : ℕ) (b : Peer)
    : Type 0 where
  pub offset : ℕ
  pub chosen : Peer
  pub place : k ≡ i + offset
  pub found : get_elem? ps offset ≡ some chosen
  pub eligible : is_skipped now tried k chosen ≡ false
  pub raised : b ≡ raise chosen
  pub stored : get_elem? ps' offset ≡ some b

module _ (now : ℤ) (tried : List ℕ) where
  Origin-cons :
      (i k : ℕ) (q q' : Peer) (ps ps' : List Peer) (b : Peer)
      → Origin now tried (i + 1) ps ps' k b
      → Origin now tried i (q ∷ ps) (q' ∷ ps') k b
  Origin-cons i k q q' ps ps' b o = record {
    offset = suc o.offset;
    chosen = o.chosen;
    place = omega (arith, o.place);
    found = o.found;
    eligible = o.eligible;
    raised = o.raised;
    stored = o.stored;
  }

  pub scan-Origin :
      (i k : ℕ) (ps : List Peer) (b : Peer) (best : Best) (total : ℤ)
      → (scan now tried i ps best total).1 ≡ some (k, b)
      → (best ≡ some (k, b)) ⊎ Origin now tried i ps (scan now tried i ps best total).0 k b
  unfolding scan
  scan-Origin i k [] b best total h = inl h
  scan-Origin i k (q ∷ ps) b best total h = elim (Bool-cases (is_skipped now tried i q)) [
    | inl e ↦ (elim (scan-Origin (i + 1) k ps b best total (rw e at h)) [
      | inl old ↦ inl old
      | inr o ↦ inr (rw e (Origin-cons i k q q ps _ b o))
    ])
    | inr e ↦
        (elim (scan-Origin (i + 1) k ps b (better i (raise q) best) (total +ℤ q.effective_weight)
          (rw e at h)) [
            | inl new ↦ (elim (better-origin i k (raise q) b best new) [
              | inl old ↦ inl old
              | inr (place, raised) ↦ inr (
                  rw e (record {
                    offset = 0;
                    chosen = q;
                    place = omega arith;
                    found = refl;
                    eligible = rw place e;
                    raised = raised;
                    stored = ap some (sym raised);
                  }))
            ])
            | inr o ↦ inr (rw e (Origin-cons i k q (raise q) ps _ b o))
          ])
  ]

-- From position 0 on, the offset is the position.
module _ {now : ℤ} {tried : List ℕ} {ps ps' : List Peer} {k : ℕ} {b : Peer}
    (o : Origin now tried 0 ps ps' k b) where
  pub found_at : get_elem? ps k ≡ some o.chosen
  found_at = let start : k ≡ o.offset = omega (arith, o.place) in rw start o.found

  pub stored_at : get_elem? ps' k ≡ some b
  stored_at = let start : k ≡ o.offset = omega (arith, o.place) in rw start o.stored
