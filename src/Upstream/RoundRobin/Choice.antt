-- ===== src/Upstream/RoundRobin/Choice.antt =====
-- The choice of ngx_http_upstream_get_peer, the weights and the bitmap.
use inside_nginx.Upstream.RoundRobin.Scan.{found_at, stored_at, scan-Beats, scan-Origin}
use inside_nginx.Base.{
  get_elem?-lt, if◌then◌else◌, ◌==◌, length, true, false, ◌<◌, ◌∙◌, ap, ◌↔◌, ℕ, zero, suc, ◌+◌, ◌≡◌,
  refl, inl, inr, none, some, List, [], ◌∷◌, arith, Bool-cases, Option-cases, get_elem?, modify,
}
use inside_nginx.Base.Int.{◌≤ℤ◌, ◌<ℤ◌, ℤ, pos, ◌+ℤ◌, ◌-ℤ◌, int_laws, parts_of_eq}
use inside_nginx.Upstream.Peer.{is_unusable, Peer, raise, elect}
use inside_nginx.Upstream.Tried.{is_tried-mark_tried, Covers, mark_tried}
use inside_nginx.Upstream.Tried.{is_tried}
use inside_nginx.Upstream.RoundRobin.{Best, better, is_skipped, scan, get_peer}

-- The sum of the current weights.
pub current_sum : List Peer → ℤ
current_sum [] = pos 0
current_sum (p ∷ ps) = p.current_weight +ℤ current_sum ps

raise-weight : (p : Peer) → (raise p).current_weight ≡ p.current_weight +ℤ p.effective_weight
unfolding raise
raise-weight p = refl

module _ (now : ℤ) (tried : List ℕ) where
  -- The scan adds to the weights what it adds to the total.
  scan-sum :
      (i : ℕ) (ps : List Peer) (best : Best) (total : ℤ)
      → current_sum (scan now tried i ps best total).0 +ℤ total
        ≡ current_sum ps +ℤ (scan now tried i ps best total).2
  unfolding scan current_sum
  scan-sum i [] best total = refl
  scan-sum i (p ∷ ps) best total = elim (Bool-cases (is_skipped now tried i p)) [
    | inl e ↦ rw e (omega (int_laws, parts_of_eq _ _ (scan-sum (i + 1) ps best total)))
    | inr e ↦ rw e (
        omega (
          int_laws,
          parts_of_eq _ _
              (scan-sum (i + 1) ps (better i (raise p) best) (total +ℤ p.effective_weight)),
          parts_of_eq _ _ (raise-weight p),
        ))
  ]

current_sum-elect :
    (now total : ℤ) (ps : List Peer) (i : ℕ) {b : Peer}
    → get_elem? ps i ≡ some b
    → current_sum (modify ps i (elect now total)) ≡ current_sum ps -ℤ total
unfolding current_sum elect
current_sum-elect now total [] i h = cc
current_sum-elect now total (p ∷ ps) zero h = omega int_laws
current_sum-elect now total (p ∷ ps) (suc i) h =
    omega (int_laws, parts_of_eq _ _ (current_sum-elect now total ps i h))

-- What a successful call returns, in terms of the scan.
pub record Elected (now : ℤ) (tried : List ℕ) (ps : List Peer) (i : ℕ) (ps' : List Peer)
    (tried' : List ℕ) : Type 0 where
  pub best : Peer
  pub scanned : (scan now tried 0 ps none (pos 0)).1 ≡ some (i, best)
  pub peers :
      ps'
      ≡ modify
          (scan now tried 0 ps none (pos 0)).0
          i
          (elect now (scan now tried 0 ps none (pos 0)).2)
  pub bitmap : tried' ≡ mark_tried tried i

module _ (now : ℤ) (tried : List ℕ) (ps : List Peer) where
  pub get_peer-Elected :
      {i : ℕ} {ps' : List Peer} {tried' : List ℕ}
      → get_peer now tried ps ≡ some (i, ps', tried')
      → Elected now tried ps i ps' tried'
  unfolding get_peer
  get_peer-Elected {i} {ps'} {tried'} h = elim (Option-cases (scan now tried 0 ps none (pos 0)).1) [
    | inl e ↦ ground (arith, e)
    | inr ((k, b), e) ↦ record {
      best = b;
      scanned = ground (arith, e);
      peers = ground (arith, e);
      bitmap = ground (arith, e);
    }
  ]

  get_peer-none : get_peer now tried ps ≡ none → (scan now tried 0 ps none (pos 0)).1 ≡ none
  unfolding get_peer
  get_peer-none h = ground arith

  get_peer-of_none : (scan now tried 0 ps none (pos 0)).1 ≡ none → get_peer now tried ps ≡ none
  unfolding get_peer
  get_peer-of_none h = ground arith

  -- A call of ngx_http_upstream_get_peer that returns a peer keeps the sum of the current weights of
  -- the peers.
  pub current_sum-get_peer :
      {i : ℕ} {ps' : List Peer} {tried' : List ℕ}
      → get_peer now tried ps ≡ some (i, ps', tried')
      → current_sum ps' ≡ current_sum ps
  current_sum-get_peer {i} h =
      let e = get_peer-Elected h in
      let r = scan now tried 0 ps none (pos 0) in
      elim (scan-Origin now tried 0 i ps e.best none (pos 0) e.scanned) [
        | inl never ↦ absurd (ground arith)
        | inr o ↦
            let at = stored_at o in
            rw e.peers (
              omega (
                int_laws,
                parts_of_eq _ _ (current_sum-elect now r.2 r.0 i at),
                parts_of_eq _ _ (scan-sum now tried 0 ps none (pos 0)),
              ))
      ]

  -- The peer that smooth weighted round-robin calls for at position i: not passed over, and of the
  -- largest current weight, its effective weight added; of equal ones it is the first.
  pub record IsChoice (i : ℕ) : Type 0 where
    pub chosen : Peer
    pub found : get_elem? ps i ≡ some chosen
    pub untried : is_tried tried i ≡ false
    pub usable : is_unusable now chosen ≡ false
    pub largest :
        (j : ℕ) (q : Peer)
        → get_elem? ps j ≡ some q
        → is_tried tried j ≡ false
        → is_unusable now q ≡ false
        → (q.current_weight +ℤ q.effective_weight
            ≤ℤ chosen.current_weight +ℤ chosen.effective_weight)
          × (j < i
              → q.current_weight +ℤ q.effective_weight
                <ℤ chosen.current_weight +ℤ chosen.effective_weight)

  eligible_parts :
      (i : ℕ) (p : Peer)
      → is_skipped now tried i p ≡ false
      → (is_tried tried i ≡ false) × (is_unusable now p ≡ false)
  unfolding is_skipped
  eligible_parts i p h = ground arith

  eligible_of_parts :
      (i : ℕ) (p : Peer)
      → is_tried tried i ≡ false
      → is_unusable now p ≡ false
      → is_skipped now tried i p ≡ false
  unfolding is_skipped
  eligible_of_parts i p h k = ground arith

  beats_raised :
      (i j : ℕ) (q c : Peer)
      → (scan now tried 0 ps none (pos 0)).1 ≡ some (i, raise c)
      → get_elem? ps j ≡ some q
      → is_skipped now tried j q ≡ false
      → (q.current_weight +ℤ q.effective_weight ≤ℤ c.current_weight +ℤ c.effective_weight)
        × (j < i → q.current_weight +ℤ q.effective_weight <ℤ c.current_weight +ℤ c.effective_weight)
  unfolding raise
  beats_raised i j q c s at free =
      let start : 0 + j ≡ j = omega arith in
      rw s at (rw start at (scan-Beats now tried 0 j ps q none (pos 0) tt at (rw start free)))

  -- A peer that ngx_http_upstream_get_peer returns is not marked in the bitmap, not down, not failed
  -- out and not full, and of all such peers it has the largest sum of current and effective weight,
  -- the first of them where several have it.
  pub get_peer-IsChoice :
      {i : ℕ} {ps' : List Peer} {tried' : List ℕ}
      → get_peer now tried ps ≡ some (i, ps', tried')
      → IsChoice i
  get_peer-IsChoice {i} h =
      let e = get_peer-Elected h in
      elim (scan-Origin now tried 0 i ps e.best none (pos 0) e.scanned) [
        | inl never ↦ absurd (ground arith)
        | inr o ↦ record {
          chosen = o.chosen;
          found = found_at o;
          untried = (eligible_parts i o.chosen o.eligible).0;
          usable = (eligible_parts i o.chosen o.eligible).1;
          largest = λ j q at t u.
              beats_raised i j q o.chosen (e.scanned ∙ ap (λ b. some (i, b)) o.raised) at
                (eligible_of_parts j q t u);
        }
      ]

  -- ngx_http_upstream_get_peer returns NULL exactly if every peer is marked in the bitmap, down,
  -- failed out or full.
  pub get_peer-none_iff :
      (get_peer now tried ps ≡ none)
      ↔ ((j : ℕ) (q : Peer) → get_elem? ps j ≡ some q → is_skipped now tried j q ≡ true)
  get_peer-none_iff = (
    (λ h j q at. elim (Bool-cases (is_skipped now tried j q)) [
      | inl e ↦ e
      | inr e ↦ absurd (
          let start : 0 + j ≡ j = omega arith in
          rw (get_peer-none h) at (scan-Beats now tried 0 j ps q none (pos 0) tt at (rw start e)))
    ]),
    (λ all. elim (Option-cases (scan now tried 0 ps none (pos 0)).1) [
      | inl e ↦ get_peer-of_none e
      | inr ((k, b), e) ↦ (elim (scan-Origin now tried 0 k ps b none (pos 0) e) [
        | inl never ↦ absurd (ground arith)
        | inr o ↦ absurd (ground (arith, all k o.chosen (found_at o), o.eligible))
      ])
    ]),
  )

  -- A peer that ngx_http_upstream_get_peer returns was not marked in the bitmap and is marked after
  -- the call; no other mark changes. The bitmap must have a bit for every peer.
  pub is_tried-get_peer :
      {i : ℕ} {ps' : List Peer} {tried' : List ℕ}
      → Covers tried (length ps)
      → get_peer now tried ps ≡ some (i, ps', tried')
      → (is_tried tried i ≡ false)
        × ((j : ℕ) → is_tried tried' j ≡ (if j == i then true else is_tried tried j))
  is_tried-get_peer {i} covers h =
      let e = get_peer-Elected h in
      let c = get_peer-IsChoice h in
      (
        c.untried,
        λ j. rw e.bitmap (is_tried-mark_tried tried i j (omega (arith, get_elem?-lt ps i c.found))),
      )
