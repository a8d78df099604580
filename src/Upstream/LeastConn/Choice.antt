-- ===== src/Upstream/LeastConn/Choice.antt =====
-- What both loops of ngx_http_upstream_get_least_conn_peer choose.
use inside_nginx.Base.{
  ◌↔◌, true, modify, Option-cases, ==_iff, ◌==◌, not, if◌then◌else◌, ◌∙◌, ◌||◌, All-get_elem?, ℕ,
  suc, ◌+◌, ◌≡◌, refl, sym, ap, ◌⊎◌, inl, inr, Bool, false, none, some, List, [], ◌∷◌, arith, ltb,
  Bool-cases, get_elem?, All,
}
use inside_nginx.Base.Int.{pos, ◌+ℤ◌, ltb_ℤ, ℤ}
use inside_nginx.Upstream.Peer.{elect, raise, is_unusable, Peer}
use inside_nginx.Upstream.Tried.{mark_tried, is_tried}
use inside_nginx.Upstream.RoundRobin.{Best, is_skipped}
use inside_nginx.Upstream.LeastConn.{get_least, scan_ties, load, lighter, scan_least}
use inside_nginx.Upstream.LeastConn.Ratio.{≼-trans, load-small, IsSmall, ◌≼◌, scan_least-Below}

lighter-origin :
    (i k : ℕ) (p b : Peer) (found : Best × Bool)
    → (lighter i p found).0 ≡ some (k, b)
    → (found.0 ≡ some (k, b)) ⊎ ((k ≡ i) × (b ≡ p))
unfolding lighter
lighter-origin i k p b (none, many) h = inr (ground arith, ground arith)
lighter-origin i k p b (some (l, c), many) h = elim (Bool-cases (ltb (load p c) (load c p))) [
  | inl e ↦ inr (ground arith, ground arith)
  | inr e ↦ inl (ground arith)
]

-- The eligible peer of the list that stands at position k.
record IsAt (now : ℤ) (tried : List ℕ) (i : ℕ) (ps : List Peer) (k : ℕ) (b : Peer) : Type 0 where
  offset : ℕ
  place : k ≡ i + offset
  found : get_elem? ps offset ≡ some b
  eligible : is_skipped now tried k b ≡ false

IsAt-cons :
    (now : ℤ) (tried : List ℕ) (i : ℕ) (p : Peer) (ps : List Peer) (k : ℕ) (b : Peer)
    → IsAt now tried (i + 1) ps k b
    → IsAt now tried i (p ∷ ps) k b
IsAt-cons now tried i p ps k b a = record {
  offset = suc a.offset;
  place = omega (arith, a.place);
  found = a.found;
  eligible = a.eligible;
}

scan_least-IsAt :
    (now : ℤ) (tried : List ℕ) (i k : ℕ) (ps : List Peer) (b : Peer) (found : Best × Bool)
    → (scan_least now tried i ps found).0 ≡ some (k, b)
    → (found.0 ≡ some (k, b)) ⊎ IsAt now tried i ps k b
unfolding scan_least
scan_least-IsAt now tried i k [] b found h = inl h
scan_least-IsAt now tried i k (p ∷ ps) b found h = elim (Bool-cases (is_skipped now tried i p)) [
  | inl e ↦ (elim (scan_least-IsAt now tried (i + 1) k ps b found (rw (e, scan_least) at h)) [
    | inl old ↦ inl old
    | inr a ↦ inr (IsAt-cons now tried i p ps k b a)
  ])
  | inr e ↦
      (elim (scan_least-IsAt now tried (i + 1) k ps b (lighter i p found)
        (rw (e, scan_least) at h)) [
          | inl new ↦ (elim (lighter-origin i k p b found new) [
            | inl old ↦ inl old
            | inr (at, same) ↦ inr (record {
              offset = 0;
              place = omega (arith, at);
              found = ap some (sym same);
              eligible = rw (at, same) e;
            })
          ])
          | inr a ↦ inr (IsAt-cons now tried i p ps k b a)
        ])
]

-- Position k is that of an eligible peer with the connections and the weight of b, and no eligible
-- peer has fewer connections per weight.
pub record IsLeast (now : ℤ) (tried : List ℕ) (ps : List Peer) (k : ℕ) (b : Peer) : Type 0 where
  pub chosen : Peer
  pub found : get_elem? ps k ≡ some chosen
  pub untried : is_tried tried k ≡ false
  pub usable : is_unusable now chosen ≡ false
  pub same_conns : b.conns ≡ chosen.conns
  pub same_weight : b.weight ≡ chosen.weight
  pub least :
      (j : ℕ) (q : Peer)
      → get_elem? ps j ≡ some q
      → is_tried tried j ≡ false
      → is_unusable now q ≡ false
      → chosen ≼ q

module _ (now : ℤ) (tried : List ℕ) (ps : List Peer) (u : All IsSmall ps) where
  eligible_parts :
      (i : ℕ) (p : Peer)
      → is_skipped now tried i p ≡ false
      → (is_tried tried i ≡ false) × (is_unusable now p ≡ false)
  unfolding is_skipped
  eligible_parts i p h = ground arith

  eligible_of_parts :
      (i : ℕ) (p : Peer)
      → is_tried tried i ≡ false
      → is_unusable now p ≡ false
      → is_skipped now tried i p ≡ false
  unfolding is_skipped
  eligible_of_parts i p h k = ground arith

  -- The first loop finds a least peer.
  scan_least-IsLeast :
      (k : ℕ) (b : Peer)
      → (scan_least now tried 0 ps (none, false)).0 ≡ some (k, b)
      → IsLeast now tried ps k b
  scan_least-IsLeast k b h = elim (scan_least-IsAt now tried 0 k ps b (none, false) h) [
    | inl never ↦ absurd (ground arith)
    | inr a ↦
        let start : a.offset ≡ k = omega (arith, a.place) in
        record {
          chosen = b;
          found = rw start at a.found;
          untried = (eligible_parts k b a.eligible).0;
          usable = (eligible_parts k b a.eligible).1;
          same_conns = refl;
          same_weight = refl;
          least = λ j q at t w.
              let here : 0 + j ≡ j = omega arith in
              rw h at (
                scan_least-Below now tried 0 j ps q (none, false) u tt at
                  (rw here (eligible_of_parts j q t w)));
        }
  ]

  IsSmall-of_same : (b c : Peer) → b.conns ≡ c.conns → b.weight ≡ c.weight → IsSmall c → IsSmall b
  IsSmall-of_same b c e f s = record {
    positive = rw f s.positive;
    weight_small = rw f s.weight_small;
    conns_small = rw e s.conns_small;
  }

  -- A peer that ties with a least peer is a least peer.
  tie-IsLeast :
      (k i : ℕ) (b p p' : Peer)
      → IsLeast now tried ps k b
      → get_elem? ps i ≡ some p
      → is_skipped now tried i p ≡ false
      → load p b ≡ load b p
      → p'.conns ≡ p.conns
      → p'.weight ≡ p.weight
      → IsLeast now tried ps i p'
  tie-IsLeast k i b p p' l at free tie ec ew =
      let sc = All-get_elem? IsSmall ps k u l.found in
      let sp = All-get_elem? IsSmall ps i u at in
      let sb = IsSmall-of_same b l.chosen l.same_conns l.same_weight sc in
      let below : p ≼ b = omega (arith, sym (load-small p b sp sb) ∙ tie ∙ load-small b p sb sp) in
      record {
        chosen = p;
        found = at;
        untried = (eligible_parts i p free).0;
        usable = (eligible_parts i p free).1;
        same_conns = ec;
        same_weight = ew;
        least = λ j q at' t w.
            ≼-trans p b q sb.positive below
              (rw (l.same_conns, l.same_weight) (l.least j q at' t w));
      }

  raise_same : (p : Peer) → ((raise p).conns ≡ p.conns) × ((raise p).weight ≡ p.weight)
  unfolding raise
  raise_same p = (refl, refl)

  -- The best peer, when the loop reaches it and raises it.
  self-IsLeast :
      (k i : ℕ) (b p : Peer)
      → IsLeast now tried ps k b
      → get_elem? ps i ≡ some p
      → IsLeast now tried ps k (if i == k then raise p else b)
  self-IsLeast k i b p l at = elim (Bool-cases (i == k)) [
    | inr e ↦ rw e l
    | inl e ↦
        let here : i ≡ k = (==_iff i k).0 e in
        let same : p ≡ l.chosen = some-injective' (sym at ∙ ap (get_elem? ps) here ∙ l.found) in
        rw (e, same)
          (record {
            chosen = l.chosen;
            found = l.found;
            untried = l.untried;
            usable = l.usable;
            same_conns = (raise_same l.chosen).0;
            same_weight = (raise_same l.chosen).1;
            least = l.least;
          })
  ]
    where
      some-injective' : {x y : Peer} → some x ≡ some y → x ≡ y
      some-injective' h = cc

  -- The second loop keeps to least peers.
  scan_ties-IsLeast :
      (start i : ℕ) (rs : List Peer) (k : ℕ) (b : Peer) (total : ℤ)
      → ((n : ℕ) (p : Peer) → get_elem? rs n ≡ some p → get_elem? ps (i + n) ≡ some p)
      → IsLeast now tried ps k b
      → (let r = scan_ties now tried start i rs (k, b) total in IsLeast now tried ps r.1.0 r.1.1)
  unfolding scan_ties
  scan_ties-IsLeast start i [] k b total sub l = l
  scan_ties-IsLeast start i (p ∷ rs) k b total sub l =
      elim (Bool-cases (ltb i start || (is_skipped now tried i p || not (load p b == load b p)))) [
        | inl e ↦ rw (e, scan_ties) (scan_ties-IsLeast start (i + 1) rs k b total later l)
        | inr e ↦
            (elim (Bool-cases
              (ltb_ℤ (if i == k then raise p else b).current_weight (raise p).current_weight)) [
                | inl w ↦
                    rw (e, w, scan_ties)
                      (scan_ties-IsLeast start (i + 1) rs i (raise p) (total +ℤ p.effective_weight)
                        later
                        (tie-IsLeast k i b p (raise p) l here (ground arith) (ground arith)
                          (raise_same p).0 (raise_same p).1))
                | inr w ↦
                    rw (e, w, scan_ties)
                      (scan_ties-IsLeast start (i + 1) rs k (if i == k then raise p else b)
                        (total +ℤ p.effective_weight) later (self-IsLeast k i b p l here))
              ])
      ]
    where
      here : get_elem? ps i ≡ some p
      here = let start' : i + 0 ≡ i = omega arith in rw start' at (sub 0 p refl)

      later : (n : ℕ) (q : Peer) → get_elem? rs n ≡ some q → get_elem? ps (i + 1 + n) ≡ some q
      later n q h = let shift : i + suc n ≡ i + 1 + n = omega arith in rw shift at (sub (suc n) q h)

  -- What both loops leave, by the result of the first one.
  ties : ℕ × Peer → Bool → List Peer × (ℕ × Peer) × ℤ
  ties (i, b) many = if many then scan_ties now tried i 0 ps (i, b) (pos 0) else (ps, (i, b), pos 0)

  get_least-found :
      (i : ℕ) (b : Peer)
      → (scan_least now tried 0 ps (none, false)).0 ≡ some (i, b)
      → get_least now tried ps ≡ (
          let r = ties (i, b) (scan_least now tried 0 ps (none, false)).1 in
          some (r.1.0, modify r.0 r.1.0 (elect now r.2), mark_tried tried r.1.0))
  unfolding get_least ties
  get_least-found i b e = rw (e, get_least)

  get_least-nothing :
      (scan_least now tried 0 ps (none, false)).0 ≡ none → get_least now tried ps ≡ none
  unfolding get_least
  get_least-nothing e = rw (e, get_least)

  ties-IsLeast :
      (i : ℕ) (b : Peer) (many : Bool)
      → IsLeast now tried ps i b
      → IsLeast now tried ps (ties (i, b) many).1.0 (ties (i, b) many).1.1
  unfolding ties
  ties-IsLeast i b true l =
      scan_ties-IsLeast i 0 ps i b (pos 0) (λ n p h. let z : 0 + n ≡ n = omega arith in rw z h) l
  ties-IsLeast i b false l = l

  -- ngx_http_upstream_get_least_conn_peer chooses in a group of several peers one that is not marked
  -- in the bitmap, not down, not failed out and not full, and no other such peer has fewer
  -- connections for its weight. The weights are positive, and they and the connections stay below
  -- 2 ^ 31, so that no product wraps.
  pub get_least-IsLeast :
      {k : ℕ} {ps' : List Peer} {tried' : List ℕ}
      → get_least now tried ps ≡ some (k, ps', tried')
      → (b : Peer) × IsLeast now tried ps k b
  get_least-IsLeast {k} {ps'} {tried'} h =
      elim (Option-cases (scan_least now tried 0 ps (none, false)).0) [
        | inl e ↦ absurd (least_none e)
        | inr ((i, b), e) ↦
            let many = (scan_least now tried 0 ps (none, false)).1 in
            let l = ties-IsLeast i b many (scan_least-IsLeast i b e) in
            let at : (ties (i, b) many).1.0 ≡ k = same_place (sym (get_least-found i b e) ∙ h) in
            ((ties (i, b) many).1.1, rw at at l)
      ]
    where
      least_none : (scan_least now tried 0 ps (none, false)).0 ≡ none → ⊥
      least_none e = let clash = sym (get_least-nothing e) ∙ h in cc

      same_place : {x y : ℕ × List Peer × List ℕ} → some x ≡ some y → x.0 ≡ y.0
      same_place {x} {y} q = let e : x ≡ y = cc in rw e

  -- ngx_http_upstream_get_least_conn_peer finds no peer in a group of several exactly if every peer is
  -- marked in the bitmap, down, failed out or full. The weights are positive, and they and the
  -- connections stay below 2 ^ 31.
  pub get_least-none_iff :
      (get_least now tried ps ≡ none)
      ↔ ((j : ℕ) (q : Peer) → get_elem? ps j ≡ some q → is_skipped now tried j q ≡ true)
  get_least-none_iff = (
    (λ h j q at. elim (Bool-cases (is_skipped now tried j q)) [
      | inl e ↦ e
      | inr e ↦ absurd (
          let start : 0 + j ≡ j = omega arith in
          rw (all_passed h) at
            (scan_least-Below now tried 0 j ps q (none, false) u tt at (rw start e)))
    ]),
    (λ all. elim (Option-cases (scan_least now tried 0 ps (none, false)).0) [
      | inl e ↦ get_least-nothing e
      | inr ((i, b), e) ↦
          let l = scan_least-IsLeast i b e in
          absurd (
            ground (arith, all i l.chosen l.found, eligible_of_parts i l.chosen l.untried l.usable))
    ]),
  )
    where
      all_passed :
          get_least now tried ps ≡ none → (scan_least now tried 0 ps (none, false)).0 ≡ none
      all_passed h = elim (Option-cases (scan_least now tried 0 ps (none, false)).0) [
        | inl e ↦ e
        | inr ((i, b), e) ↦ let clash = sym (get_least-found i b e) ∙ h in cc
      ]
