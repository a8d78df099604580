-- ===== src/Upstream/RoundRobin/Invariant.antt =====
-- The invariant of a peer, and the connections that the peers count.
use inside_nginx.Upstream.RoundRobin.Chain.{choose_several}
use inside_nginx.Base.{
  get_elem?-modify_self, All-modify, ℕ, zero, suc, ◌+◌, ◌/◌, ◌^◌, ◌≤◌, ◌<◌, ◌≡◌, refl, sym, ap, ◌∙◌,
  ◌⊎◌, inl, inr, Bool, true, false, ◌||◌, Option, none, some, List, [], ◌∷◌, arith, ◌==◌,
  Bool-cases, get_elem?, modify, All,
}
use inside_nginx.Base.Int.{ -ℤ_parts, -ℤ_parts, ℤ, pos, ◌+ℤ◌, ◌≤ℤ◌}
use inside_nginx.Base.Words.{to_u64}
use inside_nginx.Upstream.Peer.{is_full, is_unusable, Peer, Peers, raise, elect, connect}
use inside_nginx.Upstream.RoundRobin.{
  scan, better, is_skipped, get_peer, choose, penalise, settle, disconnect, release,
}
use inside_nginx.Upstream.RoundRobin.Scan.{scan-Origin, stored_at}
use inside_nginx.Upstream.RoundRobin.Choice.{get_peer-Elected}

-- The effective weight lies between 0 and the weight, and a limit on the connections is kept.
pub record IsPeer (p : Peer) : Type 0 where
  pub low : pos 0 ≤ℤ p.effective_weight
  pub high : p.effective_weight ≤ℤ p.weight
  pub conns_word : p.conns < 2 ^ 64
  pub max_word : p.max_conns < 2 ^ 64
  pub limit : (p.max_conns ≡ 0) ⊎ (p.conns ≤ p.max_conns)

raise-IsPeer : (p : Peer) → IsPeer p → IsPeer (raise p)
unfolding raise ◌+ℤ◌
raise-IsPeer p v = ground arith

elect-IsPeer : (now total : ℤ) (p : Peer) → IsPeer p → IsPeer (elect now total p)
unfolding elect
elect-IsPeer now total p v = ground arith

pub connect-IsPeer : (p : Peer) → is_full p ≡ false → IsPeer p → IsPeer (connect p)
unfolding connect is_full
connect-IsPeer p f v = ground arith

penalise-IsPeer : (p : Peer) → IsPeer p → IsPeer (penalise p)
unfolding penalise
penalise-IsPeer p v = elim (Bool-cases (p.max_fails == 0)) [
  | inl e ↦ rw e (ground arith)
  | inr e ↦ rw e (ground (arith, -ℤ_parts p.effective_weight (pos (to_u64 p.weight / p.max_fails))))
]

settle-IsPeer : (now : ℤ) (failed : Bool) (p : Peer) → IsPeer p → IsPeer (settle now failed p)
unfolding settle
settle-IsPeer now true p v = penalise-IsPeer _ (record {
  low = v.low;
  high = v.high;
  conns_word = v.conns_word;
  max_word = v.max_word;
  limit = v.limit;
})
settle-IsPeer now false p v = ground arith

pub conns-settle : (now : ℤ) (failed : Bool) (p : Peer) → (settle now failed p).conns ≡ p.conns
unfolding settle penalise
conns-settle now true p = refl
conns-settle now false p = ground arith

disconnect-IsPeer : (p : Peer) → 0 < p.conns → IsPeer p → IsPeer (disconnect p)
unfolding disconnect
disconnect-IsPeer p h v = ground arith

-- A peer that is given back keeps an effective weight between 0 and its weight and keeps to its limit
-- of connections, if it did before and has a connection to give back.
pub release-IsPeer :
    (now : ℤ) (single failed : Bool) (p : Peer)
    → 0 < p.conns
    → IsPeer p
    → IsPeer (release now single failed p)
unfolding release
release-IsPeer now true failed p h v = disconnect-IsPeer p h v
release-IsPeer now false failed p h v =
    disconnect-IsPeer (settle now failed p) (rw (conns-settle now failed p) h)
      (settle-IsPeer now failed p v)

module _ (now : ℤ) (tried : List ℕ) where
  scan-IsPeer :
      (i : ℕ) (ps : List Peer) (best : Option (ℕ × Peer)) (total : ℤ)
      → All IsPeer ps
      → All IsPeer (scan now tried i ps best total).0
  unfolding scan
  scan-IsPeer i [] best total v = tt
  scan-IsPeer i (p ∷ ps) best total v = elim (Bool-cases (is_skipped now tried i p)) [
    | inl e ↦ rw e (v.0, scan-IsPeer (i + 1) ps best total v.1)
    | inr e ↦ rw e (
      raise-IsPeer p v.0,
      scan-IsPeer (i + 1) ps (better i (raise p) best) (total +ℤ p.effective_weight) v.1,
    )
  ]

  get_peer-IsPeer :
      (ps : List Peer) {i : ℕ} {ps' : List Peer} {tried' : List ℕ}
      → get_peer now tried ps ≡ some (i, ps', tried')
      → All IsPeer ps
      → All IsPeer ps'
  get_peer-IsPeer ps {i} h v =
      let e = get_peer-Elected now tried ps h in
      let s = scan-IsPeer 0 ps none (pos 0) v in
      rw e.peers (All-modify IsPeer _ i _ (λ p at w. elect-IsPeer now _ p w) s)

not_full_of_usable :
    (now : ℤ) (tried : List ℕ) (i : ℕ) (p : Peer)
    → is_skipped now tried i p ≡ false
    → is_full p ≡ false
unfolding is_skipped is_unusable
not_full_of_usable now tried i p h = ground arith

is_full-elect : (now total : ℤ) (p : Peer) → is_full (elect now total (raise p)) ≡ is_full p
unfolding is_full elect raise
is_full-elect now total p = refl

-- The connections that a group counts.
unfoldable pub conns_of : List Peer → ℕ
conns_of [] = 0
conns_of (p ∷ ps) = p.conns + conns_of ps

conns_of-scan :
    (now : ℤ) (tried : List ℕ) (i : ℕ) (ps : List Peer) (best : Option (ℕ × Peer)) (total : ℤ)
    → conns_of (scan now tried i ps best total).0 ≡ conns_of ps
unfolding scan conns_of raise
conns_of-scan now tried i [] best total = refl
conns_of-scan now tried i (p ∷ ps) best total = elim (Bool-cases (is_skipped now tried i p)) [
  | inl e ↦ rw e (ap (λ n. p.conns + n) (conns_of-scan now tried (i + 1) ps best total))
  | inr e ↦ rw e (
      ap (λ n. p.conns + n)
        (conns_of-scan now tried (i + 1) ps (better i (raise p) best)
          (total +ℤ p.effective_weight)))
]

pub conns_of-modify :
    (ps : List Peer) (i : ℕ) (f : Peer → Peer) {p : Peer}
    → get_elem? ps i ≡ some p
    → conns_of (modify ps i f) + p.conns ≡ conns_of ps + (f p).conns
unfolding conns_of
conns_of-modify [] i f h = cc
conns_of-modify (q ∷ ps) zero f {p} h = let same : q ≡ p = cc in rw same (omega arith)
conns_of-modify (q ∷ ps) (suc i) f h = omega (arith, conns_of-modify ps i f h)

-- What a choice in a group gives: the peers still counted alike, and one among them with room.
pub record IsRoom (ps : List Peer) (i : ℕ) (ps' : List Peer) : Type 0 where
  pub peer : Peer
  pub found : get_elem? ps' i ≡ some peer
  pub room : is_full peer ≡ false
  pub counted : conns_of ps' ≡ conns_of ps
  pub valid : All IsPeer ps → All IsPeer ps'

module _ (now : ℤ) (tried : List ℕ) where
  get_peer-IsRoom :
      (ps : List Peer) {i : ℕ} {ps' : List Peer} {tried' : List ℕ}
      → get_peer now tried ps ≡ some (i, ps', tried')
      → IsRoom ps i ps'
  unfolding elect
  get_peer-IsRoom ps {i} h =
      let e = get_peer-Elected now tried ps h in
      let r = scan now tried 0 ps none (pos 0) in
      elim (scan-Origin now tried 0 i ps e.best none (pos 0) e.scanned) [
        | inl never ↦ absurd (ground arith)
        | inr o ↦ record {
          peer = elect now r.2 e.best;
          found = rw e.peers (get_elem?-modify_self r.0 i (elect now r.2) (stored_at o));
          room = rw (o.raised, is_full-elect) (not_full_of_usable now tried i o.chosen o.eligible);
          counted = rw e.peers (
              omega (
                arith,
                conns_of-modify r.0 i (elect now r.2) (stored_at o),
                conns_of-scan now tried 0 ps none (pos 0),
              ));
          valid = get_peer-IsPeer now tried ps h;
        }
      ]

  choose_single-IsRoom :
      (g : Peers) (ps : List Peer) {i : ℕ} {ps' : List Peer} {tried' : List ℕ}
      → g.single ≡ true
      → g.peer ≡ ps
      → choose now tried g ≡ some (i, ps', tried')
      → IsRoom ps i ps'
  unfolding choose
  choose_single-IsRoom g [] s e h = absurd (ground arith)
  choose_single-IsRoom g (p ∷ ps) {i} {ps'} s e h = elim (Bool-cases (p.down || is_full p)) [
    | inl full ↦ absurd (ground arith)
    | inr free ↦
        let at : i ≡ 0 = ground arith in
        let same : ps' ≡ p ∷ ps = ground arith in
        rw (at, same)
          (record { peer = p; found = refl; room = ground arith; counted = refl; valid = λ v. v })
  ]

  pub choose-IsRoom :
      (g : Peers) {i : ℕ} {ps' : List Peer} {tried' : List ℕ}
      → choose now tried g ≡ some (i, ps', tried')
      → IsRoom g.peer i ps'
  choose-IsRoom g h = elim (Bool-cases g.single) [
    | inl s ↦ choose_single-IsRoom g g.peer s refl h
    | inr s ↦ get_peer-IsRoom g.peer (sym (choose_several now tried g s) ∙ h)
  ]
