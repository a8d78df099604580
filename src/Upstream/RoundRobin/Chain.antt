-- ===== src/Upstream/RoundRobin/Chain.antt =====
-- The walk through the groups: when ngx_http_upstream_get_round_robin_peer says NGX_BUSY.
use inside_nginx.Upstream.RoundRobin.Choice.{get_peer-none_iff}
use inside_nginx.Upstream.Tried.{is_tried-clear_words, words_for, clear_words, is_tried}
use inside_nginx.Base.{
  busy, get_elem?-lt, ℕ, ◌≡◌, refl, sym, ◌∙◌, ◌↔◌, inl, inr, Bool, true, false, ◌||◌, none, some,
  List, [], ◌∷◌, arith, Bool-cases, Option-cases, length, get_elem?, All,
}
use inside_nginx.Base.Int.{ℤ}
use inside_nginx.Base.{get_elem?, ℕ, List, Bool}
use inside_nginx.Upstream.Peer.{
  reset, RrPeerData, PeerConnection, is_unusable, is_full, Peer, Peers,
}
use inside_nginx.Base.Int.{ℤ}
use inside_nginx.Upstream.RoundRobin.{get_peer, next_group, is_skipped, choose, get_from}

-- No peer of the group can be handed out. The only peer of a single group is not asked for its
-- failures, nor for the bitmap.
abbrev pub Exhausted : ℤ → List ℕ → Bool → List Peer → Type 0
Exhausted now tried true ps = (q : Peer) → get_elem? ps 0 ≡ some q → (q.down || is_full q) ≡ true
Exhausted now tried false ps =
    (j : ℕ) (q : Peer) → get_elem? ps j ≡ some q → (is_tried tried j || is_unusable now q) ≡ true

-- The same for a backup group, whose bitmap is fresh.
abbrev pub FreshExhausted : ℤ → Bool → List Peer → Type 0
FreshExhausted now true ps = (q : Peer) → get_elem? ps 0 ≡ some q → (q.down || is_full q) ≡ true
FreshExhausted now false ps =
    (j : ℕ) (q : Peer) → get_elem? ps j ≡ some q → is_unusable now q ≡ true

abbrev pub AllExhausted : ℤ → List ℕ → List Peers → Type 0
AllExhausted now tried [] = Unit {0}
AllExhausted now tried (g ∷ gs) =
    Exhausted now tried g.single g.peer × All (λ n. FreshExhausted now n.single n.peer) gs

abbrev pub IsCounted : Peers → Type 0
IsCounted g = g.number ≡ length g.peer

module _ (now : ℤ) where
  choose_single :
      (tried : List ℕ) (ps : List Peer) (g : Peers)
      → g.single ≡ true
      → g.peer ≡ ps
      → (choose now tried g ≡ none)
        ↔ ((q : Peer) → get_elem? ps 0 ≡ some q → (q.down || is_full q) ≡ true)
  unfolding choose
  choose_single tried [] g s e = rw (s, e) ((λ h q at. cc), λ all. refl)
  choose_single tried (p ∷ ps) g s e =
      rw (s, e) ((λ h q at. ground arith), λ all. ground (arith, all p refl))

  pub choose_several :
      (tried : List ℕ) (g : Peers)
      → g.single ≡ false
      → choose now tried g ≡ get_peer now tried g.peer
  unfolding choose
  choose_several tried g s = rw s

  choose-none_iff :
      (tried : List ℕ) (g : Peers)
      → (choose now tried g ≡ none) ↔ Exhausted now tried g.single g.peer
  unfolding is_skipped
  choose-none_iff tried g = elim (Bool-cases g.single) [
    | inl s ↦
        (let r = choose_single tried g.peer g s refl in
          (λ h. rw s (r.0 h), λ all. r.1 (rw s at all)))
    | inr s ↦
        (let r = get_peer-none_iff now tried g.peer in
          let e = choose_several tried g s in
          (λ h. rw s (r.0 (sym e ∙ h)), λ all. e ∙ r.1 (rw s at all)))
  ]

  -- With a fresh bitmap a group is exhausted by its peers alone.
  fresh_iff :
      (tried : List ℕ) (s : Bool) (ps : List Peer) (n : ℕ)
      → n ≡ length ps
      → Exhausted now (clear_words (words_for n) tried) s ps ↔ FreshExhausted now s ps
  fresh_iff tried true ps n e = (λ h. h, λ h. h)
  fresh_iff tried false ps n e = (
    (λ h j q at. ground (arith, h j q at, is_tried-clear_words n tried j, get_elem?-lt ps j at)),
    (λ h j q at. ground (arith, h j q at)),
  )

  -- From the group of the request on, ngx_http_upstream_get_round_robin_peer returns NGX_BUSY exactly
  -- if this group has only peers that are marked, down, failed out or full, and each group after it
  -- only peers that are down, failed out or full; the only peer of a single group counts as
  -- unusable only when it is down or full. Each group must hold as many peers as its `number` says.
  pub get_from-busy_iff :
      (groups : List Peers) (pc : PeerConnection) (rrp : RrPeerData)
      → All IsCounted groups
      → ((get_from now groups pc rrp).0 ≡ busy) ↔ AllExhausted now rrp.tried groups
  unfolding get_from next_group
  get_from-busy_iff [] pc rrp n = (λ h. tt, λ h. refl)
  get_from-busy_iff (g ∷ []) pc rrp n = elim (Option-cases (choose now rrp.tried g)) [
    | inl e ↦ rw (e, get_from) ((λ h. ((choose-none_iff rrp.tried g).0 e, tt)), λ h. refl)
    | inr (c, e) ↦
        rw (e, get_from)
          ((λ h. cc), λ h. absurd (ground (arith, (choose-none_iff rrp.tried g).1 h.0, e)))
  ]
  get_from-busy_iff (g ∷ next ∷ rest) pc rrp n = elim (Option-cases (choose now rrp.tried g)) [
    | inl e ↦
        let later = get_from-busy_iff (next ∷ rest) (reset pc) (next_group rrp next) n.1 in
        let fresh = fresh_iff rrp.tried next.single next.peer next.number n.1.0 in
        rw (e, get_from)
          (
            (λ h. ((choose-none_iff rrp.tried g).0 e, (fresh.0 (later.0 h).0, (later.0 h).1))),
            (λ h. later.1 (fresh.1 h.1.0, h.1.1)),
          )
    | inr (c, e) ↦
        rw (e, get_from)
          ((λ h. cc), λ h. absurd (ground (arith, (choose-none_iff rrp.tried g).1 h.0, e)))
  ]
