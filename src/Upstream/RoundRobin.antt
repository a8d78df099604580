-- ===== src/Upstream/RoundRobin.antt =====
-- ngx_http_upstream_get_peer, ngx_http_upstream_get_round_robin_peer and
-- ngx_http_upstream_free_round_robin_peer.
pub mod Scan
pub mod Choice
pub mod Chain
pub mod Invariant
pub mod Request
pub mod Release
use inside_nginx.Base.{
  ℕ, zero, suc, ◌+◌, ◌-◌, ◌/◌, Bool, true, false, ◌||◌, Option, none, some, List, [], ◌∷◌, ◌==◌,
  if◌then◌else◌, modify, get_elem?, Rc, ok, busy,
}
use inside_nginx.Base.Int.{ℤ, pos, ◌+ℤ◌, ◌-ℤ◌, ltb_ℤ}
use inside_nginx.Base.Words.{add64, sub64, to_u64}
use inside_nginx.Upstream.Peer.{
  Peer, Peers, RrPeerData, PeerConnection, is_unusable, is_full, raise, elect, connect, address,
  reset,
}
use inside_nginx.Upstream.Tried.{is_tried, mark_tried, words_for, clear_words}

-- The best peer so far: its position and the peer itself, whose weight no later round changes.
abbrev pub Best : Type 0
Best = Option (ℕ × Peer)

-- `best == NULL || peer->current_weight > best->current_weight`
unfoldable pub better : ℕ → Peer → Best → Best
better i p none = some (i, p)
better i p (some (j, b)) =
    if ltb_ℤ b.current_weight p.current_weight then some (i, p) else some (j, b)

-- The four `continue` conditions of the loops over peers.
unfoldable pub is_skipped : ℤ → List ℕ → ℕ → Peer → Bool
is_skipped now tried i p = is_tried tried i || is_unusable now p

-- The loop of ngx_http_upstream_get_peer from position i on: the peers that it leaves, the best
-- one and the sum of the effective weights.
unfoldable pub scan : ℤ → List ℕ → ℕ → List Peer → Best → ℤ → List Peer × Best × ℤ
scan now tried i [] best total = ([], best, total)
scan now tried i (p ∷ ps) best total =
    let skip = is_skipped now tried i p in
    let p' = if skip then p else raise p in
    let best' = if skip then best else better i p' best in
    let total' = if skip then total else total +ℤ p.effective_weight in
    let (ps', best'', total'') = scan now tried (i + 1) ps best' total' in
    (p' ∷ ps', best'', total'')

-- ngx_http_upstream_get_peer: `none` is NULL. On success the position of the best peer, the peers
-- and the bitmap.
unfoldable pub get_peer : ℤ → List ℕ → List Peer → Option (ℕ × List Peer × List ℕ)
get_peer now tried peers =
    let (peers', best, total) = scan now tried 0 peers none (pos 0) in
    elim best [
      | none ↦ none
      | some (i, _) ↦ some (i, modify peers' i (elect now total), mark_tried tried i)
    ]

-- The choice of a peer in one group, up to `failed`: the only peer, or ngx_http_upstream_get_peer.
-- A single group has one peer.
unfoldable pub choose : ℤ → List ℕ → Peers → Option (ℕ × List Peer × List ℕ)
choose now tried g =
    if g.single
    then (elim g.peer [
      | [] ↦ none
      | p ∷ ps ↦ if p.down || is_full p then none else some (0, p ∷ ps, tried)
    ])
    else get_peer now tried g.peer

-- What follows a choice: `current`, the address in `pc`, `conns++`.
unfoldable pub take_peer :
    Peers
    → PeerConnection
    → RrPeerData
    → ℕ × List Peer × List ℕ
    → Peers × PeerConnection × RrPeerData
take_peer g pc rrp (i, peers, tried) = (
  record g { peer = modify peers i connect },
  (elim (get_elem? peers i) [ none ↦ pc | some p ↦ address pc p ]),
  record rrp { current = some (rrp.peers, i); tried = tried },
)

-- Under `failed`: `rrp->peers = peers->next`, and its words of `tried` are cleared.
unfoldable pub next_group : RrPeerData → Peers → RrPeerData
next_group rrp next = record rrp {
  peers = rrp.peers + 1;
  tried = clear_words (words_for next.number) rrp.tried;
}

-- `pc->name = peers->name` on the way out with NGX_BUSY.
unfoldable pub name_if_busy : Rc → Peers → PeerConnection → PeerConnection
name_if_busy busy g pc = record pc { name = g.name }
name_if_busy rc g pc = pc

-- ngx_http_upstream_get_round_robin_peer on the chain of groups from `rrp->peers` on, which is not
-- empty.
unfoldable pub get_from :
    ℤ → List Peers → PeerConnection → RrPeerData → Rc × List Peers × PeerConnection × RrPeerData
unfolding name_if_busy
get_from now [] pc rrp = (busy, [], pc, rrp)
get_from now (g ∷ []) pc rrp = elim (choose now rrp.tried g) [
  | some c ↦ (let (g', pc', rrp') = take_peer g (reset pc) rrp c in (ok, g' ∷ [], pc', rrp'))
  | none ↦ (busy, g ∷ [], name_if_busy busy g (reset pc), rrp)
]
get_from now (g ∷ next ∷ rest) pc rrp = elim (choose now rrp.tried g) [
  | some c ↦
      (let (g', pc', rrp') = take_peer g (reset pc) rrp c in (ok, g' ∷ next ∷ rest, pc', rrp'))
  | none ↦
      (let (rc, groups, pc', rrp') = get_from now (next ∷ rest) (reset pc) (next_group rrp next) in
        (rc, g ∷ groups, name_if_busy rc g pc', rrp'))
]

-- ngx_http_upstream_get_round_robin_peer: the walk to the group that `rrp->peers` points to leaves
-- the groups before it alone.
unfoldable pub walk_to :
    (List Peers → PeerConnection → RrPeerData → Rc × List Peers × PeerConnection × RrPeerData)
    → ℕ
    → List Peers
    → PeerConnection
    → RrPeerData
    → Rc × List Peers × PeerConnection × RrPeerData
walk_to get zero groups pc rrp = get groups pc rrp
walk_to get (suc n) [] pc rrp = (busy, [], pc, rrp)
walk_to get (suc n) (g ∷ groups) pc rrp =
    let (rc, groups', pc', rrp') = walk_to get n groups pc rrp in (rc, g ∷ groups', pc', rrp')

unfoldable pub get_round_robin_peer :
    ℤ → List Peers → PeerConnection → RrPeerData → Rc × List Peers × PeerConnection × RrPeerData
unfolding walk_to get_from
get_round_robin_peer now groups pc rrp = walk_to (get_from now) rrp.peers groups pc rrp

-- `effective_weight -= weight / max_fails`, where the division is unsigned, and the lower limit 0.
unfoldable pub penalise : Peer → Peer
penalise p =
    let e =
      if p.max_fails == 0
      then p.effective_weight
      else p.effective_weight -ℤ pos (to_u64 p.weight / p.max_fails) in
    record p { effective_weight = if ltb_ℤ e (pos 0) then pos 0 else e }

-- The failed and the other branch of ngx_http_upstream_free_round_robin_peer.
unfoldable pub settle : ℤ → Bool → Peer → Peer
settle now true p = penalise (record p { fails = add64 p.fails 1; accessed = now; checked = now })
settle now false p = if ltb_ℤ p.accessed p.checked then record p { fails = 0 } else p

-- `conns--`
unfoldable pub disconnect : Peer → Peer
disconnect p = record p { conns = sub64 p.conns 1 }

-- `failed` is `state & NGX_PEER_FAILED`. A peer of a single group is only disconnected.
unfoldable pub release : ℤ → Bool → Bool → Peer → Peer
release now single failed p = disconnect (if single then p else settle now failed p)

-- ngx_http_upstream_free_round_robin_peer; `none` is a NULL `current` or `peers`.
unfoldable pub free_round_robin_peer :
    ℤ → Bool → List Peers → PeerConnection → RrPeerData → Option (List Peers × PeerConnection)
free_round_robin_peer now failed groups pc rrp = elim rrp.current [
  | none ↦ none
  | some (g, i) ↦ (elim (get_elem? groups rrp.peers) [
    | none ↦ none
    | some own ↦ some (
      modify groups g (λ gr. record gr { peer = modify gr.peer i (release now own.single failed) }),
      record pc {
        tries = if own.single then 0 else if pc.tries == 0 then pc.tries else pc.tries - 1;
      },
    )
  ])
]
