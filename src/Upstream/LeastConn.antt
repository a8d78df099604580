-- ===== src/Upstream/LeastConn.antt =====
-- ngx_http_upstream_least_conn_module.c: the peer with the fewest connections for its weight.
pub mod Ratio
pub mod Choice
use inside_nginx.Base.{
  error, ok, busy, ℕ, zero, suc, ◌+◌, ◌-◌, ◌*◌, ◌/◌, ◌%◌, ◌^◌, ◌≤◌, ◌<◌, ◌≡◌, refl, sym, ap, ap₂,
  ◌∙◌, ◌≢◌, ◌↔◌, ◌⊎◌, inl, inr, Bool, true, false, not, ◌&&◌, ◌||◌, Option, none, some, List, [],
  ◌∷◌, ◌++◌, arith, ltb, leb, ◌==◌, if◌then◌else◌, Bool-cases, Option-cases, Rc, length, get_elem?,
  get_or, set, modify, replicate, All,
}
use inside_nginx.Base.Int.{
  ℤ, pos, negsuc, ◌+ℤ◌, ◌-ℤ◌, ◌≤ℤ◌, ◌<ℤ◌, int_laws, parts_of_eq, ltb_ℤ, leb_ℤ, pos_part, neg_part,
}
use inside_nginx.Base.Words.{add64, mul64, sub64, to_u64}
use inside_nginx.Upstream.Peer.{
  Peer, Peers, RrPeerData, PeerConnection, raise, elect, connect, address, reset,
}
use inside_nginx.Upstream.Tried.{mark_tried}
use inside_nginx.Upstream.RoundRobin.{
  Best, is_skipped, choose, take_peer, next_group, name_if_busy, get_from, walk_to,
}
use inside_nginx.Upstream.Init.{
  Addr, Balancer, least_conn, SrvConf, UpstreamPeer, init_round_robin, init_round_robin_peer,
}

-- ngx_http_upstream_init_least_conn
unfoldable pub init_least_conn : (ℕ → Bool) → (ℕ → ℕ → Option (List Addr)) → SrvConf → Rc × SrvConf
init_least_conn mem resolve us =
    let (rc, us') = init_round_robin mem resolve us in
    elim rc [ ok ↦ (ok, record us' { init = some least_conn }) | _ ↦ (error, us') ]

-- ngx_http_upstream_init_least_conn_peer
unfoldable pub init_least_conn_peer : (ℕ → Bool) → UpstreamPeer → List Peers → Rc × UpstreamPeer
init_least_conn_peer mem r groups =
    let (rc, r') = init_round_robin_peer mem r groups in
    elim rc [ ok ↦ (ok, record r' { get = some least_conn }) | _ ↦ (error, r') ]

-- `a->conns * b->weight`, a product of unsigned words.
unfoldable pub load : Peer → Peer → ℕ
load a b = mul64 a.conns (to_u64 b.weight)

-- One round of the first loop: the best peer and whether others match it.
unfoldable pub lighter : ℕ → Peer → Best × Bool → Best × Bool
lighter i p (none, many) = (some (i, p), false)
lighter i p (some (k, b), many) =
    if ltb (load p b) (load b p)
    then (some (i, p), false)
    else if load p b == load b p
    then (some (k, b), true)
    else (some (k, b), many)

-- The first loop, from position i on.
unfoldable pub scan_least : ℤ → List ℕ → ℕ → List Peer → Best × Bool → Best × Bool
scan_least now tried i [] found = found
scan_least now tried i (p ∷ ps) found =
    scan_least now tried (i + 1) ps (if is_skipped now tried i p then found else lighter i p found)

-- The second loop, over the peers from position `start` on, where it finds the best peer (k, b). The
-- best peer is one of the list: when the loop raises it, it is raised as the best peer too.
unfoldable pub scan_ties :
    ℤ → List ℕ → ℕ → ℕ → List Peer → ℕ × Peer → ℤ → List Peer × (ℕ × Peer) × ℤ
scan_ties now tried start i [] best total = ([], best, total)
scan_ties now tried start i (p ∷ ps) (k, b) total =
    let skip = ltb i start || (is_skipped now tried i p || not (load p b == load b p)) in
    let p' = if skip then p else raise p in
    let b' = if skip then b else if i == k then p' else b in
    let wins = not skip && ltb_ℤ b'.current_weight p'.current_weight in
    let best' = if wins then (i, p') else (k, b') in
    let total' = if skip then total else total +ℤ p.effective_weight in
    let (ps', best'', total'') = scan_ties now tried start (i + 1) ps best' total' in
    (p' ∷ ps', best'', total'')

-- Both loops, and what follows them up to `rrp->current = best`: the position, the peers and the
-- bitmap. `none` stands for `goto failed`.
unfoldable pub get_least : ℤ → List ℕ → List Peer → Option (ℕ × List Peer × List ℕ)
get_least now tried peers =
    let (best, many) = scan_least now tried 0 peers (none, false) in
    elim best [
      | none ↦ none
      | some (i, b) ↦
          (let (peers', (k, _), total) =
              if many
              then scan_ties now tried i 0 peers (i, b) (pos 0)
              else (peers, (i, b), pos 0) in
            some (k, modify peers' k (elect now total), mark_tried tried k))
    ]

-- ngx_http_upstream_get_least_conn_peer on the chain of groups from `rrp->peers` on. A single group
-- is left to round-robin, with all the groups after it.
unfoldable pub get_least_from :
    ℤ → List Peers → PeerConnection → RrPeerData → Rc × List Peers × PeerConnection × RrPeerData
get_least_from now [] pc rrp = (busy, [], pc, rrp)
get_least_from now (g ∷ []) pc rrp =
    if g.single then get_from now (g ∷ []) pc rrp else elim (get_least now rrp.tried g.peer) [
      | some c ↦ (let (g', pc', rrp') = take_peer g (reset pc) rrp c in (ok, g' ∷ [], pc', rrp'))
      | none ↦ (busy, g ∷ [], name_if_busy busy g (reset pc), rrp)
    ]
get_least_from now (g ∷ next ∷ rest) pc rrp =
    if g.single
    then get_from now (g ∷ next ∷ rest) pc rrp
    else elim (get_least now rrp.tried g.peer) [
      | some c ↦
          (let (g', pc', rrp') = take_peer g (reset pc) rrp c in (ok, g' ∷ next ∷ rest, pc', rrp'))
      | none ↦
          (let (rc, groups, pc', rrp') =
              get_least_from now (next ∷ rest) (reset pc) (next_group rrp next) in
            (rc, g ∷ groups, name_if_busy rc g pc', rrp'))
    ]

-- ngx_http_upstream_get_least_conn_peer
unfoldable pub get_least_conn_peer :
    ℤ → List Peers → PeerConnection → RrPeerData → Rc × List Peers × PeerConnection × RrPeerData
get_least_conn_peer now groups pc rrp = walk_to (get_least_from now) rrp.peers groups pc rrp
