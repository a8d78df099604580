-- ===== src/Upstream/IpHash.antt =====
-- ngx_http_upstream_ip_hash_module.c: the peer of a client is found by a hash of its address.
pub mod Slot
pub mod Taken
pub mod Search
use mathlib.Core.Option
use inside_nginx.Base.{
  ok, error, ℕ, zero, suc, ◌+◌, ◌-◌, ◌*◌, ◌/◌, ◌%◌, ◌^◌, ◌≤◌, ◌<◌, ◌≡◌, refl, sym, ap, ap₂, ◌∙◌,
  ◌≢◌, ◌↔◌, ◌⊎◌, inl, inr, Bool, true, false, not, ◌&&◌, ◌||◌, Option, none, some, List, [], ◌∷◌,
  ◌++◌, arith, ltb, leb, ◌==◌, if◌then◌else◌, Bool-cases, Option-cases, Rc, length, get_elem?,
  get_or, set, modify, replicate, All,
}
use inside_nginx.Base.Int.{
  ℤ, pos, negsuc, ◌+ℤ◌, ◌-ℤ◌, ◌≤ℤ◌, ◌<ℤ◌, int_laws, parts_of_eq, ltb_ℤ, leb_ℤ, pos_part, neg_part,
}
use inside_nginx.Base.Words.{add64, mul64, sub64, to_u64}
use inside_nginx.Upstream.Peer.{
  Peer, Peers, RrPeerData, PeerConnection, refresh, connect, address, reset,
}
use inside_nginx.Upstream.Tried.{mark_tried}
use inside_nginx.Upstream.RoundRobin.{is_skipped, get_round_robin_peer}
use inside_nginx.Upstream.Init.{
  Addr, Balancer, ip_hash, SrvConf, UpstreamPeer, init_round_robin, init_round_robin_peer,
}

-- ngx_http_upstream_ip_hash_peer_data_t. `addr` holds the `addrlen` bytes of the address;
-- `get_rr_peer` is always ngx_http_upstream_get_round_robin_peer.
pub record IpHashPeerData : Type 0 where
  pub rrp : RrPeerData
  pub hash : ℕ
  pub addr : List ℕ
  pub tries : ℕ

-- ngx_http_upstream_init_ip_hash
unfoldable pub init_ip_hash : (ℕ → Bool) → (ℕ → ℕ → Option (List Addr)) → SrvConf → Rc × SrvConf
init_ip_hash mem resolve us =
    let (rc, us') = init_round_robin mem resolve us in
    elim rc [ ok ↦ (ok, record us' { init = some ip_hash }) | _ ↦ (error, us') ]

-- The address of the client: three bytes of an IPv4 address, sixteen of an IPv6 address, and three
-- zero bytes of `ngx_http_upstream_ip_hash_pseudo_addr` for another family.
pub data SockAddr : Type 0 where
  inet : ℕ → ℕ → ℕ → ℕ → SockAddr
  inet6 : List ℕ → SockAddr
  other : SockAddr

unfoldable pub hash_addr : SockAddr → List ℕ
hash_addr (inet a b c d) = a ∷ b ∷ c ∷ []
hash_addr (inet6 bytes) = bytes
hash_addr other = 0 ∷ 0 ∷ 0 ∷ []

-- ngx_http_upstream_init_ip_hash_peer: `mem 2` is the allocation of the data. The `rrp` inside it is
-- never NULL.
unfoldable pub init_ip_hash_peer :
    (ℕ → Bool)
    → RrPeerData
    → UpstreamPeer
    → List Peers
    → SockAddr
    → Rc × UpstreamPeer × Option IpHashPeerData
init_ip_hash_peer mem blank r groups client =
    if not (mem 2)
    then (error, r, none)
    else (let (rc, r') = init_round_robin_peer mem (record r { rrp = some blank }) groups in
        elim rc [
          | ok ↦ (
            ok,
            record r' { get = some ip_hash },
            Option.map (λ rrp. record { rrp = rrp; hash = 89; addr = hash_addr client; tries = 0 })
                r'.rrp,
          )
          | _ ↦ (error, r', none)
        ])

-- `for (i = 0; i < addrlen; i++) hash = (hash * 113 + addr[i]) % 6271`
unfoldable pub hash_bytes : List ℕ → ℕ → ℕ
hash_bytes [] h = h
hash_bytes (b ∷ bs) h = hash_bytes bs (add64 (mul64 h 113) b % 6271)

-- `while (w >= peer->weight)`, from position p on; `none` is the end of the list, where the code
-- would follow NULL.
unfoldable pub pick : ℤ → List Peer → ℕ → Option (ℕ × Peer)
pick w [] p = none
pick w (q ∷ qs) p =
    let rest = pick (w -ℤ q.weight) qs (p + 1) in if leb_ℤ q.weight w then rest else some (p, q)

-- How the loop ends: with a peer at a position and the hash that found it, with the fall back to
-- round-robin, or at a fault (a division by zero or NULL); both numbers of tries are the last ones.
pub data Outcome : Type 0 where
  chosen : ℕ → ℕ → ℕ → Outcome
  fall_back : ℕ → Outcome
  fault : Outcome

-- The loop, with fuel for its rounds; without fuel it counts as a fault.
unfoldable pub search : ℕ → ℤ → List ℕ → Peers → List ℕ → ℕ → ℕ → Outcome
search zero now tried g addr hash tries = fault
search (suc fuel) now tried g addr hash tries =
    let hash' = hash_bytes addr hash in
    let more = search fuel now tried g addr hash' (tries + 1) in
    if g.total_weight == 0 then fault else elim (pick (pos (hash' % g.total_weight)) g.peer 0) [
      | none ↦ fault
      | some (p, peer) ↦
          (if is_skipped now tried p peer
            then if ltb 20 (tries + 1) then fall_back (tries + 1) else more
            else chosen p hash' tries)
    ]

-- A round raises `tries`, and the loop ends when it passes 20.
abbrev pub max_rounds : ℕ
max_rounds = 21

-- `return iphp->get_rr_peer(pc, &iphp->rrp)`
unfoldable pub by_round_robin :
    ℤ
    → List Peers
    → PeerConnection
    → IpHashPeerData
    → Rc × List Peers × PeerConnection × IpHashPeerData
by_round_robin now groups pc iphp =
    let (rc, groups', pc', rrp') = get_round_robin_peer now groups pc iphp.rrp in
    (rc, groups', pc', record iphp { rrp = rrp' })

-- What follows `break`.
unfoldable pub take_hashed :
    ℤ
    → List Peers
    → PeerConnection
    → IpHashPeerData
    → Peers
    → ℕ
    → ℕ
    → ℕ
    → Rc × List Peers × PeerConnection × IpHashPeerData
take_hashed now groups pc iphp g p hash tries = (
  ok,
  modify groups iphp.rrp.peers
      (λ gr. record gr { peer = modify gr.peer p (λ q. refresh now (connect q)) }),
  (elim (get_elem? g.peer p) [ none ↦ reset pc | some q ↦ address (reset pc) q ]),
  record iphp {
    rrp = record (iphp.rrp) {
      current = some (iphp.rrp.peers, p);
      tried = mark_tried iphp.rrp.tried p;
    };
    hash = hash;
    tries = tries;
  },
)

-- The way out of the loop.
unfoldable pub finish :
    ℤ
    → List Peers
    → PeerConnection
    → IpHashPeerData
    → Peers
    → Outcome
    → Option (Rc × List Peers × PeerConnection × IpHashPeerData)
finish now groups pc iphp g fault = none
finish now groups pc iphp g (fall_back tries) =
    some (by_round_robin now groups (reset pc) (record iphp { tries = tries }))
finish now groups pc iphp g (chosen p hash tries) =
    some (take_hashed now groups pc iphp g p hash tries)

-- ngx_http_upstream_get_ip_hash_peer; `none` is a fault.
unfoldable pub get_ip_hash_peer :
    ℤ
    → List Peers
    → PeerConnection
    → IpHashPeerData
    → Option (Rc × List Peers × PeerConnection × IpHashPeerData)
get_ip_hash_peer now groups pc iphp = elim (get_elem? groups iphp.rrp.peers) [
  | none ↦ none
  | some g ↦
      (if ltb 20 iphp.tries || g.single
        then some (by_round_robin now groups pc iphp)
        else finish now groups pc iphp g
            (search max_rounds now iphp.rrp.tried g iphp.addr iphp.hash iphp.tries))
]
