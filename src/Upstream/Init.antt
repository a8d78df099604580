-- ===== src/Upstream/Init.antt =====
-- ngx_http_upstream_init_round_robin, ngx_http_upstream_init_round_robin_peer and
-- ngx_http_upstream_create_round_robin_peer: the groups of peers from the configuration, and the
-- state of a request.
--
-- The parameter `mem` says of each allocation of a call, by its number in the text of the function,
-- whether it succeeds; memory from ngx_pcalloc is zero. The resolver and the printer of socket
-- addresses are parameters.
pub mod Divided
pub mod Groups
pub mod Accepted
pub mod Bitmap
use inside_nginx.Base.{
  ok, error, map, ℕ, ◌+◌, ◌*◌, Bool, true, false, not, Option, none, some, List, [], ◌∷◌, ◌++◌, ltb,
  leb, ◌==◌, if◌then◌else◌, Rc, length, replicate,
}
use inside_nginx.Base.Int.{ℤ, pos}
use inside_nginx.Base.Words.{add64, mul64, to_s64}
use inside_nginx.Upstream.Peer.{Peer, Peers, RrPeerData}
use inside_nginx.Upstream.Tried.{word_bits, words_for}

pub record Addr : Type 0 where
  pub sockaddr : ℕ
  pub socklen : ℕ
  pub name : ℕ

-- ngx_http_upstream_server_t; `naddrs` is the length of `addrs`.
pub record Server : Type 0 where
  pub name : ℕ
  pub addrs : List Addr
  pub weight : ℕ
  pub max_conns : ℕ
  pub max_fails : ℕ
  pub fail_timeout : ℤ
  pub down : Bool
  pub backup : Bool

-- The functions that `peer.init` and `peer.get` can point to.
pub data Balancer : Type 0 where
  round_robin least_conn ip_hash : Balancer

-- ngx_http_upstream_srv_conf_t; `peers` is the chain of groups that `peer.data` points to.
pub record SrvConf : Type 0 where
  pub servers : Option (List Server)
  pub host : ℕ
  pub port : ℕ
  pub init : Option Balancer
  pub peers : List Peers

-- `server[i].backup`, or its negation, as the loop over one kind of servers tests it.
unfoldable pub is_kind : Bool → Server → Bool
is_kind true s = s.backup
is_kind false s = not s.backup

-- The loops that add to n and w the addresses and the weights of the servers of one kind.
unfoldable pub tally : Bool → List Server → ℕ → ℕ → ℕ × ℕ
tally backup [] n w = (n, w)
tally backup (s ∷ ss) n w =
    let counted = is_kind backup s in
    tally backup ss (if counted then add64 n (length s.addrs) else n)
      (if counted then add64 w (mul64 (length s.addrs) s.weight) else w)

-- The peer of one address. The weight of the server is unsigned, that of the peer is signed.
unfoldable pub peer_of : Server → Addr → Peer
peer_of s a = record {
  sockaddr = a.sockaddr;
  socklen = a.socklen;
  name = a.name;
  server = s.name;
  current_weight = pos 0;
  effective_weight = to_s64 s.weight;
  weight = to_s64 s.weight;
  conns = 0;
  max_conns = s.max_conns;
  fails = 0;
  accessed = pos 0;
  checked = pos 0;
  max_fails = s.max_fails;
  fail_timeout = s.fail_timeout;
  down = s.down;
}

-- The peers of the servers of one kind, in the order of the addresses.
unfoldable pub peers_of : Bool → List Server → List Peer
peers_of backup [] = []
peers_of backup (s ∷ ss) =
    (if is_kind backup s then map (peer_of s) s.addrs else []) ++ peers_of backup ss

-- The group of n peers and total weight w.
unfoldable pub group_of : ℕ → Bool → Bool → ℕ → ℕ → List Server → Peers
group_of host backup single n w ss = record {
  number = n;
  total_weight = w;
  single = single;
  weighted = not (w == n);
  name = host;
  peer = peers_of backup ss;
}

-- The part of ngx_http_upstream_init_round_robin under `if (us->servers)`.
unfoldable pub init_servers : (ℕ → Bool) → SrvConf → List Server → Rc × SrvConf
init_servers mem us ss =
    let (n, w) = tally false ss 0 0 in
    let (bn, bw) = tally true ss 0 0 in
    let main = λ (single : Bool). group_of us.host false single n w ss in
    let alone = record us { peers = main (n == 1) ∷ [] } in
    if n == 0
    then (error, us)
    else if not (mem 0)
    then (error, us)
    else if not (mem 1)
    then (error, us)
    else if bn == 0
    then (ok, alone)
    else if not (mem 2)
    then (error, alone)
    else if not (mem 3)
    then (error, alone)
    else (ok, record us { peers = main false ∷ group_of us.host true false bn bw ss ∷ [] })

-- A peer of an upstream that is defined by a host alone.
unfoldable pub peer_of_host : Addr → Peer
peer_of_host a = record {
  sockaddr = a.sockaddr;
  socklen = a.socklen;
  name = a.name;
  server = 0;
  current_weight = pos 0;
  effective_weight = pos 1;
  weight = pos 1;
  conns = 0;
  max_conns = 0;
  fails = 0;
  accessed = pos 0;
  checked = pos 0;
  max_fails = 1;
  fail_timeout = pos 10;
  down = false;
}

-- The rest of ngx_http_upstream_init_round_robin. `resolve` is ngx_inet_resolve_host.
unfoldable pub init_host : (ℕ → Bool) → (ℕ → ℕ → Option (List Addr)) → SrvConf → Rc × SrvConf
init_host mem resolve us = if us.port == 0 then (error, us) else elim (resolve us.host us.port) [
  | none ↦ (error, us)
  | some addrs ↦
      (let n = length addrs in
        if not (mem 0) then (error, us) else if not (mem 1) then (error, us) else (
          ok,
          record us {
            peers =
                record {
                  number = n;
                  total_weight = n;
                  single = n == 1;
                  weighted = false;
                  name = us.host;
                  peer = map peer_of_host addrs;
                }
                ∷ [];
          },
        ))
]

-- ngx_http_upstream_init_round_robin
unfoldable pub init_round_robin : (ℕ → Bool) → (ℕ → ℕ → Option (List Addr)) → SrvConf → Rc × SrvConf
unfolding init_servers init_host
init_round_robin mem resolve us =
    let us' = record us { init = some round_robin } in
    elim us.servers [ some ss ↦ init_servers mem us' ss | none ↦ init_host mem resolve us' ]

-- What the request keeps in r->upstream->peer.
pub record UpstreamPeer : Type 0 where
  pub rrp : Option RrPeerData
  pub get : Option Balancer
  pub tries : ℕ

-- ngx_http_upstream_tries
unfoldable pub upstream_tries : List Peers → ℕ
upstream_tries [] = 0
upstream_tries (g ∷ []) = g.number
upstream_tries (g ∷ next ∷ gs) = add64 g.number next.number

-- The larger number of peers of the first two groups.
unfoldable pub most_peers : List Peers → ℕ
most_peers [] = 0
most_peers (g ∷ []) = g.number
most_peers (g ∷ next ∷ gs) = if ltb g.number next.number then next.number else g.number

-- The bitmap for n peers: `data` alone, or words from ngx_pcalloc.
unfoldable pub bitmap_for : Bool → ℕ → Option (List ℕ)
bitmap_for alloc n =
    if leb n word_bits
    then some (0 ∷ [])
    else if alloc
    then some (replicate (words_for n) 0)
    else none

-- The state of a request at the first group; the bitmap is written next.
unfoldable pub fresh_data : List ℕ → RrPeerData
fresh_data tried = record { config = 0; peers = 0; current = none; tried = tried }

-- `rrp` is allocated unless the request has one.
unfoldable pub has_data : (ℕ → Bool) → Option RrPeerData → Bool
has_data mem none = mem 0
has_data mem (some rrp) = true

-- ngx_http_upstream_init_round_robin_peer. Where the bitmap cannot be allocated, `tried` is NULL.
unfoldable pub init_round_robin_peer : (ℕ → Bool) → UpstreamPeer → List Peers → Rc × UpstreamPeer
init_round_robin_peer mem r groups = elim (has_data mem r.rrp) [
  | false ↦ (error, r)
  | true ↦ (elim (bitmap_for (mem 1) (most_peers groups)) [
    | none ↦ (error, record r { rrp = some (fresh_data []) })
    | some tried ↦ (
      ok,
      record {
        rrp = some (fresh_data tried);
        get = some round_robin;
        tries = upstream_tries groups;
      },
    )
  ])
]

-- ngx_http_upstream_resolved_t. `name` is `none` where `name.data` is NULL.
pub record Resolved : Type 0 where
  pub host : ℕ
  pub port : ℕ
  pub naddrs : ℕ
  pub addrs : List Addr
  pub sockaddr : Option ℕ
  pub socklen : ℕ
  pub name : Option ℕ

-- The loop over the addresses: each takes a copy of its address, with the port, and a text of it.
-- `set_port` is ngx_inet_set_port and `ntop` is ngx_sock_ntop; allocation i asks `mem` for the copy
-- at 4 + 2 i and for the text at 5 + 2 i. `none` is an allocation that failed.
unfoldable pub resolved_peers :
    (ℕ → Bool) → (ℕ → ℕ → ℕ) → (ℕ → ℕ → ℕ) → ℕ → ℕ → List Addr → Option (List Peer)
resolved_peers mem set_port ntop port i [] = some []
resolved_peers mem set_port ntop port i (a ∷ as') =
    let rest = resolved_peers mem set_port ntop port (i + 1) as' in
    if not (mem (4 + 2 * i)) then none else if not (mem (5 + 2 * i)) then none else elim rest [
      | none ↦ none
      | some ps ↦ some (
          peer_of_host (record {
            sockaddr = set_port a.sockaddr port;
            socklen = a.socklen;
            name = ntop (set_port a.sockaddr port) a.socklen;
          })
          ∷ ps)
    ]

-- `if (ur->sockaddr)`: one peer of the address at hand, else one of each address.
unfoldable pub created_peers :
    (ℕ → Bool) → (ℕ → ℕ → ℕ) → (ℕ → ℕ → ℕ) → Resolved → Option (List Peer)
created_peers mem set_port ntop ur = elim ur.sockaddr [
  | some sockaddr ↦ some (
      peer_of_host (record {
        sockaddr = sockaddr;
        socklen = ur.socklen;
        name = elim ur.name [ some name ↦ name | none ↦ ur.host ];
      })
      ∷ [])
  | none ↦ resolved_peers mem set_port ntop ur.port 0 ur.addrs
]

-- The group that a request makes for itself. `total_weight` and `weighted` stay zero.
unfoldable pub created_group : Resolved → List Peer → Peers
created_group ur ps = record {
  number = ur.naddrs;
  total_weight = 0;
  single = ur.naddrs == 1;
  weighted = false;
  name = ur.host;
  peer = ps;
}

-- ngx_http_upstream_create_round_robin_peer: the state of the request and the groups of its own. An
-- allocated `rrp` with no field written yet counts as none.
unfoldable pub create_round_robin_peer :
    (ℕ → Bool)
    → (ℕ → ℕ → ℕ)
    → (ℕ → ℕ → ℕ)
    → UpstreamPeer
    → Resolved
    → Rc × UpstreamPeer × List Peers
create_round_robin_peer mem set_port ntop r ur =
    if not (has_data mem r.rrp)
    then (error, r, [])
    else if not (mem 1)
    then (error, r, [])
    else if not (mem 2)
    then (error, r, [])
    else elim (created_peers mem set_port ntop ur) [
      | none ↦ (error, r, [])
      | some ps ↦
          (let groups = created_group ur ps ∷ [] in
            elim (bitmap_for (mem 3) ur.naddrs) [
              | none ↦ (error, record r { rrp = some (fresh_data []) }, groups)
              | some tried ↦ (
                ok,
                record {
                  rrp = some (fresh_data tried);
                  get = some round_robin;
                  tries = upstream_tries groups;
                },
                groups,
              )
            ])
    ]
