-- ===== src/Upstream/Init/Groups.antt =====
-- The groups that ngx_http_upstream_init_round_robin builds.
use inside_nginx.Base.{
  length-map, All-append, map, length-append, ℕ, ◌+◌, ◌*◌, ◌%◌, ◌^◌, ◌<◌, ◌≡◌, refl, inl, inr, Bool,
  true, false, List, [], ◌∷◌, ◌++◌, arith, Bool-cases, length, All,
}
use inside_nginx.Base.Int.{pos_part}
use inside_nginx.Base.Words.{add64, mul64}
use inside_nginx.Upstream.Peer.{Peer, Peers}
use inside_nginx.Upstream.Init.Divided.{IsServer, to_s64-small}
use inside_nginx.Upstream.RoundRobin.Invariant.{IsPeer}
use inside_nginx.Upstream.Init.{
  Addr, Server, is_kind, tally, peer_of, peers_of, group_of, peer_of_host,
}

-- The sum of the weights of the peers.
unfoldable pub weight_sum : List Peer → ℕ
weight_sum [] = 0
weight_sum (p ∷ ps) = pos_part p.weight + weight_sum ps

-- The numbers that a group keeps agree with its peers, and every peer is valid.
pub record IsGroup (g : Peers) : Type 0 where
  pub counted : g.number ≡ length g.peer
  pub weights : g.total_weight ≡ weight_sum g.peer
  pub only_peer : g.single ≡ true → length g.peer ≡ 1
  pub peers_valid : All IsPeer g.peer

weight_sum-append : (xs ys : List Peer) → weight_sum (xs ++ ys) ≡ weight_sum xs + weight_sum ys
unfolding weight_sum
weight_sum-append [] ys = omega arith
weight_sum-append (x ∷ xs) ys = omega (arith, weight_sum-append xs ys)

weight_sum-map :
    (s : Server) (as' : List Addr)
    → IsServer s
    → weight_sum (map (peer_of s) as') ≡ length as' * s.weight
unfolding weight_sum peer_of
weight_sum-map s [] v = omega arith
weight_sum-map s (a ∷ as') v =
    rw (to_s64-small s.weight v.0) (omega (arith, weight_sum-map s as' v))

module _ (b : Bool) (s : Server) (ss : List Server) where
  tally-counted :
      (n w : ℕ)
      → is_kind b s ≡ true
      → tally b (s ∷ ss) n w
        ≡ tally b ss (add64 n (length s.addrs)) (add64 w (mul64 (length s.addrs) s.weight))
  unfolding tally
  tally-counted n w e = rw (e, tally)

  tally-passed : (n w : ℕ) → is_kind b s ≡ false → tally b (s ∷ ss) n w ≡ tally b ss n w
  unfolding tally
  tally-passed n w e = rw (e, tally)

  peers_of-counted :
      is_kind b s ≡ true → peers_of b (s ∷ ss) ≡ map (peer_of s) s.addrs ++ peers_of b ss
  unfolding peers_of
  peers_of-counted e = rw e

  peers_of-passed : is_kind b s ≡ false → peers_of b (s ∷ ss) ≡ peers_of b ss
  unfolding peers_of
  peers_of-passed e = rw e

  length-peers_of :
      is_kind b s ≡ true → length (peers_of b (s ∷ ss)) ≡ length s.addrs + length (peers_of b ss)
  length-peers_of e = rw (peers_of-counted e) (
      omega (
        arith,
        length-append (map (peer_of s) s.addrs) (peers_of b ss),
        length-map (peer_of s) s.addrs,
      ))

  weight_sum-peers_of :
      IsServer s
      → is_kind b s ≡ true
      → weight_sum (peers_of b (s ∷ ss)) ≡ length s.addrs * s.weight + weight_sum (peers_of b ss)
  weight_sum-peers_of v e = rw (peers_of-counted e) (
      omega (
        arith,
        weight_sum-append (map (peer_of s) s.addrs) (peers_of b ss),
        weight_sum-map s s.addrs v,
      ))

-- The loops count the peers and their weights, modulo the word.
pub tally-lem :
    (b : Bool) (ss : List Server) (n w : ℕ)
    → All IsServer ss
    → n < 2 ^ 64
    → w < 2 ^ 64
    → ((tally b ss n w).0 ≡ (n + length (peers_of b ss)) % 2 ^ 64)
      × ((tally b ss n w).1 ≡ (w + weight_sum (peers_of b ss)) % 2 ^ 64)
unfolding tally peers_of weight_sum
tally-lem b [] n w v hn hw = omega arith
tally-lem b (s ∷ ss) n w v hn hw = elim (Bool-cases (is_kind b s)) [
  | inl e ↦
      rw (tally-counted b s ss n w e, length-peers_of b s ss e, weight_sum-peers_of b s ss v.0 e)
        (omega (
          arith,
          tally-lem b ss (add64 n (length s.addrs)) (add64 w (mul64 (length s.addrs) s.weight)) v.1
              (omega arith) (omega arith),
        ))
  | inr e ↦ rw (tally-passed b s ss n w e, peers_of-passed b s ss e) (tally-lem b ss n w v.1 hn hw)
]

peer_of-IsPeer : (s : Server) (a : Addr) → IsServer s → IsPeer (peer_of s a)
unfolding peer_of
peer_of-IsPeer s a h = rw (to_s64-small s.weight h.0) (omega (arith, h.0, h.1))

map-IsPeer : (s : Server) (as' : List Addr) → IsServer s → All IsPeer (map (peer_of s) as')
map-IsPeer s [] h = tt
map-IsPeer s (a ∷ as') h = (peer_of-IsPeer s a h, map-IsPeer s as' h)

pub peers_of-IsPeer : (b : Bool) (ss : List Server) → All IsServer ss → All IsPeer (peers_of b ss)
unfolding peers_of
peers_of-IsPeer b [] h = tt
peers_of-IsPeer b (s ∷ ss) h = elim (Bool-cases (is_kind b s)) [
  | inl e ↦ rw e (All-append IsPeer _ _ (map-IsPeer s s.addrs h.0) (peers_of-IsPeer b ss h.1))
  | inr e ↦ rw e (peers_of-IsPeer b ss h.1)
]

-- The addresses and the weights of both kinds of servers fit a word.
pub record IsConf (ss : List Server) : Type 0 where
  pub servers_valid : All IsServer ss
  pub few : (b : Bool) → length (peers_of b ss) < 2 ^ 64
  pub light : (b : Bool) → weight_sum (peers_of b ss) < 2 ^ 64

pub group_of-IsGroup :
    (host : ℕ) (b single : Bool) (n w : ℕ) (ss : List Server)
    → IsConf ss
    → n ≡ (tally b ss 0 0).0
    → w ≡ (tally b ss 0 0).1
    → (single ≡ true → n ≡ 1)
    → IsGroup (group_of host b single n w ss)
unfolding group_of
group_of-IsGroup host b single n w ss c en ew only = record {
  counted = count;
  weights =
      omega (arith, tally-lem b ss 0 0 c.servers_valid (omega arith) (omega arith), c.light b);
  only_peer = λ s. omega (arith, count, only s);
  peers_valid = peers_of-IsPeer b ss c.servers_valid;
}
  where
    count : n ≡ length (peers_of b ss)
    count = omega (arith, tally-lem b ss 0 0 c.servers_valid (omega arith) (omega arith), c.few b)

-- The group of the addresses of a host: each peer has weight 1.
peer_of_host-IsPeer : (a : Addr) → IsPeer (peer_of_host a)
unfolding peer_of_host
peer_of_host-IsPeer a = omega arith

pub map-host-IsPeer : (as' : List Addr) → All IsPeer (map peer_of_host as')
map-host-IsPeer [] = tt
map-host-IsPeer (a ∷ as') = (peer_of_host-IsPeer a, map-host-IsPeer as')

pub weight_sum-host : (as' : List Addr) → weight_sum (map peer_of_host as') ≡ length as'
unfolding weight_sum peer_of_host
weight_sum-host [] = refl
weight_sum-host (a ∷ as') = omega (arith, weight_sum-host as')
