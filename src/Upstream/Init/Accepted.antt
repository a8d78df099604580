-- ===== src/Upstream/Init/Accepted.antt =====
-- ngx_http_upstream_init_round_robin as a whole: the groups of an upstream that is accepted.
use inside_nginx.Base.{
  ◌∙◌, ==_iff, length-map, map, ok, ℕ, ◌≤◌, ◌<◌, ◌≡◌, refl, sym, inl, inr, Bool, true, false,
  Option, none, some, List, [], ◌∷◌, arith, ◌==◌, Bool-cases, Option-cases, length, All,
}
use inside_nginx.Upstream.Peer.{Peer, Peers}
use inside_nginx.Upstream.Init.{
  Addr, Server, SrvConf, tally, peers_of, group_of, init_servers, peer_of_host, init_host,
  init_round_robin,
}
use inside_nginx.Upstream.Init.Divided.{
  IsDivided, IsResolved, origin, origins, backups, peers_of-mains, peers_of-backups,
  map-origin_of_host,
}
use inside_nginx.Upstream.Init.Groups.{
  IsGroup, IsConf, tally-lem, group_of-IsGroup, weight_sum-host, map-host-IsPeer,
}

-- What an upstream with servers has.
abbrev pub AreGroups : List Server → List Peers → Type 0
AreGroups ss gs = (length gs ≤ 2) × All IsGroup gs × IsDivided ss gs

no_peers : (ps : List Peer) → length ps ≡ 0 → map origin ps ≡ []
no_peers [] h = refl
no_peers (p ∷ ps) h = absurd (omega (arith, h))

module _ (host : ℕ) (ss : List Server) (c : IsConf ss) where
  length-kind : (b : Bool) → (tally b ss 0 0).0 ≡ length (peers_of b ss)
  length-kind b =
      omega (arith, tally-lem b ss 0 0 c.servers_valid (omega arith) (omega arith), c.few b)

  no_backups : ((tally true ss 0 0).0 == 0) ≡ true → origins (backups ss) ≡ []
  no_backups e =
      sym (peers_of-backups ss c.servers_valid)
      ∙ no_peers (peers_of true ss) (omega (arith, length-kind true, (==_iff _ 0).0 e))

  some_peers : (b : Bool) → ((tally b ss 0 0).0 == 0) ≡ false → 0 < length (peers_of b ss)
  some_peers b e = ground (arith, length-kind b, e)

  main-IsGroup :
      (single : Bool)
      → (single ≡ true → (tally false ss 0 0).0 ≡ 1)
      → IsGroup (group_of host false single (tally false ss 0 0).0 (tally false ss 0 0).1 ss)
  main-IsGroup single only = group_of-IsGroup host false single _ _ ss c refl refl only

  alone-AreGroups :
      (single : Bool)
      → (single ≡ true → (tally false ss 0 0).0 ≡ 1)
      → ((tally false ss 0 0).0 == 0) ≡ false
      → ((tally true ss 0 0).0 == 0) ≡ true
      → AreGroups ss
          (group_of host false single (tally false ss 0 0).0 (tally false ss 0 0).1 ss ∷ [])
  unfolding group_of
  alone-AreGroups single only e b = (
    omega arith,
    (main-IsGroup single only, tt),
    (some_peers false e, peers_of-mains ss c.servers_valid, no_backups b),
  )

  both-AreGroups :
      ((tally false ss 0 0).0 == 0) ≡ false
      → ((tally true ss 0 0).0 == 0) ≡ false
      → AreGroups ss (
          group_of host false false (tally false ss 0 0).0 (tally false ss 0 0).1 ss
          ∷ group_of host true false (tally true ss 0 0).0 (tally true ss 0 0).1 ss
          ∷ [])
  unfolding group_of
  both-AreGroups e b = (
    omega arith,
    (
      main-IsGroup false (λ s. cc),
      (group_of-IsGroup host true false _ _ ss c refl refl (λ s. cc), tt),
    ),
    (
      some_peers false e,
      some_peers true b,
      peers_of-mains ss c.servers_valid,
      peers_of-backups ss c.servers_valid,
    ),
  )

init_servers-AreGroups :
    (mem : ℕ → Bool) (us : SrvConf) (ss : List Server)
    → IsConf ss
    → (init_servers mem us ss).0 ≡ ok
    → AreGroups ss (init_servers mem us ss).1.peers
unfolding init_servers
init_servers-AreGroups mem us ss c = elim (Bool-cases ((tally false ss 0 0).0 == 0)) [
  | inl e ↦ rw e (λ h. cc)
  | inr e ↦ rw e (elim (Bool-cases (mem 0)) [
    | inr f ↦ rw f (λ h. cc)
    | inl f ↦ rw f (elim (Bool-cases (mem 1)) [
      | inr k ↦ rw k (λ h. cc)
      | inl k ↦ rw k (elim (Bool-cases ((tally true ss 0 0).0 == 0)) [
        | inl b ↦ rw b (λ h.
            alone-AreGroups us.host ss c ((tally false ss 0 0).0 == 1) (λ s. ground arith) e b)
        | inr b ↦ rw b (elim (Bool-cases (mem 2)) [
          | inr m ↦ rw m (λ h. cc)
          | inl m ↦ rw m (elim (Bool-cases (mem 3)) [
            | inr l ↦ rw l (λ h. cc)
            | inl l ↦ rw l (λ h. both-AreGroups us.host ss c e b)
          ])
        ])
      ])
    ])
  ])
]

-- What an upstream of a host has.
abbrev pub AreHosts : Option (List Addr) → List Peers → Type 0
AreHosts addrs gs = (length gs ≤ 2) × All IsGroup gs × IsResolved addrs gs

init_host-AreHosts :
    (mem : ℕ → Bool) (resolve : ℕ → ℕ → Option (List Addr)) (us : SrvConf)
    → (init_host mem resolve us).0 ≡ ok
    → AreHosts (resolve us.host us.port) (init_host mem resolve us).1.peers
unfolding init_host
init_host-AreHosts mem resolve us = elim (Bool-cases (us.port == 0)) [
  | inl e ↦ rw e (λ h. cc)
  | inr e ↦ rw e (elim (Option-cases (resolve us.host us.port)) [
    | inl n ↦ rw n (λ h. cc)
    | inr (as', n) ↦ rw n (elim (Bool-cases (mem 0)) [
      | inr f ↦ rw f (λ h. cc)
      | inl f ↦ rw f (elim (Bool-cases (mem 1)) [
        | inr k ↦ rw k (λ h. cc)
        | inl k ↦ rw k (λ h. (
          omega arith,
          (
            record {
              counted = sym (length-map peer_of_host as');
              weights = sym (weight_sum-host as');
              only_peer =
                  λ s. omega (arith, length-map peer_of_host as', (==_iff (length as') 1).0 s);
              peers_valid = map-host-IsPeer as';
            },
            tt,
          ),
          map-origin_of_host as',
        ))
      ])
    ])
  ])
]

-- The servers of the configuration, if it has any, fit the words that count them.
abbrev pub IsServers : Option (List Server) → Type 0
IsServers none = Unit {0}
IsServers (some ss) = IsConf ss

-- The groups come from the servers, or from the addresses of the host.
abbrev pub IsSourced : Option (List Server) → Option (List Addr) → List Peers → Type 0
IsSourced none addrs gs = IsResolved addrs gs
IsSourced (some ss) addrs gs = IsDivided ss gs

init_round_robin_cases :
    (mem : ℕ → Bool) (resolve : ℕ → ℕ → Option (List Addr)) (us : SrvConf)
    (servers : Option (List Server))
    → us.servers ≡ servers
    → IsServers servers
    → (init_round_robin mem resolve us).0 ≡ ok
    → (length (init_round_robin mem resolve us).1.peers ≤ 2)
      × All IsGroup (init_round_robin mem resolve us).1.peers
      × IsSourced servers (resolve us.host us.port) (init_round_robin mem resolve us).1.peers
unfolding init_round_robin
init_round_robin_cases mem resolve us none e c = rw e (init_host-AreHosts mem resolve _)
init_round_robin_cases mem resolve us (some ss) e c = rw e (init_servers-AreGroups mem _ ss c)

-- An upstream that is accepted has one or two groups. With servers, the first group has a peer for
-- each address of each server that is no backup, in their order and with the weight of the server,
-- and the second has the same for the backup servers and exists exactly if these have addresses;
-- without, the one group has a peer of weight 1 for each address of the host. In each group the
-- number of peers, the total weight and `single` agree with the peers, and every peer is valid. The
-- numbers of addresses and the sums of the weights must fit a word, and each weight must be
-- below 2 ^ 63, since the peer keeps it as a signed word.
pub init_round_robin-IsGroup :
    (mem : ℕ → Bool) (resolve : ℕ → ℕ → Option (List Addr)) (us : SrvConf)
    → IsServers us.servers
    → (init_round_robin mem resolve us).0 ≡ ok
    → (length (init_round_robin mem resolve us).1.peers ≤ 2)
      × All IsGroup (init_round_robin mem resolve us).1.peers
      × IsSourced us.servers (resolve us.host us.port) (init_round_robin mem resolve us).1.peers
init_round_robin-IsGroup mem resolve us = init_round_robin_cases mem resolve us us.servers refl
