-- ===== src/Upstream/Tests/Init.antt =====
-- Runs of the set-up of groups and requests.
use inside_nginx.Base.{
  ok, ℕ, ◌^◌, ◌≤◌, ◌<◌, ◌≡◌, refl, Bool, true, false, Option, none, some, List, [], ◌∷◌, arith,
  length, All,
}
use inside_nginx.Base.Int.{pos}
use inside_nginx.Upstream.Tests.{two_groups}
use inside_nginx.Upstream.Init.{
  Addr, Server, SrvConf, UpstreamPeer, init_round_robin, init_round_robin_peer, init_servers,
  peers_of, is_kind, tally, peer_of, most_peers, bitmap_for, has_data,
}
use inside_nginx.Upstream.Init.Groups.{IsConf, IsGroup, weight_sum}
use inside_nginx.Upstream.Init.Divided.{IsDivided}
use inside_nginx.Upstream.Init.Accepted.{init_round_robin-IsGroup}

abbrev address_of : ℕ → Addr
address_of n = record { sockaddr = n; socklen = 16; name = n }

abbrev server_with : ℕ → List Addr → Bool → Server
server_with w as' backup = record {
  name = 1;
  addrs = as';
  weight = w;
  max_conns = 0;
  max_fails = 1;
  fail_timeout = pos 10;
  down = false;
  backup = backup;
}

-- A server of two addresses, one of a single address, and a backup server.
abbrev servers : List Server
servers =
    server_with 2 (address_of 1 ∷ address_of 2 ∷ []) false
    ∷ server_with 5 (address_of 3 ∷ []) false
    ∷ server_with 1 (address_of 4 ∷ []) true
    ∷ []

abbrev conf : SrvConf
conf = record { servers = some servers; host = 7; port = 80; init = none; peers = [] }

abbrev resolve_none : ℕ → ℕ → Option (List Addr)
resolve_none host port = none

few_servers : (b : Bool) → length (peers_of b servers) < 2 ^ 64
unfolding peers_of is_kind peer_of
few_servers true = omega arith
few_servers false = omega arith

light_servers : (b : Bool) → weight_sum (peers_of b servers) < 2 ^ 64
unfolding peers_of is_kind peer_of weight_sum
light_servers true = omega arith
light_servers false = omega arith

servers-IsConf : IsConf servers
servers-IsConf = record {
  servers_valid =
      ((omega arith, omega arith), ((omega arith, omega arith), ((omega arith, omega arith), tt)));
  few = few_servers;
  light = light_servers;
}

accepted : (init_round_robin (λ i. true) resolve_none conf).0 ≡ ok
unfolding init_round_robin init_servers tally is_kind
accepted = refl

init_round_robin-IsGroup_example :
    (length (init_round_robin (λ i. true) resolve_none conf).1.peers ≤ 2)
    × All IsGroup (init_round_robin (λ i. true) resolve_none conf).1.peers
    × IsDivided servers (init_round_robin (λ i. true) resolve_none conf).1.peers
init_round_robin-IsGroup_example =
    init_round_robin-IsGroup (λ i. true) resolve_none conf servers-IsConf accepted

abbrev no_data : UpstreamPeer
no_data = record { rrp = none; get = none; tries = 0 }

started : (init_round_robin_peer (λ i. true) no_data two_groups).0 ≡ ok
unfolding init_round_robin_peer has_data bitmap_for most_peers
started = refl
