-- ===== src/Upstream/Tests.antt =====
-- Runs of the balancers on two peers of the weights 2 and 1.
mod RoundRobin
mod Init
mod Hashed
use inside_nginx.Base.{
  ℕ, zero, suc, ◌+◌, ◌-◌, ◌*◌, ◌/◌, ◌%◌, ◌^◌, ◌≤◌, ◌<◌, ◌≡◌, refl, sym, ap, ap₂, ◌∙◌, ◌≢◌, ◌↔◌, ◌⊎◌,
  inl, inr, Bool, true, false, not, ◌&&◌, ◌||◌, Option, none, some, List, [], ◌∷◌, ◌++◌, arith, ltb,
  leb, ◌==◌, if◌then◌else◌, Bool-cases, Option-cases, Rc, length, get_elem?, get_or, set, modify,
  replicate, All,
}
use inside_nginx.Base.Int.{
  ℤ, pos, negsuc, ◌+ℤ◌, ◌-ℤ◌, ◌≤ℤ◌, ◌<ℤ◌, int_laws, parts_of_eq, ltb_ℤ, leb_ℤ, pos_part, neg_part,
}
use inside_nginx.Base.Words.{add64, mul64, sub64, to_u64}
use inside_nginx.Upstream.Peer.{
  Peer, Peers, RrPeerData, PeerConnection, is_unusable, is_failed_out, is_full, raise, elect,
  connect, address, reset,
}

-- A peer of a weight, with a number of connections, at most 10 of them, and at most one failure.
abbrev pub peer_with : ℕ → ℕ → Peer
peer_with w conns = record {
  sockaddr = w;
  socklen = 16;
  name = w;
  server = 0;
  current_weight = pos 0;
  effective_weight = pos w;
  weight = pos w;
  conns = conns;
  max_conns = 10;
  fails = 0;
  accessed = pos 0;
  checked = pos 0;
  max_fails = 1;
  fail_timeout = pos 10;
  down = false;
}

abbrev pub two_peers : List Peer
two_peers = peer_with 2 1 ∷ peer_with 1 0 ∷ []

abbrev pub group_with : List Peer → Peers
group_with ps = record {
  number = length ps;
  total_weight = 3;
  single = false;
  weighted = true;
  name = 7;
  peer = ps;
}

-- The only peer of a backup group.
abbrev pub backup : Peers
backup = record (group_with (peer_with 3 0 ∷ [])) { single = true }

abbrev pub two_groups : List Peers
two_groups = group_with two_peers ∷ backup ∷ []

abbrev pub new_request : RrPeerData
new_request = record { config = 0; peers = 0; current = none; tried = 0 ∷ [] }

abbrev pub new_connection : PeerConnection
new_connection = record {
  tries = 3;
  cached = true;
  connection = some 5;
  sockaddr = 0;
  socklen = 0;
  name = 0;
}
