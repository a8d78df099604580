-- ===== src/Upstream/Tests/Hashed.antt =====
-- Runs of the balancers by address and by connections.
use inside_nginx.Base.Bits.{set_bit, test_bit}
use inside_nginx.Upstream.Tried.{mark_tried, is_tried}
use inside_nginx.Base.{
  ok, ℕ, ◌%◌, ◌≤◌, ◌<◌, ◌≡◌, refl, ◌↔◌, inr, true, false, none, some, List, [], ◌∷◌, arith, Rc,
  get_elem?, All,
}
use inside_nginx.Base.Int.{pos, ◌-ℤ◌}
use inside_nginx.Upstream.Peer.{
  Peer, Peers, PeerConnection, is_unusable, is_failed_out, is_full, elect,
}
use inside_nginx.Upstream.Tests.{
  peer_with, two_peers, group_with, two_groups, new_request, new_connection,
}
use inside_nginx.Upstream.Init.Groups.{IsGroup, weight_sum}
use inside_nginx.Upstream.RoundRobin.{is_skipped}
use inside_nginx.Upstream.RoundRobin.Invariant.{IsPeer}
use inside_nginx.Upstream.IpHash.{IpHashPeerData, hash_bytes, get_ip_hash_peer}
use inside_nginx.Upstream.IpHash.Taken.{IsTaken}
use inside_nginx.Upstream.IpHash.Slot.{IsSlot, IsWeighted, hash_spec, hash_bytes_lem, weight_before}
use inside_nginx.Upstream.IpHash.Search.{get_ip_hash_peer-total, get_ip_hash_peer-slot}
use inside_nginx.Upstream.LeastConn.{get_least, scan_least, lighter, load}
use inside_nginx.Upstream.LeastConn.Ratio.{IsSmall}
use inside_nginx.Upstream.LeastConn.Choice.{IsLeast, get_least-IsLeast, get_least-none_iff}

abbrev client : IpHashPeerData
client = record { rrp = new_request; hash = 89; addr = 10 ∷ 0 ∷ 1 ∷ []; tries = 0 }

IsPeer-of_small : (w conns : ℕ) → conns ≤ 10 → IsPeer (peer_with w conns)
IsPeer-of_small w conns h = record {
  low = ground arith;
  high = ground arith;
  conns_word = omega arith;
  max_word = omega arith;
  limit = inr h;
}

two_peers-IsGroup : IsGroup (group_with two_peers)
unfolding weight_sum
two_peers-IsGroup = record {
  counted = refl;
  weights = refl;
  only_peer = λ h. ground (arith, h);
  peers_valid = (IsPeer-of_small 2 1 (omega arith), (IsPeer-of_small 1 0 (omega arith), tt));
}

get_ip_hash_peer-total_example :
    (r : Rc × List Peers × PeerConnection × IpHashPeerData) × (get_ip_hash_peer
        (pos 100)
        two_groups
        new_connection
        client
      ≡ some r)
get_ip_hash_peer-total_example =
    get_ip_hash_peer-total (pos 100) two_groups new_connection client (group_with two_peers) refl
      two_peers-IsGroup (omega arith)

weights-IsWeighted : All IsWeighted two_peers
weights-IsWeighted = (ground arith, (ground arith, tt))

two_weights : 2 < weight_sum two_peers
unfolding weight_sum
two_weights = omega arith

hash_bytes_lem_example :
    (hash_bytes (10 ∷ 0 ∷ 1 ∷ []) 89 ≡ hash_spec (10 ∷ 0 ∷ 1 ∷ []) 89)
    × (hash_bytes (10 ∷ 0 ∷ 1 ∷ []) 89 < 6271)
hash_bytes_lem_example =
    hash_bytes_lem (10 ∷ 0 ∷ 1 ∷ []) 89 (omega arith, (omega arith, (omega arith, tt)))
      (omega arith)

client-IsSlot : IsSlot (hash_bytes (10 ∷ 0 ∷ 1 ∷ []) 89 % 3) two_peers 0 0 (peer_with 2 1)
unfolding weight_before hash_bytes
client-IsSlot = record {
  offset = 0;
  place = refl;
  found = refl;
  low = omega arith;
  high = omega arith;
}

client_free : is_skipped (pos 100) (0 ∷ []) 0 (peer_with 2 1) ≡ false
unfolding is_skipped is_tried test_bit is_unusable is_failed_out is_full
client_free = refl

get_ip_hash_peer-slot_example :
    (groups' : List Peers) × (pc' : PeerConnection) × (iphp' : IpHashPeerData) × (get_ip_hash_peer
        (pos 100)
        two_groups
        new_connection
        client
      ≡ some (ok, groups', pc', iphp'))
    × IsTaken two_groups client (group_with two_peers) 0 (peer_with 2 1) groups' pc' iphp'
    × (iphp'.hash ≡ hash_bytes (10 ∷ 0 ∷ 1 ∷ []) 89)
    × (iphp'.tries ≡ 0)
get_ip_hash_peer-slot_example =
    get_ip_hash_peer-slot (pos 100) two_groups new_connection client (group_with two_peers) 0
      (peer_with 2 1) refl two_peers-IsGroup (omega arith) (omega arith) refl client-IsSlot
      client_free (omega arith)

two_peers-AreSmall : All IsSmall two_peers
two_peers-AreSmall = (
  record { positive = omega arith; weight_small = omega arith; conns_small = omega arith },
  (record { positive = omega arith; weight_small = omega arith; conns_small = omega arith }, tt),
)

-- The second peer has no connection yet.
least_choice :
    get_least (pos 100) (0 ∷ []) two_peers
    ≡ some (1, peer_with 2 1 ∷ record (peer_with 1 0) { checked = pos 100 } ∷ [], 2 ∷ [])
unfolding get_least scan_least lighter is_skipped is_tried test_bit is_unusable is_failed_out
    is_full load elect mark_tried ◌-ℤ◌ set_bit
least_choice = refl

get_least-IsLeast_example : (b : Peer) × IsLeast (pos 100) (0 ∷ []) two_peers 1 b
get_least-IsLeast_example =
    get_least-IsLeast (pos 100) (0 ∷ []) two_peers two_peers-AreSmall least_choice

get_least-none_iff_example : (get_least (pos 100) (3 ∷ []) two_peers ≡ none) ↔ (
    (j : ℕ) (q : Peer) → get_elem? two_peers j ≡ some q → is_skipped (pos 100) (3 ∷ []) j q ≡ true)
get_least-none_iff_example = get_least-none_iff (pos 100) (3 ∷ []) two_peers two_peers-AreSmall
