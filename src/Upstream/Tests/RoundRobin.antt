-- ===== src/Upstream/Tests/RoundRobin.antt =====
-- Runs of ngx_http_upstream_round_robin.c.
use inside_nginx.Upstream.RoundRobin.Chain.{get_from-busy_iff, AllExhausted}
use inside_nginx.Upstream.RoundRobin.Request.{
  get_round_robin_peer-IsLease, IsLease, AreValid, total_conns,
}
use inside_nginx.Base.Bits.{set_bit, test_bit}
use inside_nginx.Upstream.RoundRobin.Invariant.{conns_of, IsPeer}
use inside_nginx.Base.{
  ok, busy, ok, busy, ℕ, ◌+◌, ◌^◌, ◌≤◌, ◌<◌, ◌≡◌, refl, ◌↔◌, inr, true, false, none, some, List, [],
  ◌∷◌, arith, ◌==◌, if◌then◌else◌, get_elem?,
}
use inside_nginx.Base.Int.{pos, negsuc, ◌+ℤ◌, ◌-ℤ◌}
use inside_nginx.Upstream.Peer.{Peer, is_unusable, is_failed_out, is_full, raise, elect}
use inside_nginx.Upstream.Tried.{is_tried, mark_tried}
use inside_nginx.Upstream.Tests.{peer_with, two_peers, two_groups, new_request, new_connection}
use inside_nginx.Upstream.RoundRobin.{
  take_peer, choose, walk_to, get_from, get_round_robin_peer, get_peer, scan, better, is_skipped,
}
use inside_nginx.Upstream.RoundRobin.Choice.{
  get_peer-none_iff, is_tried-get_peer, get_peer-IsChoice, current_sum-get_peer, IsChoice,
  current_sum,
}

-- The peers after the first choice.
abbrev two_after : List Peer
two_after =
    record (peer_with 2 1) { current_weight = negsuc 0; checked = pos 100 }
    ∷ record (peer_with 1 0) { current_weight = pos 1 }
    ∷ []

first_choice : get_peer (pos 100) (0 ∷ []) two_peers ≡ some (0, two_after, 1 ∷ [])
unfolding get_peer scan better is_skipped is_tried mark_tried is_unusable is_failed_out is_full
    raise elect test_bit set_bit ◌+ℤ◌ ◌-ℤ◌
first_choice = refl

get_peer-IsChoice_example : IsChoice (pos 100) (0 ∷ []) two_peers 0
get_peer-IsChoice_example = get_peer-IsChoice (pos 100) (0 ∷ []) two_peers first_choice

current_sum-get_peer_example : current_sum two_after ≡ current_sum two_peers
current_sum-get_peer_example = current_sum-get_peer (pos 100) (0 ∷ []) two_peers first_choice

-- Both peers are marked.
get_peer-none_iff_example : (get_peer (pos 100) (3 ∷ []) two_peers ≡ none) ↔ (
    (j : ℕ) (q : Peer) → get_elem? two_peers j ≡ some q → is_skipped (pos 100) (3 ∷ []) j q ≡ true)
get_peer-none_iff_example = get_peer-none_iff (pos 100) (3 ∷ []) two_peers

is_tried-get_peer_example :
    (is_tried (0 ∷ []) 0 ≡ false)
    × ((j : ℕ) → is_tried (1 ∷ []) j ≡ (if j == 0 then true else is_tried (0 ∷ []) j))
is_tried-get_peer_example =
    is_tried-get_peer (pos 100) (0 ∷ []) two_peers (omega arith) first_choice

get_from-busy_iff_example :
    ((get_from (pos 100) two_groups new_connection new_request).0 ≡ busy)
    ↔ AllExhausted (pos 100) (0 ∷ []) two_groups
get_from-busy_iff_example =
    get_from-busy_iff (pos 100) two_groups new_connection new_request (refl, (refl, tt))

IsPeer-peer_with : (w conns : ℕ) → conns ≤ 10 → IsPeer (peer_with w conns)
IsPeer-peer_with w conns h = record {
  low = ground arith;
  high = ground arith;
  conns_word = omega arith;
  max_word = omega arith;
  limit = inr h;
}

two_groups-AreValid : AreValid two_groups
two_groups-AreValid = (
  (IsPeer-peer_with 2 1 (omega arith), (IsPeer-peer_with 1 0 (omega arith), tt)),
  ((IsPeer-peer_with 3 0 (omega arith), tt), tt),
)

few_conns : total_conns two_groups + 1 < 2 ^ 64
unfolding total_conns conns_of
few_conns = omega arith

answered : (get_round_robin_peer (pos 100) two_groups new_connection new_request).0 ≡ ok
unfolding get_round_robin_peer walk_to get_from choose get_peer scan better is_skipped is_tried
    mark_tried is_unusable is_failed_out is_full raise elect test_bit set_bit ◌+ℤ◌ ◌-ℤ◌ take_peer
answered = refl

get_round_robin_peer-IsLease_example :
    (let r = get_round_robin_peer (pos 100) two_groups new_connection new_request in
      IsLease two_groups r.1 r.2 r.3)
get_round_robin_peer-IsLease_example =
    get_round_robin_peer-IsLease (pos 100) two_groups new_connection new_request few_conns
      two_groups-AreValid answered
