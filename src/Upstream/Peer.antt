-- ===== src/Upstream/Peer.antt =====
-- The structures of ngx_http_upstream_round_robin.h, and the tests on a peer that every balancer
-- makes. Pointers to addresses and names are opaque numbers. The locks are empty macros there.
use inside_nginx.Base.{
  ℕ, Bool, false, not, ◌&&◌, ◌||◌, Option, none, List, leb, ◌==◌, if◌then◌else◌,
}
use inside_nginx.Base.Int.{ℤ, pos, ◌+ℤ◌, ◌-ℤ◌, ltb_ℤ, leb_ℤ}
use inside_nginx.Base.Words.{add64}

-- ngx_http_upstream_rr_peer_t. `next` is the order of the list that holds the peers.
pub record Peer : Type 0 where
  pub sockaddr : ℕ
  pub socklen : ℕ
  pub name : ℕ
  pub server : ℕ
  pub current_weight : ℤ
  pub effective_weight : ℤ
  pub weight : ℤ
  pub conns : ℕ
  pub max_conns : ℕ
  pub fails : ℕ
  pub accessed : ℤ
  pub checked : ℤ
  pub max_fails : ℕ
  pub fail_timeout : ℤ
  pub down : Bool

-- ngx_http_upstream_rr_peers_t, less `next`: the groups stand in a list, the backup group second.
pub record Peers : Type 0 where
  pub number : ℕ
  pub total_weight : ℕ
  pub single : Bool
  pub weighted : Bool
  pub name : ℕ
  pub peer : List Peer

-- ngx_http_upstream_rr_peer_data_t. `peers` is the position of the group in the chain of groups,
-- `current` the position of a group and of a peer in it, `tried` the words that `tried` points to
-- (`data` is the only one of them when one is enough).
pub record RrPeerData : Type 0 where
  pub config : ℕ
  pub peers : ℕ
  pub current : Option (ℕ × ℕ)
  pub tried : List ℕ

-- What the balancers write of ngx_peer_connection_t.
pub record PeerConnection : Type 0 where
  pub tries : ℕ
  pub cached : Bool
  pub connection : Option ℕ
  pub sockaddr : ℕ
  pub socklen : ℕ
  pub name : ℕ

-- `max_fails && fails >= max_fails && now - checked <= fail_timeout`
unfoldable pub is_failed_out : ℤ → Peer → Bool
is_failed_out now p =
    not (p.max_fails == 0) && (leb p.max_fails p.fails && leb_ℤ (now -ℤ p.checked) p.fail_timeout)

-- `max_conns && conns >= max_conns`
unfoldable pub is_full : Peer → Bool
is_full p = not (p.max_conns == 0) && leb p.max_conns p.conns

-- The three tests that pass a peer over, apart from the bitmap.
unfoldable pub is_unusable : ℤ → Peer → Bool
is_unusable now p = p.down || (is_failed_out now p || is_full p)

-- `current_weight += effective_weight`, then `effective_weight++` below `weight`.
unfoldable pub raise : Peer → Peer
raise p = record p {
  current_weight = p.current_weight +ℤ p.effective_weight;
  effective_weight =
      if ltb_ℤ p.effective_weight p.weight then p.effective_weight +ℤ pos 1 else p.effective_weight;
}

-- `current_weight -= total`, and `checked = now` once the time-out is over.
unfoldable pub elect : ℤ → ℤ → Peer → Peer
elect now total p = record p {
  current_weight = p.current_weight -ℤ total;
  checked = if ltb_ℤ p.fail_timeout (now -ℤ p.checked) then now else p.checked;
}

-- `checked = now` once the time-out is over.
unfoldable pub refresh : ℤ → Peer → Peer
refresh now p = record p {
  checked = if ltb_ℤ p.fail_timeout (now -ℤ p.checked) then now else p.checked;
}

-- `conns++`
unfoldable pub connect : Peer → Peer
connect p = record p { conns = add64 p.conns 1 }

-- `pc->sockaddr`, `pc->socklen` and `pc->name` from the peer.
unfoldable pub address : PeerConnection → Peer → PeerConnection
address pc p = record pc { sockaddr = p.sockaddr; socklen = p.socklen; name = p.name }

-- `pc->cached = 0; pc->connection = NULL`
unfoldable pub reset : PeerConnection → PeerConnection
reset pc = record pc { cached = false; connection = none }
