-- ===== src/Upstream/RoundRobin/Release.antt =====
-- ngx_http_upstream_free_round_robin_peer after an answer of ngx_http_upstream_get_round_robin_peer.
use inside_nginx.Base.{◌+◌, ◌≡◌, Option, some, List}
use inside_nginx.Upstream.Peer.{Peer, Peers, PeerConnection}
use inside_nginx.Upstream.RoundRobin.Request.{total_conns, AreValid}

-- Giving back the peer that an answer leased: it succeeds, the peers together count one connection
-- less, and valid peers stay valid.
pub record IsReturned (groups : List Peers) (out : Option (List Peers × PeerConnection))
    : Type 0 where
  pub groups' : List Peers
  pub pc' : PeerConnection
  pub returned : out ≡ some (groups', pc')
  pub counted : total_conns groups' + 1 ≡ total_conns groups
  pub valid : AreValid groups → AreValid groups'
