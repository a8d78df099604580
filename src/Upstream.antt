-- ===== src/Upstream.antt =====
-- The upstream load balancers of ngx_http_upstream_round_robin.c and of the modules built on it.
pub mod Peer
pub mod Tried
pub mod RoundRobin
pub mod Init
pub mod IpHash
pub mod LeastConn
pub mod Directive
mod Tests
