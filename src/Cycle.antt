-- ===== src/Cycle.antt =====
-- ngx_cycle.c: what a cycle keeps from one configuration to the next.
pub mod Zones
pub mod Sockets
pub mod Files
pub mod Load
pub mod Init
pub mod Clean
mod Tests
