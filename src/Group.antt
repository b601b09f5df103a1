-- ===== src/Group.antt =====
-- group.go: a cache namespace over a local cache, an optional near cache and the peers.
pub mod State
pub mod Local
pub mod Remote
pub mod Table
mod Tests
