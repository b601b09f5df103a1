-- ===== src/Store.antt =====
-- store/: the node-local stores.
pub mod Options
pub mod Lru
pub mod Fnv
pub mod Sharded
pub mod Choice
mod Tests
