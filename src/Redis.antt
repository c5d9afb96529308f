-- ===== src/Redis.antt =====
-- Redis, which the backend calls and does not implement.
mod Interface
pub mod Memory
pub use Interface.*
