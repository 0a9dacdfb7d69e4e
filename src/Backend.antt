-- ===== src/Backend.antt =====
-- src/backend: the storage contract, the in-memory backend, and what is proved of them.
pub mod Api
pub mod Memory
