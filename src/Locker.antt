-- ===== src/Locker.antt =====
-- src/locker: chunked values, the byte budget, the shared machinery of the lockers, transactions.
pub mod Policy
pub mod Chunk
pub mod Inner
pub mod Lru
pub mod Io
pub mod Epochs
pub mod Transaction
pub mod Resident
pub mod Lazy
pub mod Eager
