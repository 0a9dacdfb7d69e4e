-- ===== src/Locker/Lru.antt =====
-- src/locker/lru.rs: the accounting of an evictable locker. Its records and its clock, the state in
-- memory, and the plan of what a commit sheds.
pub mod Entries
pub mod Clearing
pub mod Clock
pub mod State
pub mod Planning
