-- ===== src/Examples.antt =====
-- Runs of the modelled code on concrete inputs, and its theorems at them.
pub mod Values
pub mod Backends
pub mod Lockers
pub mod Accounting
pub mod Streams
pub mod Residents
pub mod Eagers
