-- ===== src/Tests.antt =====
-- Runs of the operations on small inputs, and the theorems at concrete inputs.
pub mod Rings
mod Sync
mod Interleaved
mod Torn
mod Bounds
mod Flags
mod Handover
mod Setups
mod Aidls
mod Memory
mod Teardowns
mod Unsync
mod Transactions
mod Threads
mod Fuzzing
