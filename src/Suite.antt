-- ===== src/Suite.antt =====
-- The eight tests, src/*.c.
pub mod Rounds
pub mod Calls
pub mod Initialize
pub mod Basic
pub mod Message
pub mod Memory
pub mod Synchronization
pub mod Cooperative
pub mod Preemptive
pub mod Interrupt
pub mod InterruptPreemption
pub mod Reports
pub mod Snapshot
