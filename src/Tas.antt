-- ===== src/Tas.antt =====
-- ps7/tasTest.c: processes that count in shared memory, under a lock taken by `tas`.
pub mod System
pub mod Invariant
pub mod Atomic
pub mod Outcome
pub mod Schedule
mod Examples
