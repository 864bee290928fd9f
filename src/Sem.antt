-- ===== src/Sem.antt =====
-- ps7/sem.c and ps7/sem.h: counting semaphores in shared memory, with SIGUSR1 to wake the sleepers.
pub mod System
pub mod Invariant
pub mod Wakeup
pub mod Delivery
mod Examples
