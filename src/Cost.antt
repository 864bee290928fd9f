-- ===== src/Cost.antt =====
-- ps8/costTest.c: measures the time of 100000 rounds of a loop.
pub mod Parts
pub mod Elapsed
mod Examples
