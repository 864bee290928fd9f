-- ===== src/FifoTest.antt =====
-- ps7/fifoTest.c: one writer, or many, and a reader on a fifo that they share.
pub mod Fifo
pub mod Numbers
pub mod System
pub mod Order
pub mod Progress
pub mod Pair
pub mod Sequence
mod Examples
