-- ===== src/Mmap.antt =====
-- ps5/main.c: what becomes of writes through a mapping of a file.
pub mod Calls
pub mod Questions
pub mod Answers
pub mod Behind
pub mod Disk
pub mod Main
mod Examples
