-- ===== src/Pager.antt =====
-- ps4/main.c: `catgrepmore`, which feeds each file to `grep` and its output to a pager.
pub mod Pipes
pub mod Processes
pub mod Tables
pub mod Files
pub mod Feed
pub mod Fed
mod Examples
