-- ===== src/Cat.antt =====
-- ps1/main.c: copies files one behind another, as its options say.
pub mod Options
pub mod Shift
pub mod CommandLine
pub mod Copy
pub mod Content
pub mod Success
pub mod Main
mod Examples
