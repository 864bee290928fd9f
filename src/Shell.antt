-- ===== src/Shell.antt =====
-- ps3/main.c: a shell that runs one command a line, with redirections.
pub mod Command
pub mod Tokens
pub mod Split
pub mod Redirect
pub mod Announce
pub mod Child
pub mod Streams
pub mod Run
pub mod Parent
pub mod Script
mod Examples
mod RunExamples
