-- ===== src/Posix.antt =====
-- What the programs assume of the system's calls on descriptors, and a table that behaves so.
mod Interface
pub mod Table
pub mod Input
pub use Interface.*
