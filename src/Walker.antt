-- ===== src/Walker.antt =====
-- ps2/main.c: lists the files below a directory, with filters on the owner and the time.
pub mod Stat
pub mod Permissions
pub mod Filter
pub mod Listing
pub mod Paths
pub mod Print
pub mod Main
pub mod Report
pub mod Output
pub mod Line
mod Examples
mod ReportExamples
