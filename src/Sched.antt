-- ===== src/Sched.antt =====
-- The scheduler of ps9/sched.c: its state and calls, the runs they make, the invariant of these
-- runs, and what each call does.
pub mod Types
pub mod Switch
pub mod Calls
pub mod Machine
pub mod Invariant
pub mod Select
pub mod Keep
pub mod Moves
pub mod Death
pub mod Reap
pub mod Safety
pub mod Priority
pub mod Choice
pub mod Fork
pub mod Family
pub mod Handover
pub mod Lonely
pub mod Stack
pub mod Frames
pub mod Copied
pub mod Shuffle
pub mod Change
pub mod Births
pub mod Effects
pub mod Count
pub mod Lives
pub mod Graves
pub mod Demo
pub mod OwnPid
pub mod Listing
mod StackExamples
mod Examples
