-- ===== src/Recorder.antt =====
-- src/recorder.rs: the recorder of one run. Producers queue records under a lock, the writer thread
-- appends them to segments, and a stop ends the recording at the last completed append.
pub mod State
pub mod Storage
pub mod Writer
pub mod System
pub mod Reach
mod SideKept
mod Kept
pub mod Stops
pub mod Layout
mod Appends
pub mod Ledger
pub mod Holds
mod Steps
pub mod Recorded
pub mod Ending
pub mod Size
pub mod Limit
pub mod Chunks
