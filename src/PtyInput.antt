-- ===== src/PtyInput.antt =====
-- src/pty_input.rs: the writer thread that owns a PTY's input authority, and its two queues.
pub mod Items
pub mod Serving
pub mod Rounds
pub mod Capacity
pub mod Cancelled
pub mod Answers
pub mod Totals
pub mod Once
