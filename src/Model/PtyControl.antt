-- ===== src/Model/PtyControl.antt =====
-- src/model/pty_control.rs: who may write to a PTY, and what a write acknowledgement means. A
-- method on `&mut self` returns the new value of `self` beside its result. Epochs are u64 numbers.
pub mod Arbiter
pub mod Requests
