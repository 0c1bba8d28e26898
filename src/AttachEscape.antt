-- ===== src/AttachEscape.antt =====
-- src/attach_escape.rs: the detach escape in the keystrokes of an attach client. An `Instant` is a
-- number of nanoseconds.
pub mod Keys
pub mod Tokens
pub mod Parser
pub mod Progress
pub mod Order
pub mod Reads
pub mod Sessions
pub mod Plain
pub mod Deadline
