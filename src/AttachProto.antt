-- ===== src/AttachProto.antt =====
-- src/attach_proto.rs: the frames of the attach socket, and their bytes. A writer that does not
-- fail is the bytes written to it; a reader is the bytes that are still to come.
pub mod Outcome
pub mod Frame
pub mod Reader
