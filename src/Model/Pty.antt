-- ===== src/Model/Pty.antt =====
-- src/model/pty.rs: the PTY part of a session's metadata.
use agenttender.Common.{ℕ, Bool, true, Option, none, Bytes}

pub data PtyControl : Type 0 where
  agent_control human_control : PtyControl

pub data RecordingStopReason : Type 0 where
  size_limit : RecordingStopReason
  write_failed : Bytes → RecordingStopReason
  backlog_full stalled : RecordingStopReason

-- The numbers are the last recorded and the last synced sequence.
pub data RecordingState : Type 0 where
  recording : RecordingState
  complete : Option ℕ → Option ℕ → RecordingState
  stopped : Option ℕ → Option ℕ → RecordingStopReason → RecordingState

pub record PtyRecording : Type 0 where
  pub dir : Bytes
  pub input_recorded : Bool
  pub state : RecordingState

pub record PtyMeta : Type 0 where
  pub enabled : Bool
  pub control : PtyControl
  pub recording : Option PtyRecording

-- `PtyMeta::new`
abbrev pub new : PtyMeta
new = record { enabled = true; control = agent_control; recording = none }
