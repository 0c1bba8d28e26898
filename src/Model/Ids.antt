-- ===== src/Model/Ids.antt =====
-- src/model/ids.rs: identities of runs, sessions and processes.
use agenttender.Common.{ℕ, Option, some, none, if◌then◌else◌, ◌==◌, Bytes}

-- The 16 bytes of the UUID, as `Uuid::as_bytes` gives them.
pub record RunId : Type 0 where
  pub uuid : Bytes

-- `RunId::from_v7`; `version_num` is `Uuid::get_version_num`.
unfoldable pub from_v7 : (Bytes → ℕ) → Bytes → Option RunId
from_v7 version_num uuid = if version_num uuid == 7 then some (record { uuid = uuid }) else none

-- The text of a validated name, in UTF-8.
pub record SessionName : Type 0 where
  pub text : Bytes

-- `pid` is not zero.
pub record ProcessIdentity : Type 0 where
  pub pid : ℕ
  pub start_time_ns : ℕ

unfoldable pub already_exited : ℕ → ProcessIdentity
already_exited pid = record { pid = pid; start_time_ns = 0 }

-- Seconds.
pub record EpochTimestamp : Type 0 where
  pub secs : ℕ
