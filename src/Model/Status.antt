-- ===== src/Model/Status.antt =====
-- src/model/state.rs and src/model/dep_fail.rs: the status of a run.
pub mod Steps
use agenttender.Common.{
  ℕ, Bool, true, false, List, [], ◌∷◌, Option, none, some, Bytes, codes, bytes_eq, if◌then◌else◌,
}
use agenttender.Common.Int.{ℤ}
use agenttender.Model.Ids.{ProcessIdentity, EpochTimestamp}

pub data DepFailReason : Type 0 where
  failed timed_out killed killed_forced : DepFailReason

pub data SidecarStep : Type 0 where
  breadcrumb stdin_transport attach_bind running_meta readiness output_log child_wait : SidecarStep

-- The code of `exited_error` is not zero.
pub data ExitReason : Type 0 where
  exited_ok : ExitReason
  exited_error : ℤ → ExitReason
  killed killed_forced timed_out : ExitReason
  sidecar_failed : SidecarStep → ExitReason

pub data RunStatus : Type 0 where
  starting : RunStatus
  running : ProcessIdentity → RunStatus
  spawn_failed : EpochTimestamp → RunStatus
  exited : ProcessIdentity → ExitReason → EpochTimestamp → RunStatus
  sidecar_lost : Option ProcessIdentity → EpochTimestamp → RunStatus
  dependency_failed : EpochTimestamp → DepFailReason → RunStatus

-- `SidecarStep::as_str`
unfoldable pub as_str : SidecarStep → Bytes
as_str breadcrumb = codes "breadcrumb"
as_str stdin_transport = codes "stdin_transport"
as_str attach_bind = codes "attach_bind"
as_str running_meta = codes "running_meta"
as_str readiness = codes "readiness"
as_str output_log = codes "output_log"
as_str child_wait = codes "child_wait"

-- `find(|step| step.as_str() == name)`
find_step : Bytes → List SidecarStep → Option SidecarStep
find_step name [] = none
find_step name (s ∷ rest) = if bytes_eq (as_str s) name then some s else find_step name rest

abbrev pub wire_order : List SidecarStep
wire_order =
    breadcrumb ∷ stdin_transport ∷ attach_bind ∷ running_meta ∷ readiness ∷ output_log ∷ child_wait
    ∷ []

-- `SidecarStep::from_wire`
unfoldable pub from_wire : Bytes → Option SidecarStep
unfolding find_step as_str bytes_eq
from_wire name = find_step name wire_order

-- `RunStatus::is_terminal`
abbrev pub is_terminal : RunStatus → Bool
is_terminal starting = false
is_terminal (running c) = false
is_terminal _ = true

-- `RunStatus::child`
abbrev pub child : RunStatus → Option ProcessIdentity
child starting = none
child (spawn_failed t) = none
child (dependency_failed t r) = none
child (running c) = some c
child (exited c how t) = some c
child (sidecar_lost c t) = c

-- `RunStatus::ended_at`
abbrev pub ended_at : RunStatus → Option EpochTimestamp
ended_at starting = none
ended_at (running c) = none
ended_at (spawn_failed t) = some t
ended_at (exited c how t) = some t
ended_at (sidecar_lost c t) = some t
ended_at (dependency_failed t r) = some t
