-- ===== src/Lifecycle/Data.antt =====
-- `lifecycle_kind` and `lifecycle_data` (src/events.rs). A boundary is the value that serde makes of
-- it.
use agenttender.Common.{Bool, true, false, [], ◌∷◌, Option, some, Bytes, codes}
use agenttender.Common.Int.{pos}
use agenttender.Model.Status.{RunStatus, ExitReason, DepFailReason, as_str}
use agenttender.Lifecycle.Json.{Json, text, integer, Fields, set_field}

abbrev exit_kind : ExitReason → Bytes
exit_kind ExitReason.exited_ok = codes "run.exited"
exit_kind (ExitReason.exited_error code) = codes "run.exited"
exit_kind ExitReason.killed = codes "run.killed"
exit_kind ExitReason.killed_forced = codes "run.killed"
exit_kind ExitReason.timed_out = codes "run.timed_out"
exit_kind (ExitReason.sidecar_failed step) = codes "run.sidecar_failed"

-- `lifecycle_kind`
unfoldable pub lifecycle_kind : RunStatus → Bytes
lifecycle_kind RunStatus.starting = codes "run.starting"
lifecycle_kind (RunStatus.running c) = codes "run.started"
lifecycle_kind (RunStatus.spawn_failed t) = codes "run.spawn_failed"
lifecycle_kind (RunStatus.exited c how t) = exit_kind how
lifecycle_kind (RunStatus.sidecar_lost c t) = codes "run.sidecar_lost"
lifecycle_kind (RunStatus.dependency_failed t reason) = codes "run.dependency_failed"

abbrev with_status : Bytes → Fields → Fields
with_status status rest = (codes "status", text status) ∷ rest

abbrev reason_field : Bytes → Bytes × Json
reason_field reason = (codes "reason", text reason)

abbrev exit_fields : ExitReason → Fields
exit_fields ExitReason.exited_ok =
    reason_field (codes "ExitedOk") ∷ (codes "exit_code", integer (pos 0)) ∷ []
exit_fields (ExitReason.exited_error code) =
    reason_field (codes "ExitedError") ∷ (codes "exit_code", integer code) ∷ []
exit_fields ExitReason.killed = reason_field (codes "Killed") ∷ []
exit_fields ExitReason.killed_forced = reason_field (codes "KilledForced") ∷ []
exit_fields ExitReason.timed_out = reason_field (codes "TimedOut") ∷ []
exit_fields (ExitReason.sidecar_failed step) =
    reason_field (codes "SidecarFailed") ∷ (codes "step", text (as_str step)) ∷ []

abbrev reason_name : DepFailReason → Bytes
reason_name DepFailReason.failed = codes "Failed"
reason_name DepFailReason.timed_out = codes "TimedOut"
reason_name DepFailReason.killed = codes "Killed"
reason_name DepFailReason.killed_forced = codes "KilledForced"

unfoldable pub status_data : RunStatus → Fields
unfolding as_str
status_data RunStatus.starting = with_status (codes "Starting") []
status_data (RunStatus.running c) = with_status (codes "Running") []
status_data (RunStatus.spawn_failed t) = with_status (codes "SpawnFailed") []
status_data (RunStatus.exited c how t) = with_status (codes "Exited") (exit_fields how)
status_data (RunStatus.sidecar_lost c t) = with_status (codes "SidecarLost") []
status_data (RunStatus.dependency_failed t reason) =
    with_status (codes "DependencyFailed") (reason_field (reason_name reason) ∷ [])

abbrev is_launch : RunStatus → Bool
is_launch RunStatus.starting = true
is_launch (RunStatus.running c) = true
is_launch _ = false

abbrev with_boundary : Bool → Option Json → Fields → Fields
with_boundary true (some boundary) data_fields = set_field (codes "boundary") boundary data_fields
with_boundary _ _ data_fields = data_fields

-- `lifecycle_data`
unfoldable pub lifecycle_data : RunStatus → Bytes → Option Json → Fields
unfolding status_data set_field
lifecycle_data status provenance boundary =
    with_boundary (is_launch status) boundary
      (set_field (codes "provenance") (text provenance) (status_data status))
