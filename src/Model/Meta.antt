-- ===== src/Model/Meta.antt =====
-- src/model/meta.rs: the persisted metadata of one session.
use agenttender.Common.{
  ℕ, List, [], ◌∷◌, ◌++◌, Option, none, some, Result, ok, err, ◌==◌, if◌then◌else◌, Bytes,
}
use agenttender.Model.Ids.{RunId, SessionName, ProcessIdentity, EpochTimestamp}
use agenttender.Model.Generation.{Generation}
use agenttender.Model.Spec.{LaunchSpec}
use agenttender.Model.Status.{RunStatus, starting}
use agenttender.Model.Provenance.{TransitionProvenance}
use agenttender.Model.Pty.{PtyMeta, PtyControl, PtyRecording}

pub record Meta : Type 0 where
  pub schema_version : ℕ
  pub session : SessionName
  pub run_id : RunId
  pub generation : Generation
  pub launch_spec : LaunchSpec
  pub sidecar : ProcessIdentity
  pub status : RunStatus
  pub started_at : EpochTimestamp
  pub restart_count : ℕ
  pub warnings : List Bytes
  pub pty : Option PtyMeta
  pub transition_provenance : Option TransitionProvenance

abbrev pub schema : ℕ
schema = 1

-- `Meta::new_starting`
unfoldable pub new_starting :
    SessionName → RunId → Generation → LaunchSpec → ProcessIdentity → EpochTimestamp → Meta
new_starting session run_id generation launch_spec sidecar started_at = record {
  schema_version = schema;
  session = session;
  run_id = run_id;
  generation = generation;
  launch_spec = launch_spec;
  sidecar = sidecar;
  status = starting;
  started_at = started_at;
  restart_count = 0;
  warnings = [];
  pty = none;
  transition_provenance = none;
}

unfoldable pub add_warning : Bytes → Meta → Meta
add_warning msg m = record m { warnings = m.warnings ++ (msg ∷ []) }

unfoldable pub set_pty : PtyMeta → Meta → Meta
set_pty p m = record m { pty = some p }

unfoldable pub set_pty_control : PtyControl → Meta → Meta
set_pty_control c m = elim m.pty [
  | none ↦ m
  | some p ↦ record m { pty = some (record p { control = c }) }
]

unfoldable pub set_pty_recording : PtyRecording → Meta → Meta
set_pty_recording r m = elim m.pty [
  | none ↦ m
  | some p ↦ record m { pty = some (record p { recording = some r }) }
]

unfoldable pub set_transition_provenance : TransitionProvenance → Meta → Meta
set_transition_provenance p m = record m { transition_provenance = some p }

pub data SchemaError : Type 0 where
  unsupported_schema : ℕ → SchemaError

-- The check that `deserialize` makes on the fields serde read.
unfoldable pub deserialize_meta : Meta → Result SchemaError Meta
deserialize_meta raw =
    if raw.schema_version == schema then ok raw else err (unsupported_schema raw.schema_version)
