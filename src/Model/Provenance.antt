-- ===== src/Model/Provenance.antt =====
-- src/model/provenance.rs: who concluded a transition, and from what evidence.
use agenttender.Common.{Bool, true, false, List}

pub data Evidence : Type 0 where
  sidecar_write child_spawned child_exit_observed spawn_failed_syscall : Evidence
  dependency_failed lock_released non_terminal_meta event_log_terminal : Evidence
  supervision_failed orphan_killed : Evidence

pub data TransitionProvenance : Type 0 where
  direct : List Evidence → TransitionProvenance
  inferred : List Evidence → TransitionProvenance

abbrev pub is_direct : TransitionProvenance → Bool
is_direct (direct e) = true
is_direct (inferred e) = false

abbrev pub is_inferred : TransitionProvenance → Bool
is_inferred (direct e) = false
is_inferred (inferred e) = true
