-- ===== src/Model/Transition.antt =====
-- src/model/transition.rs: the lifecycle transitions of a session. A method on `&mut self` that
-- returns `Result<(), TransitionError>` returns the session's metadata and that result.
pub mod Ops
pub mod Errors
pub mod Graph
pub mod Explained
pub mod Healing
use agenttender.Common.{
  Bool, true, false, List, [], ◌∷◌, ◌++◌, Option, none, some, Result, ok, err, String,
  if◌then◌else◌, ◌&&◌,
}
use agenttender.Model.Ids.{ProcessIdentity, EpochTimestamp}
use agenttender.Model.Meta.{Meta, set_transition_provenance}
use agenttender.Model.Status.{RunStatus, ExitReason, DepFailReason, SidecarStep, is_terminal}
use agenttender.Model.Provenance.{
  TransitionProvenance, direct, inferred, sidecar_write, child_spawned, child_exit_observed,
  spawn_failed_syscall, dependency_failed, lock_released, non_terminal_meta, event_log_terminal,
  supervision_failed, orphan_killed,
}

pub data TransitionError : Type 0 where
  already_terminal : String → TransitionError
  illegal : String → String → TransitionError

pub record Orphan : Type 0 where
  pub child : ProcessIdentity
  pub was_killed : Bool

pub data HealedTerminal : Type 0 where
  healed_exited : ExitReason → HealedTerminal
  healed_spawn_failed : HealedTerminal
  healed_dependency_failed : DepFailReason → HealedTerminal

exit_name : ExitReason → String
exit_name ExitReason.exited_ok = "ExitedOk"
exit_name (ExitReason.exited_error code) = "ExitedError"
exit_name ExitReason.killed = "Killed"
exit_name ExitReason.killed_forced = "KilledForced"
exit_name ExitReason.timed_out = "TimedOut"
exit_name (ExitReason.sidecar_failed step) = "SidecarFailed"

unfoldable pub status_name : RunStatus → String
unfolding exit_name
status_name RunStatus.starting = "Starting"
status_name (RunStatus.running c) = "Running"
status_name (RunStatus.spawn_failed t) = "SpawnFailed"
status_name (RunStatus.exited c how t) = exit_name how
status_name (RunStatus.sidecar_lost c t) = "SidecarLost"
status_name (RunStatus.dependency_failed t r) = "DependencyFailed"

abbrev pub Outcome : Type 0
Outcome = Meta × Result TransitionError (Unit {0})

-- `*self.status_mut() = s; self.set_transition_provenance(p); Ok(())`
enter : RunStatus → TransitionProvenance → Meta → Outcome
unfolding set_transition_provenance
enter s p m = (set_transition_provenance p (record m { status = s }), ok tt)

refuse_terminal : Meta → Outcome
refuse_terminal m = (m, err (already_terminal (status_name m.status)))

abbrev refuse : String → String → Meta → Outcome
refuse from to m = (m, err (illegal from to))

unfoldable pub transition_running : ProcessIdentity → Meta → Outcome
unfolding enter refuse_terminal
transition_running child m = elim m.status [
  | RunStatus.starting ↦
      enter (RunStatus.running child) (direct (sidecar_write ∷ child_spawned ∷ [])) m
  | RunStatus.running c ↦ refuse "Running" "Running" m
  | _ ↦ refuse_terminal m
]

unfoldable pub transition_spawn_failed : EpochTimestamp → Meta → Outcome
unfolding enter refuse_terminal
transition_spawn_failed ended_at m = elim m.status [
  | RunStatus.starting ↦
      enter (RunStatus.spawn_failed ended_at) (direct (sidecar_write ∷ spawn_failed_syscall ∷ [])) m
  | RunStatus.running c ↦ refuse "Running" "SpawnFailed" m
  | _ ↦ refuse_terminal m
]

abbrev pub is_sidecar_failed : ExitReason → Bool
is_sidecar_failed (ExitReason.sidecar_failed step) = true
is_sidecar_failed _ = false

unfoldable pub transition_exited : ExitReason → EpochTimestamp → Meta → Outcome
unfolding enter refuse_terminal
transition_exited how ended_at m =
    if is_sidecar_failed how
    then refuse (status_name m.status) "SidecarFailed (use transition_sidecar_failed)" m
    else elim m.status [
      | RunStatus.running c ↦
          enter (RunStatus.exited c how ended_at)
            (direct (sidecar_write ∷ child_exit_observed ∷ [])) m
      | RunStatus.starting ↦ refuse "Starting" "Exited" m
      | _ ↦ refuse_terminal m
    ]

-- The part of `transition_sidecar_failed` behind its match.
enter_sidecar_failed : ProcessIdentity → SidecarStep → EpochTimestamp → Meta → Outcome
unfolding enter
enter_sidecar_failed child step ended_at m =
    enter (RunStatus.exited child (ExitReason.sidecar_failed step) ended_at)
      (direct (sidecar_write ∷ supervision_failed ∷ [])) m

unfoldable pub transition_sidecar_failed :
    ProcessIdentity → SidecarStep → EpochTimestamp → Meta → Outcome
unfolding enter_sidecar_failed refuse_terminal
transition_sidecar_failed child step ended_at m = elim m.status [
  | RunStatus.starting ↦ enter_sidecar_failed child step ended_at m
  | RunStatus.running c ↦ enter_sidecar_failed c step ended_at m
  | _ ↦ refuse_terminal m
]

unfoldable pub transition_dependency_failed : EpochTimestamp → DepFailReason → Meta → Outcome
unfolding enter refuse_terminal
transition_dependency_failed ended_at reason m = elim m.status [
  | RunStatus.starting ↦
      enter (RunStatus.dependency_failed ended_at reason)
        (direct (sidecar_write ∷ dependency_failed ∷ [])) m
  | RunStatus.running c ↦ refuse "Running" "DependencyFailed" m
  | _ ↦ refuse_terminal m
]

-- `orphan.is_some_and(|o| o.killed)`
abbrev pub orphan_was_killed : Option Orphan → Bool
orphan_was_killed none = false
orphan_was_killed (some o) = o.was_killed

-- `orphan.map(|o| o.child)`
abbrev pub orphan_child : Option Orphan → Option ProcessIdentity
orphan_child none = none
orphan_child (some o) = some o.child

-- The part of `reconcile_sidecar_lost` behind its match.
enter_sidecar_lost : Option ProcessIdentity → EpochTimestamp → Option Orphan → Meta → Outcome
unfolding enter
enter_sidecar_lost child ended_at orphan m =
    let base = lock_released ∷ non_terminal_meta ∷ [] in
    enter (RunStatus.sidecar_lost child ended_at)
      (inferred (if orphan_was_killed orphan then base ++ (orphan_killed ∷ []) else base)) m

unfoldable pub reconcile_sidecar_lost : EpochTimestamp → Option Orphan → Meta → Outcome
unfolding enter_sidecar_lost refuse_terminal
reconcile_sidecar_lost ended_at orphan m = elim m.status [
  | RunStatus.starting ↦ enter_sidecar_lost (orphan_child orphan) ended_at orphan m
  | RunStatus.running c ↦ enter_sidecar_lost (some c) ended_at orphan m
  | _ ↦ refuse_terminal m
]

-- The status that the first four arms of `heal_terminal_from_event` set.
heal_target :
    RunStatus → HealedTerminal → EpochTimestamp → Option ProcessIdentity → Option RunStatus
heal_target (RunStatus.running c) (healed_exited how) t spawned = some (RunStatus.exited c how t)
heal_target RunStatus.starting (healed_exited (ExitReason.sidecar_failed step)) t (some c) =
    some (RunStatus.exited c (ExitReason.sidecar_failed step) t)
heal_target RunStatus.starting healed_spawn_failed t spawned = some (RunStatus.spawn_failed t)
heal_target RunStatus.starting (healed_dependency_failed reason) t spawned =
    some (RunStatus.dependency_failed t reason)
heal_target _ _ _ _ = none

unfoldable pub heal_terminal_from_event :
    HealedTerminal → EpochTimestamp → Option ProcessIdentity → Meta → Outcome
unfolding heal_target enter refuse_terminal
heal_terminal_from_event healed ended_at spawned_child m =
    elim (heal_target m.status healed ended_at spawned_child) [
      | some s ↦ enter s (direct (event_log_terminal ∷ [])) m
      | none ↦
          if is_terminal m.status
          then refuse_terminal m
          else refuse (status_name m.status) "healed terminal" m
    ]

abbrev pub is_exited_sidecar_failed : RunStatus → Bool
is_exited_sidecar_failed (RunStatus.exited c (ExitReason.sidecar_failed step) t) = true
is_exited_sidecar_failed _ = false

-- `self.transition_provenance() == Some(&direct(&[EventLogTerminal]))`
abbrev pub healed_only : Option TransitionProvenance → Bool
healed_only (some (direct (event_log_terminal ∷ []))) = true
healed_only _ = false

unfoldable pub record_healed_orphan_killed : Meta → Outcome
unfolding set_transition_provenance
record_healed_orphan_killed m =
    if is_exited_sidecar_failed m.status && healed_only m.transition_provenance
    then (set_transition_provenance (direct (event_log_terminal ∷ orphan_killed ∷ [])) m, ok tt)
    else refuse (status_name m.status) "healed SidecarFailed with a killed orphan" m
