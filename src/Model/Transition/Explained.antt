-- ===== src/Model/Transition/Explained.antt =====
-- The recorded provenance explains the status.
use agenttender.Common.{◌≡◌, refl, arith, ◌⊎◌, List, [], ◌∷◌, Option, none, some}
use agenttender.Model.Ids.{RunId, SessionName, ProcessIdentity, EpochTimestamp}
use agenttender.Model.Generation.{Generation}
use agenttender.Model.Spec.{LaunchSpec}
use agenttender.Model.Meta.{Meta, new_starting}
use agenttender.Model.Provenance.{
  TransitionProvenance, direct, inferred, sidecar_write, child_spawned, child_exit_observed,
  spawn_failed_syscall, lock_released, non_terminal_meta, event_log_terminal, supervision_failed,
  orphan_killed, is_inferred,
}
use agenttender.Model.Provenance
use agenttender.Model.Status.{
  RunStatus, starting, running, spawn_failed, exited, sidecar_lost, dependency_failed,
  sidecar_failed,
}
use agenttender.Model.Transition.Ops.{Op, run_child, apply, run}

abbrev FromLog : Option TransitionProvenance → Type 0
FromLog p = p ≡ some (direct (event_log_terminal ∷ []))

-- What may stand as the provenance beside each status.
abbrev pub Explains : RunStatus → Option TransitionProvenance → Type 0
Explains starting p = p ≡ none
Explains (running c) p = p ≡ some (direct (sidecar_write ∷ child_spawned ∷ []))
Explains (spawn_failed t) p =
    (p ≡ some (direct (sidecar_write ∷ spawn_failed_syscall ∷ []))) ⊎ FromLog p
Explains (exited c (sidecar_failed step) t) p =
    (p ≡ some (direct (sidecar_write ∷ supervision_failed ∷ [])))
    ⊎ FromLog p
    ⊎ (p ≡ some (direct (event_log_terminal ∷ orphan_killed ∷ [])))
Explains (exited c how t) p =
    (p ≡ some (direct (sidecar_write ∷ child_exit_observed ∷ []))) ⊎ FromLog p
Explains (sidecar_lost c t) p =
    (p ≡ some (inferred (lock_released ∷ non_terminal_meta ∷ [])))
    ⊎ (p ≡ some (inferred (lock_released ∷ non_terminal_meta ∷ orphan_killed ∷ [])))
Explains (dependency_failed t reason) p =
    (p ≡ some (direct (sidecar_write ∷ Provenance.dependency_failed ∷ []))) ⊎ FromLog p

apply-Explains :
    (op : Op) (m : Meta)
    → Explains m.status m.transition_provenance
    → Explains (apply op m).0.status (apply op m).0.transition_provenance
unfolding apply
apply-Explains (run_child c) m h = ground arith
apply-Explains _ m h = ground arith

run-Explains :
    (ops : List Op) (m : Meta)
    → Explains m.status m.transition_provenance
    → Explains (run ops m).status (run ops m).transition_provenance
unfolding run
run-Explains [] m h = h
run-Explains (op ∷ ops) m h = run-Explains ops (apply op m).0 (apply-Explains op m h)

module _ (session : SessionName) (run_id : RunId) (generation : Generation) (spec : LaunchSpec)
    (sidecar : ProcessIdentity) (started_at : EpochTimestamp) (ops : List Op) where
  abbrev reached : Meta
  reached = run ops (new_starting session run_id generation spec sidecar started_at)

  -- In every metadata that a history makes from a new session, the provenance explains the
  -- status: none before the child runs, and then exactly the evidence that the transition into
  -- this status leaves, or that reconciliation leaves when it applies a record of the event log.
  pub new_starting-Explains : Explains reached.status reached.transition_provenance
  unfolding new_starting
  new_starting-Explains =
      run-Explains ops (new_starting session run_id generation spec sidecar started_at) refl
