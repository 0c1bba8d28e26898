-- ===== src/Examples/Lifecycle.antt =====
-- Sessions that run, fail, are lost and are healed, and a declared boundary.
use agenttender.Common.{◌≡◌, refl, ◌⊎◌, true, false, List, [], ◌∷◌, Option, none, some, ok, codes}
use agenttender.Model.Ids.{RunId, SessionName, ProcessIdentity, EpochTimestamp}
use agenttender.Model.Generation.{first}
use agenttender.Model.Boundary.{Boundary, container}
use agenttender.Model.Spec.{LaunchSpec, no_stdin, pipes, no_exec}
use agenttender.Model.Meta.{Meta, new_starting}
use agenttender.Model.Status.{
  output_log, child_wait, is_terminal, child, ended_at, starting, running, exited, exited_ok,
  sidecar_failed,
}
use agenttender.Model.Transition.{
  Orphan, orphan_child, healed_exited, reconcile_sidecar_lost, heal_terminal_from_event,
}
use agenttender.Model.Transition.Ops.{
  Op, run_child, fail_spawn, observe_exit, fail_sidecar, lose_sidecar, apply, run,
}
use agenttender.Model.Transition.Errors.{apply_error_unchanged, run_terminal}
use agenttender.Model.Transition.Graph.{apply-⟶, ◌⟶◌, run-child, reconcile_sidecar_lost_ends}
use agenttender.Model.Transition.Explained.{Explains, new_starting-Explains}
use agenttender.Model.Transition.Healing.{heal-event_of}

abbrev image : Boundary
image = record { kind = container; label = codes "app:v1" }

abbrev shell : LaunchSpec
shell = record {
  argv = codes "bash" ∷ [];
  cwd = none;
  env = [];
  timeout_s = none;
  after = [];
  after_any_exit = false;
  namespace = none;
  on_exit = [];
  stdin_mode = no_stdin;
  io_mode = pipes;
  exec_target = no_exec;
  boundary = none;
}

abbrev run_1 : RunId
run_1 = record {
  uuid = 1 ∷ 144 ∷ 2 ∷ 3 ∷ 4 ∷ 5 ∷ 112 ∷ 7 ∷ 128 ∷ 9 ∷ 10 ∷ 11 ∷ 12 ∷ 13 ∷ 14 ∷ 15 ∷ [];
}

abbrev dev : SessionName
dev = record { text = codes "dev" }

abbrev process : ProcessIdentity
process = record { pid = 41; start_time_ns = 7 }

abbrev spawned : ProcessIdentity
spawned = record { pid = 42; start_time_ns = 9 }

abbrev noon : EpochTimestamp
noon = record { secs = 1000 }

abbrev later : EpochTimestamp
later = record { secs = 2000 }

abbrev fresh : Meta
fresh = new_starting dev run_1 first shell process noon

abbrev failed_life : List Op
failed_life =
    run_child spawned
    ∷ fail_spawn later
    ∷ fail_sidecar process output_log later
    ∷ lose_sidecar later none
    ∷ []

failed_life_status :
    (run failed_life fresh).status ≡ exited spawned (sidecar_failed output_log) later
unfolding run apply new_starting
failed_life_status = refl

apply_error_unchanged_example : (apply (observe_exit exited_ok later) fresh).0 ≡ fresh
unfolding apply new_starting
apply_error_unchanged_example = apply_error_unchanged (observe_exit exited_ok later) fresh refl

abbrev over : Meta
over = (apply (fail_spawn noon) fresh).0

run_terminal_example : (run failed_life over).status ≡ over.status
run_terminal_example = run_terminal failed_life over (unfold apply new_starting in refl)

apply-⟶_example : fresh.status ⟶ (apply (run_child spawned) fresh).0.status
apply-⟶_example = apply-⟶ (run_child spawned) fresh refl (unfold apply new_starting in refl)

abbrev busy : Meta
busy = (apply (run_child spawned) fresh).0

run-child_example : child (run failed_life busy).status ≡ some spawned
run-child_example = run-child failed_life busy spawned (unfold apply new_starting in refl)

abbrev orphan : Option Orphan
orphan = some (record { child = spawned; was_killed = true })

reconcile_sidecar_lost_ends_example :
    let (m', r) = reconcile_sidecar_lost later orphan fresh in
    (r ≡ ok tt)
    × (is_terminal m'.status ≡ true)
    × (ended_at m'.status ≡ some later)
    × (((c : ProcessIdentity) × (fresh.status ≡ running c) × (child m'.status ≡ some c))
        ⊎ ((fresh.status ≡ starting) × (child m'.status ≡ orphan_child orphan)))
reconcile_sidecar_lost_ends_example =
    reconcile_sidecar_lost_ends later orphan fresh (unfold new_starting in refl)

abbrev reached : Meta
reached = run failed_life (new_starting dev run_1 first shell process noon)

new_starting-Explains_example : Explains reached.status reached.transition_provenance
new_starting-Explains_example = new_starting-Explains dev run_1 first shell process noon failed_life

heal-event_of_example :
    let (m', r) =
      heal_terminal_from_event
        (healed_exited (sidecar_failed child_wait))
        later
        (some spawned)
        fresh in
    (r ≡ ok tt) × (m'.status ≡ (apply (fail_sidecar spawned child_wait later) fresh).0.status)
heal-event_of_example =
    heal-event_of (fail_sidecar spawned child_wait later) fresh
      (healed_exited (sidecar_failed child_wait)) later (some spawned) refl
      (unfold apply new_starting in refl)
