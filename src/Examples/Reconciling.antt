-- ===== src/Examples/Reconciling.antt =====
-- Sessions whose sidecar is gone: a crash before the metadata was written, a child still alive, and
-- a PID that another process has taken over.
use agenttender.Common.{
  true, false, ◌≡◌, refl, List, [], ◌∷◌, Option, none, some, ok, bytes_eq, codes,
}
use agenttender.Common.Int.{pos}
use agenttender.Model.Ids.{RunId, ProcessIdentity, EpochTimestamp}
use agenttender.Model.Generation.{first}
use agenttender.Model.Spec.{LaunchSpec, no_stdin, pipes, no_exec}
use agenttender.Model.Meta.{Meta, new_starting}
use agenttender.Model.Status.{output_log, starting, exited, exited_error, sidecar_failed}
use agenttender.Model.Transition.{healed_exited}
use agenttender.Model.Transition.Ops.{Op, fail_sidecar, apply}
use agenttender.Lifecycle.Data.{lifecycle_data, lifecycle_kind}
use agenttender.Lifecycle.Json.{non_zero_i32}
use agenttender.Lifecycle.Healed.{healed_terminal_of, healed_terminal_of-lifecycle_data}
use agenttender.Reconcile.World.{
  World, Event, ProcessStatus, alive_verified, identity_mismatch, tried_kill, appended, wrote,
  healed,
}
use agenttender.Reconcile.Gone.{reconcile_sidecar_gone}
use agenttender.Reconcile.Safe.{IsSafe, reconcile_sidecar_gone-IsSafe}
use agenttender.Reconcile.Found.{recorded}
use agenttender.Reconcile.Recovery.{ended_on, reconcile_sidecar_gone-apply}

abbrev command : LaunchSpec
command = record {
  argv = codes "sleep" ∷ [];
  cwd = none;
  env = [];
  timeout_s = none;
  after = [];
  after_any_exit = false;
  namespace = none;
  on_exit = [];
  stdin_mode = no_stdin;
  io_mode = pipes;
  exec_target = no_exec;
  boundary = none;
}

abbrev run_7 : RunId
run_7 = record {
  uuid = 7 ∷ 144 ∷ 2 ∷ 3 ∷ 4 ∷ 5 ∷ 112 ∷ 7 ∷ 128 ∷ 9 ∷ 10 ∷ 11 ∷ 12 ∷ 13 ∷ 14 ∷ 15 ∷ [];
}

abbrev sidecar_process : ProcessIdentity
sidecar_process = record { pid = 100; start_time_ns = 1 }

abbrev sleeper : ProcessIdentity
sleeper = record { pid = 101; start_time_ns = 2 }

abbrev dusk : EpochTimestamp
dusk = record { secs = 500 }

abbrev night : EpochTimestamp
night = record { secs = 900 }

-- The time that the log gave the event.
abbrev midnight : EpochTimestamp
midnight = record { secs = 901 }

abbrev waiting : Meta
waiting = new_starting (record { text = codes "t" }) run_7 first command sidecar_process dusk

-- The sidecar failed with its child alive, and its metadata is still `starting`.
abbrev failure : Op
failure = fail_sidecar sleeper output_log night

abbrev last_event : Event
last_event = recorded waiting (apply failure waiting).0.status midnight (codes "direct") none

abbrev earlier_event : Event
earlier_event = recorded waiting starting dusk (codes "direct") none

-- A world in which every process answers as given, and kills succeed.
abbrev world_of : ProcessStatus → Option (List Event) → World
world_of status log = record {
  lock = none;
  read = some waiting;
  breadcrumb = some sleeper;
  log = log;
  process_status = λ child. status;
  kill = λ child. none;
  can_write = true;
  has_namespace = true;
  can_append = true;
  now = night;
  show = λ kind. codes "error";
}

abbrev crashed : World
crashed = world_of alive_verified (some (earlier_event ∷ last_event ∷ []))

-- Without a record, from a child whose PID was reused.
abbrev reused : World
reused = world_of identity_mismatch none

reused_kills_nobody :
    (reconcile_sidecar_gone reused waiting).1
    ≡ appended (reconcile_sidecar_gone reused waiting).0.status
      ∷ wrote (reconcile_sidecar_gone reused waiting).0
      ∷ []
unfolding reconcile_sidecar_gone new_starting bytes_eq
reused_kills_nobody = refl

crashed_kills_child :
    (reconcile_sidecar_gone crashed waiting).1
    ≡ tried_kill sleeper ∷ wrote (reconcile_sidecar_gone crashed waiting).0 ∷ []
unfolding reconcile_sidecar_gone new_starting apply bytes_eq lifecycle_data lifecycle_kind
crashed_kills_child = refl

healed_terminal_of-lifecycle_data_example :
    healed_terminal_of
      (lifecycle_data (exited sleeper (exited_error (pos 3)) night) (codes "direct") none)
    ≡ some (healed_exited (exited_error (pos 3)))
healed_terminal_of-lifecycle_data_example =
    healed_terminal_of-lifecycle_data (exited sleeper (exited_error (pos 3)) night) (codes "direct")
      none (unfold non_zero_i32 in refl)

reconcile_sidecar_gone-IsSafe_example : IsSafe reused (reconcile_sidecar_gone reused waiting)
reconcile_sidecar_gone-IsSafe_example = reconcile_sidecar_gone-IsSafe reused waiting

reconcile_sidecar_gone-apply_example :
    ((reconcile_sidecar_gone crashed waiting).2 ≡ ok healed)
    × ((reconcile_sidecar_gone crashed waiting).0.status
        ≡ ended_on midnight (apply failure waiting).0.status)
reconcile_sidecar_gone-apply_example =
    reconcile_sidecar_gone-apply crashed waiting waiting failure
      (healed_exited (sidecar_failed output_log)) night midnight (some sleeper) (codes "direct")
      none (earlier_event ∷ []) (unfold new_starting in refl) (unfold new_starting in refl) refl
      refl refl refl (unfold apply new_starting in refl) (unfold apply new_starting in tt)
      (λ p. refl) refl
