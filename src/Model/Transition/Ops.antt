-- ===== src/Model/Transition/Ops.antt =====
-- Every change of a session's metadata that the program makes, as one operation, and sequences.
use agenttender.Common.{Bool, true, false, List, [], ◌∷◌, Option, ok, Bytes}
use agenttender.Model.Ids.{ProcessIdentity, EpochTimestamp}
use agenttender.Model.Meta.{Meta, add_warning, set_pty, set_pty_control, set_pty_recording}
use agenttender.Model.Status.{ExitReason, DepFailReason, SidecarStep}
use agenttender.Model.Pty.{PtyMeta, PtyControl, PtyRecording}
use agenttender.Model.Transition.{
  Outcome, Orphan, HealedTerminal, transition_running, transition_spawn_failed, transition_exited,
  transition_sidecar_failed, transition_dependency_failed, reconcile_sidecar_lost,
  heal_terminal_from_event, record_healed_orphan_killed,
}

pub data Op : Type 0 where
  run_child : ProcessIdentity → Op
  fail_spawn : EpochTimestamp → Op
  observe_exit : ExitReason → EpochTimestamp → Op
  fail_sidecar : ProcessIdentity → SidecarStep → EpochTimestamp → Op
  fail_dependency : EpochTimestamp → DepFailReason → Op
  lose_sidecar : EpochTimestamp → Option Orphan → Op
  heal : HealedTerminal → EpochTimestamp → Option ProcessIdentity → Op
  note_orphan_killed : Op
  warn : Bytes → Op
  put_pty : PtyMeta → Op
  put_pty_control : PtyControl → Op
  put_pty_recording : PtyRecording → Op

-- A setter returns nothing, which is success here.
unfoldable pub apply : Op → Meta → Outcome
unfolding transition_running transition_spawn_failed transition_exited transition_sidecar_failed
    transition_dependency_failed reconcile_sidecar_lost heal_terminal_from_event
    record_healed_orphan_killed add_warning set_pty set_pty_control set_pty_recording
apply (run_child c) m = transition_running c m
apply (fail_spawn t) m = transition_spawn_failed t m
apply (observe_exit how t) m = transition_exited how t m
apply (fail_sidecar c step t) m = transition_sidecar_failed c step t m
apply (fail_dependency t reason) m = transition_dependency_failed t reason m
apply (lose_sidecar t orphan) m = reconcile_sidecar_lost t orphan m
apply (heal h t c) m = heal_terminal_from_event h t c m
apply note_orphan_killed m = record_healed_orphan_killed m
apply (warn msg) m = (add_warning msg m, ok tt)
apply (put_pty p) m = (set_pty p m, ok tt)
apply (put_pty_control c) m = (set_pty_control c m, ok tt)
apply (put_pty_recording r) m = (set_pty_recording r m, ok tt)

-- A session's history: each operation is applied, whether or not those before it were refused.
unfoldable pub run : List Op → Meta → Meta
run [] m = m
run (op ∷ ops) m = run ops (apply op m).0

-- The operations that set the status when they succeed.
abbrev pub is_lifecycle : Op → Bool
is_lifecycle note_orphan_killed = false
is_lifecycle (warn msg) = false
is_lifecycle (put_pty p) = false
is_lifecycle (put_pty_control c) = false
is_lifecycle (put_pty_recording r) = false
is_lifecycle _ = true
