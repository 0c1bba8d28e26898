-- ===== src/Model/Transition/Healing.antt =====
-- Reconciliation after a sidecar crashed between its event-log record and its metadata write.
use agenttender.Common.{◌≡◌, ◌↔◌, arith, true, Option, none, some, ok}
use agenttender.Model.Ids.{ProcessIdentity, EpochTimestamp}
use agenttender.Model.Meta.{Meta}
use agenttender.Model.Status.{sidecar_failed}
use agenttender.Model.Transition.{
  HealedTerminal, healed_exited, healed_spawn_failed, healed_dependency_failed,
  heal_terminal_from_event, record_healed_orphan_killed, is_exited_sidecar_failed,
}
use agenttender.Model.Transition.Ops.{
  Op, run_child, fail_spawn, observe_exit, fail_sidecar, fail_dependency, apply,
}

-- The terminal record that the event log holds for a transition of the sidecar's own, with the
-- child that the breadcrumb names.
abbrev pub event_of : Op → Option (HealedTerminal × EpochTimestamp × Option ProcessIdentity)
event_of (fail_spawn t) = some (healed_spawn_failed, t, none)
event_of (observe_exit how t) = some (healed_exited how, t, none)
event_of (fail_sidecar c step t) = some (healed_exited (sidecar_failed step), t, some c)
event_of (fail_dependency t reason) = some (healed_dependency_failed reason, t, none)
event_of _ = none

-- Had the sidecar's own terminal transition succeeded, then healing the unwritten metadata from
-- its event-log record succeeds too, and reaches the same status.
pub heal-event_of :
    (op : Op) (m : Meta) (h : HealedTerminal) (t : EpochTimestamp) (c : Option ProcessIdentity)
    → event_of op ≡ some (h, t, c)
    → (apply op m).1 ≡ ok tt
    → let (m', r) = heal_terminal_from_event h t c m in
      (r ≡ ok tt) × (m'.status ≡ (apply op m).0.status)
unfolding apply
heal-event_of (run_child d) m h t c e o = cc
heal-event_of _ m h t c e o = ground arith

-- Right after a healing that succeeded, the killed orphan is recorded exactly when the healed
-- record is a failure of the sidecar, and a second recording is refused.
pub record_healed_orphan_killed-heal :
    (h : HealedTerminal) (t : EpochTimestamp) (c : Option ProcessIdentity) (m : Meta)
    → (heal_terminal_from_event h t c m).1 ≡ ok tt
    → let healed = (heal_terminal_from_event h t c m).0 in
      let (noted, r) = record_healed_orphan_killed healed in
      ((r ≡ ok tt) ↔ (is_exited_sidecar_failed healed.status ≡ true))
      × (¬ ((record_healed_orphan_killed noted).1 ≡ ok tt))
unfolding heal_terminal_from_event record_healed_orphan_killed
record_healed_orphan_killed-heal h t c m o = ground arith
