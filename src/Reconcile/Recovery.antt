-- ===== src/Reconcile/Recovery.antt =====
-- A sidecar that died between its terminal event and its metadata write (src/reconcile.rs,
-- src/events.rs, src/model/transition.rs).
use agenttender.Common.{
  true, false, List, [], ◌∷◌, ◌++◌, Option, none, some, ok, Bytes, ◌≡◌, refl, ◌∙◌, ap, arith,
}
use agenttender.Model.Ids.{ProcessIdentity, EpochTimestamp}
use agenttender.Model.Meta.{Meta, add_warning}
use agenttender.Model.Status.{RunStatus, is_terminal}
use agenttender.Model.Provenance.{direct, event_log_terminal}
use agenttender.Model.Transition.{
  HealedTerminal, heal_terminal_from_event, record_healed_orphan_killed,
}
use agenttender.Model.Transition.Ops.{Op, run_child, fail_sidecar, apply}
use agenttender.Model.Transition.Healing.{event_of}
use agenttender.Lifecycle.Json.{Json}
use agenttender.Lifecycle.Healed.{record_of, HasCode}
use agenttender.Reconcile.World.{World, Event, healed, left_behind_child}
use agenttender.Reconcile.Orphans.{stop_orphan, record_killed, stop_healed_orphan}
use agenttender.Reconcile.Gone.{
  write_meta, finish_healed, terminal_record, reconcile_locked, reconcile_sidecar_gone,
}
use agenttender.Reconcile.Paths.{reread-open, gone-reread}
use agenttender.Reconcile.Settled.{stop_healed_orphan-status}
use agenttender.Reconcile.Found.{recorded, terminal_record-recorded}

-- A sidecar that failed before its child's start was recorded has left the breadcrumb.
abbrev pub HasBreadcrumb : Op → World → Meta → Type 0
HasBreadcrumb (fail_sidecar c step t) w m = m.status ≡ RunStatus.starting → w.breadcrumb ≡ some c
HasBreadcrumb _ w m = Unit

record_of-apply :
    (op : Op) (m : Meta) (h : HealedTerminal) (t : EpochTimestamp) (c : Option ProcessIdentity)
    → event_of op ≡ some (h, t, c)
    → (apply op m).1 ≡ ok tt
    → record_of (apply op m).0.status ≡ some h
unfolding apply
record_of-apply (run_child d) m h t c e o = cc
record_of-apply _ m h t c e o = ground arith

-- The status with another time of its end.
abbrev pub ended_on : EpochTimestamp → RunStatus → RunStatus
ended_on s RunStatus.starting = RunStatus.starting
ended_on s (RunStatus.running c) = RunStatus.running c
ended_on s (RunStatus.spawn_failed t) = RunStatus.spawn_failed s
ended_on s (RunStatus.exited c how t) = RunStatus.exited c how s
ended_on s (RunStatus.sidecar_lost c t) = RunStatus.sidecar_lost c s
ended_on s (RunStatus.dependency_failed t reason) = RunStatus.dependency_failed s reason

heal-apply :
    (op : Op) (w : World) (m : Meta) (h : HealedTerminal) (t s : EpochTimestamp)
    (c : Option ProcessIdentity)
    → event_of op ≡ some (h, t, c)
    → (apply op m).1 ≡ ok tt
    → HasBreadcrumb op w m
    → let (m', r) = heal_terminal_from_event h s (left_behind_child w m) m in
      (r ≡ ok tt)
      × (m'.status ≡ ended_on s (apply op m).0.status)
      × (m'.transition_provenance ≡ some (direct (event_log_terminal ∷ [])))
unfolding apply heal_terminal_from_event left_behind_child
heal-apply (run_child d) w m h t s c e o b = cc
heal-apply (fail_sidecar d step u) w m h t s c e o b = ground (arith, b)
heal-apply _ w m h t s c e o b = ground arith

stop_healed_orphan-ok :
    (w : World) (m : Meta)
    → m.transition_provenance ≡ some (direct (event_log_terminal ∷ []))
    → (stop_healed_orphan w m).2 ≡ ok tt
unfolding stop_healed_orphan stop_orphan record_killed record_healed_orphan_killed add_warning
stop_healed_orphan-ok w m p = ground arith

locked-heals :
    (w : World) (m : Meta) (h : HealedTerminal) (t : EpochTimestamp)
    → terminal_record w m ≡ some (h, t)
    → (heal_terminal_from_event h t (left_behind_child w m) m).1 ≡ ok tt
    → reconcile_locked w m
      ≡ finish_healed w (heal_terminal_from_event h t (left_behind_child w m) m).0
unfolding reconcile_locked
locked-heals w m h t n k = rw (reconcile_locked, n, k) refl

finish_healed-ok :
    (w : World) (m : Meta)
    → (stop_healed_orphan w m).2 ≡ ok tt
    → w.can_write ≡ true
    → ((finish_healed w m).2 ≡ ok healed) × ((finish_healed w m).0 ≡ (stop_healed_orphan w m).0)
unfolding finish_healed write_meta
finish_healed-ok w m n k =
    (rw (finish_healed, write_meta, n, k) refl, rw (finish_healed, write_meta, n, k) refl)

-- A sidecar has made its run's terminal transition and appended its event as the last one of the
-- log, and died before it wrote the metadata. Reconciliation then heals the metadata to the status of
-- that transition, with the event's time as the time of its end, when the metadata on the disk is not
-- terminal, the lock is free and the write succeeds (an exit code that is an i32 other than 0, and
-- the breadcrumb of a sidecar that failed at the start, are what the sidecar has written).
pub reconcile_sidecar_gone-apply :
    (w : World) (seen m : Meta) (op : Op) (h : HealedTerminal) (t s : EpochTimestamp)
    (c : Option ProcessIdentity) (provenance : Bytes) (boundary : Option Json)
    (earlier : List Event)
    → is_terminal seen.status ≡ false
    → is_terminal m.status ≡ false
    → w.lock ≡ none
    → w.read ≡ some m
    → w.can_write ≡ true
    → event_of op ≡ some (h, t, c)
    → (apply op m).1 ≡ ok tt
    → HasCode (apply op m).0.status
    → HasBreadcrumb op w m
    → w.log ≡ some (earlier ++ (recorded m (apply op m).0.status s provenance boundary ∷ []))
    → ((reconcile_sidecar_gone w seen).2 ≡ ok healed)
      × ((reconcile_sidecar_gone w seen).0.status ≡ ended_on s (apply op m).0.status)
reconcile_sidecar_gone-apply w seen m op h t s c provenance boundary earlier still n lock read write
      e o code crumb log =
    let status = (apply op m).0.status in
    let found =
      terminal_record-recorded w m status s provenance boundary h earlier log
        (record_of-apply op m h t c e o) code in
    let (ok_healed, same, proved) = heal-apply op w m h t s c e o crumb in
    let m' = (heal_terminal_from_event h s (left_behind_child w m) m).0 in
    let path =
      gone-reread w seen still lock
      ∙ reread-open w seen m read n
      ∙ locked-heals w m h s found ok_healed in
    let (r, q) = finish_healed-ok w m' (stop_healed_orphan-ok w m' proved) write in
    (
      ap (λ x. x.2) path ∙ r,
      ap (λ x. x.0.status) path ∙ ap (λ x. x.status) q ∙ stop_healed_orphan-status w m' ∙ same,
    )
