-- ===== src/Reconcile/Found.antt =====
-- The event of a terminal transition is found in the log and read back (src/reconcile.rs).
use agenttender.Common.{
  Bool, true, List, [], ◌∷◌, ◌++◌, Option, none, some, Bytes, bytes_eq, bytes_eq_iff, codes, ◌≡◌,
  refl, ◌∙◌, ap, arith,
}
use agenttender.Model.Ids.{EpochTimestamp}
use agenttender.Model.Meta.{Meta}
use agenttender.Model.Status.{RunStatus, ExitReason}
use agenttender.Model.Transition.{HealedTerminal}
use agenttender.Lifecycle.Json.{Json, Fields}
use agenttender.Lifecycle.Data.{lifecycle_kind, lifecycle_data}
use agenttender.Lifecycle.Healed.{
  healed_terminal_of, record_of, HasCode, healed_terminal_of-lifecycle_data,
}
use agenttender.Reconcile.World.{
  World, Event, find_last, is_terminal_event, find_sidecar_terminal_event, terminal_kinds, one_of,
}
use agenttender.Reconcile.Gone.{and_also, terminal_record}

-- The event that the sidecar appends when its run reaches the status, at the time of the log.
abbrev pub recorded : Meta → RunStatus → EpochTimestamp → Bytes → Option Json → Event
recorded m status t provenance boundary = record {
  run_id = m.run_id;
  writer = m.run_id;
  source = codes "tendr.sidecar";
  kind = lifecycle_kind status;
  ts = t;
  fields = some (lifecycle_data status provenance boundary);
}

find_last-append :
    (p : Event → Bool) (es : List Event) (e : Event)
    → p e ≡ true
    → find_last p (es ++ (e ∷ [])) ≡ some e
unfolding find_last
find_last-append p [] e h = rw h refl
find_last-append p (x ∷ es) e h = rw (find_last-append p es e h) refl

kind_is_terminal :
    (status : RunStatus) (h : HealedTerminal)
    → record_of status ≡ some h
    → one_of (lifecycle_kind status) terminal_kinds ≡ true
unfolding lifecycle_kind bytes_eq
kind_is_terminal RunStatus.starting h e = absurd (ground arith)
kind_is_terminal (RunStatus.running c) h e = absurd (ground arith)
kind_is_terminal (RunStatus.sidecar_lost c t) h e = absurd (ground arith)
kind_is_terminal (RunStatus.spawn_failed t) h e = refl
kind_is_terminal (RunStatus.dependency_failed t reason) h e = refl
kind_is_terminal (RunStatus.exited c ExitReason.exited_ok t) h e = refl
kind_is_terminal (RunStatus.exited c (ExitReason.exited_error code) t) h e = refl
kind_is_terminal (RunStatus.exited c ExitReason.killed t) h e = refl
kind_is_terminal (RunStatus.exited c ExitReason.killed_forced t) h e = refl
kind_is_terminal (RunStatus.exited c ExitReason.timed_out t) h e = refl
kind_is_terminal (RunStatus.exited c (ExitReason.sidecar_failed step) t) h e = refl

same_source : bytes_eq (codes "tendr.sidecar") (codes "tendr.sidecar") ≡ true
unfolding bytes_eq
same_source = refl

recorded-is_terminal_event :
    (m : Meta) (status : RunStatus) (t : EpochTimestamp) (provenance : Bytes)
    (boundary : Option Json) (h : HealedTerminal)
    → record_of status ≡ some h
    → is_terminal_event m (recorded m status t provenance boundary) ≡ true
unfolding is_terminal_event
recorded-is_terminal_event m status t provenance boundary h e =
    rw ((bytes_eq_iff m.run_id.uuid m.run_id.uuid).1 refl, same_source, kind_is_terminal status h e)
      refl

and_also-record :
    (fields : Fields) (t : EpochTimestamp) (h : HealedTerminal)
    → healed_terminal_of fields ≡ some h
    → and_also (some fields) t ≡ some (h, t)
and_also-record fields t h e =
    ap {A = Option HealedTerminal} {B = Option (HealedTerminal × EpochTimestamp)}
      (λ o. elim o [ none ↦ none | some x ↦ some (x, t) ]) e

terminal_record-found :
    (w : World) (m : Meta) (ev : Event)
    → find_sidecar_terminal_event w.log m ≡ some ev
    → terminal_record w m ≡ and_also ev.fields ev.ts
unfolding terminal_record
terminal_record-found w m ev n = rw (terminal_record, n) refl

find-recorded :
    (w : World) (m : Meta) (ev : Event) (earlier : List Event)
    → w.log ≡ some (earlier ++ (ev ∷ []))
    → is_terminal_event m ev ≡ true
    → find_sidecar_terminal_event w.log m ≡ some ev
unfolding find_sidecar_terminal_event
find-recorded w m ev earlier l e =
    rw (l, find_sidecar_terminal_event) (find_last-append (is_terminal_event m) earlier ev e)

pub terminal_record-recorded :
    (w : World) (m : Meta) (status : RunStatus) (t : EpochTimestamp) (provenance : Bytes)
    (boundary : Option Json) (h : HealedTerminal) (earlier : List Event)
    → w.log ≡ some (earlier ++ (recorded m status t provenance boundary ∷ []))
    → record_of status ≡ some h
    → HasCode status
    → terminal_record w m ≡ some (h, t)
terminal_record-recorded w m status t provenance boundary h earlier l e k =
    let ev = recorded m status t provenance boundary in
    terminal_record-found w m ev (
      find-recorded w m ev earlier l
        (recorded-is_terminal_event m status t provenance boundary h e))
    ∙ and_also-record (lifecycle_data status provenance boundary) t h
        (healed_terminal_of-lifecycle_data status provenance boundary k ∙ e)
