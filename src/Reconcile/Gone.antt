-- ===== src/Reconcile/Gone.antt =====
-- `reconcile_sidecar_gone` (src/reconcile.rs): the metadata, what is done, and the result.
use agenttender.Common.{
  List, [], ◌∷◌, ◌++◌, Option, none, some, Result, ok, err, codes, if◌then◌else◌, ◌&&◌,
}
use agenttender.Model.Ids.{ProcessIdentity, EpochTimestamp}
use agenttender.Model.Meta.{Meta}
use agenttender.Model.Status.{is_terminal}
use agenttender.Model.Transition.{
  Orphan, HealedTerminal, heal_terminal_from_event, reconcile_sidecar_lost,
}
use agenttender.Lifecycle.Json.{Fields}
use agenttender.Lifecycle.Healed.{healed_terminal_of}
use agenttender.Reconcile.World.{
  World, locked, lock_failed, Did, appended, wrote, Reconciled, untouched, healed, inferred,
  Failure, lock_error, read_error, write_error, transition_failed, find_sidecar_terminal_event,
  left_behind_child,
}
use agenttender.Reconcile.Orphans.{stop_orphan, stop_healed_orphan}

abbrev pub Ending : Type 0
Ending = Meta × List Did × Result Failure Reconciled

-- `write_meta_atomic(...)?; Ok(result)`
unfoldable pub write_meta : World → Reconciled → Meta → List Did → Ending
write_meta w result m did =
    if w.can_write then (m, did ++ (wrote m ∷ []), ok result) else (m, did, err write_error)

-- `append_sidecar_lost_event`, which ignores an append that fails.
abbrev pub appending : World → Meta → List Did
appending w m = if w.has_namespace && w.can_append then appended m.status ∷ [] else []

-- The inference, once the orphan has been dealt with.
unfoldable pub infer_with : World → Option Orphan → Meta → List Did → Ending
unfolding write_meta reconcile_sidecar_lost
infer_with w orphan m did =
    let (m', r) = reconcile_sidecar_lost w.now orphan m in
    elim r [
      | err e ↦ (m', did, err (transition_failed e))
      | ok _ ↦ write_meta w inferred m' (did ++ appending w m')
    ]

-- No terminal record: the loss is inferred.
unfoldable pub infer_lost : World → Option ProcessIdentity → Meta → Ending
unfolding infer_with stop_orphan
infer_lost w none m = infer_with w none m []
infer_lost w (some child) m =
    let (m1, killed, did) = stop_orphan w child (codes "its sidecar was lost") m in
    infer_with w (some (record { child = child; was_killed = killed })) m1 did

-- The metadata is healed.
unfoldable pub finish_healed : World → Meta → Ending
unfolding stop_healed_orphan write_meta
finish_healed w m =
    let (m', did, r) = stop_healed_orphan w m in
    elim r [ err e ↦ (m', did, err e) | ok _ ↦ write_meta w healed m' did ]

abbrev pub and_also : Option Fields → EpochTimestamp → Option (HealedTerminal × EpochTimestamp)
and_also none t = none
and_also (some fields) t = elim (healed_terminal_of fields) [ none ↦ none | some h ↦ some (h, t) ]

-- The terminal record that the log holds, and its time.
unfoldable pub terminal_record : World → Meta → Option (HealedTerminal × EpochTimestamp)
unfolding find_sidecar_terminal_event healed_terminal_of
terminal_record w m = elim (find_sidecar_terminal_event w.log m) [
  | none ↦ none
  | some e ↦ and_also e.fields e.ts
]

-- With the lock held, on metadata that is not terminal.
unfoldable pub reconcile_locked : World → Meta → Ending
unfolding left_behind_child terminal_record heal_terminal_from_event finish_healed infer_lost
reconcile_locked w m =
    let spawned = left_behind_child w m in
    elim (terminal_record w m) [
      | none ↦ infer_lost w spawned m
      | some (h, t) ↦
          let (m', r) = heal_terminal_from_event h t spawned m in
          elim r [ ok _ ↦ finish_healed w m' | err e ↦ infer_lost w spawned m' ]
    ]

-- The metadata is read again under the lock.
unfoldable pub reread : World → Meta → Ending
unfolding reconcile_locked
reread w m = elim w.read [
  | none ↦ (m, [], err read_error)
  | some m' ↦ if is_terminal m'.status then (m', [], ok untouched) else reconcile_locked w m'
]

-- `reconcile_sidecar_gone`
unfoldable pub reconcile_sidecar_gone : World → Meta → Ending
unfolding reread
reconcile_sidecar_gone w m = if is_terminal m.status then (m, [], ok untouched) else elim w.lock [
  | none ↦ reread w m
  | some locked ↦ (m, [], ok untouched)
  | some lock_failed ↦ (m, [], err lock_error)
]
