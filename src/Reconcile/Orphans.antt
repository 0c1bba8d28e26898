-- ===== src/Reconcile/Orphans.antt =====
-- The child that a gone sidecar may have left running (src/reconcile.rs).
use agenttender.Common.{
  ℕ, Bool, true, false, List, [], ◌∷◌, ◌++◌, Option, none, some, Result, ok, err, Bytes, codes,
}
use agenttender.Model.Ids.{ProcessIdentity}
use agenttender.Model.Meta.{Meta, add_warning}
use agenttender.Model.Status.{RunStatus, ExitReason}
use agenttender.Model.Transition.{record_healed_orphan_killed}
use agenttender.Model.PtyControl.Requests.{ErrorKind}
use agenttender.Reconcile.World.{
  alive_verified, missing, identity_mismatch, inaccessible, os_error, World, Did, tried_kill,
  Failure, transition_failed, decimal,
}

pub data OrphanStop : Type 0 where
  was_killed : OrphanStop
  kill_failed : ErrorKind → OrphanStop
  unverifiable : OrphanStop
  check_failed : ErrorKind → OrphanStop
  gone : OrphanStop

abbrev kill_result : Option ErrorKind → OrphanStop
kill_result none = was_killed
kill_result (some e) = kill_failed e

-- `kill_verified_orphan`
unfoldable pub kill_verified_orphan : World → ProcessIdentity → OrphanStop × List Did
kill_verified_orphan w child = elim (w.process_status child) [
  | alive_verified ↦ (kill_result (w.kill child), tried_kill child ∷ [])
  | inaccessible ↦ (unverifiable, [])
  | os_error kind ↦ (check_failed kind, [])
  | missing ↦ (gone, [])
  | identity_mismatch ↦ (gone, [])
]

-- The warning for every outcome but "already gone"; `after` says how the sidecar went.
unfoldable pub warning_of : World → ℕ → Bytes → OrphanStop → Option Bytes
unfolding decimal
warning_of w pid after was_killed = some (
    codes "child pid "
    ++ (decimal pid ++ (codes " was still running after " ++ (after ++ codes "; killed it"))))
warning_of w pid after (kill_failed e) = some (
    codes "child pid "
    ++ (decimal pid
        ++ (codes " is still running after "
            ++ (after ++ (codes "; killing it failed: " ++ w.show e)))))
warning_of w pid after unverifiable = some (
    codes "child pid "
    ++ (decimal pid
        ++ (codes " may still be running after "
            ++ (after ++ codes "; its identity could not be verified, so it was not killed"))))
warning_of w pid after (check_failed kind) = some (
    codes "child pid "
    ++ (decimal pid
        ++ (codes " could not be checked after " ++ (after ++ (codes ": " ++ w.show kind)))))
warning_of w pid after gone = none

abbrev noted : Option Bytes → Meta → Meta
noted none m = m
noted (some warning) m = add_warning warning m

abbrev is_killed : OrphanStop → Bool
is_killed was_killed = true
is_killed _ = false

-- `stop_orphan`: the metadata, whether the child was killed, and what was done
unfoldable pub stop_orphan : World → ProcessIdentity → Bytes → Meta → Meta × Bool × List Did
unfolding kill_verified_orphan warning_of add_warning
stop_orphan w child after m =
    let (stop, did) = kill_verified_orphan w child in
    (noted (warning_of w child.pid after stop) m, is_killed stop, did)

-- The end of `stop_healed_orphan`, for a child that was killed or not.
unfoldable pub record_killed : Bool → Meta → Meta × Result Failure (Unit {0})
unfolding record_healed_orphan_killed
record_killed false m = (m, ok tt)
record_killed true m =
    let (m', r) = record_healed_orphan_killed m in
    elim r [ ok u ↦ (m', ok u) | err e ↦ (m', err (transition_failed e)) ]

abbrev pub failed_child : RunStatus → Option ProcessIdentity
failed_child (RunStatus.exited child (ExitReason.sidecar_failed step) t) = some child
failed_child _ = none

-- `stop_healed_orphan`
unfoldable pub stop_healed_orphan : World → Meta → Meta × List Did × Result Failure (Unit {0})
unfolding stop_orphan record_killed
stop_healed_orphan w m = elim (failed_child m.status) [
  | none ↦ (m, [], ok tt)
  | some child ↦
      let (m1, killed, did) = stop_orphan w child (codes "its sidecar failed") m in
      let (m2, r) = record_killed killed m1 in (m2, did, r)
]
