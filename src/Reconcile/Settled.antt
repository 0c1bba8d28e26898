-- ===== src/Reconcile/Settled.antt =====
-- What reconciliation leaves on the disk (src/reconcile.rs).
use agenttender.Common.{true, List, [], ◌∷◌, ◌++◌, ok, err, ◌≡◌, arith}
use agenttender.Model.Meta.{Meta, add_warning}
use agenttender.Model.Status.{is_terminal}
use agenttender.Model.Transition.{record_healed_orphan_killed}
use agenttender.Reconcile.World.{World, Did, wrote, untouched, healed, inferred}
use agenttender.Reconcile.Orphans.{stop_orphan, record_killed, stop_healed_orphan}
use agenttender.Reconcile.Gone.{Ending, appending}

-- What an ending says of the metadata and of the order of what was done: an untouched session has
-- nothing done to it, a healed or inferred one ends in terminal metadata, the write of which comes
-- last, behind the event of an inferred loss.
abbrev pub IsSettled : World → Ending → Type 0
IsSettled w (m, did, ok untouched) = did ≡ []
IsSettled w (m, did, ok healed) =
    (is_terminal m.status ≡ true) × (before : List Did) × (did ≡ before ++ (wrote m ∷ []))
IsSettled w (m, did, ok inferred) =
    (is_terminal m.status ≡ true)
    × (before : List Did) × (did ≡ before ++ (appending w m ++ (wrote m ∷ [])))
IsSettled w (m, did, err failure) = Unit

pub stop_healed_orphan-status :
    (w : World) (m : Meta) → (stop_healed_orphan w m).0.status ≡ m.status
unfolding stop_healed_orphan stop_orphan record_killed record_healed_orphan_killed add_warning
stop_healed_orphan-status w m = ground arith
