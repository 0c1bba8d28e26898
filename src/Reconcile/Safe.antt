-- ===== src/Reconcile/Safe.antt =====
-- Which processes reconciliation may kill (src/reconcile.rs).
use agenttender.Common.{
  ◌&&◌, List, [], ◌∷◌, ◌++◌, Option, none, some, All, Bytes, codes, ◌≡◌, refl, inl, inr, Bool-cases,
  Option-cases, Result-cases,
}
use agenttender.Model.Ids.{ProcessIdentity}
use agenttender.Model.Meta.{Meta}
use agenttender.Model.Transition.{Orphan, heal_terminal_from_event, reconcile_sidecar_lost}
use agenttender.Reconcile.World.{
  ProcessStatus, alive_verified, missing, identity_mismatch, inaccessible, os_error, World, Did,
  tried_kill, appended, wrote, Reconciled, healed, inferred, left_behind_child,
}
use agenttender.Reconcile.Orphans.{
  kill_verified_orphan, stop_orphan, stop_healed_orphan, failed_child,
}
use agenttender.Reconcile.Gone.{
  Ending, write_meta, appending, infer_with, infer_lost, finish_healed, terminal_record,
  reconcile_locked, reconcile_sidecar_gone,
}
use agenttender.Reconcile.Paths.{gone-all}

-- A forced kill is tried on a process only when the probe has verified that it is the child.
abbrev pub IsAllowed : World → Did → Type 0
IsAllowed w (tried_kill child) = w.process_status child ≡ alive_verified
IsAllowed w (appended status) = Unit
IsAllowed w (wrote m) = Unit

abbrev pub IsSafe : World → Ending → Type 0
IsSafe w (m, did, r) = All (IsAllowed w) did

All-++ :
    (w : World) (xs ys : List Did)
    → All (IsAllowed w) xs
    → All (IsAllowed w) ys
    → All (IsAllowed w) (xs ++ ys)
All-++ w [] ys p q = q
All-++ w (x ∷ xs) ys (p, ps) q = (p, All-++ w xs ys ps q)

killing :
    (w : World) (child : ProcessIdentity) (s : ProcessStatus)
    → w.process_status child ≡ s
    → All (IsAllowed w) (kill_verified_orphan w child).1
unfolding kill_verified_orphan
killing w child alive_verified p = rw (kill_verified_orphan, p) (p, tt)
killing w child missing p = rw (kill_verified_orphan, p) tt
killing w child identity_mismatch p = rw (kill_verified_orphan, p) tt
killing w child inaccessible p = rw (kill_verified_orphan, p) tt
killing w child (os_error kind) p = rw (kill_verified_orphan, p) tt

stop_orphan-All :
    (w : World) (child : ProcessIdentity) (after : Bytes) (m : Meta)
    → All (IsAllowed w) (stop_orphan w child after m).2
unfolding stop_orphan
stop_orphan-All w child after m = killing w child (w.process_status child) refl

appending-All : (w : World) (m : Meta) → All (IsAllowed w) (appending w m)
appending-All w m = elim (Bool-cases (w.has_namespace && w.can_append)) [
  | inl n ↦ rw n (tt, tt)
  | inr n ↦ rw n tt
]

write_meta-IsSafe :
    (w : World) (result : Reconciled) (m : Meta) (did : List Did)
    → All (IsAllowed w) did
    → IsSafe w (write_meta w result m did)
unfolding write_meta
write_meta-IsSafe w result m did a = elim (Bool-cases w.can_write) [
  | inl n ↦ rw (write_meta, n) (All-++ w did (wrote m ∷ []) a (tt, tt))
  | inr n ↦ rw (write_meta, n) a
]

infer_with-IsSafe :
    (w : World) (orphan : Option Orphan) (m : Meta) (did : List Did)
    → All (IsAllowed w) did
    → IsSafe w (infer_with w orphan m did)
unfolding infer_with
infer_with-IsSafe w orphan m did a =
    let m' = (reconcile_sidecar_lost w.now orphan m).0 in
    elim (Result-cases ((reconcile_sidecar_lost w.now orphan m).1)) [
      | inl (e, n) ↦ rw (infer_with, n) a
      | inr (u, n) ↦
          rw (infer_with, n)
            (write_meta-IsSafe w inferred m' (did ++ appending w m')
              (All-++ w did (appending w m') a (appending-All w m')))
    ]

infer_lost-IsSafe :
    (w : World) (spawned : Option ProcessIdentity) (m : Meta) → IsSafe w (infer_lost w spawned m)
unfolding infer_lost
infer_lost-IsSafe w none m = infer_with-IsSafe w none m [] tt
infer_lost-IsSafe w (some child) m =
    let (m1, killed, did) = stop_orphan w child (codes "its sidecar was lost") m in
    infer_with-IsSafe w (some (record { child = child; was_killed = killed })) m1 did
      (stop_orphan-All w child (codes "its sidecar was lost") m)

stop_healed_orphan-All : (w : World) (m : Meta) → All (IsAllowed w) (stop_healed_orphan w m).1
unfolding stop_healed_orphan
stop_healed_orphan-All w m = elim (Option-cases (failed_child m.status)) [
  | inl n ↦ rw (stop_healed_orphan, n) tt
  | inr (child, n) ↦
      rw (stop_healed_orphan, n) (stop_orphan-All w child (codes "its sidecar failed") m)
]

finish_healed-IsSafe : (w : World) (m : Meta) → IsSafe w (finish_healed w m)
unfolding finish_healed
finish_healed-IsSafe w m =
    let (m', did, r) = stop_healed_orphan w m in
    elim (Result-cases r) [
      | inl (e, n) ↦ rw (finish_healed, n) (stop_healed_orphan-All w m)
      | inr (u, n) ↦
          rw (finish_healed, n) (write_meta-IsSafe w healed m' did (stop_healed_orphan-All w m))
    ]

reconcile_locked-IsSafe : (w : World) (m : Meta) → IsSafe w (reconcile_locked w m)
unfolding reconcile_locked
reconcile_locked-IsSafe w m =
    let spawned = left_behind_child w m in
    elim (Option-cases (terminal_record w m)) [
      | inl n ↦ rw (reconcile_locked, n) (infer_lost-IsSafe w spawned m)
      | inr (ht, n) ↦
          let (m', r) = heal_terminal_from_event ht.0 ht.1 spawned m in
          elim (Result-cases r) [
            | inl (e, k) ↦ rw (reconcile_locked, n, k) (infer_lost-IsSafe w spawned m')
            | inr (u, k) ↦ rw (reconcile_locked, n, k) (finish_healed-IsSafe w m')
          ]
    ]

-- Whatever the system answers, reconciliation tries to kill a process only if the probe of its
-- identity has verified that it is the very child: a process that took over the child's PID, one
-- that cannot be inspected and one whose probe failed are left alone.
pub reconcile_sidecar_gone-IsSafe : (w : World) (m : Meta) → IsSafe w (reconcile_sidecar_gone w m)
reconcile_sidecar_gone-IsSafe w m =
    gone-all w (IsSafe w) (λ m. tt) (λ m f. tt) (λ m. reconcile_locked-IsSafe w m) m
