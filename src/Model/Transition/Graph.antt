-- ===== src/Model/Transition/Graph.antt =====
-- The diagram of the statuses, and how far a history can take a run along it.
use agenttender.Common.{
  ℕ, ◌+◌, ◌≤◌, ◌≡◌, arith, ◌⊎◌, true, false, ◌&&◌, List, [], ◌∷◌, Option, some, ok, is_ok,
  if◌then◌else◌,
}
use agenttender.Model.Ids.{ProcessIdentity, EpochTimestamp}
use agenttender.Model.Meta.{Meta}
use agenttender.Model.Status.{
  RunStatus, starting, running, spawn_failed, exited, sidecar_lost, dependency_failed, ExitReason,
  DepFailReason, SidecarStep, sidecar_failed, is_terminal, child, ended_at,
}
use agenttender.Model.Transition.{Orphan, orphan_child, reconcile_sidecar_lost}
use agenttender.Model.Transition.Ops.{Op, run_child, apply, run, is_lifecycle}

-- A run starts, may spawn one child, and ends once. A child, once known, stays the same.
infix 40 ◌⟶◌
pub data ◌⟶◌ : RunStatus → RunStatus → Type 0 where
  spawn : (c : ProcessIdentity) → starting ⟶ running c
  refuse_spawn : (t : EpochTimestamp) → starting ⟶ spawn_failed t
  refuse_dependency : (t : EpochTimestamp) (r : DepFailReason) → starting ⟶ dependency_failed t r
  fail_early :
      (c : ProcessIdentity) (s : SidecarStep) (t : EpochTimestamp)
      → starting ⟶ exited c (sidecar_failed s) t
  lose_early : (c : Option ProcessIdentity) (t : EpochTimestamp) → starting ⟶ sidecar_lost c t
  end_running :
      (c : ProcessIdentity) (how : ExitReason) (t : EpochTimestamp) → running c ⟶ exited c how t
  lose_running : (c : ProcessIdentity) (t : EpochTimestamp) → running c ⟶ sidecar_lost (some c) t

ruleset edges =
    (spawn, refuse_spawn, refuse_dependency, fail_early, lose_early, end_running, lose_running)

-- A lifecycle operation that succeeds moves the status along one edge of the diagram.
pub apply-⟶ :
    (op : Op) (m : Meta)
    → is_lifecycle op ≡ true
    → (apply op m).1 ≡ ok tt
    → m.status ⟶ (apply op m).0.status
unfolding apply
apply-⟶ (run_child c) m l h = grind (arith, edges)
apply-⟶ _ m l h = grind (arith, edges)

-- How far along the diagram a status is.
abbrev stage : RunStatus → ℕ
stage starting = 0
stage (running c) = 1
stage _ = 2

-- The lifecycle operations of a history that succeed.
pub successes : List Op → Meta → ℕ
successes [] m = 0
successes (op ∷ ops) m =
    (if is_lifecycle op && is_ok (apply op m).1 then 1 else 0) + successes ops (apply op m).0

apply-stage :
    (op : Op) (m : Meta)
    → (if is_lifecycle op && is_ok (apply op m).1 then 1 else 0) + stage m.status
      ≤ stage (apply op m).0.status
unfolding apply
apply-stage (run_child c) m = ground arith
apply-stage _ m = ground arith

stage-le : (s : RunStatus) → stage s ≤ 2
stage-le starting = omega arith
stage-le _ = omega arith

successes-stage : (ops : List Op) (m : Meta) → successes ops m + stage m.status ≤ 2
unfolding successes
successes-stage [] m = omega (arith, stage-le m.status)
successes-stage (op ∷ ops) m = omega (arith, apply-stage op m, successes-stage ops (apply op m).0)

-- Of any history at most two lifecycle operations succeed: a run ends at most once.
pub successes-le : (ops : List Op) (m : Meta) → successes ops m ≤ 2
successes-le ops m = omega (arith, successes-stage ops m)

apply-child :
    (op : Op) (m : Meta) (c : ProcessIdentity)
    → child m.status ≡ some c
    → child (apply op m).0.status ≡ some c
unfolding apply
apply-child (run_child d) m c h = ground arith
apply-child _ m c h = ground arith

-- Once a run's child is recorded, every later status of the run names the same child.
pub run-child :
    (ops : List Op) (m : Meta) (c : ProcessIdentity)
    → child m.status ≡ some c
    → child (run ops m).status ≡ some c
unfolding run
run-child [] m c h = h
run-child (op ∷ ops) m c h = run-child ops (apply op m).0 c (apply-child op m c h)

-- Reconciliation ends every run that is not over: it succeeds, the end time is the one given, and
-- the child on record is the running one, or, for a run that was still starting, the orphan's, if
-- there is an orphan.
pub reconcile_sidecar_lost_ends :
    (t : EpochTimestamp) (orphan : Option Orphan) (m : Meta)
    → is_terminal m.status ≡ false
    → let (m', r) = reconcile_sidecar_lost t orphan m in
      (r ≡ ok tt)
      × (is_terminal m'.status ≡ true)
      × (ended_at m'.status ≡ some t)
      × (((c : ProcessIdentity) × (m.status ≡ running c) × (child m'.status ≡ some c))
          ⊎ ((m.status ≡ starting) × (child m'.status ≡ orphan_child orphan)))
unfolding reconcile_sidecar_lost
reconcile_sidecar_lost_ends t orphan m h = ground arith
