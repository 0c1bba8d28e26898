-- ===== src/Model/Transition/Errors.antt =====
-- What no operation changes, and what a refused one leaves alone.
use agenttender.Common.{◌≡◌, refl, ◌∙◌, arith, true, List, [], ◌∷◌, err}
use agenttender.Model.Meta.{Meta}
use agenttender.Model.Status.{is_terminal}
use agenttender.Model.Transition.{TransitionError}
use agenttender.Model.Transition.Ops.{Op, run_child, apply, run}

-- A lifecycle call that returns an error leaves the whole metadata as it was.
pub apply_error_unchanged :
    (op : Op) (m : Meta) {e : TransitionError} → (apply op m).1 ≡ err e → (apply op m).0 ≡ m
unfolding apply
apply_error_unchanged (run_child c) m h = ground arith
apply_error_unchanged _ m h = ground arith

abbrev pub SameRun : Meta → Meta → Type 0
SameRun m n =
    (n.schema_version ≡ m.schema_version)
    × (n.session ≡ m.session)
    × (n.run_id ≡ m.run_id)
    × (n.generation ≡ m.generation)
    × (n.launch_spec ≡ m.launch_spec)
    × (n.sidecar ≡ m.sidecar)
    × (n.started_at ≡ m.started_at)
    × (n.restart_count ≡ m.restart_count)

apply-SameRun : (op : Op) (m : Meta) → SameRun m (apply op m).0
unfolding apply
apply-SameRun (run_child c) m = ground arith
apply-SameRun _ m = ground arith

-- Over any history the schema version, session, run, generation, launch specification, sidecar,
-- start time and restart count of a session's metadata stay the same.
pub run-SameRun : (ops : List Op) (m : Meta) → SameRun m (run ops m)
unfolding run
run-SameRun [] m = ground arith
run-SameRun (op ∷ ops) m =
    let h = apply-SameRun op m in let k = run-SameRun ops (apply op m).0 in ground arith

apply_terminal :
    (op : Op) (m : Meta) → is_terminal m.status ≡ true → (apply op m).0.status ≡ m.status
unfolding apply
apply_terminal (run_child c) m h = ground arith
apply_terminal _ m h = ground arith

-- Once a run's status is terminal, no history changes it.
pub run_terminal :
    (ops : List Op) (m : Meta) → is_terminal m.status ≡ true → (run ops m).status ≡ m.status
unfolding run
run_terminal [] m h = refl
run_terminal (op ∷ ops) m h =
    let e = apply_terminal op m h in run_terminal ops (apply op m).0 (rw e h) ∙ e
