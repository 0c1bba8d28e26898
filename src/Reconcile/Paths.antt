-- ===== src/Reconcile/Paths.antt =====
-- The ways through `reconcile_sidecar_gone` (src/reconcile.rs).
use agenttender.Common.{
  true, false, [], none, some, ok, err, ◌≡◌, arith, inl, inr, Bool-cases, Option-cases,
}
use agenttender.Model.Meta.{Meta}
use agenttender.Model.Status.{is_terminal}
use agenttender.Reconcile.World.{
  World, locked, lock_failed, untouched, Failure, lock_error, read_error,
}
use agenttender.Reconcile.Gone.{Ending, reconcile_locked, reread, reconcile_sidecar_gone}

reread-failed : (w : World) (m : Meta) → w.read ≡ none → reread w m ≡ (m, [], err read_error)
unfolding reread
reread-failed w m n = ground arith

reread-terminal :
    (w : World) (m m' : Meta)
    → w.read ≡ some m'
    → is_terminal m'.status ≡ true
    → reread w m ≡ (m', [], ok untouched)
unfolding reread
reread-terminal w m m' n k = ground arith

pub reread-open :
    (w : World) (m m' : Meta)
    → w.read ≡ some m'
    → is_terminal m'.status ≡ false
    → reread w m ≡ reconcile_locked w m'
unfolding reread
reread-open w m m' n k = ground arith

gone-terminal :
    (w : World) (m : Meta)
    → is_terminal m.status ≡ true
    → reconcile_sidecar_gone w m ≡ (m, [], ok untouched)
unfolding reconcile_sidecar_gone
gone-terminal w m k = ground arith

gone-locked :
    (w : World) (m : Meta)
    → is_terminal m.status ≡ false
    → w.lock ≡ some locked
    → reconcile_sidecar_gone w m ≡ (m, [], ok untouched)
unfolding reconcile_sidecar_gone
gone-locked w m k l = ground arith

gone-unlockable :
    (w : World) (m : Meta)
    → is_terminal m.status ≡ false
    → w.lock ≡ some lock_failed
    → reconcile_sidecar_gone w m ≡ (m, [], err lock_error)
unfolding reconcile_sidecar_gone
gone-unlockable w m k l = ground arith

pub gone-reread :
    (w : World) (m : Meta)
    → is_terminal m.status ≡ false
    → w.lock ≡ none
    → reconcile_sidecar_gone w m ≡ reread w m
unfolding reconcile_sidecar_gone
gone-reread w m k l = ground arith

-- A predicate on endings that an untouched session and a failure without effects satisfy, and every
-- ending under the lock.
module _ (w : World) (P : Ending → Type 0) (nothing : (m : Meta) → P (m, [], ok untouched))
    (failing : (m : Meta) (f : Failure) → P (m, [], err f))
    (goes : (m : Meta) → P (reconcile_locked w m)) where
  reread-all : (m : Meta) → P (reread w m)
  reread-all m = elim (Option-cases w.read) [
    | inl n ↦ rw (reread-failed w m n) (failing m read_error)
    | inr (m', n) ↦ elim (Bool-cases (is_terminal m'.status)) [
      | inl k ↦ rw (reread-terminal w m m' n k) (nothing m')
      | inr k ↦ rw (reread-open w m m' n k) (goes m')
    ]
  ]

  pub gone-all : (m : Meta) → P (reconcile_sidecar_gone w m)
  gone-all m = elim (Bool-cases (is_terminal m.status)) [
    | inl k ↦ rw (gone-terminal w m k) (nothing m)
    | inr k ↦ elim (Option-cases w.lock) [
      | inl l ↦ rw (gone-reread w m k l) (reread-all m)
      | inr (locked, l) ↦ rw (gone-locked w m k l) (nothing m)
      | inr (lock_failed, l) ↦ rw (gone-unlockable w m k l) (failing m lock_error)
    ]
  ]
