-- ===== src/Model/PtyControl/Arbiter/Ownership.antt =====
-- A handle that has lost its authority never has it again.
use agenttender.Common.{
  ℕ, ◌≤◌, ◌<◌, ◌≡◌, refl, arith, ◌⊎◌, inl, inr, true, false, List, [], ◌∷◌, ok, err, is_ok,
  bytes_eq_iff, ap, ◌∙◌, Result-cases,
}
use agenttender.Model.PtyControl.Arbiter.{
  ControllerState, unowned, owned, epoch_of, HandleKey, ControllerHandle, ControlError,
  InputArbiter, takeover, release, authorize,
}
use agenttender.Model.PtyControl.Arbiter.Epochs.{
  ControlOp, claim_by, takeover_by, release_with, perform,
}

-- Ownership changes in the order in which the arbiter serializes them.
unfoldable pub perform_all : List ControlOp → InputArbiter → InputArbiter
perform_all [] a = a
perform_all (op ∷ ops) a = perform_all ops (perform op a).0

abbrev IsUnowned : ControllerState → Type 0
IsUnowned (unowned e) = Unit
IsUnowned (owned e holder kind) = ⊥

-- The epoch has passed the key by, or the PTY was given up at the key's epoch or later.
abbrev Superseded : HandleKey → ControllerState → Type 0
Superseded k s = (k.epoch < epoch_of s) ⊎ (IsUnowned s × (k.epoch ≤ epoch_of s))

authorize_of_Superseded :
    (k : HandleKey) (a : InputArbiter) → Superseded k a.state → is_ok (authorize a k) ≡ false
unfolding authorize
authorize_of_Superseded k a h = ground arith

perform-Superseded :
    (op : ControlOp) (k : HandleKey) (a : InputArbiter)
    → Superseded k a.state
    → Superseded k (perform op a).0.state
unfolding perform
perform-Superseded (claim_by holder kind) k a h = ground arith
perform-Superseded (takeover_by holder) k a h = ground arith
perform-Superseded (release_with r) k a h = ground arith

perform_all-Superseded :
    (ops : List ControlOp) (k : HandleKey) (a : InputArbiter)
    → Superseded k a.state
    → Superseded k (perform_all ops a).state
unfolding perform_all
perform_all-Superseded [] k a h = h
perform_all-Superseded (op ∷ ops) k a h =
    perform_all-Superseded ops k (perform op a).0 (perform-Superseded op k a h)

takeover-Superseded :
    (holder : ℕ) (a : InputArbiter) (k : HandleKey)
    → k.epoch ≤ epoch_of a.state
    → is_ok (takeover holder a).1 ≡ true
    → Superseded k (takeover holder a).0.state
unfolding takeover
takeover-Superseded holder a k b h = ground arith

release-Superseded :
    (r : ControllerHandle) (a : InputArbiter)
    → is_ok (release r a).1 ≡ true
    → Superseded r.key (release r a).0.state
unfolding release
release-Superseded r a h = ground arith

-- After a takeover, no handle of an earlier epoch authorizes, whatever ownership changes follow.
pub takeover_revokes :
    (holder : ℕ) (a : InputArbiter) (k : HandleKey) (ops : List ControlOp)
    → k.epoch ≤ epoch_of a.state
    → is_ok (takeover holder a).1 ≡ true
    → is_ok (authorize (perform_all ops (takeover holder a).0) k) ≡ false
takeover_revokes holder a k ops b h =
    authorize_of_Superseded k (perform_all ops (takeover holder a).0)
      (perform_all-Superseded ops k (takeover holder a).0 (takeover-Superseded holder a k b h))

-- A released handle never authorizes again, whatever ownership changes follow.
pub release_revokes :
    (r : ControllerHandle) (a : InputArbiter) (ops : List ControlOp)
    → is_ok (release r a).1 ≡ true
    → is_ok (authorize (perform_all ops (release r a).0) r.key) ≡ false
release_revokes r a ops h =
    authorize_of_Superseded r.key (perform_all ops (release r a).0)
      (perform_all-Superseded ops r.key (release r a).0 (release-Superseded r a h))

refused_release :
    (r : ControllerHandle) (a : InputArbiter) (e : ControlError)
    → authorize a r.key ≡ err e
    → is_ok (perform (release_with r) a).1 ≡ false
unfolding perform release
refused_release r a e n = ground arith

refused_release-same :
    (r : ControllerHandle) (a : InputArbiter) (e : ControlError)
    → authorize a r.key ≡ err e
    → (perform (release_with r) a).0 ≡ a
unfolding perform release
refused_release-same r a e n = ground arith

-- While a handle authorizes, every operation but a takeover and the release of that very handle is
-- refused and leaves the arbiter as it was, so that the handle still authorizes: another client's
-- claim, and a release with a different handle.
pub perform_protects :
    (op : ControlOp) (a : InputArbiter) (k : HandleKey)
    → authorize a k ≡ ok tt
    → ((holder : ℕ) × (op ≡ takeover_by holder))
      ⊎ (((r : ControllerHandle) × (op ≡ release_with r) × (r.key ≡ k))
          ⊎ ((is_ok (perform op a).1 ≡ false)
              × ((perform op a).0 ≡ a)
              × (authorize (perform op a).0 k ≡ ok tt)))
unfolding perform authorize
perform_protects (claim_by holder kind) a k l = inr (inr (ground arith, ground arith, ground arith))
perform_protects (takeover_by holder) a k l = inl (holder, refl)
perform_protects (release_with r) a k l = elim (Result-cases (authorize a r.key)) [
  | inr (u, n) ↦ inr (
      inl (
        r,
        refl,
        ground (
          arith,
          bytes_eq_iff r.key.run_id.uuid a.run_id.uuid,
          bytes_eq_iff k.run_id.uuid a.run_id.uuid,
        ),
      ))
  | inl (e, n) ↦ inr (
      inr (
        refused_release r a e n,
        refused_release-same r a e n,
        ap (λ x. authorize x k) (refused_release-same r a e n) ∙ l,
      ))
]
