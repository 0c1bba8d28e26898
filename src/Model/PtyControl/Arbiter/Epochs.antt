-- ===== src/Model/PtyControl/Arbiter/Epochs.antt =====
-- Ownership changes as operations: their effect on the epoch and on the handle they mint.
use agenttender.Common.{
  ℕ, ◌+◌, ◌≤◌, ◌≡◌, arith, Option, none, some, Result, ok, err, bytes_eq_iff, is_ok, ltb,
}
use agenttender.Common.Words.{u64_max}
use agenttender.Model.PtyControl.Arbiter.{
  ControllerKind, ControllerState, human, unowned, owned, epoch_of, HandleKey, ControllerHandle,
  ControlError, InputArbiter, Takeover, claim, takeover, release, authorize,
}

pub data ControlOp : Type 0 where
  claim_by : ℕ → ControllerKind → ControlOp
  takeover_by : ℕ → ControlOp
  release_with : ControllerHandle → ControlOp

minted_by_claim : Result ControlError ControllerHandle → Result ControlError (Option HandleKey)
minted_by_claim (ok h) = ok (some h.key)
minted_by_claim (err e) = err e

minted_by_takeover : Result ControlError Takeover → Result ControlError (Option HandleKey)
minted_by_takeover (ok t) = ok (some t.handle.key)
minted_by_takeover (err e) = err e

minted_by_release : Result ControlError (Unit {0}) → Result ControlError (Option HandleKey)
minted_by_release (ok u) = ok none
minted_by_release (err e) = err e

-- An operation, and the key of the handle that it minted.
unfoldable pub perform :
    ControlOp → InputArbiter → InputArbiter × Result ControlError (Option HandleKey)
unfolding claim takeover release minted_by_claim minted_by_takeover minted_by_release
perform (claim_by holder kind) a = let (a', r) = claim holder kind a in (a', minted_by_claim r)
perform (takeover_by holder) a = let (a', r) = takeover holder a in (a', minted_by_takeover r)
perform (release_with h) a = let (a', r) = release h a in (a', minted_by_release r)

abbrev pub advance : Option HandleKey → ℕ
advance none = 0
advance (some k) = 1

-- An operation that is refused leaves the arbiter as it was. One that succeeds keeps the run and
-- advances the epoch by exactly one if it mints a handle, which then has that epoch, and by
-- nothing if it does not.
pub perform_epoch :
    (op : ControlOp) (a : InputArbiter)
    → let (a', r) = perform op a in
      ((e : ControlError) → r ≡ err e → a' ≡ a)
      × ((k : Option HandleKey)
          → r ≡ ok k
          → (a'.run_id ≡ a.run_id) × (epoch_of a'.state ≡ epoch_of a.state + advance k))
unfolding perform
perform_epoch (claim_by holder kind) a = (λ e h. ground arith, λ k h. ground arith)
perform_epoch (takeover_by holder) a = (λ e h. ground arith, λ k h. ground arith)
perform_epoch (release_with h) a =
    (λ e x. ground arith, λ k x. ground (arith, bytes_eq_iff h.key.run_id.uuid a.run_id.uuid))

-- What an operation on the arbiter may end in: a refusal changes nothing, a release keeps the epoch,
-- and a handle that is minted has the next epoch, a u64, and authorizes.
abbrev pub Advances : InputArbiter → InputArbiter × Result ControlError (Option HandleKey) → Type 0
Advances a (a', err e) = a' ≡ a
Advances a (a', ok none) = epoch_of a'.state ≡ epoch_of a.state
Advances a (a', ok (some k)) =
    (authorize a' k ≡ ok tt)
    × (epoch_of a'.state ≡ k.epoch)
    × (k.epoch ≡ epoch_of a.state + 1)
    × (k.epoch ≤ u64_max)

-- Every operation, whether it succeeds or is refused, keeps the epoch in the u64 range and never takes
-- it back; a refused one leaves the arbiter as it was, a release keeps the epoch, and a claim or a
-- takeover that succeeds mints a handle at the next epoch, which authorizes.
pub perform_mints :
    (op : ControlOp) (a : InputArbiter)
    → epoch_of a.state ≤ u64_max
    → (epoch_of (perform op a).0.state ≤ u64_max)
      × (epoch_of a.state ≤ epoch_of (perform op a).0.state)
      × Advances a (perform op a)
unfolding perform authorize
perform_mints (claim_by holder kind) a b =
    (ground arith, ground arith, ground (arith, bytes_eq_iff a.run_id.uuid a.run_id.uuid))
perform_mints (takeover_by holder) a b =
    (ground arith, ground arith, ground (arith, bytes_eq_iff a.run_id.uuid a.run_id.uuid))
perform_mints (release_with r) a b = (ground arith, ground arith, ground arith)

abbrev pub owner_of : ControllerState → Option (ℕ × ControllerKind)
owner_of (unowned e) = none
owner_of (owned e holder kind) = some (holder, kind)

-- A takeover succeeds exactly when the epoch is not exhausted, whoever holds the PTY. It then
-- owns the PTY for a human under a handle that authorizes, at the next epoch, and names the
-- controller that it supersedes.
pub takeover_lem :
    (holder : ℕ) (a : InputArbiter)
    → let (a', r) = takeover holder a in
      (is_ok r ≡ ltb (epoch_of a.state) u64_max)
      × ((t : Takeover)
          → r ≡ ok t
          → (a'.state ≡ owned (epoch_of a.state + 1) holder human)
            × (t.retired ≡ owner_of a.state)
            × (t.handle.kind ≡ human)
            × (authorize a' t.handle.key ≡ ok tt))
unfolding takeover authorize
takeover_lem holder a =
    (ground arith, λ t h. ground (arith, bytes_eq_iff a.run_id.uuid a.run_id.uuid))
