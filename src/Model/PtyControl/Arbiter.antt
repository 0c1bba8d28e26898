-- ===== src/Model/PtyControl/Arbiter.antt =====
-- The single owner of one run's PTY input authority (src/model/pty_control.rs).
pub mod Epochs
pub mod Ownership
use agenttender.Common.{
  ℕ, ◌+◌, ◌-◌, Bool, true, false, not, List, [], ◌∷◌, Option, none, some, Result, ok, err, ◌>>=◌,
  if◌then◌else◌, ◌==◌, ltb, length, drop, is_empty, bytes_eq, Bytes,
}
use agenttender.Common.Words.{u64_max}
use agenttender.Model.Ids.{RunId}

pub data ControllerKind : Type 0 where
  human agent : ControllerKind

pub data ControllerState : Type 0 where
  unowned : ℕ → ControllerState
  owned : ℕ → ℕ → ControllerKind → ControllerState

-- `ControllerState::epoch`
abbrev pub epoch_of : ControllerState → ℕ
epoch_of (unowned e) = e
epoch_of (owned e holder kind) = e

pub record HandleKey : Type 0 where
  pub run_id : RunId
  pub epoch : ℕ
  pub holder : ℕ

pub record ControllerHandle : Type 0 where
  pub key : HandleKey
  pub kind : ControllerKind

pub data StaleReason : Type 0 where
  run_mismatch unowned_now epoch_mismatch holder_mismatch : StaleReason

pub data ControlError : Type 0 where
  busy : ℕ → ControllerKind → ℕ → ControlError
  stale : StaleReason → ControlError
  epoch_exhausted : ControlError

pub record Takeover : Type 0 where
  pub handle : ControllerHandle
  pub retired : Option (ℕ × ControllerKind)

pub record InputArbiter : Type 0 where
  pub run_id : RunId
  pub state : ControllerState

-- `ControllerEpoch::next`
next_epoch : ℕ → Result ControlError ℕ
next_epoch e = if ltb e u64_max then ok (e + 1) else err epoch_exhausted

-- `InputArbiter::new`
unfoldable pub new : RunId → InputArbiter
new run_id = record { run_id = run_id; state = unowned 0 }

own : ℕ → ℕ → ControllerKind → InputArbiter → InputArbiter × ControllerHandle
own epoch holder kind a = (
  record a { state = owned epoch holder kind },
  record { key = record { run_id = a.run_id; epoch = epoch; holder = holder }; kind = kind },
)

claim_unowned :
    ℕ
    → ControllerKind
    → InputArbiter
    → Result ControlError ℕ
    → InputArbiter × Result ControlError ControllerHandle
unfolding own
claim_unowned holder kind a (err e) = (a, err e)
claim_unowned holder kind a (ok next) = let (a', h) = own next holder kind a in (a', ok h)

unfoldable pub claim :
    ℕ → ControllerKind → InputArbiter → InputArbiter × Result ControlError ControllerHandle
unfolding claim_unowned next_epoch
claim holder kind a = elim a.state [
  | owned epoch owner owner_kind ↦ (a, err (busy owner owner_kind epoch))
  | unowned epoch ↦ claim_unowned holder kind a (next_epoch epoch)
]

retired_of : ControllerState → Option (ℕ × ControllerKind)
retired_of (unowned e) = none
retired_of (owned e owner kind) = some (owner, kind)

takeover_at : ℕ → InputArbiter → Result ControlError ℕ → InputArbiter × Result ControlError Takeover
unfolding own retired_of
takeover_at holder a (err e) = (a, err e)
takeover_at holder a (ok next) =
    let (a', h) = own next holder human a in
    (a', ok (record { handle = h; retired = retired_of a.state }))

unfoldable pub takeover : ℕ → InputArbiter → InputArbiter × Result ControlError Takeover
unfolding takeover_at next_epoch
takeover holder a = takeover_at holder a (next_epoch (epoch_of a.state))

-- The match of `stale_reason` on the state.
stale_in : ControllerState → HandleKey → Option StaleReason
stale_in (unowned e) k = some unowned_now
stale_in (owned e holder kind) k =
    if not (e == k.epoch)
    then some epoch_mismatch
    else if not (holder == k.holder)
    then some holder_mismatch
    else none

unfoldable pub stale_reason : InputArbiter → HandleKey → Option StaleReason
unfolding stale_in
stale_reason a k =
    if not (bytes_eq k.run_id.uuid a.run_id.uuid) then some run_mismatch else stale_in a.state k

unfoldable pub authorize : InputArbiter → HandleKey → Result ControlError (Unit {0})
unfolding stale_reason
authorize a k = elim (stale_reason a k) [ none ↦ ok tt | some reason ↦ err (stale reason) ]

unfoldable pub release :
    ControllerHandle → InputArbiter → InputArbiter × Result ControlError (Unit {0})
unfolding authorize
release h a = elim (authorize a h.key) [
  | ok _ ↦ (record a { state = unowned h.key.epoch }, ok tt)
  | err e ↦ (a, err e)
]
