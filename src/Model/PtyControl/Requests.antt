-- ===== src/Model/PtyControl/Requests.antt =====
-- Input requests and their writes (src/model/pty_control.rs). The trait `PtyInputSink` is a record
-- with the sink's state; `io::ErrorKind` has the kinds that the program names and one constructor
-- for all others.
pub mod Sound
pub mod Writes
pub mod Progress
use agenttender.Common.{
  ℕ, ◌+◌, ◌-◌, Bool, true, false, not, List, [], ◌∷◌, Option, none, some, Result, ok, err, ◌>>=◌,
  if◌then◌else◌, ◌==◌, ltb, length, drop, is_empty, bytes_eq, Bytes,
}
use agenttender.Common.Words.{u64_max}
use agenttender.Model.Ids.{RunId}
use agenttender.Model.PtyControl.Arbiter.{
  ControllerKind, StaleReason, HandleKey, ControllerHandle, InputArbiter, stale_reason,
}

pub data ErrorKind : Type 0 where
  would_block interrupted invalid_data permission_denied : ErrorKind
  other_kind : ℕ → ErrorKind

pub record PtyInputSink : Type 1 where
  pub State : Type 0
  pub try_write : Bytes → State → State × Result ErrorKind ℕ

pub data IncompleteReason : Type 0 where
  not_authorized : StaleReason → IncompleteReason
  deadline_exceeded closed : IncompleteReason
  sink_failed : ErrorKind → IncompleteReason

-- `accepted_all request_id epoch bytes`, `incomplete request_id epoch accepted total reason`
pub data InputOutcome : Type 0 where
  accepted_all : ℕ → ℕ → ℕ → InputOutcome
  incomplete : ℕ → ℕ → ℕ → ℕ → IncompleteReason → InputOutcome

pub data InputError : Type 0 where
  empty_request : InputError

pub record PendingInput : Type 0 where
  pub request_id : ℕ
  pub key : HandleKey
  pub kind : ControllerKind
  pub bytes : Bytes
  pub accepted : ℕ
  pub outcome : Option InputOutcome

-- `PendingInput::new`
unfoldable pub new_pending : ℕ → ControllerHandle → Bytes → Result InputError PendingInput
new_pending request_id handle bytes =
    if is_empty bytes
    then err empty_request
    else ok (record {
      request_id = request_id;
      key = handle.key;
      kind = handle.kind;
      bytes = bytes;
      accepted = 0;
      outcome = none;
    })

-- `Option::get_or_insert` on the outcome
decide : PendingInput → Option InputOutcome → InputOutcome → PendingInput × InputOutcome
decide p (some o) new_outcome = (p, o)
decide p none new_outcome = (record p { outcome = some new_outcome }, new_outcome)

unfoldable pub finish_incomplete : IncompleteReason → PendingInput → PendingInput × InputOutcome
unfolding decide
finish_incomplete reason p =
    decide p p.outcome (incomplete p.request_id p.key.epoch p.accepted (length p.bytes) reason)

unfoldable pub expire : PendingInput → PendingInput × InputOutcome
unfolding finish_incomplete
expire p = finish_incomplete deadline_exceeded p

unfoldable pub record_written : ℕ → PendingInput → PendingInput
record_written n p =
    let q = record p { accepted = p.accepted + n } in
    if q.accepted == length q.bytes
    then record q { outcome = some (accepted_all q.request_id q.key.epoch q.accepted) }
    else q

pub data WriteStep : Type 0 where
  pending : WriteStep
  done : InputOutcome → WriteStep

-- `WriteStep::Done(pending.finish_incomplete(reason))`
finish_step : IncompleteReason → PendingInput → PendingInput × WriteStep
unfolding finish_incomplete
finish_step reason p = let (p', o) = finish_incomplete reason p in (p', done o)

-- `pending.outcome.map_or(WriteStep::Pending, WriteStep::Done)`
step_of_outcome : Option InputOutcome → WriteStep
step_of_outcome none = pending
step_of_outcome (some o) = done o

-- The match of `write_step` on the sink's answer.
unfoldable pub after_write : Result ErrorKind ℕ → PendingInput → PendingInput × WriteStep
unfolding finish_step record_written step_of_outcome
after_write (ok n) p =
    if n == 0
    then finish_step closed p
    else if ltb (length p.bytes - p.accepted) n
    then finish_step (sink_failed invalid_data) p
    else (let p' = record_written n p in (p', step_of_outcome p'.outcome))
after_write (err would_block) p = (p, pending)
after_write (err interrupted) p = (p, pending)
after_write (err e) p = finish_step (sink_failed e) p

module _ (sink : PtyInputSink) where
  -- One attempt at the sink for an undecided request that is authorized.
  attempt : PendingInput → sink.State → PendingInput × sink.State × WriteStep
  unfolding after_write
  attempt p s =
      let (s', answer) = sink.try_write (drop p.accepted p.bytes) s in
      let (p', step) = after_write answer p in (p', s', step)

  unfoldable pub write_step :
      InputArbiter → PendingInput → sink.State → PendingInput × sink.State × WriteStep
  unfolding attempt stale_reason finish_step
  write_step a p s = elim p.outcome [
    | some o ↦ (p, s, done o)
    | none ↦ elim (stale_reason a p.key) [
      | some reason ↦ let (p', step) = finish_step (not_authorized reason) p in (p', s, step)
      | none ↦ attempt p s
    ]
  ]
