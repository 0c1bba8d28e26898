-- ===== src/Model/PtyControl/Requests/Sound.antt =====
-- What a request records at every moment, and what its outcome means.
use agenttender.Common.{
  ℕ, ◌<◌, ◌≡◌, arith, [], ◌∷◌, Option, none, some, Result, ok, err, length, Bytes,
}
use agenttender.Model.PtyControl.Arbiter.{ControllerHandle, InputArbiter}
use agenttender.Model.PtyControl.Requests.{
  ErrorKind, would_block, InputOutcome, accepted_all, incomplete, IncompleteReason, PendingInput,
  PtyInputSink, done, new_pending, finish_incomplete, expire, after_write, write_step,
}

-- The outcome tells the truth about the progress: all bytes were written, or fewer than all.
abbrev pub Tells : PendingInput → Option InputOutcome → Type 0
Tells p none = p.accepted < length p.bytes
Tells p (some (accepted_all id epoch n)) =
    (id ≡ p.request_id) × (epoch ≡ p.key.epoch) × (n ≡ p.accepted) × (n ≡ length p.bytes)
Tells p (some (incomplete id epoch n total reason)) =
    (id ≡ p.request_id)
    × (epoch ≡ p.key.epoch)
    × (n ≡ p.accepted)
    × (total ≡ length p.bytes)
    × (n < total)

abbrev pub IsSound : PendingInput → Type 0
IsSound p = Tells p p.outcome

pub new_pending-IsSound :
    (id : ℕ) (h : ControllerHandle) (bytes : Bytes) (p : PendingInput)
    → new_pending id h bytes ≡ ok p
    → IsSound p × (p.accepted ≡ 0) × (p.bytes ≡ bytes) × (p.outcome ≡ none)
unfolding new_pending
new_pending-IsSound id h [] p e = cc
new_pending-IsSound id h (b ∷ bs) p e = ground arith

pub expire-IsSound : (p : PendingInput) → IsSound p → IsSound (expire p).0
unfolding expire
expire-IsSound p h = ground arith

pub after_write-IsSound :
    (r : Result ErrorKind ℕ) (p : PendingInput)
    → p.outcome ≡ none
    → IsSound p
    → IsSound (after_write r p).0
unfolding after_write
after_write-IsSound (ok n) p e h = ground arith
after_write-IsSound (err would_block) p e h = ground arith
after_write-IsSound (err _) p e h = ground arith

pub finish_incomplete-IsSound :
    (reason : IncompleteReason) (p : PendingInput)
    → IsSound p
    → IsSound (finish_incomplete reason p).0
      × ((finish_incomplete reason p).0.accepted ≡ p.accepted)
      × ((finish_incomplete reason p).0.bytes ≡ p.bytes)
unfolding finish_incomplete
finish_incomplete-IsSound reason p h = ground arith

-- No call changes a decided outcome: a later step or a missed deadline reports it again.
pub decided_final :
    (sink : PtyInputSink) (a : InputArbiter) (p : PendingInput) (s : sink.State) (o : InputOutcome)
    → p.outcome ≡ some o
    → (write_step sink a p s ≡ (p, s, done o)) × (expire p ≡ (p, o))
unfolding write_step expire
decided_final sink a p s o h = ground arith
