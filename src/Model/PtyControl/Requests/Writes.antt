-- ===== src/Model/PtyControl/Requests/Writes.antt =====
-- What a request has put into the PTY, at every moment, and that a sink which takes bytes takes
-- them all.
use agenttender.Common.{
  ℕ, ◌+◌, ◌≤◌, ◌≡◌, refl, sym, ap, ◌∙◌, arith, inl, inr, List, [], ◌∷◌, ◌++◌, none, Result, ok, err,
  length, take, drop, Bytes, Option-cases, take-add, length-drop, append-nil, append_assoc,
}
use agenttender.Model.PtyControl.Arbiter.{ControllerHandle, InputArbiter, stale_reason}
use agenttender.Model.PtyControl.Requests.{
  ErrorKind, would_block, IncompleteReason, not_authorized, deadline_exceeded, PendingInput,
  PtyInputSink, new_pending, finish_incomplete, expire, after_write, write_step, attempt,
}
use agenttender.Model.PtyControl.Requests.Sound.{
  IsSound, Tells, new_pending-IsSound, after_write-IsSound, finish_incomplete-IsSound,
}

-- The answer of `try_write`, as the trait documents it: a count of bytes is the length of the
-- prefix that was written, and an error wrote nothing.
abbrev pub Wrote : Bytes → Bytes → Bytes → Result ErrorKind ℕ → Type 0
Wrote bytes before after (ok n) = (n ≤ length bytes) × (after ≡ before ++ take n bytes)
Wrote bytes before after (err e) = after ≡ before

-- A sink that does what its trait says; `written` is all that went into the PTY.
pub record IsHonest (sink : PtyInputSink) : Type 0 where
  pub written : sink.State → Bytes
  pub writes :
      (bytes : Bytes) (s : sink.State)
      → Wrote bytes (written s) (written (sink.try_write bytes s).0) (sink.try_write bytes s).1

-- The bytes that were there before, and behind them the accepted part of the request.
abbrev Written : Bytes → Bytes → PendingInput → Bytes → Type 0
Written base bytes p out = IsSound p × (p.bytes ≡ bytes) × (out ≡ base ++ take p.accepted bytes)

after_write_ok :
    (n : ℕ) (p : PendingInput) (base before after : Bytes)
    → p.outcome ≡ none
    → Wrote (drop p.accepted p.bytes) before after (ok n)
    → before ≡ base ++ take p.accepted p.bytes
    → ((after_write (ok n) p).0.bytes ≡ p.bytes)
      × (after ≡ base ++ take (after_write (ok n) p).0.accepted p.bytes)
unfolding after_write
after_write_ok n p base before after e (fits, w) b =
    let joined : after ≡ base ++ take (p.accepted + n) p.bytes =
      w
      ∙ ap (λ x. x ++ take n (drop p.accepted p.bytes)) b
      ∙ append_assoc base (take p.accepted p.bytes) (take n (drop p.accepted p.bytes))
      ∙ ap (◌++◌ base) (sym (take-add p.accepted n p.bytes)) in
    ground (arith, length-drop p.accepted p.bytes, append-nil before)

after_write_err :
    (e : ErrorKind) (p : PendingInput)
    → ((after_write (err e) p).0.bytes ≡ p.bytes)
      × ((after_write (err e) p).0.accepted ≡ p.accepted)
unfolding after_write
after_write_err would_block p = (refl, refl)
after_write_err e p = ground arith

after_write-Written :
    (r : Result ErrorKind ℕ) (p : PendingInput) (base bytes before after : Bytes)
    → p.outcome ≡ none
    → Wrote (drop p.accepted p.bytes) before after r
    → Written base bytes p before
    → Written base bytes (after_write r p).0 after
after_write-Written (ok n) p base bytes before after e w (sound, same, b) =
    let k = after_write_ok n p base before after e w (cc) in
    (after_write-IsSound (ok n) p e sound, k.0 ∙ same, k.1 ∙ cc)
after_write-Written (err x) p base bytes before after e w (sound, same, b) =
    let k = after_write_err x p in (after_write-IsSound (err x) p e sound, k.0 ∙ same, w ∙ b ∙ cc)

-- What may happen to a queued request: a write attempt, under the ownership of that moment, or
-- the caller's deadline.
pub data WriteEvent : Type 0 where
  attempt_under : InputArbiter → WriteEvent
  deadline : WriteEvent

module _ (sink : PtyInputSink) (honest : IsHonest sink) where
  open honest use {written, writes}

  attempt-Written :
      (p : PendingInput) (s : sink.State) (base bytes : Bytes)
      → p.outcome ≡ none
      → Written base bytes p (written s)
      → let (p', s', step) = attempt sink p s in Written base bytes p' (written s')
  unfolding attempt
  attempt-Written p s base bytes e h =
      let (s', answer) = sink.try_write (drop p.accepted p.bytes) s in
      after_write-Written answer p base bytes (written s) (written s') e
        (writes (drop p.accepted p.bytes) s) h

  finish-Written :
      (reason : IncompleteReason) (p : PendingInput) (s : sink.State) (base bytes : Bytes)
      → Written base bytes p (written s)
      → Written base bytes (finish_incomplete reason p).0 (written s)
  finish-Written reason p s base bytes (sound, same, b) =
      let (sound', kept, same') = finish_incomplete-IsSound reason p sound in
      (sound', same' ∙ same, b ∙ cc)

  write_step-Written :
      (a : InputArbiter) (p : PendingInput) (s : sink.State) (base bytes : Bytes)
      → Written base bytes p (written s)
      → let (p', s', step) = write_step sink a p s in Written base bytes p' (written s')
  unfolding write_step
  write_step-Written a p s base bytes h = elim (Option-cases p.outcome) [
    | inr (o, e) ↦ ground arith
    | inl e ↦ elim (Option-cases (stale_reason a p.key)) [
      | inr (reason, f) ↦ ground (arith, finish-Written (not_authorized reason) p s base bytes h)
      | inl f ↦ ground (arith, attempt-Written p s base bytes e h)
    ]
  ]

  unfoldable pub write_event : WriteEvent → PendingInput × sink.State → PendingInput × sink.State
  write_event (attempt_under a) (p, s) = let (p', s', step) = write_step sink a p s in (p', s')
  write_event deadline (p, s) = ((expire p).0, s)

  unfoldable pub write_events :
      List WriteEvent → PendingInput × sink.State → PendingInput × sink.State
  unfolding write_event
  write_events [] c = c
  write_events (e ∷ es) c = write_events es (write_event e c)

  write_event-Written :
      (e : WriteEvent) (c : PendingInput × sink.State) (base bytes : Bytes)
      → Written base bytes c.0 (written c.1)
      → Written base bytes (write_event e c).0 (written (write_event e c).1)
  unfolding write_event
  write_event-Written (attempt_under a) (p, s) base bytes h = write_step-Written a p s base bytes h
  write_event-Written deadline (p, s) base bytes h =
      unfold expire in finish-Written deadline_exceeded p s base bytes h

  write_events-Written :
      (es : List WriteEvent) (c : PendingInput × sink.State) (base bytes : Bytes)
      → Written base bytes c.0 (written c.1)
      → Written base bytes (write_events es c).0 (written (write_events es c).1)
  unfolding write_events
  write_events-Written [] c base bytes h = h
  write_events-Written (e ∷ es) c base bytes h =
      write_events-Written es (write_event e c) base bytes (write_event-Written e c base bytes h)

  -- However ownership changes between the attempts, and whenever the deadline comes, an honest
  -- sink has received exactly the accepted prefix of a request, and the outcome reports it: all
  -- bytes were written, or `accepted` of them and fewer than all.
  pub new_pending-write_events :
      (es : List WriteEvent) (id : ℕ) (handle : ControllerHandle) (bytes : Bytes) (p : PendingInput)
      (s : sink.State)
      → new_pending id handle bytes ≡ ok p
      → let (p', s') = write_events es (p, s) in
        (written s' ≡ written s ++ take p'.accepted bytes)
        × Tells p' p'.outcome
        × (p'.bytes ≡ bytes)
  new_pending-write_events es id handle bytes p s e =
      let (sound, started, same, fresh) = new_pending-IsSound id handle bytes p e in
      let h =
        write_events-Written es (p, s) (written s) bytes
          (sound, same, rw started (sym (append-nil (written s)))) in
      (h.2, h.0, h.1)
