-- ===== src/Model/PtyControl/Requests/Progress.antt =====
-- A request ends once its sink takes bytes and its handle keeps its authority.
use agenttender.Common.{
  ℕ, zero, suc, ◌+◌, ◌≤◌, ◌<◌, ◌≡◌, refl, ap, ◌∙◌, arith, ◌⊎◌, inl, inr, none, some, ok, length,
  drop, Bytes, length-drop,
}
use agenttender.Model.PtyControl.Arbiter.{ControllerHandle, InputArbiter, stale_reason}
use agenttender.Model.PtyControl.Requests.{
  InputOutcome, accepted_all, PendingInput, PtyInputSink, WriteStep, new_pending, after_write,
  write_step, attempt,
}
use agenttender.Model.PtyControl.Requests.Sound.{IsSound, new_pending-IsSound, decided_final}

-- A sink that takes at least one byte of what it is offered.
abbrev pub IsEager : PtyInputSink → Type 0
IsEager sink =
    (bytes : Bytes) (s : sink.State)
    → 0 < length bytes
    → (n : ℕ) × ((sink.try_write bytes s).1 ≡ ok n) × (0 < n) × (n ≤ length bytes)

-- The request stands in the same words, and has been decided in full or has moved on.
abbrev Advanced : PendingInput → PendingInput → Type 0
Advanced p q =
    IsSound q
    × (q.key ≡ p.key)
    × (q.bytes ≡ p.bytes)
    × (q.request_id ≡ p.request_id)
    × ((q.outcome ≡ some (accepted_all p.request_id p.key.epoch (length p.bytes)))
        ⊎ ((q.outcome ≡ none) × (p.accepted < q.accepted)))

after_write_advances :
    (n : ℕ) (p : PendingInput)
    → p.outcome ≡ none
    → IsSound p
    → 0 < n
    → n ≤ length (drop p.accepted p.bytes)
    → Advanced p (after_write (ok n) p).0
unfolding after_write
after_write_advances n p e h pos fits = ground (arith, length-drop p.accepted p.bytes)

module _ (sink : PtyInputSink) (eager : IsEager sink) (a : InputArbiter) where
  attempt_advances :
      (p : PendingInput) (s : sink.State)
      → p.outcome ≡ none
      → IsSound p
      → Advanced p (attempt sink p s).0
  unfolding attempt
  attempt_advances p s e h =
      let (n, answer, pos, fits) =
        eager (drop p.accepted p.bytes) s (ground (arith, length-drop p.accepted p.bytes)) in
      rw answer (after_write_advances n p e h pos fits)

  write_step_advances :
      (p : PendingInput) (s : sink.State)
      → p.outcome ≡ none
      → IsSound p
      → stale_reason a p.key ≡ none
      → Advanced p (write_step sink a p s).0
  unfolding write_step
  write_step_advances p s e h f = ground (arith, attempt_advances p s e h)

  -- The caller's loop: it steps the request again each time the PTY is writable.
  unfoldable pub write_steps : ℕ → PendingInput × sink.State → PendingInput × sink.State
  write_steps zero c = c
  write_steps (suc n) (p, s) = let (p', s', step) = write_step sink a p s in write_steps n (p', s')

  write_steps_decided :
      (n : ℕ) (p : PendingInput) (s : sink.State) {o : InputOutcome}
      → p.outcome ≡ some o
      → (write_steps n (p, s)).0 ≡ p
  unfolding write_steps
  write_steps_decided zero p s e = refl
  write_steps_decided (suc n) p s {o} e =
      ap (λ (c : PendingInput × sink.State × WriteStep). (write_steps n (c.0, c.1)).0)
        (decided_final sink a p s o e).0
      ∙ write_steps_decided n p s e

  write_steps_finish :
      (n : ℕ) (p : PendingInput) (s : sink.State)
      → p.outcome ≡ none
      → IsSound p
      → stale_reason a p.key ≡ none
      → length p.bytes ≤ p.accepted + n
      → (write_steps n (p, s)).0.outcome
        ≡ some (accepted_all p.request_id p.key.epoch (length p.bytes))
  unfolding write_steps
  write_steps_finish zero p s e h f b = ground arith
  write_steps_finish (suc n) p s e h f b =
      let (p', s', step) = write_step sink a p s in
      let (sound, key, bytes, id, next) = write_step_advances p s e h f in
      elim next [
        | inl whole ↦ rw (write_steps_decided n p' s' whole) whole
        | inr (more, moved) ↦
            write_steps_finish n p' s' more sound (rw key f) (omega (arith, ap length bytes)) ∙ cc
      ]

  -- With an eager sink and a handle that authorizes, a request of n bytes has been accepted in
  -- full after n steps at most.
  pub new_pending-write_steps :
      (id : ℕ) (handle : ControllerHandle) (bytes : Bytes) (p : PendingInput) (s : sink.State)
      → new_pending id handle bytes ≡ ok p
      → stale_reason a p.key ≡ none
      → (write_steps (length bytes) (p, s)).0.outcome
        ≡ some (accepted_all p.request_id p.key.epoch (length bytes))
  new_pending-write_steps id handle bytes p s e f =
      let (sound, started, same, fresh) = new_pending-IsSound id handle bytes p e in
      write_steps_finish (length bytes) p s fresh sound f (omega (arith, ap length same)) ∙ cc
