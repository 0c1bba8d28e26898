-- ===== src/PtyInput/Totals.antt =====
-- What a step of the writer thread answers is no longer waiting (src/pty_input.rs): the controls, the
-- end markers and the cancelled writes.
use agenttender.Common.{
  ℕ, ◌+◌, List, [], ◌∷◌, ◌++◌, Option, none, some, length, leb, ◌≡◌, refl, arith, inl, inr, ◌⊎◌,
  if◌then◌else◌,
}
use agenttender.Model.PtyControl.Arbiter.{ControllerHandle, InputArbiter}
use agenttender.Model.PtyControl.Requests.{
  PtyInputSink, InputOutcome, WriteStep, pending, done, write_step,
}
use agenttender.PtyInput.Items.{
  Control, claim, takeover, resize, disconnect, InputItem, write, end_of, Queues, control_capacity,
  input_capacity, push_control, push_input, theirs,
}
use agenttender.PtyInput.Serving.{
  Effect, Current, Cancelling, EndMarker, cancel, cancel_all, apply_control, release_input,
  reply_with, staged, in_flight, revocation,
}
use agenttender.PtyInput.Rounds.{
  Phase, Thread, take_work, cancelled, serve, served_disconnect, serve_end, write_current,
  attempt_write,
}
use agenttender.PtyInput.Answers.{
  sum_of, sum_of-append, item_hits, control_hits, effect_hits, waiting, answered, partition-hits,
  kept_end-hits, kept_current-hits, reply_with-hits, release_input-hits, apply_control-hits,
  revocation-hits,
}

pub WriteStep-cases : (s : WriteStep) → (s ≡ pending) ⊎ ((o : InputOutcome) × (s ≡ done o))
WriteStep-cases pending = inl refl
WriteStep-cases (done o) = inr (o, refl)

module _ (sink : PtyInputSink) where
  pub attempt_write-idle :
      (y : Thread sink.State)
      → y.current ≡ none
      → attempt_write sink y ≡ record y { phase = Phase.at_top }
  unfolding attempt_write
  attempt_write-idle y n = ground arith

  pub attempt_write-some :
      (y : Thread sink.State) (w : Current)
      → y.current ≡ some w
      → attempt_write sink y ≡ write_current sink w y
  unfolding attempt_write
  attempt_write-some y w n = ground arith

  pub take_work-nothing :
      (y : Thread sink.State)
      → y.current ≡ none
      → y.queues.inputs ≡ []
      → y.queues.controls ≡ []
      → take_work sink y ≡ y
  unfolding take_work
  take_work-nothing y n b d = ground arith

-- The requests for an answer on the channel that the senders get into the queues.
abbrev pub accepted_control : ℕ → Control → Queues → ℕ
accepted_control c k q = if leb control_capacity (length q.controls) then 0 else control_hits c k

abbrev pub accepted_input : ℕ → InputItem → Queues → ℕ
accepted_input c item q = if leb input_capacity (length q.inputs) then 0 else item_hits c item

pub push_control-total :
    (c : ℕ) (k : Control) (q : Queues) (phase : Phase) (current : Option Current)
    → waiting c phase (push_control k q) current
      ≡ waiting c phase q current + accepted_control c k q
unfolding push_control
push_control-total c k q phase current =
    ground (arith, sum_of-append (control_hits c) q.controls (k ∷ []))

pub push_input-total :
    (c : ℕ) (item : InputItem) (q : Queues) (phase : Phase) (current : Option Current)
    → waiting c phase (push_input item q) current
      ≡ waiting c phase q current + accepted_input c item q
unfolding push_input
push_input-total c item q phase current =
    ground (arith, sum_of-append (item_hits c) q.inputs (item ∷ []))

module _ (sink : PtyInputSink) (c : ℕ) where
  cancel-hits :
      (a : InputArbiter) (item : InputItem) (k : Cancelling sink.State)
      → answered c (cancel sink a item k).effects ≡ answered c k.effects + item_hits c item
  unfolding cancel item_hits effect_hits
  cancel-hits a (write p reply) k = elim (WriteStep-cases (write_step sink a p k.pty).2) [
    | inl n ↦
        rw (cancel, n)
          (omega (
            arith,
            sum_of-append (effect_hits c) k.effects (reply_with Effect.closed reply),
            reply_with-hits c Effect.closed reply (λ x. refl),
          ))
    | inr (o, n) ↦
        let f = λ (x : ℕ). Effect.outcome_reply x o in
        rw (cancel, n)
          (omega (
            arith,
            sum_of-append (effect_hits c) k.effects (reply_with f reply),
            reply_with-hits c f reply (λ x. refl),
          ))
  ]
  cancel-hits a (end_of handle ended) k = omega (
    arith,
    sum_of-append (effect_hits c) k.effects (reply_with Effect.done_reply ended),
    reply_with-hits c Effect.done_reply ended (λ x. refl),
  )

  cancel_all-hits :
      (a : InputArbiter) (items : List InputItem) (k : Cancelling sink.State)
      → answered c (cancel_all sink a items k).effects
        ≡ answered c k.effects + sum_of (item_hits c) items
  unfolding cancel_all
  cancel_all-hits a [] k = omega arith
  cancel_all-hits a (item ∷ items) k =
      omega (arith, cancel_all-hits a items (cancel sink a item k), cancel-hits a item k)

  -- Waiting and answered, together.
  abbrev pub total : Phase → Thread sink.State → ℕ
  total phase y = waiting c phase y.queues y.current + answered c y.effects

  abbrev pub total_of : Thread sink.State → ℕ
  total_of y = total y.phase y

  served_disconnect-total :
      (handle : ControllerHandle) (rest : List Control) (e : Option EndMarker)
      (y : Thread sink.State)
      → total_of (served_disconnect sink handle rest e y)
        ≡ total (Phase.serving (disconnect handle ∷ rest) e) y
  unfolding served_disconnect cancelled control_hits
  served_disconnect-total handle rest e y =
      let holder = handle.key.holder in
      let (a, hooks) = release_input handle y.arbiter in
      let items = cancelled sink holder e y in
      let start : Cancelling sink.State = record {
        pty = y.pty;
        effects = y.effects ++ hooks;
        accepted = 0;
        total = 0;
      } in
      let k = cancel_all sink a items start in
      let f = item_hits c in
      omega (
        arith,
        sum_of-append (effect_hits c) k.effects (revocation handle.kind k.accepted k.total),
        revocation-hits c handle.kind k.accepted k.total,
        cancel_all-hits a items start,
        sum_of-append (effect_hits c) y.effects hooks,
        release_input-hits c handle y.arbiter,
        sum_of-append f (theirs holder y.queues.inputs)
            (theirs holder (staged e) ++ theirs holder (in_flight y.current)),
        sum_of-append f (theirs holder (staged e)) (theirs holder (in_flight y.current)),
        partition-hits c holder y.queues.inputs,
        kept_end-hits c holder e,
        kept_current-hits c holder y.current,
      )

  apply-total :
      (control : Control) (rest : List Control) (e : Option EndMarker) (y : Thread sink.State)
      → sum_of (control_hits c) rest
          + (sum_of (item_hits c) (staged e))
          + answered c (y.effects ++ (apply_control control y.arbiter).1)
        ≡ control_hits c control
          + sum_of (control_hits c) rest
          + sum_of (item_hits c) (staged e)
          + answered c y.effects
  apply-total control rest e y = omega (
    arith,
    sum_of-append (effect_hits c) y.effects (apply_control control y.arbiter).1,
    apply_control-hits c control y.arbiter,
  )

  pub serve-total :
      (control : Control) (rest : List Control) (e : Option EndMarker) (y : Thread sink.State)
      → total_of (serve sink control rest e y) ≡ total (Phase.serving (control ∷ rest) e) y
  unfolding serve
  serve-total (disconnect handle) rest e y = served_disconnect-total handle rest e y
  serve-total (claim holder kind reply) rest e y =
      omega (arith, apply-total (claim holder kind reply) rest e y)
  serve-total (takeover holder reply) rest e y =
      omega (arith, apply-total (takeover holder reply) rest e y)
  serve-total (resize key size) rest e y = omega (arith, apply-total (resize key size) rest e y)

  pub serve_end-total :
      (handle : ControllerHandle) (ended : Option ℕ) (y : Thread sink.State)
      → total_of (serve_end sink handle ended y) ≡ total (Phase.serving [] (some (handle, ended))) y
  unfolding serve_end item_hits effect_hits
  serve_end-total handle ended y =
      let (a, hooks) = release_input handle y.arbiter in
      let f = effect_hits c in
      omega (
        arith,
        sum_of-append f y.effects (hooks ++ reply_with Effect.done_reply ended),
        sum_of-append f hooks (reply_with Effect.done_reply ended),
        release_input-hits c handle y.arbiter,
        reply_with-hits c Effect.done_reply ended (λ x. refl),
      )
