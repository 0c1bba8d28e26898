-- ===== src/PtyInput/Once.antt =====
-- Every request is answered once (src/pty_input.rs): the steps of the writer thread move a channel
-- from waiting to answered.
use agenttender.Common.{
  ℕ, ◌+◌, List, [], ◌∷◌, ◌++◌, none, some, ◌≡◌, refl, ◌∙◌, ap, arith, inl, inr, Option-cases,
  List-cases,
}
use agenttender.Model.PtyControl.Requests.{PtyInputSink, write_step}
use agenttender.PtyInput.Items.{write, end_of}
use agenttender.PtyInput.Serving.{Effect, Current, reply_with, in_flight}
use agenttender.PtyInput.Rounds.{
  Phase, Thread, Event, take_work, write_current, attempt_write, thread_step, step, run,
  revoked_write,
}
use agenttender.PtyInput.Answers.{
  sum_of, sum_of-append, item_hits, control_hits, effect_hits, reply_with-hits, revoked_write-hits,
}
use agenttender.PtyInput.Totals.{
  WriteStep-cases, attempt_write-idle, attempt_write-some, take_work-nothing, accepted_control,
  accepted_input, push_control-total, push_input-total, total, total_of, serve-total,
  serve_end-total,
}

module _ (sink : PtyInputSink) (c : ℕ) where
  write_current-total :
      (w : Current) (y : Thread sink.State)
      → y.current ≡ some w
      → total_of sink c (write_current sink w y) ≡ total sink c (Phase.serving [] none) y
  unfolding write_current item_hits effect_hits
  write_current-total w y n =
      let p = (write_step sink y.arbiter w.request y.pty).0 in
      let before = ap (λ o. sum_of (item_hits c) (in_flight o)) n in
      elim (WriteStep-cases (write_step sink y.arbiter w.request y.pty).2) [
        | inl m ↦ rw (write_current, m) (omega (arith, before))
        | inr (o, m) ↦
            let f = effect_hits c in
            let g = λ (x : ℕ). Effect.outcome_reply x o in
            rw (write_current, m)
              (omega (
                arith,
                before,
                sum_of-append f y.effects (revoked_write p.kind o ++ reply_with g w.reply),
                sum_of-append f (revoked_write p.kind o) (reply_with g w.reply),
                revoked_write-hits c p.kind o,
                reply_with-hits c g w.reply (λ x. refl),
              ))
      ]

  attempt_write-total :
      (y : Thread sink.State)
      → total_of sink c (attempt_write sink y) ≡ total sink c (Phase.serving [] none) y
  unfolding attempt_write
  attempt_write-total y = elim (Option-cases y.current) [
    | inl n ↦ rw (attempt_write-idle sink y n) (omega arith)
    | inr (w, n) ↦ rw (attempt_write-some sink y w n) (write_current-total w y n)
  ]

  take_work-total :
      (y : Thread sink.State)
      → y.phase ≡ Phase.at_top
      → total_of sink c (take_work sink y) ≡ total sink c Phase.at_top y
  unfolding take_work item_hits
  take_work-total y p = elim (Option-cases y.current) [
    | inr (w, n) ↦ rw (take_work, n) (omega (arith, ap (λ o. sum_of (item_hits c) (in_flight o)) n))
    | inl n ↦
        let none_left = ap (λ o. sum_of (item_hits c) (in_flight o)) n in
        elim (List-cases y.queues.inputs) [
          | inl b ↦ elim (List-cases y.queues.controls) [
            | inl d ↦
                ap (total_of sink c) (take_work-nothing sink y n b d)
                ∙ ap (λ phase. total sink c phase y) p
            | inr (k, ks, d) ↦
                rw (take_work, n, b, d)
                  (omega
                    (arith, none_left, ap (sum_of (control_hits c)) d, ap (sum_of (item_hits c)) b))
          ]
          | inr (write q reply, rest, b) ↦
              rw (take_work, n, b) (omega (arith, none_left, ap (sum_of (item_hits c)) b))
          | inr (end_of handle ended, rest, b) ↦
              rw (take_work, n, b) (omega (arith, none_left, ap (sum_of (item_hits c)) b))
        ]
  ]

  thread_step-total :
      (phase : Phase) (y : Thread sink.State)
      → y.phase ≡ phase
      → total_of sink c (thread_step sink phase y) ≡ total sink c phase y
  unfolding thread_step
  thread_step-total Phase.at_top y p = take_work-total y p
  thread_step-total (Phase.serving (control ∷ rest) e) y p = serve-total sink c control rest e y
  thread_step-total (Phase.serving [] (some (handle, ended))) y p =
      serve_end-total sink c handle ended y
  thread_step-total (Phase.serving [] none) y p = attempt_write-total y

  -- What the senders queue for the channel during a run.
  unfoldable pub requested : List (Event sink) → Thread sink.State → ℕ
  unfolding step
  requested [] y = 0
  requested (Event.controls k ∷ es) y =
      accepted_control c k y.queues + requested es (step sink (Event.controls k) y)
  requested (Event.inputs item ∷ es) y =
      accepted_input c item y.queues + requested es (step sink (Event.inputs item) y)
  requested (Event.works ∷ es) y = requested es (step sink Event.works y)

  -- However the senders and the writer thread are interleaved, every request for an answer on a
  -- channel that got into a queue is either still waiting (queued, taken or being written) or has
  -- been answered once, or its channel closed: the waiting and the answered together are those of
  -- the beginning and the requests since.
  pub run-total :
      (es : List (Event sink)) (y : Thread sink.State)
      → total_of sink c (run sink es y) ≡ total_of sink c y + requested es y
  unfolding run requested step
  run-total [] y = omega arith
  run-total (Event.controls k ∷ es) y = omega (
    arith,
    run-total es (step sink (Event.controls k) y),
    push_control-total c k y.queues y.phase y.current,
  )
  run-total (Event.inputs item ∷ es) y = omega (
    arith,
    run-total es (step sink (Event.inputs item) y),
    push_input-total c item y.queues y.phase y.current,
  )
  run-total (Event.works ∷ es) y =
      omega (arith, run-total es (step sink Event.works y), thread_step-total y.phase y refl)
