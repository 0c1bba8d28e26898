-- ===== src/PtyInput/Capacity.antt =====
-- The bounds of the two queues (src/pty_input.rs).
use agenttender.Common.{ℕ, ◌≤◌, List, [], ◌∷◌, none, some, length, length-append, ◌≡◌, arith}
use agenttender.Model.PtyControl.Requests.{PtyInputSink}
use agenttender.PtyInput.Items.{
  Control, claim, takeover, resize, disconnect, InputItem, Queues, control_capacity, input_capacity,
  push_control, push_input, others,
}
use agenttender.PtyInput.Rounds.{
  Phase, Thread, Event, take_work, serve, served_disconnect, serve_end, write_current,
  attempt_write, thread_step, step, run,
}

-- The queues hold no more than their capacities.
pub record IsBounded (q : Queues) : Type 0 where
  pub few_controls : length q.controls ≤ control_capacity
  pub few_inputs : length q.inputs ≤ input_capacity

others-≤ : (holder : ℕ) (items : List InputItem) → length (others holder items) ≤ length items
unfolding others
others-≤ holder [] = omega arith
others-≤ holder (item ∷ items) = ground (arith, others-≤ holder items)

push_control-IsBounded : (c : Control) (q : Queues) → IsBounded q → IsBounded (push_control c q)
unfolding push_control
push_control-IsBounded c q v = record {
  few_controls = ground (arith, v.few_controls, length-append q.controls (c ∷ []));
  few_inputs = ground (arith, v.few_inputs);
}

push_input-IsBounded : (i : InputItem) (q : Queues) → IsBounded q → IsBounded (push_input i q)
unfolding push_input
push_input-IsBounded i q v = record {
  few_controls = ground (arith, v.few_controls);
  few_inputs = ground (arith, v.few_inputs, length-append q.inputs (i ∷ []));
}

module _ (sink : PtyInputSink) where
  take_work-IsBounded :
      (y : Thread sink.State) → IsBounded y.queues → IsBounded (take_work sink y).queues
  unfolding take_work
  take_work-IsBounded y v = record {
    few_controls = ground (arith, v.few_controls);
    few_inputs = ground (arith, v.few_inputs);
  }

  attempt_write-queues : (y : Thread sink.State) → (attempt_write sink y).queues ≡ y.queues
  unfolding attempt_write write_current
  attempt_write-queues y = ground arith

  thread_step-IsBounded :
      (phase : Phase) (y : Thread sink.State)
      → IsBounded y.queues
      → IsBounded (thread_step sink phase y).queues
  unfolding thread_step serve served_disconnect serve_end attempt_write write_current
  thread_step-IsBounded Phase.at_top y v = take_work-IsBounded y v
  thread_step-IsBounded (Phase.serving (claim holder kind reply ∷ rest) e) y v = v
  thread_step-IsBounded (Phase.serving (takeover holder reply ∷ rest) e) y v = v
  thread_step-IsBounded (Phase.serving (resize key size ∷ rest) e) y v = v
  thread_step-IsBounded (Phase.serving (disconnect handle ∷ rest) e) y v = record {
    few_controls = v.few_controls;
    few_inputs = omega (arith, v.few_inputs, others-≤ handle.key.holder y.queues.inputs);
  }
  thread_step-IsBounded (Phase.serving [] (some (handle, ended))) y v = v
  thread_step-IsBounded (Phase.serving [] none) y v = rw (attempt_write-queues y) v

  step-IsBounded :
      (e : Event sink) (y : Thread sink.State)
      → IsBounded y.queues
      → IsBounded (step sink e y).queues
  unfolding step
  step-IsBounded (Event.controls c) y v = push_control-IsBounded c y.queues v
  step-IsBounded (Event.inputs item) y v = push_input-IsBounded item y.queues v
  step-IsBounded Event.works y v = thread_step-IsBounded y.phase y v

  -- However the senders and the writer thread are interleaved, at most 16 controls and 32 inputs are
  -- queued, if no more were at the beginning.
  pub run-IsBounded :
      (es : List (Event sink)) (y : Thread sink.State)
      → IsBounded y.queues
      → IsBounded (run sink es y).queues
  unfolding run
  run-IsBounded [] y v = v
  run-IsBounded (e ∷ es) y v = run-IsBounded es (step sink e y) (step-IsBounded e y v)
