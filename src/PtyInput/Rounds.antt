-- ===== src/PtyInput/Rounds.antt =====
-- `writer_loop` (src/pty_input.rs) in steps, between any of which the senders may queue: it takes
-- the controls and an input, serves one control after another, and then ends an input or makes one
-- attempt at a write. The waits and `wait_writable` change nothing.
use agenttender.Common.{ℕ, List, [], ◌∷◌, ◌++◌, Option, none, some}
use agenttender.Model.PtyControl.Arbiter.{ControllerHandle, ControllerKind, InputArbiter}
use agenttender.Model.PtyControl.Requests.{
  PtyInputSink, InputOutcome, incomplete, not_authorized, pending, done, write_step,
}
use agenttender.PtyInput.Items.{
  Control, disconnect, InputItem, write, end_of, Queues, push_control, push_input, theirs, others,
}
use agenttender.PtyInput.Serving.{
  Effect, Current, apply_control, release_input, reply_with, cancel_all, EndMarker, staged,
  in_flight, kept_end, kept_current, revocation,
}

-- Before the queues are looked at, or with these controls left to serve and this end staged.
pub data Phase : Type 0 where
  at_top : Phase
  serving : List Control → Option EndMarker → Phase

pub record Thread (S : Type 0) : Type 0 where
  pub phase : Phase
  pub queues : Queues
  pub arbiter : InputArbiter
  pub pty : S
  pub current : Option Current
  pub effects : List Effect

-- `hooks.input_revoked` for a write that ends unauthorized
abbrev pub revoked_write : ControllerKind → InputOutcome → List Effect
revoked_write kind (incomplete id epoch accepted total (not_authorized reason)) =
    Effect.input_revoked kind accepted total ∷ []
revoked_write _ _ = []

module _ (sink : PtyInputSink) where
  -- The queues are taken: all controls, and the next input unless one is being written.
  unfoldable pub take_work : Thread sink.State → Thread sink.State
  take_work y =
      let controls = y.queues.controls in
      let taken : Thread sink.State = record y {
        phase = Phase.serving controls none;
        queues = record (y.queues) { controls = [] };
      } in
      elim y.current [
        | some _ ↦ taken
        | none ↦ elim y.queues.inputs [
          | [] ↦ elim controls [ [] ↦ y | c ∷ cs ↦ taken ]
          | item ∷ rest ↦
              let popped : Thread sink.State = record taken {
                queues = record (taken.queues) { inputs = rest };
              } in
              elim item [
                | write p reply ↦ record popped {
                  current = some (record { request = p; reply = reply });
                }
                | end_of handle ended ↦ record popped {
                  phase = Phase.serving controls (some (handle, ended));
                }
              ]
        ]
      ]

  -- What a disconnect cancels: the holder's queued items, its staged end, its current write.
  unfoldable pub cancelled : ℕ → Option EndMarker → Thread sink.State → List InputItem
  unfolding theirs
  cancelled holder next_end y =
      theirs holder y.queues.inputs
      ++ (theirs holder (staged next_end) ++ theirs holder (in_flight y.current))

  unfoldable pub served_disconnect :
      ControllerHandle → List Control → Option EndMarker → Thread sink.State → Thread sink.State
  unfolding release_input cancelled cancel_all others kept_end kept_current
  served_disconnect handle rest next_end y =
      let holder = handle.key.holder in
      let (a, hooks) = release_input handle y.arbiter in
      let c =
        cancel_all sink a (cancelled holder next_end y)
          (record { pty = y.pty; effects = y.effects ++ hooks; accepted = 0; total = 0 }) in
      record {
        phase = Phase.serving rest (kept_end holder next_end);
        queues = record (y.queues) { inputs = others holder y.queues.inputs };
        arbiter = a;
        pty = c.pty;
        current = kept_current holder y.current;
        effects = c.effects ++ revocation handle.kind c.accepted c.total;
      }

  unfoldable pub serve :
      Control → List Control → Option EndMarker → Thread sink.State → Thread sink.State
  unfolding served_disconnect apply_control
  serve (disconnect handle) rest next_end y = served_disconnect handle rest next_end y
  serve c rest next_end y =
      let (a, effects) = apply_control c y.arbiter in
      record y { phase = Phase.serving rest next_end; arbiter = a; effects = y.effects ++ effects }

  -- The staged end marker.
  unfoldable pub serve_end : ControllerHandle → Option ℕ → Thread sink.State → Thread sink.State
  unfolding release_input
  serve_end handle ended y =
      let (a, hooks) = release_input handle y.arbiter in
      record y {
        phase = Phase.at_top;
        arbiter = a;
        effects = y.effects ++ (hooks ++ reply_with Effect.done_reply ended);
      }

  -- One attempt at the current write.
  unfoldable pub write_current : Current → Thread sink.State → Thread sink.State
  unfolding write_step
  write_current w y =
      let (p, s, step) = write_step sink y.arbiter w.request y.pty in
      elim step [
        | pending ↦ record y {
          phase = Phase.at_top;
          pty = s;
          current = some (record w { request = p });
        }
        | done outcome ↦ record y {
          phase = Phase.at_top;
          pty = s;
          current = none;
          effects =
              y.effects
              ++ (revoked_write p.kind outcome
                  ++ reply_with (λ channel. Effect.outcome_reply channel outcome) w.reply);
        }
      ]

  unfoldable pub attempt_write : Thread sink.State → Thread sink.State
  unfolding write_current
  attempt_write y = elim y.current [
    | none ↦ record y { phase = Phase.at_top }
    | some w ↦ write_current w y
  ]

  -- The writer thread's next step.
  unfoldable pub thread_step : Phase → Thread sink.State → Thread sink.State
  unfolding take_work serve serve_end attempt_write
  thread_step Phase.at_top y = take_work y
  thread_step (Phase.serving (c ∷ rest) next_end) y = serve c rest next_end y
  thread_step (Phase.serving [] (some (handle, ended))) y = serve_end handle ended y
  thread_step (Phase.serving [] none) y = attempt_write y

  -- A sender's look at its queue, or the thread's next step.
  pub data Event : Type 0 where
    controls : Control → Event
    inputs : InputItem → Event
    works : Event

  unfoldable pub step : Event → Thread sink.State → Thread sink.State
  unfolding push_control push_input thread_step
  step (controls c) y = record y { queues = push_control c y.queues }
  step (inputs item) y = record y { queues = push_input item y.queues }
  step works y = thread_step y.phase y

  unfoldable pub run : List Event → Thread sink.State → Thread sink.State
  unfolding step
  run [] y = y
  run (e ∷ es) y = run es (step e y)
