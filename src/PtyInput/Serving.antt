-- ===== src/PtyInput/Serving.antt =====
-- How the writer thread serves a control (src/pty_input.rs). What it does to the world besides the
-- PTY's input is a list of effects: the calls of `ControlHooks`, the window sizes it applies, the
-- answers it sends and the channels it closes without one.
use agenttender.Common.{
  ℕ, ◌+◌, List, [], ◌∷◌, ◌++◌, Option, none, some, Result, ok, err, ltb, is_ok, if◌then◌else◌,
}
use agenttender.Recording.Geometry.{Geometry}
use agenttender.Model.PtyControl.Arbiter.{
  ControllerKind, human, agent, ControllerHandle, ControlError, Takeover, InputArbiter, authorize,
  release,
}
use agenttender.Model.PtyControl.Arbiter
use agenttender.Model.PtyControl.Requests.{
  PtyInputSink, PendingInput, InputOutcome, accepted_all, incomplete, pending, done, write_step,
}
use agenttender.PtyInput.Items.{
  Control, claim, takeover, resize, disconnect, InputItem, write, end_of, belongs,
}

pub data Trigger : Type 0 where
  on_attach on_takeover : Trigger

pub data Effect : Type 0 where
  human_control : Trigger → Effect
  human_released : Effect
  retire : ℕ → ControllerKind → ℕ → Effect
  input_revoked : ControllerKind → ℕ → ℕ → Effect
  resized : Geometry → Effect
  claim_reply : ℕ → Result ControlError ControllerHandle → Effect
  takeover_reply : ℕ → Result ControlError Takeover → Effect
  outcome_reply : ℕ → InputOutcome → Effect
  done_reply : ℕ → Effect
  closed : ℕ → Effect

pub record Current : Type 0 where
  pub request : PendingInput
  pub reply : Option ℕ

-- `hooks.human_control` for a claim by a human
abbrev attached : Result ControlError ControllerHandle → List Effect
attached (err e) = []
attached (ok h) = elim h.kind [ human ↦ Effect.human_control on_attach ∷ [] | agent ↦ [] ]

abbrev retired : Takeover → List Effect
retired t = elim t.retired [
  | none ↦ []
  | some (holder, kind) ↦ Effect.retire holder kind t.handle.key.epoch ∷ []
]

abbrev taken_over : Result ControlError Takeover → List Effect
taken_over (err e) = []
taken_over (ok t) = Effect.human_control on_takeover ∷ retired t

-- `apply_control`
unfoldable pub apply_control : Control → InputArbiter → InputArbiter × List Effect
unfolding Arbiter.claim Arbiter.takeover authorize
apply_control (claim holder kind reply) a =
    let (a', result) = Arbiter.claim holder kind a in
    (a', attached result ++ (Effect.claim_reply reply result ∷ []))
apply_control (takeover holder reply) a =
    let (a', result) = Arbiter.takeover holder a in
    (a', taken_over result ++ (Effect.takeover_reply reply result ∷ []))
apply_control (resize key size) a =
    (a, if is_ok (authorize a key) then Effect.resized size ∷ [] else [])
apply_control (disconnect handle) a = (a, [])

abbrev released : ControllerKind → Result ControlError (Unit {0}) → List Effect
released human (ok u) = Effect.human_released ∷ []
released _ _ = []

-- `release`
unfoldable pub release_input : ControllerHandle → InputArbiter → InputArbiter × List Effect
unfolding release
release_input handle a = let (a', result) = release handle a in (a', released handle.kind result)

-- An answer on a channel, if there is one.
abbrev pub reply_with : (ℕ → Effect) → Option ℕ → List Effect
reply_with f none = []
reply_with f (some channel) = f channel ∷ []

-- The counts that a cancelled write adds.
abbrev revoked_counts : InputOutcome → ℕ × ℕ
revoked_counts (accepted_all id epoch n) = (0, 0)
revoked_counts (incomplete id epoch accepted total reason) = (accepted, total)

-- What a cancellation has come to: the PTY, the effects, the accepted and the total bytes.
pub record Cancelling (S : Type 0) : Type 0 where
  pub pty : S
  pub effects : List Effect
  pub accepted : ℕ
  pub total : ℕ

module _ (sink : PtyInputSink) where
  -- One round of the loop over the cancelled items; a write that stays pending is dropped.
  unfoldable pub cancel : InputArbiter → InputItem → Cancelling sink.State → Cancelling sink.State
  unfolding write_step
  cancel a (write p reply) c =
      let (p', s, step) = write_step sink a p c.pty in
      elim step [
        | pending ↦ record c { pty = s; effects = c.effects ++ reply_with closed reply }
        | done outcome ↦
            let (n, m) = revoked_counts outcome in
            record {
              pty = s;
              effects =
                  c.effects ++ reply_with (λ channel. Effect.outcome_reply channel outcome) reply;
              accepted = c.accepted + n;
              total = c.total + m;
            }
      ]
  cancel a (end_of handle ended) c = record c {
    effects = c.effects ++ reply_with Effect.done_reply ended;
  }

  unfoldable pub cancel_all :
      InputArbiter → List InputItem → Cancelling sink.State → Cancelling sink.State
  unfolding cancel
  cancel_all a [] c = c
  cancel_all a (item ∷ items) c = cancel_all a items (cancel a item c)

-- An end marker that has been taken: its handle, and whom to tell.
abbrev pub EndMarker : Type 0
EndMarker = ControllerHandle × Option ℕ

abbrev pub staged : Option EndMarker → List InputItem
staged none = []
staged (some (handle, ended)) = end_of handle ended ∷ []

abbrev pub in_flight : Option Current → List InputItem
in_flight none = []
in_flight (some c) = write c.request c.reply ∷ []

-- What an option keeps when its holder disconnects.
unfoldable pub kept_end : ℕ → Option EndMarker → Option EndMarker
unfolding belongs
kept_end holder none = none
kept_end holder (some (handle, ended)) =
    if belongs holder (end_of handle ended) then none else some (handle, ended)

unfoldable pub kept_current : ℕ → Option Current → Option Current
unfolding belongs
kept_current holder none = none
kept_current holder (some c) = if belongs holder (write c.request c.reply) then none else some c

abbrev pub revocation : ControllerKind → ℕ → ℕ → List Effect
revocation kind accepted total =
    if ltb 0 total then Effect.input_revoked kind accepted total ∷ [] else []
