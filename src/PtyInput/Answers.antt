-- ===== src/PtyInput/Answers.antt =====
-- The channels on which the writer thread answers (src/pty_input.rs): how often one is waiting and
-- how often it has been answered or closed.
use agenttender.Common.{
  ℕ, ◌+◌, List, [], ◌∷◌, ◌++◌, Option, none, some, ◌==◌, if◌then◌else◌, ◌≡◌, refl, arith, inl, inr,
  Bool-cases,
}
use agenttender.Model.PtyControl.Arbiter.{ControllerKind, ControllerHandle, InputArbiter}
use agenttender.Model.PtyControl.Requests.{InputOutcome}
use agenttender.PtyInput.Items.{
  Control, claim, takeover, resize, disconnect, InputItem, write, end_of, Queues, others, theirs,
  belongs,
}
use agenttender.PtyInput.Serving.{
  Effect, Current, EndMarker, apply_control, release_input, reply_with, staged, in_flight, kept_end,
  kept_current, revocation,
}
use agenttender.PtyInput.Rounds.{Phase, revoked_write}

abbrev pub sum_of {ℓ} : {A : Type ℓ} → (A → ℕ) → List A → ℕ
sum_of f [] = 0
sum_of f (x ∷ xs) = f x + sum_of f xs

pub sum_of-append :
    {A : Type 0} (f : A → ℕ) (xs ys : List A) → sum_of f (xs ++ ys) ≡ sum_of f xs + sum_of f ys
sum_of-append f [] ys = omega arith
sum_of-append f (x ∷ xs) ys = omega (arith, sum_of-append f xs ys)

abbrev pub hits : ℕ → ℕ → ℕ
hits c k = if c == k then 1 else 0

abbrev pub hits_in : ℕ → Option ℕ → ℕ
hits_in c none = 0
hits_in c (some k) = hits c k

unfoldable pub item_hits : ℕ → InputItem → ℕ
item_hits c (write p reply) = hits_in c reply
item_hits c (end_of handle ended) = hits_in c ended

unfoldable pub control_hits : ℕ → Control → ℕ
control_hits c (claim holder kind reply) = hits c reply
control_hits c (takeover holder reply) = hits c reply
control_hits c (resize key size) = 0
control_hits c (disconnect handle) = 0

-- An answer on the channel, or its end without one.
unfoldable pub effect_hits : ℕ → Effect → ℕ
effect_hits c (Effect.claim_reply k result) = hits c k
effect_hits c (Effect.takeover_reply k result) = hits c k
effect_hits c (Effect.outcome_reply k outcome) = hits c k
effect_hits c (Effect.done_reply k) = hits c k
effect_hits c (Effect.closed k) = hits c k
effect_hits c _ = 0

abbrev pub phase_hits : ℕ → Phase → ℕ
phase_hits c Phase.at_top = 0
phase_hits c (Phase.serving controls next_end) =
    sum_of (control_hits c) controls + sum_of (item_hits c) (staged next_end)

-- How often the channel is waiting: in the queues, with the thread, and in the current write.
abbrev pub waiting : ℕ → Phase → Queues → Option Current → ℕ
waiting c phase q current =
    sum_of (control_hits c) q.controls
    + sum_of (item_hits c) q.inputs
    + phase_hits c phase
    + sum_of (item_hits c) (in_flight current)

abbrev pub answered : ℕ → List Effect → ℕ
answered c effects = sum_of (effect_hits c) effects

pub partition-hits :
    (c holder : ℕ) (items : List InputItem)
    → sum_of (item_hits c) (theirs holder items) + sum_of (item_hits c) (others holder items)
      ≡ sum_of (item_hits c) items
unfolding theirs others
partition-hits c holder [] = omega arith
partition-hits c holder (item ∷ items) = elim (Bool-cases (belongs holder item)) [
  | inl b ↦ rw b (omega (arith, partition-hits c holder items))
  | inr b ↦ rw b (omega (arith, partition-hits c holder items))
]

pub kept_end-hits :
    (c holder : ℕ) (e : Option EndMarker)
    → sum_of (item_hits c) (theirs holder (staged e))
        + sum_of (item_hits c) (staged (kept_end holder e))
      ≡ sum_of (item_hits c) (staged e)
unfolding theirs kept_end
kept_end-hits c holder none = omega arith
kept_end-hits c holder (some (handle, ended)) =
    elim (Bool-cases (belongs holder (end_of handle ended))) [
      | inl b ↦ rw b (omega arith)
      | inr b ↦ rw b (omega arith)
    ]

pub kept_current-hits :
    (c holder : ℕ) (w : Option Current)
    → sum_of (item_hits c) (theirs holder (in_flight w))
        + sum_of (item_hits c) (in_flight (kept_current holder w))
      ≡ sum_of (item_hits c) (in_flight w)
unfolding theirs kept_current
kept_current-hits c holder none = omega arith
kept_current-hits c holder (some w) = elim (Bool-cases (belongs holder (write w.request w.reply))) [
  | inl b ↦ rw b (omega arith)
  | inr b ↦ rw b (omega arith)
]

pub reply_with-hits :
    (c : ℕ) (f : ℕ → Effect) (o : Option ℕ)
    → ((k : ℕ) → effect_hits c (f k) ≡ hits c k)
    → answered c (reply_with f o) ≡ hits_in c o
reply_with-hits c f none p = refl
reply_with-hits c f (some k) p = omega (arith, p k)

pub release_input-hits :
    (c : ℕ) (handle : ControllerHandle) (a : InputArbiter)
    → answered c (release_input handle a).1 ≡ 0
unfolding release_input effect_hits
release_input-hits c handle a = ground arith

pub apply_control-hits :
    (c : ℕ) (control : Control) (a : InputArbiter)
    → answered c (apply_control control a).1 ≡ control_hits c control
unfolding apply_control effect_hits control_hits
apply_control-hits c (claim holder kind reply) a = ground arith
apply_control-hits c (takeover holder reply) a = ground arith
apply_control-hits c (resize key size) a = ground arith
apply_control-hits c (disconnect handle) a = refl

pub revocation-hits :
    (c : ℕ) (kind : ControllerKind) (n m : ℕ) → answered c (revocation kind n m) ≡ 0
unfolding effect_hits
revocation-hits c kind n m = ground arith

pub revoked_write-hits :
    (c : ℕ) (kind : ControllerKind) (outcome : InputOutcome)
    → answered c (revoked_write kind outcome) ≡ 0
unfolding effect_hits
revoked_write-hits c kind outcome = ground arith
