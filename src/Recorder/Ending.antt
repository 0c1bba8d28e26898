-- ===== src/Recorder/Ending.antt =====
-- The end of a recording (src/recorder.rs): the writer's steps that are left once nothing more is
-- accepted.
use agenttender.Common.{
  ℕ, suc, ◌+◌, ◌*◌, ◌≤◌, ◌<◌, Bool, true, false, List, [], ◌∷◌, Result, ok, err, Bytes, length, ◌≡◌,
  refl, ap, arith, ◌⊎◌, inl, inr, Option-cases, Result-cases, List-cases,
}
use agenttender.Recording.Format.{Record}
use agenttender.Recorder.State.{RecorderLimits, StopReason, State, stop}
use agenttender.Recorder.Storage.{Answers}
use agenttender.Recorder.Writer.{Parts, sync, prepare}
use agenttender.Recorder.System.{
  System, Phase, writer_step, publish_first, next_record, attempt, appended_to, settle,
  sync_or_stop, stopping, completed, pop,
}
use agenttender.Recorder.Reach.{Event, step, run}
use agenttender.Recorder.SideKept.{
  IsSideKept, attempt-kept, publish_first-kept, sync_or_stop-kept, cut_if-kept,
}
use agenttender.Recorder.Kept.{writer_step-kept}
use agenttender.Recorder.Recorded.Threads.{accepting-IsKept}
use agenttender.Recorder.Steps.Rounds.{next_record-stopped, next_record-got, next_record-closed}

-- The steps that the writer still takes, at most: four for a queued record.
abbrev pub steps_left : Phase → List Record → ℕ
steps_left Phase.starting backlog = 4 * length backlog + 4
steps_left Phase.waiting backlog = 4 * length backlog + 3
steps_left (Phase.taken r) backlog = 4 * length backlog + 6
steps_left (Phase.tried sequence before attempted result) backlog = 4 * length backlog + 5
steps_left Phase.recorded backlog = 4 * length backlog + 4
steps_left Phase.closing backlog = 2
steps_left Phase.leaving backlog = 1
steps_left Phase.ended backlog = 0

abbrev pub left_of : System → ℕ
left_of y = steps_left y.phase y.parts.state.backlog

-- Steps of the writer alone.
abbrev pub by_writer : List (Answers × Bool) → List Event
by_writer [] = []
by_writer ((a, due) ∷ ws) = Event.writes a due ∷ by_writer ws

abbrev Fits : ℕ → State → Type 0
Fits n s = length s.backlog ≤ n

stop-Fits : (n : ℕ) (reason : StopReason) (s : State) → Fits n s → Fits n (stop reason s)
unfolding stop
stop-Fits n reason s l = ground arith

Fits-IsSideKept : (n : ℕ) → IsSideKept (Fits n)
Fits-IsSideKept n = record {
  stops = stop-Fits n;
  publishes = λ n s v. v;
  syncs = λ o s v. v;
  ends = λ s v. v;
}

-- A step leads to one of two phases.
sync_or_stop-left :
    (a : Answers) (good bad : Phase) (y : Parts)
    → ((sync_or_stop a good bad y).phase ≡ good) ⊎ ((sync_or_stop a good bad y).phase ≡ bad)
unfolding sync_or_stop
sync_or_stop-left a good bad y = elim (Result-cases ((sync a y).1)) [
  | inl (e, n) ↦ inr (rw (sync_or_stop, n) refl)
  | inr (u, n) ↦ inl (rw (sync_or_stop, n) refl)
]

publish_first-left :
    (crc : Bytes → ℕ) (limits : RecorderLimits) (a : Answers) (y : Parts)
    → ((publish_first crc limits a y).phase ≡ Phase.waiting)
      ⊎ ((publish_first crc limits a y).phase ≡ Phase.leaving)
unfolding publish_first
publish_first-left crc limits a y = ground arith

attempt-left :
    (crc : Bytes → ℕ) (limits : RecorderLimits) (a : Answers) (r : Record) (y : Parts)
    (backlog : List Record)
    → steps_left (attempt crc limits a r y).phase backlog ≡ 4 * length backlog + 5
unfolding attempt appended_to
attempt-left crc limits a r y backlog = elim (Result-cases ((prepare crc limits a r y).1)) [
  | inl (e, n) ↦ rw (attempt, n) refl
  | inr (bytes, n) ↦ rw (attempt, n) refl
]

settle-left :
    (a : Answers) (q before : ℕ) (b : Bool) (result : Result StopReason (Unit {0})) (y : Parts)
    (backlog : List Record)
    → steps_left (settle a q before b result y).phase backlog ≤ 4 * length backlog + 4
unfolding settle
settle-left a q before b result y backlog = ground arith

-- What is left in the phase that a step leads to, for a backlog that has not grown.
left_at :
    (y : System) (phase : Phase) (n k : ℕ)
    → y.phase ≡ phase
    → ((backlog : List Record) → length backlog ≤ n → steps_left phase backlog ≤ k)
    → Fits n y.parts.state
    → left_of y ≤ k
left_at y phase n k p bound l = rw p (bound y.parts.state.backlog l)

settle-Fits :
    (a : Answers) (q before : ℕ) (b : Bool) (result : Result StopReason (Unit {0})) (y : Parts)
    → Fits (length y.state.backlog) (settle a q before b result y).parts.state
unfolding settle stopping completed
settle-Fits a q before b (ok u) y =
    ground
      (arith, cut_if-kept (Fits-IsSideKept (length y.state.backlog)) b a before y (omega arith))
settle-Fits a q before b (err reason) y =
    let n = length y.state.backlog in
    ground (
      arith,
      cut_if-kept (Fits-IsSideKept n) b a before y (omega arith),
      cut_if-kept (Fits-IsSideKept n) b a before (stopping reason y)
          (stop-Fits n reason y.state (omega arith)),
    )

module _ (crc : Bytes → ℕ) (limits : RecorderLimits) where
  sync_or_stop-waiting :
      (a : Answers) (y : Parts)
      → left_of (sync_or_stop a Phase.waiting Phase.closing y) ≤ 4 * length y.state.backlog + 3
  sync_or_stop-waiting a y =
      let y1 = sync_or_stop a Phase.waiting Phase.closing y in
      let n = length y.state.backlog in
      let l = sync_or_stop-kept (Fits-IsSideKept n) a Phase.waiting Phase.closing y (omega arith) in
      elim (sync_or_stop-left a Phase.waiting Phase.closing y) [
        | inl p ↦ left_at y1 Phase.waiting n (4 * n + 3) p (λ b m. omega arith) l
        | inr p ↦ left_at y1 Phase.closing n (4 * n + 3) p (λ b m. omega arith) l
      ]

  next_record-left :
      (a : Answers) (due : Bool) (y : Parts)
      → y.state.accepting ≡ false
      → left_of (next_record a due y) < 4 * length y.state.backlog + 3
  unfolding pop
  next_record-left a due y c = elim (Option-cases y.state.stopped) [
    | inr (st, n) ↦ rw (next_record-stopped a due y st n) (omega arith)
    | inl n ↦ elim (List-cases y.state.backlog) [
      | inl b ↦ rw (next_record-closed a due y n b c) (omega arith)
      | inr (r, rest, b) ↦ rw (next_record-got a due y r rest n b) (omega (arith, ap length b))
    ]
  ]

  -- A step of the writer leaves fewer.
  writer_step-left :
      (a : Answers) (due : Bool) (phase : Phase) (y : Parts)
      → y.state.accepting ≡ false
      → (phase ≡ Phase.ended)
        ⊎ (left_of (writer_step crc limits a due phase y) < steps_left phase y.state.backlog)
  unfolding writer_step
  writer_step-left a due Phase.starting y c =
      let y1 = publish_first crc limits a y in
      let n = length y.state.backlog in
      let l = publish_first-kept (Fits-IsSideKept n) limits crc a y (omega arith) in
      elim (publish_first-left crc limits a y) [
        | inl p ↦
            inr (omega (arith, left_at y1 Phase.waiting n (4 * n + 3) p (λ b m. omega arith) l))
        | inr p ↦
            inr (omega (arith, left_at y1 Phase.leaving n (4 * n + 3) p (λ b m. omega arith) l))
      ]
  writer_step-left a due Phase.waiting y c = inr (next_record-left a due y c)
  writer_step-left a due (Phase.taken r) y c =
      let y1 = attempt crc limits a r y in
      let l =
        attempt-kept (Fits-IsSideKept (length y.state.backlog)) limits crc a r y (omega arith) in
      inr (omega (arith, attempt-left crc limits a r y y1.parts.state.backlog, l))
  writer_step-left a due (Phase.tried q before b result) y c =
      let y1 = settle a q before b result y in
      inr (
        omega (
          arith,
          settle-left a q before b result y y1.parts.state.backlog,
          settle-Fits a q before b result y,
        ))
  writer_step-left a true Phase.recorded y c = inr (omega (arith, sync_or_stop-waiting a y))
  writer_step-left a false Phase.recorded y c = inr (omega arith)
  writer_step-left a due Phase.closing y c =
      elim (sync_or_stop-left a Phase.leaving Phase.leaving y) [
        | inl p ↦ inr (rw p (omega arith))
        | inr p ↦ inr (rw p (omega arith))
      ]
  writer_step-left a due Phase.leaving y c = inr (omega arith)
  writer_step-left a due Phase.ended y c = inl refl

  writer_step-less :
      (a : Answers) (due : Bool) (phase : Phase) (y : Parts) (n : ℕ)
      → y.state.accepting ≡ false
      → steps_left phase y.state.backlog ≤ suc n
      → left_of (writer_step crc limits a due phase y) ≤ n
  unfolding writer_step
  writer_step-less a due phase y n c l = elim (writer_step-left a due phase y c) [
    | inl p ↦ rw p (omega arith)
    | inr m ↦ omega arith
  ]

  none-left :
      (phase : Phase) (backlog : List Record) → steps_left phase backlog ≤ 0 → phase ≡ Phase.ended
  none-left Phase.ended backlog l = refl
  none-left Phase.starting backlog l = absurd (omega arith)
  none-left Phase.waiting backlog l = absurd (omega arith)
  none-left (Phase.taken r) backlog l = absurd (omega arith)
  none-left (Phase.tried sequence before attempted result) backlog l = absurd (omega arith)
  none-left Phase.recorded backlog l = absurd (omega arith)
  none-left Phase.closing backlog l = absurd (omega arith)
  none-left Phase.leaving backlog l = absurd (omega arith)

  run-left :
      (ws : List (Answers × Bool)) (y : System)
      → y.parts.state.accepting ≡ false
      → left_of y ≤ length ws
      → (run crc limits (by_writer ws) y).phase ≡ Phase.ended
  unfolding run step
  run-left [] y c l = none-left y.phase y.parts.state.backlog l
  run-left ((a, due) ∷ ws) y c l =
      run-left ws (writer_step crc limits a due y.phase y.parts)
        (writer_step-kept (accepting-IsKept limits false) crc a due y.phase y.parts c)
        (writer_step-less a due y.phase y.parts (length ws) c l)

  left-bound :
      (phase : Phase) (backlog : List Record) → steps_left phase backlog ≤ 4 * length backlog + 6
  left-bound Phase.ended backlog = omega arith
  left-bound Phase.starting backlog = omega arith
  left-bound Phase.waiting backlog = omega arith
  left-bound (Phase.taken r) backlog = omega arith
  left-bound (Phase.tried sequence before attempted result) backlog = omega arith
  left-bound Phase.recorded backlog = omega arith
  left-bound Phase.closing backlog = omega arith
  left-bound Phase.leaving backlog = omega arith

  -- Once nothing more is accepted, the writer ends: in at most four of its steps for each queued
  -- record and six more, whatever the file system answers.
  pub run-ended :
      (y : System) (ws : List (Answers × Bool))
      → y.parts.state.accepting ≡ false
      → 4 * length y.parts.state.backlog + 6 ≤ length ws
      → (run crc limits (by_writer ws) y).phase ≡ Phase.ended
  run-ended y ws c l = run-left ws y c (omega (arith, left-bound y.phase y.parts.state.backlog))
