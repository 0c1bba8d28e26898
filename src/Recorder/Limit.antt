-- ===== src/Recorder/Limit.antt =====
-- `max_bytes` over a run of the recorder (src/recorder.rs).
pub mod Storage
use agenttender.Common.{
  ℕ, ◌+◌, ◌-◌, ◌≤◌, ◌<◌, min, Bool, true, false, List, [], ◌∷◌, ◌++◌, Option, none, some, Result,
  ok, err, Bytes, length, take, length-append, length-take, ◌≡◌, refl, sym, ◌∙◌, ap, arith, ◌⊎◌,
  inl, inr, Bool-cases, Option-cases, Result-cases, List-cases, Ends, failed, gave, Ends-cases,
}
use agenttender.Common.Words.{u64_max}
use agenttender.Model.PtyControl.Requests.{ErrorKind}
use agenttender.Recording.Format.{Record, SegmentHeader}
use agenttender.Recording.Encoder.{header_bytes}
use agenttender.Recording.Encoder
use agenttender.Recorder.State.{
  RecorderLimits, StopReason, State, output_offered, resize_applied, close, give_up,
}
use agenttender.Recorder.Storage.{Disk, Answers, closed, write_all, truncate}
use agenttender.Recorder.Writer
use agenttender.Recorder.Writer.{Parts, sync, publish, append, cut_back, prepare}
use agenttender.Recorder.System.{
  System, Phase, start, writer_step, publish_first, next_record, attempt, appended_to, settle,
  sync_or_stop, stopping, completed, cut_if, pop,
}
use agenttender.Recorder.Reach.{Event, step, on_state, run}
use agenttender.Recorder.Steps.Rounds.{
  settle-stopped, next_record-stopped, next_record-got, next_record-closed, next_record-due,
  next_record-waits,
}
use agenttender.Recorder.Recorded.Threads.{start-parts}
use mathlib.Core.Path.{subst}
use agenttender.Recorder.Size.{
  total_len_of, disk_len, IsExact, IsWithin, sync-IsExact, publish-size, prepare-HasRoom,
  exact-IsWithin,
}
use agenttender.Recorder.Limit.Storage.{
  take-≤, write_all-len, append-size, truncate-len, cut_back-disk, cut_if-IsWithin,
}

-- What holds of the sizes in each phase of the writer.
abbrev pub IsSized : RecorderLimits → Phase → Parts → Type 0
IsSized limits Phase.starting y = IsExact limits y
IsSized limits Phase.waiting y = IsExact limits y
IsSized limits (Phase.taken r) y = IsExact limits y
IsSized limits (Phase.tried sequence before attempted (ok u)) y = IsExact limits y
IsSized limits (Phase.tried sequence before attempted (err reason)) y = IsWithin limits y
IsSized limits Phase.recorded y = IsExact limits y
IsSized limits Phase.closing y = IsWithin limits y
IsSized limits Phase.leaving y = IsWithin limits y
IsSized limits Phase.ended y = IsWithin limits y

abbrev pub IsSizedIn : RecorderLimits → System → Type 0
IsSizedIn limits y = IsSized limits y.phase y.parts

sync-disk : (a : Answers) (y : Parts) → (sync a y).0.disk ≡ y.disk
unfolding sync
sync-disk a y = ground arith

module _ (crc : Bytes → ℕ) (limits : RecorderLimits) (room : limits.max_bytes < u64_max) where
  publish_first-IsSized :
      (a : Answers) (y : Parts) → IsExact limits y → IsSizedIn limits (publish_first crc limits a y)
  unfolding publish_first stopping
  publish_first-IsSized a y v =
      let header = header_bytes crc y.writer.encoder in
      elim (Ends-cases (publish limits a header 0 y)
        (publish-size crc limits room a header 0 y v)) [
          | inl (e, n, p) ↦ rw (publish_first, n) p
          | inr (u, n, p) ↦ rw (publish_first, n) p.0
        ]

  attempt-IsSized :
      (a : Answers) (r : Record) (y : Parts)
      → IsExact limits y
      → IsSizedIn limits (attempt crc limits a r y)
  unfolding attempt appended_to
  attempt-IsSized a r y v =
      let y1 = (prepare crc limits a r y).0 in
      elim (Ends-cases (prepare crc limits a r y) (prepare-HasRoom crc limits room a r y v)) [
        | inl (e, n, p) ↦ rw (attempt, n) p
        | inr (bytes, n, p) ↦
            elim (Ends-cases (append a bytes y1) (append-size limits a bytes y1 p.0 p.1)) [
              | inl (e, m, q) ↦ rw (attempt, n, m) q
              | inr (u, m, q) ↦ rw (attempt, n, m) q
            ]
      ]

  settle-IsSized :
      (a : Answers) (q before : ℕ) (b : Bool) (result : Result StopReason (Unit {0})) (y : Parts)
      → IsSized limits (Phase.tried q before b result) y
      → IsSizedIn limits (settle a q before b result y)
  unfolding settle stopping completed
  settle-IsSized a q before b (ok u) y v = elim (Option-cases y.state.stopped) [
    | inr (st, n) ↦
        rw (settle-stopped a q before b (ok u) y st n)
          (cut_if-IsWithin limits b a before y (exact-IsWithin crc limits room y v))
    | inl n ↦ rw (settle, n) (record { counted = v.counted; within = v.within })
  ]
  settle-IsSized a q before b (err reason) y v = elim (Option-cases y.state.stopped) [
    | inr (st, n) ↦
        rw (settle-stopped a q before b (err reason) y st n) (cut_if-IsWithin limits b a before y v)
    | inl n ↦ rw (settle, n) (cut_if-IsWithin limits b a before (stopping reason y) v)
  ]

  sync_or_stop-waiting :
      (a : Answers) (y : Parts)
      → IsExact limits y
      → IsSizedIn limits (sync_or_stop a Phase.waiting Phase.closing y)
  unfolding sync_or_stop stopping
  sync_or_stop-waiting a y v =
      let v1 = sync-IsExact limits a y v in
      elim (Result-cases ((sync a y).1)) [
        | inl (e, n) ↦ rw (sync_or_stop, n) (exact-IsWithin crc limits room (sync a y).0 v1)
        | inr (u, n) ↦ rw (sync_or_stop, n) v1
      ]

  sync_or_stop-leaving :
      (a : Answers) (y : Parts)
      → IsWithin limits y
      → IsSizedIn limits (sync_or_stop a Phase.leaving Phase.leaving y)
  unfolding sync_or_stop stopping
  sync_or_stop-leaving a y v =
      let v1 : IsWithin limits ((sync a y).0) = rw (sync-disk a y) v in
      elim (Result-cases ((sync a y).1)) [
        | inl (e, n) ↦ rw (sync_or_stop, n) v1
        | inr (u, n) ↦ rw (sync_or_stop, n) v1
      ]

  next_record-IsSized :
      (a : Answers) (due : Bool) (y : Parts)
      → IsExact limits y
      → IsSizedIn limits (next_record a due y)
  unfolding pop
  next_record-IsSized a due y v =
      let within = exact-IsWithin crc limits room y v in
      elim (Option-cases y.state.stopped) [
        | inr (st, n) ↦ rw (next_record-stopped a due y st n) within
        | inl n ↦ elim (List-cases y.state.backlog) [
          | inr (r, rest, b) ↦
              rw (next_record-got a due y r rest n b)
                (record { counted = v.counted; within = v.within })
          | inl b ↦ elim (Bool-cases y.state.accepting) [
            | inr c ↦ rw (next_record-closed a due y n b c) within
            | inl c ↦ elim (Bool-cases due) [
              | inl d ↦ rw (next_record-due a due y n b c d) (sync_or_stop-waiting a y v)
              | inr d ↦ rw (next_record-waits a due y n b c d) v
            ]
          ]
        ]
      ]

  writer_step-IsSized :
      (a : Answers) (due : Bool) (phase : Phase) (y : Parts)
      → IsSized limits phase y
      → IsSizedIn limits (writer_step crc limits a due phase y)
  unfolding writer_step
  writer_step-IsSized a due Phase.starting y v = publish_first-IsSized a y v
  writer_step-IsSized a due Phase.waiting y v = next_record-IsSized a due y v
  writer_step-IsSized a due (Phase.taken r) y v = attempt-IsSized a r y v
  writer_step-IsSized a due (Phase.tried q before b result) y v =
      settle-IsSized a q before b result y v
  writer_step-IsSized a true Phase.recorded y v = sync_or_stop-waiting a y v
  writer_step-IsSized a false Phase.recorded y v = v
  writer_step-IsSized a due Phase.closing y v = sync_or_stop-leaving a y v
  writer_step-IsSized a due Phase.leaving y v = v
  writer_step-IsSized a due Phase.ended y v = v

  -- The producers' steps change neither the writer nor the disk.
  on_state-IsSized :
      (f : State → State) (phase : Phase) (y : Parts)
      → IsSized limits phase y
      → IsSized limits phase (record y { state = f y.state })
  on_state-IsSized f Phase.starting y v = record { counted = v.counted; within = v.within }
  on_state-IsSized f Phase.waiting y v = record { counted = v.counted; within = v.within }
  on_state-IsSized f (Phase.taken r) y v = record { counted = v.counted; within = v.within }
  on_state-IsSized f (Phase.tried q before b (ok u)) y v = record {
    counted = v.counted;
    within = v.within;
  }
  on_state-IsSized f (Phase.tried q before b (err e)) y v = v
  on_state-IsSized f Phase.recorded y v = record { counted = v.counted; within = v.within }
  on_state-IsSized f Phase.closing y v = v
  on_state-IsSized f Phase.leaving y v = v
  on_state-IsSized f Phase.ended y v = v

  step-IsSized :
      (e : Event) (y : System) → IsSizedIn limits y → IsSizedIn limits (step crc limits e y)
  unfolding step on_state
  step-IsSized (Event.outputs clock bytes) y v =
      on_state-IsSized (output_offered limits clock bytes) y.phase y.parts v
  step-IsSized (Event.resizes now geometry cause applied) y v =
      on_state-IsSized (resize_applied limits now geometry cause applied) y.phase y.parts v
  step-IsSized Event.closes y v = on_state-IsSized close y.phase y.parts v
  step-IsSized Event.gives_up y v = on_state-IsSized give_up y.phase y.parts v
  step-IsSized (Event.writes a due) y v = writer_step-IsSized a due y.phase y.parts v

  run-IsSized :
      (es : List Event) (y : System) → IsSizedIn limits y → IsSizedIn limits (run crc limits es y)
  unfolding run
  run-IsSized [] y v = v
  run-IsSized (e ∷ es) y v = run-IsSized es (step crc limits e y) (step-IsSized e y v)

  sized-IsWithin : (phase : Phase) (y : Parts) → IsSized limits phase y → IsWithin limits y
  sized-IsWithin Phase.starting y v = exact-IsWithin crc limits room y v
  sized-IsWithin Phase.waiting y v = exact-IsWithin crc limits room y v
  sized-IsWithin (Phase.taken r) y v = exact-IsWithin crc limits room y v
  sized-IsWithin (Phase.tried q before b (ok u)) y v = exact-IsWithin crc limits room y v
  sized-IsWithin (Phase.tried q before b (err e)) y v = v
  sized-IsWithin Phase.recorded y v = exact-IsWithin crc limits room y v
  sized-IsWithin Phase.closing y v = v
  sized-IsWithin Phase.leaving y v = v
  sized-IsWithin Phase.ended y v = v

start-IsSized :
    (limits : RecorderLimits) (h : SegmentHeader) (y : System) → start h ≡ ok y → IsSizedIn limits y
unfolding start Writer.new disk_len total_len_of
start-IsSized limits h y eq =
    subst (λ phase. IsSized limits phase y.parts) (sym (start-parts h y eq).0)
      (record { counted = ground arith; within = ground arith })

-- `max_bytes` (below 2^64 - 1) is never exceeded: at every moment of a run, whatever the file system
-- answers, the bytes of all segments on the disk, headers, failed appends and a segment whose
-- publication failed included, are at most `max_bytes`.
pub run-IsWithin :
    (crc : Bytes → ℕ) (limits : RecorderLimits) (h : SegmentHeader) (y : System) (es : List Event)
    → limits.max_bytes < u64_max
    → start h ≡ ok y
    → IsWithin limits (run crc limits es y).parts
run-IsWithin crc limits h y es room eq =
    let end = run crc limits es y in
    sized-IsWithin crc limits room end.phase end.parts
      (run-IsSized crc limits room es y (start-IsSized limits h y eq))
