-- ===== src/Recorder/Kept.antt =====
-- What every step of the recorder (src/recorder.rs) keeps of the shared state, from what the few
-- changes of that state keep.
use agenttender.Common.{
  ℕ, suc, ◌-◌, ◌≤◌, Bool, true, false, List, [], ◌∷◌, none, some, Result, ok, err, Bytes, length,
  ◌≡◌, arith, Option-cases, List-cases, inl, inr,
}
use agenttender.Recording.Format.{Record, RecordKind, output, resized}
use agenttender.Recorder.State.{
  RecorderLimits, StopReason, State, push, cost_of, enqueue, enqueue_chunks, output_offered,
  resize_applied, close, chunks, sequenced, saturating_add,
}
use agenttender.Recorder.Storage.{Answers}
use agenttender.Recorder.Writer.{Parts}
use agenttender.Recorder.System.{
  System, Phase, writer_step, pop, completed, stopping, settle, next_record,
}
use agenttender.Recorder.SideKept.{
  IsSideKept, give_up-kept, cut_if-kept, sync_or_stop-kept, attempt-kept, publish_first-kept,
}
use agenttender.Recorder.Reach.{Event, step, on_state, run}

pub record IsKept (limits : RecorderLimits) (P : State → Type 0) : Type 0 where
  pub side : IsSideKept P
  pub pops :
      (r : Record) (rest : List Record) (s : State)
      → P s
      → s.stopped ≡ none
      → s.backlog ≡ r ∷ rest
      → P (record s { backlog = rest; backlog_bytes = s.backlog_bytes - cost_of r.kind })
  pub completes : (n : ℕ) (s : State) → P s → s.stopped ≡ none → P (record s { appended = some n })
  pub pushes :
      (now sequence : ℕ) (kind : RecordKind) (s : State)
      → P s
      → s.stopped ≡ none
      → s.accepting ≡ true
      → s.next ≡ some sequence
      → saturating_add s.backlog_bytes (cost_of kind) ≤ limits.backlog_bytes
      → P (push (sequenced now sequence kind) s)

module _ {limits : RecorderLimits} {P : State → Type 0} (k : IsKept limits P) where
  pub enqueue-kept : (now : ℕ) (kind : RecordKind) (s : State) → P s → P (enqueue limits now kind s)
  unfolding enqueue
  enqueue-kept now kind s p = elim (Option-cases s.next) [
    | inl n ↦ ground (arith, k.side.stops StopReason.size_limit s p)
    | inr (q, n) ↦ ground (arith, k.side.stops StopReason.backlog_full s p, k.pushes now q kind s p)
  ]

  pub chunks-kept :
      (clock : ℕ → ℕ) (i : ℕ) (cs : List Bytes) (s : State)
      → P s
      → P (enqueue_chunks limits clock i cs s)
  unfolding enqueue_chunks
  chunks-kept clock i [] s p = p
  chunks-kept clock i (c ∷ cs) s p =
      chunks-kept clock (suc i) cs (enqueue limits (clock i) (output c) s)
        (enqueue-kept (clock i) (output c) s p)

  next_record-kept :
      (a : Answers) (due : Bool) (y : Parts) → P y.state → P (next_record a due y).parts.state
  unfolding next_record pop
  next_record-kept a due y p = elim (List-cases y.state.backlog) [
    | inl n ↦ ground (arith, sync_or_stop-kept k.side a Phase.waiting Phase.closing y p)
    | inr (r, rest, n) ↦ ground (arith, k.pops r rest y.state p)
  ]

  pub settle-kept :
      (a : Answers) (q n : ℕ) (b : Bool) (result : Result StopReason (Unit {0})) (y : Parts)
      → P y.state
      → P (settle a q n b result y).parts.state
  unfolding settle stopping completed
  settle-kept a q n b (ok x) y p =
      ground (arith, cut_if-kept k.side b a n y p, k.completes q y.state p)
  settle-kept a q n b (err reason) y p = ground (
    arith,
    cut_if-kept k.side b a n y p,
    cut_if-kept k.side b a n (stopping reason y) (k.side.stops reason y.state p),
  )

  module _ (crc : Bytes → ℕ) where
    pub writer_step-kept :
        (a : Answers) (due : Bool) (phase : Phase) (y : Parts)
        → P y.state
        → P (writer_step crc limits a due phase y).parts.state
    unfolding writer_step
    writer_step-kept a due Phase.starting y p = publish_first-kept k.side limits crc a y p
    writer_step-kept a due Phase.waiting y p = next_record-kept a due y p
    writer_step-kept a due (Phase.taken r) y p = attempt-kept k.side limits crc a r y p
    writer_step-kept a due (Phase.tried q n b result) y p = settle-kept a q n b result y p
    writer_step-kept a true Phase.recorded y p =
        sync_or_stop-kept k.side a Phase.waiting Phase.closing y p
    writer_step-kept a false Phase.recorded y p = p
    writer_step-kept a due Phase.closing y p =
        sync_or_stop-kept k.side a Phase.leaving Phase.leaving y p
    writer_step-kept a due Phase.leaving y p = k.side.ends y.state p
    writer_step-kept a due Phase.ended y p = p

    pub step-kept :
        ((s : State) → P s → P (close s))
        → (e : Event) (y : System) → P y.parts.state
        → P (step crc limits e y).parts.state
    unfolding step on_state output_offered resize_applied
    step-kept c (Event.outputs clock bytes) y p =
        chunks-kept clock 0 (chunks (length bytes) bytes) y.parts.state p
    step-kept c (Event.resizes now geometry cause true) y p =
        enqueue-kept now (resized geometry cause) y.parts.state p
    step-kept c (Event.resizes now geometry cause false) y p = p
    step-kept c Event.closes y p = c y.parts.state p
    step-kept c Event.gives_up y p = give_up-kept k.side y.parts.state p
    step-kept c (Event.writes a due) y p = writer_step-kept a due y.phase y.parts p

    pub run-kept :
        ((s : State) → P s → P (close s))
        → (es : List Event) (y : System) → P y.parts.state
        → P (run crc limits es y).parts.state
    unfolding run
    run-kept c [] y p = p
    run-kept c (e ∷ es) y p = run-kept c es (step crc limits e y) (step-kept c e y p)
