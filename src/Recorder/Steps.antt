-- ===== src/Recorder/Steps.antt =====
-- The writer's steps (src/recorder.rs) keep the invariant.
pub mod Appending
pub mod Rounds
use agenttender.Common.{
  ℕ, ◌-◌, Bool, true, false, List, [], ◌∷◌, ◌++◌, map, Option, none, some, Result, ok, err, Bytes,
  length, ◌≡◌, refl, sym, ◌∙◌, ap, arith, ◌⊎◌, inl, inr, Bool-cases, Option-cases, Result-cases,
  List-cases, Ends, Ends-cases,
}
use agenttender.Recording.Format.{Record, RecordKind, SegmentHeader}
use agenttender.Recording.Encoder.{header_bytes}
use agenttender.Recording.Encoder
use agenttender.Recorder.State.{RecorderLimits, StopReason, State, Stopped, stop, cost_of}
use agenttender.Recorder.Storage.{Disk, Answers, closed}
use agenttender.Recorder.Writer.{Writer, Parts, sync, publish, published, prepare, append, cut_back}
use agenttender.Recorder.Layout.{
  Writes, Rests, Rests-weaken, Ready, Prepared, Appended, Ready-Appended,
}
use agenttender.Recorder.Appends.Publishing.{
  sync-disk, sync-encoder, sync-segment_len, publish-Publishes, Rests-Ready,
}
use agenttender.Recorder.Appends.Preparing.{prepare-Prepares}
use agenttender.Recorder.Appends.{IsFailure, append-Ends, RestsAt, RestsAt-Appended, cut_back-Rests}
use agenttender.Recorder.Ledger.{Ledger, stop-Ledger, completed-Ledger, kinds}
use agenttender.Recorder.System.{
  System, Phase, publish_first, stopping, attempt, appended_to, settle, cut_if, completed,
  sync_or_stop, next_record, pop, writer_step,
}
use agenttender.Recorder.SideKept.{
  IsSideKept, sync-kept, publish-kept, prepare-kept, append-kept, cut_if-kept, sync_or_stop-kept,
}
use agenttender.Recorder.Holds.{
  IsLast, at_closing, at_leaving, at_ended, IsDone, Ledger-IsSideKept, IsOnDisk, Holds, HoldsIn,
}
use agenttender.Recorder.Steps.Rounds.{
  stop-stopped, cut_if-state, settle-stopped, next_record-stopped, next_record-got,
  next_record-closed, next_record-due, next_record-waits, pop-Ledger, stopped-IsDone,
  IsDone-IsSideKept,
}
use agenttender.Recorder.Steps.Appending.{
  sync-Ready, cut_if-Rests, publish-encoder, Ready-completed, publish_first-Holds, attempt-Holds,
}

module _ (crc : Bytes → ℕ) (h : SegmentHeader) (left : Type 0) where
  module _ {offered : List RecordKind} where
    -- A stop ends what was in flight.
    Ledger-dropped :
        (rs ps : List Record) (s : State) (st : Stopped)
        → s.stopped ≡ some st
        → Ledger rs ps offered s
        → Ledger rs [] offered s
    Ledger-dropped rs ps s st n v = record {
      last = v.last;
      all = λ e. absurd (ground arith);
      rest = v.rest;
      prefix = v.prefix;
    }

    -- An append that a stop has overtaken, or that has failed, is cut off.
    cut-Holds :
        (a : Answers) (rs ps : List Record) (before : ℕ) (y : Parts) (st : Stopped)
        → (IsFailure a.set_len → left)
        → RestsAt crc h rs before y.disk
        → y.state.stopped ≡ some st
        → Ledger rs ps offered y.state
        → Holds crc h left offered Phase.closing (cut_if true a before y)
    cut-Holds a rs ps before y st f v n ledger =
        let y1 = cut_if true a before y in
        let same = cut_if-state true a before y in
        Holds.finishes rs Phase.closing y1 at_closing (inl (cut_if-Rests crc h a rs before y f v))
          (rw same (Ledger-dropped rs ps y.state st n ledger))
          (rw same (λ e. absurd (ground arith)))

    settle-ok-Holds :
        (a : Answers) (rs : List Record) (r : Record) (before : ℕ) (u : Unit {0}) (y : Parts)
        → (IsFailure a.set_len → left)
        → Appended crc h rs r before y.disk y.writer
        → Ledger rs (r ∷ []) offered y.state
        → HoldsIn crc h left offered (settle a r.sequence before true (ok u) y)
    unfolding settle completed
    settle-ok-Holds a rs r before u y f v ledger = elim (Option-cases y.state.stopped) [
      | inr (st, n) ↦ rw (settle-stopped a r.sequence before true (ok u) y st n) (
          cut-Holds a rs (r ∷ []) before y st f
            (RestsAt-Appended crc h rs r before y.disk y.writer v) n ledger)
      | inl n ↦
          rw (settle, n)
            (Holds.settled (rs ++ (r ∷ [])) (completed r.sequence y)
              (Ready-completed crc h r.sequence (rs ++ (r ∷ [])) y
                (Ready-Appended crc h rs r before y.disk y.writer v))
              (completed-Ledger r offered y.state ledger n))
    ]

    settle-err-Holds :
        (a : Answers) (rs ps : List Record) (q before : ℕ) (reason : StopReason) (y : Parts)
        → (IsFailure a.set_len → left)
        → RestsAt crc h rs before y.disk
        → Ledger rs ps offered y.state
        → HoldsIn crc h left offered (settle a q before true (err reason) y)
    unfolding settle stopping
    settle-err-Holds a rs ps q before reason y f v ledger = elim (Option-cases y.state.stopped) [
      | inr (st, n) ↦
          rw (settle-stopped a q before true (err reason) y st n)
            (cut-Holds a rs ps before y st f v n ledger)
      | inl n ↦
          let (st, m) = stop-stopped reason y.state in
          rw (settle, n)
            (cut-Holds a rs ps before (stopping reason y) st f v m
              (stop-Ledger reason y.state ledger))
    ]

    -- Nothing was appended: nothing is cut.
    stop-Holds :
        (phase : Phase) (rs ps : List Record) (y : Parts) (st : Stopped)
        → IsLast phase
        → IsOnDisk crc h left rs y.disk
        → y.state.stopped ≡ some st
        → Ledger rs ps offered y.state
        → Holds crc h left offered phase y
    stop-Holds phase rs ps y st l v n ledger =
        Holds.finishes rs phase y l v (Ledger-dropped rs ps y.state st n ledger)
          (λ e. absurd (ground arith))

    settle-refused-Holds :
        (a : Answers) (rs ps : List Record) (q before : ℕ) (reason : StopReason) (y : Parts)
        → Rests crc h ⊥ rs y.disk
        → Ledger rs ps offered y.state
        → HoldsIn crc h left offered (settle a q before false (err reason) y)
    unfolding settle stopping cut_if
    settle-refused-Holds a rs ps q before reason y v ledger =
        let w : Rests crc h left rs y.disk = Rests-weaken crc h (λ x. absurd x) rs y.disk v in
        elim (Option-cases y.state.stopped) [
          | inr (st, n) ↦
              rw (settle-stopped a q before false (err reason) y st n)
                (stop-Holds Phase.closing rs ps y st at_closing (inl w) n ledger)
          | inl n ↦
              let (st, m) = stop-stopped reason y.state in
              rw (settle, n)
                (stop-Holds Phase.closing rs ps (stopping reason y) st at_closing (inl w) m
                  (stop-Ledger reason y.state ledger))
        ]

    -- A sync, from a phase that goes on.
    sync_or_stop-Holds :
        (a : Answers) (rs : List Record) (y : Parts)
        → Ready crc h rs y.disk y.writer
        → Ledger rs [] offered y.state
        → HoldsIn crc h left offered (sync_or_stop a Phase.waiting Phase.closing y)
    unfolding sync_or_stop stopping
    sync_or_stop-Holds a rs y v ledger =
        let y1 = (sync a y).0 in
        let ready = sync-Ready crc h a rs y v in
        let kept = sync-kept (Ledger-IsSideKept rs [] offered) a y ledger in
        elim (Result-cases ((sync a y).1)) [
          | inr (u, n) ↦ rw (sync_or_stop, n) (Holds.waits rs y1 ready kept)
          | inl (e, n) ↦
              let (st, m) = stop-stopped e y1.state in
              rw (sync_or_stop, n)
                (stop-Holds Phase.closing rs [] (stopping e y1) st at_closing
                  (inl (Rests-Ready crc h rs y1.disk y1.writer ready)) m
                  (stop-Ledger e y1.state kept))
        ]

    -- The last sync, which nothing more follows.
    last_sync-Holds :
        (a : Answers) (rs : List Record) (y : Parts)
        → IsOnDisk crc h left rs y.disk
        → Ledger rs [] offered y.state
        → IsDone y.state
        → HoldsIn crc h left offered (sync_or_stop a Phase.leaving Phase.leaving y)
    unfolding sync_or_stop stopping
    last_sync-Holds a rs y v ledger done =
        let y1 = (sync a y).0 in
        let on_disk : IsOnDisk crc h left rs y1.disk = rw (sync-disk a y) v in
        let kept = sync-kept (Ledger-IsSideKept rs [] offered) a y ledger in
        elim (Result-cases ((sync a y).1)) [
          | inr (u, n) ↦
              rw (sync_or_stop, n)
                (Holds.finishes rs Phase.leaving y1 at_leaving on_disk kept
                  (sync-kept IsDone-IsSideKept a y done))
          | inl (e, n) ↦
              rw (sync_or_stop, n)
                (Holds.finishes rs Phase.leaving (stopping e y1) at_leaving on_disk
                  (stop-Ledger e y1.state kept) (stopped-IsDone e y1.state))
        ]

    next_record-Holds :
        (a : Answers) (due : Bool) (rs : List Record) (y : Parts)
        → Ready crc h rs y.disk y.writer
        → Ledger rs [] offered y.state
        → HoldsIn crc h left offered (next_record a due y)
    unfolding pop
    next_record-Holds a due rs y v ledger =
        let on_disk = inl (Rests-Ready crc h rs y.disk y.writer v) in
        elim (Option-cases y.state.stopped) [
          | inr (st, n) ↦
              rw (next_record-stopped a due y st n)
                (stop-Holds Phase.closing rs [] y st at_closing on_disk n ledger)
          | inl n ↦ elim (List-cases y.state.backlog) [
            | inr (r, rest, b) ↦
                rw (next_record-got a due y r rest n b)
                  (Holds.takes rs r (pop r rest y) v (pop-Ledger rs r rest y b ledger))
            | inl b ↦ elim (Bool-cases y.state.accepting) [
              | inr c ↦
                  rw (next_record-closed a due y n b c)
                    (Holds.finishes rs Phase.closing y at_closing on_disk ledger (λ e. (b, c)))
              | inl c ↦ elim (Bool-cases due) [
                | inl d ↦ rw (next_record-due a due y n b c d) (sync_or_stop-Holds a rs y v ledger)
                | inr d ↦ rw (next_record-waits a due y n b c d) (Holds.waits rs y v ledger)
              ]
            ]
          ]
        ]

  pub writer_step-Holds :
      (limits : RecorderLimits) (offered : List RecordKind) (a : Answers) (due : Bool)
      (phase : Phase) (y : Parts)
      → (IsFailure a.set_len → left)
      → Holds crc h left offered phase y
      → HoldsIn crc h left offered (writer_step crc limits a due phase y)
  unfolding writer_step
  writer_step-Holds limits offered a due phase y f
        (Holds.starts x new earlier unopened alone ledger) =
      publish_first-Holds crc h left limits a x new earlier unopened alone ledger
  writer_step-Holds limits offered a due phase y f (Holds.waits rs x v ledger) =
      next_record-Holds a due rs x v ledger
  writer_step-Holds limits offered a true phase y f (Holds.settled rs x v ledger) =
      sync_or_stop-Holds a rs x v ledger
  writer_step-Holds limits offered a false phase y f (Holds.settled rs x v ledger) =
      Holds.waits rs x v ledger
  writer_step-Holds limits offered a due phase y f (Holds.takes rs r x v ledger) =
      attempt-Holds crc h left limits a rs r x v ledger
  writer_step-Holds limits offered a due phase y f (Holds.appends rs r before u x v ledger) =
      settle-ok-Holds a rs r before u x f v ledger
  writer_step-Holds limits offered a due phase y f (Holds.fails rs r q before e x v ledger) =
      settle-err-Holds a rs (r ∷ []) q before e x f v ledger
  writer_step-Holds limits offered a due phase y f (Holds.refuses rs r q before e x v ledger) =
      settle-refused-Holds a rs (r ∷ []) q before e x v ledger
  writer_step-Holds limits offered a due phase y f (Holds.finishes rs _ x at_closing v ledger d) =
      last_sync-Holds a rs x v ledger d
  writer_step-Holds limits offered a due phase y f (Holds.finishes rs _ x at_leaving v ledger d) =
      let p = x.state in
      Holds.finishes rs Phase.ended (record x { state = record p { writer_done = true } }) at_ended
        v ledger d
  writer_step-Holds limits offered a due phase y f (Holds.finishes rs _ x at_ended v ledger d) =
      Holds.finishes rs Phase.ended x at_ended v ledger d
