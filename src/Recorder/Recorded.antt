-- ===== src/Recorder/Recorded.antt =====
-- What a run of the recorder (src/recorder.rs) has recorded, from its start.
pub mod Threads
use agenttender.Common.{
  ℕ, ◌-◌, Bool, true, false, List, [], ◌∷◌, ◌++◌, map, Option, none, some, ok, Bytes, length, ◌≡◌,
  refl, sym, ◌∙◌, ap, arith, ◌⊎◌, inl, inr, append-nil, append_assoc, Bool-cases,
}
use mathlib.Core.Path.{subst}
use agenttender.Recording.Format.{Record, RecordKind, SegmentHeader, output, resized}
use agenttender.Recording.Encoder
use agenttender.Recorder.State.{
  RecorderLimits, StopReason, State, stop, close, give_up, initial, push, sequenced, chunks,
  output_offered, resize_applied, enqueue,
}
use agenttender.Recorder.Storage.{Disk}
use agenttender.Recorder.Writer
use agenttender.Recorder.Writer.{Parts}
use agenttender.Recorder.Layout.{Rests, Rests-weaken}
use agenttender.Recorder.Appends.Publishing.{Rests-Ready}
use agenttender.Recorder.Appends.{RestsAt-Appended}
use agenttender.Recorder.System.{System, Phase, start}
use agenttender.Recorder.Reach.{Event, step, on_state, run, offers, offered}
use agenttender.Recorder.SideKept.{IsSideKept, give_up-kept}
use agenttender.Recorder.Kept.{IsKept, chunks-kept, enqueue-kept, writer_step-kept, step-kept}
use agenttender.Recorder.Ledger.{
  Ledger, kinds, last_sequence, grown, grown-nil, grown-append, enqueue-Ledger,
  output_offered-Ledger, give_up-Ledger, stop-accepting,
}
use agenttender.Recorder.Holds.{IsDone, IsOnDisk, Holds, HoldsIn}
use agenttender.Recorder.Steps.Rounds.{IsDone-IsSideKept}
use agenttender.Recorder.Steps.{writer_step-Holds}
use agenttender.Recorder.Recorded.Threads.{
  SomeCutFails, IsDone-IsKept, accepting-IsKept, close-Ledger, close-IsDone, close-accepting,
  initial-Ledger, start-parts, start-accepting, Recording, recording, on_state-Holds, step-Holds,
}

-- An append has been tried, and is not yet kept or cut.
abbrev pub IsTrying : Phase → Type 0
IsTrying (Phase.tried q before true result) = Unit
IsTrying _ = ⊥

module _ (crc : Bytes → ℕ) (h : SegmentHeader) (left : Type 0) where
  -- Nothing is offered once `finish` has closed the recording.
  run-closed :
      (limits : RecorderLimits) (es : List Event) (o : List RecordKind) (y : System)
      → (SomeCutFails es → left)
      → y.parts.state.accepting ≡ false
      → HoldsIn crc h left o y
      → HoldsIn crc h left o (run crc limits es y)
  unfolding run
  run-closed limits [] o y f a v = v
  run-closed limits (e ∷ es) o y f a v =
      run-closed limits es o (step crc limits e y) (λ x. f (inr x))
        (step-kept (accepting-IsKept limits false) crc close-accepting e y a)
        (subst (λ b. HoldsIn crc h left (grown b o (offers e)) (step crc limits e y)) a
          (step-Holds crc h left limits o e y (λ x. f (inl x)) v))

  step-open :
      (limits : RecorderLimits) (e : Event) (y : System)
      → y.parts.state.accepting ≡ true
      → (((step crc limits e y).parts.state.accepting ≡ false)
          × (offers e ≡ [])
          × ((es : List Event) → offered (e ∷ es) ≡ []))
        ⊎ (((step crc limits e y).parts.state.accepting ≡ true)
            × ((es : List Event) → offered (e ∷ es) ≡ offers e ++ offered es))
  unfolding offered offers step on_state close resize_applied output_offered
  step-open limits (Event.outputs clock bytes) y a = inr (
    (chunks-kept (accepting-IsKept limits true) clock 0 (chunks (length bytes) bytes) y.parts.state
        a),
    λ es. refl,
  )
  step-open limits (Event.resizes now geometry cause true) y a = inr (
    (enqueue-kept (accepting-IsKept limits true) now (resized geometry cause) y.parts.state a),
    λ es. refl,
  )
  step-open limits (Event.resizes now geometry cause false) y a = inr (a, λ es. refl)
  step-open limits Event.closes y a = inl (refl, refl, λ es. refl)
  step-open limits Event.gives_up y a =
      inr ((give_up-kept (accepting-IsKept limits true).side y.parts.state a), λ es. refl)
  step-open limits (Event.writes x due) y a =
      inr
        ((writer_step-kept (accepting-IsKept limits true) crc x due y.phase y.parts a), λ es. refl)

  run-open :
      (limits : RecorderLimits) (es : List Event) (o : List RecordKind) (y : System)
      → (SomeCutFails es → left)
      → y.parts.state.accepting ≡ true
      → HoldsIn crc h left o y
      → HoldsIn crc h left (o ++ offered es) (run crc limits es y)
  unfolding run offered
  run-open limits [] o y f a v = rw (append-nil o) v
  run-open limits (e ∷ es) o y f a v =
      let next = step crc limits e y in
      let more =
        subst (λ b. HoldsIn crc h left (grown b o (offers e)) next) a
          (step-Holds crc h left limits o e y (λ x. f (inl x)) v) in
      elim (step-open limits e y a) [
        | inr (b, p) ↦ rw (p es) (
            subst (λ k. HoldsIn crc h left k (run crc limits es next))
              (append_assoc o (offers e) (offered es))
              (run-open limits es (o ++ offers e) next (λ x. f (inr x)) b more))
        | inl (b, q, p) ↦
            rw (p es, append-nil o)
              (run-closed limits es o next (λ x. f (inr x)) b
                (subst (λ k. HoldsIn crc h left k next) (ap (◌++◌ o) q ∙ append-nil o) more))
      ]

  start-Holds : (y : System) → start h ≡ ok y → HoldsIn crc h left [] y
  start-Holds y eq =
      let (p, new, earlier, unopened, state, alone) = start-parts h y eq in
      subst (λ phase. Holds crc h left [] phase y.parts) (sym p)
        (Holds.starts y.parts new earlier unopened alone
          (rw state (initial-Ledger h.first_sequence)))

  Recording-Holds :
      (offered : List RecordKind) (phase : Phase) (y : Parts)
      → Holds crc h left offered phase y
      → Recording crc h (IsTrying phase ⊎ left) offered y.disk y.state
  Recording-Holds o phase y (Holds.starts x new earlier unopened alone v) =
      recording crc h _ [] o x (inr (refl, earlier, unopened, inl alone)) v
  Recording-Holds o phase y (Holds.waits rs x w v) =
      recording crc h _ [] o x (inl (Rests-Ready crc h rs x.disk x.writer w)) v
  Recording-Holds o phase y (Holds.settled rs x w v) =
      recording crc h _ [] o x (inl (Rests-Ready crc h rs x.disk x.writer w)) v
  Recording-Holds o phase y (Holds.takes rs r x w v) =
      recording crc h _ (r ∷ []) o x (inl (Rests-Ready crc h rs x.disk x.writer w)) v
  Recording-Holds o phase y (Holds.appends rs r before u x w v) =
      let rests = (RestsAt-Appended crc h rs r before x.disk x.writer w).0 in
      recording crc h _ (r ∷ []) o x (inl (Rests-weaken crc h (λ t. inl tt) rs x.disk rests)) v
  Recording-Holds o phase y (Holds.fails rs r q before e x w v) =
      recording crc h _ (r ∷ []) o x (inl (Rests-weaken crc h (λ t. inl tt) rs x.disk w.0)) v
  Recording-Holds o phase y (Holds.refuses rs r q before e x w v) =
      recording crc h _ (r ∷ []) o x (inl (Rests-weaken crc h (λ t. absurd t) rs x.disk w)) v
  Recording-Holds o phase y (Holds.finishes rs p x l (inl w) v done) =
      recording crc h _ [] o x (inl (Rests-weaken crc h (λ t. inr t) rs x.disk w)) v
  Recording-Holds o phase y (Holds.finishes rs p x l (inr w) v done) =
      recording crc h _ [] o x (inr w) v

  IsDone-Holds :
      (offered : List RecordKind) (phase : Phase) (y : Parts)
      → Holds crc h left offered phase y
      → phase ≡ Phase.ended
      → y.state.stopped ≡ none
      → (rs : List Record) × IsOnDisk crc h left rs y.disk × (kinds rs ≡ offered)
  IsDone-Holds o phase y (Holds.finishes rs p x l w v done) e n = (
    rs,
    w,
    sym (append-nil (kinds rs)) ∙ ap (λ k. kinds rs ++ kinds k) (sym (done n).0) ∙ v.all n,
  )
  IsDone-Holds o phase y (Holds.starts x new earlier unopened alone v) e n = absurd (ground arith)
  IsDone-Holds o phase y (Holds.waits rs x w v) e n = absurd (ground arith)
  IsDone-Holds o phase y (Holds.settled rs x w v) e n = absurd (ground arith)
  IsDone-Holds o phase y (Holds.takes rs r x w v) e n = absurd (ground arith)
  IsDone-Holds o phase y (Holds.appends rs r before u x w v) e n = absurd (ground arith)
  IsDone-Holds o phase y (Holds.fails rs r q before t x w v) e n = absurd (ground arith)
  IsDone-Holds o phase y (Holds.refuses rs r q before t x w v) e n = absurd (ground arith)

module _ (crc : Bytes → ℕ) (h : SegmentHeader) where
  -- However the steps of the threads are interleaved and whatever the file system answers, the
  -- segments on the disk are the header and the encodings of some records, the last of which is the
  -- last append that the state names; what these records hold is, in order and without a gap, the
  -- beginning of what the producers offered before the close. Behind them are at most the first bytes
  -- of one more record, and only while its append is not settled or when the answers let a cut fail;
  -- and the one segment that can be in place beside them is the header of the next, whose publication
  -- has failed.
  pub run-Recording :
      (limits : RecorderLimits) (y : System) (es : List Event)
      → start h ≡ ok y
      → Recording crc h
          (IsTrying (run crc limits es y).phase ⊎ SomeCutFails es)
          (offered es)
          (run crc limits es y).parts.disk
          (run crc limits es y).parts.state
  run-Recording limits y es eq =
      let left = SomeCutFails es in
      let end = run crc limits es y in
      Recording-Holds crc h left (offered es) end.phase end.parts (
        run-open crc h left limits es [] y (λ x. x) (start-accepting h y eq)
          (start-Holds crc h left y eq))

  -- Once the writer has ended without a stop, the segments hold everything that the producers offered
  -- before the close, in order.
  pub run_complete :
      (limits : RecorderLimits) (y : System) (es : List Event)
      → start h ≡ ok y
      → (run crc limits es y).phase ≡ Phase.ended
      → (run crc limits es y).parts.state.stopped ≡ none
      → (rs : List Record) × IsOnDisk crc h (SomeCutFails es) rs (run crc limits es y).parts.disk
        × (kinds rs ≡ offered es)
  run_complete limits y es eq e n =
      let left = SomeCutFails es in
      let end = run crc limits es y in
      IsDone-Holds crc h left (offered es) end.phase end.parts
        (run-open crc h left limits es [] y (λ x. x) (start-accepting h y eq)
          (start-Holds crc h left y eq))
        e n
