-- ===== src/Recorder/Steps/Appending.antt =====
-- The first publication, and the append of a record (src/recorder.rs), keep the invariant.
use agenttender.Common.{
  ℕ, true, List, [], ◌∷◌, ◌++◌, none, ok, Bytes, ◌≡◌, refl, ◌∙◌, ap, arith, inl, inr, ◌⊎◌,
  Ends-cases,
}
use agenttender.Recording.Format.{Record, RecordKind, SegmentHeader}
use agenttender.Recording.Encoder.{SegmentEncoder, header_bytes}
use agenttender.Recording.Encoder
use agenttender.Recorder.State.{RecorderLimits}
use agenttender.Recorder.Storage.{Answers, closed}
use agenttender.Recorder.Writer.{Parts, sync, publish, published, prepare, append}
use agenttender.Recorder.Layout.{Writes, Rests, Ready}
use agenttender.Recorder.Appends.Publishing.{
  sync-disk, sync-encoder, sync-segment_len, publish-Publishes,
}
use agenttender.Recorder.Appends.Preparing.{prepare-Prepares}
use agenttender.Recorder.Appends.{IsFailure, append-Ends, RestsAt, cut_back-Rests}
use agenttender.Recorder.Ledger.{Ledger, stop-Ledger}
use agenttender.Recorder.System.{
  Phase, publish_first, stopping, attempt, appended_to, cut_if, completed,
}
use agenttender.Recorder.SideKept.{publish-kept, prepare-kept, append-kept}
use agenttender.Recorder.Holds.{IsFirstBeyond, at_leaving, Ledger-IsSideKept, Holds, HoldsIn}
use agenttender.Recorder.Steps.Rounds.{stopped-IsDone}

module _ (crc : Bytes → ℕ) (h : SegmentHeader) where
  -- A sync leaves the segments and the encoder as they are.
  pub sync-Ready :
      (a : Answers) (rs : List Record) (y : Parts)
      → Ready crc h rs y.disk y.writer
      → Ready crc h rs (sync a y).0.disk (sync a y).0.writer
  sync-Ready a rs y v = record {
    segment = v.segment;
    written = rw (sync-disk a y, sync-encoder a y) v.written;
    open_is = ap (λ d. d.open_segment) (sync-disk a y) ∙ v.open_is;
    len = sync-segment_len a y ∙ v.len;
    alone = ap (λ d. d.beyond) (sync-disk a y) ∙ v.alone;
  }

  pub cut_if-Rests :
      {left : Type 0} (a : Answers) (rs : List Record) (before : ℕ) (y : Parts)
      → (IsFailure a.set_len → left)
      → RestsAt crc h rs before y.disk
      → Rests crc h left rs (cut_if true a before y).disk
  unfolding cut_if
  cut_if-Rests a rs before y f v = cut_back-Rests crc h a rs before y f v

  pub publish-encoder :
      (limits : RecorderLimits) (a : Answers) (header : Bytes) (n : ℕ) (y : Parts)
      → (publish limits a header n y).0.writer.encoder ≡ y.writer.encoder
  unfolding publish published
  publish-encoder limits a header n y = ground arith

  pub Ready-completed :
      (q : ℕ) (rs : List Record) (y : Parts)
      → Ready crc h rs y.disk y.writer
      → Ready crc h rs (completed q y).disk (completed q y).writer
  unfolding completed
  Ready-completed q rs y v = record {
    segment = v.segment;
    written = v.written;
    open_is = v.open_is;
    len = v.len;
    alone = v.alone;
  }

  first_beyond :
      (e : SegmentEncoder) {before after : List Bytes}
      → Encoder.new h ≡ ok e
      → before ≡ []
      → (after ≡ before) ⊎ (after ≡ before ++ (header_bytes crc e ∷ []))
      → IsFirstBeyond crc h after
  first_beyond e new alone (inl k) = inl (k ∙ alone)
  first_beyond e new alone (inr k) =
      inr (e, new, k ∙ ap (λ x. x ++ (header_bytes crc e ∷ [])) alone)

  module _ (left : Type 0) {offered : List RecordKind} where
    pub publish_first-Holds :
        (limits : RecorderLimits) (a : Answers) (y : Parts)
        → Encoder.new h ≡ ok y.writer.encoder
        → y.disk.earlier ≡ []
        → y.disk.open_segment ≡ none
        → y.disk.beyond ≡ []
        → Ledger [] [] offered y.state
        → HoldsIn crc h left offered (publish_first crc limits a y)
    unfolding publish_first stopping
    publish_first-Holds limits a y new earlier unopened alone ledger =
        let header = header_bytes crc y.writer.encoder in
        let y1 = (publish limits a header 0 y).0 in
        let kept = publish-kept (Ledger-IsSideKept [] [] offered) limits a header 0 y ledger in
        elim (Ends-cases (publish limits a header 0 y)
          (publish-Publishes crc h limits a header 0 y)) [
            | inl (e, n, p) ↦
                rw (publish_first, n)
                  (Holds.finishes [] Phase.leaving (stopping e y1) at_leaving
                    (inr (
                      refl,
                      p.0 ∙ earlier,
                      p.1 ∙ unopened,
                      first_beyond y.writer.encoder new alone p.2,
                    ))
                    (stop-Ledger e y1.state kept) (stopped-IsDone e y1.state))
            | inr (u, n, p) ↦
                let earlier_is =
                  p.0 ∙ ap (λ b. b ++ closed y.disk.open_segment) earlier ∙ ap closed unopened in
                rw (publish_first, n)
                  (Holds.waits [] y1
                    (record {
                      segment = header;
                      written =
                          rw (earlier_is, publish-encoder limits a header 0 y)
                            (Writes.opened y.writer.encoder new);
                      open_is = p.1;
                      len = p.2;
                      alone = p.3 ∙ alone;
                    })
                    kept)
          ]

    pub attempt-Holds :
        (limits : RecorderLimits) (a : Answers) (rs : List Record) (r : Record) (y : Parts)
        → Ready crc h rs y.disk y.writer
        → Ledger rs (r ∷ []) offered y.state
        → HoldsIn crc h left offered (attempt crc limits a r y)
    unfolding attempt appended_to
    attempt-Holds limits a rs r y v ledger =
        let y1 = (prepare crc limits a r y).0 in
        let side = Ledger-IsSideKept rs (r ∷ []) offered in
        let kept = prepare-kept side limits crc a r y ledger in
        elim (Ends-cases (prepare crc limits a r y) (prepare-Prepares crc h limits a rs r y v)) [
          | inl (e, n, p) ↦
              rw (attempt, n) (Holds.refuses rs r r.sequence y1.writer.segment_len e y1 p kept)
          | inr (bytes, n, p) ↦
              let y2 = (append a bytes y1).0 in
              let kept2 = append-kept side a bytes y1 kept in
              let before = y1.writer.segment_len in
              elim (Ends-cases (append a bytes y1) (append-Ends crc h a rs r bytes y1 p)) [
                | inl (e, m, q) ↦
                    rw (attempt, n, m) (Holds.fails rs r r.sequence before e y2 q kept2)
                | inr (u, m, q) ↦ rw (attempt, n, m) (Holds.appends rs r before u y2 q kept2)
              ]
        ]
