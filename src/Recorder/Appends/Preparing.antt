-- ===== src/Recorder/Appends/Preparing.antt =====
-- The rotation and the preparing of a record (src/recorder.rs), on the segments.
use agenttender.Common.{
  ℕ, ◌+◌, List, ◌++◌, ok, Bytes, length, ◌≡◌, refl, ◌∙◌, ap, Result-cases, failed, gave, Ends-cases,
  Bool-cases, inl, inr, leb,
}
use agenttender.Recording.Format.{Record, SegmentHeader}
use agenttender.Recording.Encoder.{
  SegmentEncoder, next_segment, header_bytes, encode, advance, accept,
}
use agenttender.Recorder.State.{RecorderLimits}
use agenttender.Recorder.Storage.{Answers, closed}
use agenttender.Recorder.Writer.{
  Parts, sync, publish, prepare, rotate, start_segment, with_encoder, check_size,
}
use agenttender.Recorder.Layout.{Writes, Ready}
use agenttender.Recorder.Appends.Publishing.{
  sync-disk, Rests-Ready, Rests-failed, Prepares, prepare_here-Prepares, publish-Publishes,
}

module _ (crc : Bytes → ℕ) (h : SegmentHeader) where
  -- The rotation.
  pub start_segment-Prepares :
      (limits : RecorderLimits) (a : Answers) (rs : List Record) (r : Record)
      (next next' : SegmentEncoder) (bytes : Bytes) (y : Parts)
      → Ready crc h rs y.disk y.writer
      → next_segment y.writer.encoder ≡ ok next
      → encode crc r next ≡ (next', ok bytes)
      → header_bytes crc next' ≡ header_bytes crc next
      → Prepares crc h rs r (start_segment crc limits a next' bytes y)
  unfolding start_segment with_encoder
  start_segment-Prepares limits a rs r next next' bytes y v sn en hn =
      let y1 = (sync a y).0 in
      let same = sync-disk a y in
      let header = header_bytes crc next' in
      let index = next'.header.segment_index in
      elim (Result-cases ((sync a y).1)) [
        | inl (e, n) ↦
            rw (start_segment, n)
              (failed _ _ (
                Rests-failed crc h rs y.disk y1.disk y1.disk y.writer next header v sn hn same refl
                  refl (inl refl)))
        | inr (u, n) ↦
            elim (Ends-cases (publish limits a header index y1)
              (publish-Publishes crc h limits a header index y1)) [
                | inl (e, m, p) ↦
                    rw (start_segment, n, m)
                      (failed _ _ (
                        Rests-failed crc h rs y.disk y1.disk
                          (publish limits a header index y1).0.disk y.writer next header v sn hn
                          same p.0 p.1 p.2))
                | inr (u', m, p) ↦
                    let earlier_is =
                      p.0
                      ∙ ap (λ d. d.earlier ++ closed d.open_segment) same
                      ∙ ap (λ o. y.disk.earlier ++ closed o) v.open_is in
                    rw (start_segment, n, m)
                      (gave _ _ (record {
                        segment = header;
                        encoder = next;
                        written =
                            rw (earlier_is, hn)
                              (Writes.rotated y.disk.earlier v.segment y.writer.encoder next rs
                                v.written sn);
                        encoded = en;
                        open_is = p.1;
                        len = p.2;
                        alone = p.3 ∙ ap (λ d. d.beyond) same ∙ v.alone;
                      }))
              ]
      ]

  pub encode-header_bytes :
      (r : Record) (e : SegmentEncoder) → header_bytes crc (encode crc r e).0 ≡ header_bytes crc e
  unfolding encode advance header_bytes
  encode-header_bytes r e = elim (Result-cases (accept e r)) [
    | inl (x, n) ↦ rw (encode, n) refl
    | inr (k, n) ↦ rw (encode, n) refl
  ]

  pub rotate-Prepares :
      (limits : RecorderLimits) (a : Answers) (rs : List Record) (r : Record)
      (next : SegmentEncoder) (y : Parts)
      → Ready crc h rs y.disk y.writer
      → next_segment y.writer.encoder ≡ ok next
      → Prepares crc h rs r (rotate crc limits a r next y)
  unfolding rotate
  rotate-Prepares limits a rs r next y v sn =
      let next' = (encode crc r next).0 in
      elim (Result-cases ((encode crc r next).1)) [
        | inl (e, n) ↦ rw (rotate, n) (failed _ _ (Rests-Ready crc h rs y.disk y.writer v))
        | inr (bytes, n) ↦
            elim (Result-cases
              (check_size limits y.writer (length (header_bytes crc next') + length bytes))) [
                | inl (x, m) ↦
                    rw (rotate, n, m) (failed _ _ (Rests-Ready crc h rs y.disk y.writer v))
                | inr (u, m) ↦
                    rw (rotate, n, m)
                      (start_segment-Prepares limits a rs r next next' bytes y v sn
                        (ap (λ x. (next', x)) n) (encode-header_bytes r next))
              ]
      ]

  pub prepare-Prepares :
      (limits : RecorderLimits) (a : Answers) (rs : List Record) (r : Record) (y : Parts)
      → Ready crc h rs y.disk y.writer
      → Prepares crc h rs r (prepare crc limits a r y)
  unfolding prepare
  prepare-Prepares limits a rs r y v =
      let here = prepare_here-Prepares crc h limits rs r y v in
      elim (Bool-cases (leb limits.segment_bytes y.writer.segment_len)) [
        | inr n ↦ rw (prepare, n) here
        | inl n ↦ elim (Result-cases (next_segment y.writer.encoder)) [
          | inl (e, m) ↦ rw (prepare, n, m) here
          | inr (next, m) ↦ rw (prepare, n, m) (rotate-Prepares limits a rs r next y v m)
        ]
      ]
