-- ===== src/Recording/Loop.antt =====
-- One round of the decoding loop of src/recording.rs, as equations on `decode_records`.
use agenttender.Common.{
  ℕ, suc, ◌+◌, true, false, ◌&&◌, List, [], ◌∷◌, ◌++◌, Option, none, some, ok, err, Bytes, is_empty,
  drop, ◌≡◌, refl, ◌⊎◌, inl, inr,
}
use agenttender.Recording.Format.{Record, SegmentHeader}
use agenttender.Recording.Decoded.{
  SegmentEnd, DecodeErrorKind, invalid, segment_elapsed, SegmentSummary, error_at,
}
use agenttender.Recording.Decoder.{
  Round, ended, failed, got, regressed, decode_round, summary_after,
}
use agenttender.Recording.Segment.{decode_records}

pub Round-cases :
    (x : Round)
    → ((e : SegmentEnd) × (x ≡ ended e))
      ⊎ (((k : DecodeErrorKind) × (x ≡ failed k)) ⊎ ((r : Record) × (len : ℕ) × (x ≡ got r len)))
Round-cases (ended e) = inl (e, refl)
Round-cases (failed k) = inr (inl (k, refl))
Round-cases (got r len) = inr (inr (r, len, refl))

module _ (crc : Bytes → ℕ) (fuel : ℕ) (h : SegmentHeader) (prev : Option ℕ) (pos : ℕ) (rest : Bytes)
    (s : SegmentSummary) (records : List Record) where
  pub decode_records-ended :
      (e : SegmentEnd)
      → decode_round crc h s pos rest ≡ ended e
      → decode_records crc (suc fuel) h prev pos rest s records ≡ some (ok (records, (e, s)))
  unfolding decode_records
  decode_records-ended e eq = rw (decode_records, eq) refl

  pub decode_records-failed :
      (k : DecodeErrorKind)
      → decode_round crc h s pos rest ≡ failed k
      → decode_records crc (suc fuel) h prev pos rest s records
        ≡ some (err (error_at k pos s.last_sequence))
  unfolding decode_records
  decode_records-failed k eq = rw (decode_records, eq) refl

  pub decode_records-regressed :
      (r : Record) (len : ℕ)
      → decode_round crc h s pos rest ≡ got r len
      → (is_empty records && regressed prev r.elapsed_ns) ≡ true
      → decode_records crc (suc fuel) h prev pos rest s records
        ≡ some (err (error_at (invalid segment_elapsed) pos none))
  unfolding decode_records
  decode_records-regressed r len eq t = rw (decode_records, eq) (rw t refl)

  pub decode_records-got :
      (r : Record) (len : ℕ)
      → decode_round crc h s pos rest ≡ got r len
      → (is_empty records && regressed prev r.elapsed_ns) ≡ false
      → decode_records crc (suc fuel) h prev pos rest s records
        ≡ decode_records crc fuel h prev
            (pos + len)
            (drop len rest)
            (summary_after s r)
            (records ++ (r ∷ []))
  unfolding decode_records
  decode_records-got r len eq t = rw (decode_records, eq) (rw t refl)
