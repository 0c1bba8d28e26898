-- ===== src/Recording/Total.antt =====
-- The decoder of src/recording.rs always returns: every record takes bytes, so the loop over a
-- segment ends.
pub mod Recordings
use agenttender.Common.{
  ℕ, zero, suc, ◌+◌, ◌-◌, ◌<◌, ◌≤◌, Bool, true, false, List, [], ◌∷◌, ◌++◌, Option, none, some,
  Result, ok, err, Bytes, length, drop, length-drop, ◌≡◌, refl, arith, leb, ltb,
}
use agenttender.Common.{◌∙◌, is_empty, Bool-cases, ◌&&◌, inl, inr}
use agenttender.Recording.Loop.{
  Round-cases, decode_records-ended, decode_records-failed, decode_records-regressed,
  decode_records-got,
}
use agenttender.Common.{Option-cases}
use agenttender.Recording.Decoded.{DecodeError, DecodeErrorKind, invalid, error_at}
use agenttender.Recording.Header.{decode_header}
use agenttender.Recording.Segment.{Continuity, violation_of, previous_elapsed, initial_summary}
use agenttender.Recording.Format.{Record, SegmentHeader}
use agenttender.Recording.Decoded.{SegmentSummary, DecodedSegment}
use agenttender.Recording.Decoder.{
  Round, ended, failed, got, regressed, decode_round, checked_round, got_body, decode_body,
  summary_after,
}
use agenttender.Recording.Segment.{
  Loop, decode_records, decode_segment, decode_segment_with_summary, finish_segment,
}

module _ (crc : Bytes → ℕ) where
  -- A record takes at least one byte, and no more than are left.
  pub decode_round-got :
      (h : SegmentHeader) (s : SegmentSummary) (pos : ℕ) (rest : Bytes) (r : Record) (len : ℕ)
      → decode_round crc h s pos rest ≡ got r len
      → (0 < len) × (len ≤ length rest)
  unfolding decode_round checked_round got_body
  decode_round-got h s pos rest r len eq = ground arith

  -- The loop returns when its fuel is more than the bytes that are left.
  pub decode_records_total :
      (fuel : ℕ) (h : SegmentHeader) (prev : Option ℕ) (pos : ℕ) (rest : Bytes) (s : SegmentSummary)
      (records : List Record)
      → length rest < fuel
      → (l : Loop) × (decode_records crc fuel h prev pos rest s records ≡ some l)
  decode_records_total (suc fuel) h prev pos rest s records lt =
      elim (Round-cases (decode_round crc h s pos rest)) [
        | inl (e, p) ↦ (_, decode_records-ended crc fuel h prev pos rest s records e p)
        | inr (inl (k, p)) ↦ (_, decode_records-failed crc fuel h prev pos rest s records k p)
        | inr (inr (r, len, p)) ↦
            elim (Bool-cases (is_empty records && regressed prev r.elapsed_ns)) [
              | inl t ↦ (_, decode_records-regressed crc fuel h prev pos rest s records r len p t)
              | inr t ↦
                  let (l, q) =
                    decode_records_total fuel h prev (pos + len) (drop len rest) (summary_after s r)
                      (records ++ (r ∷ []))
                      (omega
                        (arith, length-drop len rest, decode_round-got h s pos rest r len p)) in
                  (l, decode_records-got crc fuel h prev pos rest s records r len p t ∙ q)
            ]
      ]
  decode_records_total zero h prev pos rest s records lt = absurd (omega arith)

finish_segment_total :
    (h : SegmentHeader) (l : Loop)
    → (r : Result DecodeError (DecodedSegment × SegmentSummary)) × (finish_segment h (some l)
        ≡ some r)
unfolding finish_segment
finish_segment_total h (ok (records, (end, summary))) = (_, refl)
finish_segment_total h (err e) = (_, refl)

module _ (crc : Bytes → ℕ) (version_num : Bytes → ℕ) (bytes : Bytes) (c : Option Continuity) where
  abbrev Returns : Type 0
  Returns =
      (r : Result DecodeError (DecodedSegment × SegmentSummary)) × (decode_segment_with_summary crc
          version_num bytes c
        ≡ some r)

  with_header :
      (x : Result DecodeErrorKind (SegmentHeader × ℕ))
      → decode_header crc version_num bytes ≡ x
      → Returns
  unfolding decode_segment_with_summary
  with_header (err kind) eq =
      (err (error_at kind 0 none), rw (decode_segment_with_summary, eq) refl)
  with_header (ok (h, len)) eq = elim (Option-cases (violation_of h c)) [
    | inr (v, p) ↦
        (err (error_at (invalid v) 0 none), rw (decode_segment_with_summary, eq) (rw p refl))
    | inl p ↦
        let (l, q) =
          decode_records_total crc (suc (length bytes)) h (previous_elapsed c) len (drop len bytes)
            (initial_summary h len) [] (omega (arith, length-drop len bytes)) in
        let (r, e) = finish_segment_total h l in
        (r, rw (decode_segment_with_summary, eq) (rw p (rw q e)))
  ]

  -- A segment, alone or behind others, is decoded or refused.
  pub decode_segment_with_summary_total : Returns
  decode_segment_with_summary_total = with_header (decode_header crc version_num bytes) refl
