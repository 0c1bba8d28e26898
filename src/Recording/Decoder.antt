-- ===== src/Recording/Decoder.antt =====
-- The records of a segment (src/recording.rs): `decode_body`, and one round of the loop of
-- `decode_segment_with_summary`. The loop's `bytes[pos..]` is the list of the bytes that are left,
-- beside `pos`.
use agenttender.Common.{
  ℕ, ◌+◌, ◌-◌, Bool, false, not, ◌&&◌, [], ◌∷◌, Option, none, some, Result, ok, err, ◌>>=◌, ◌>>◌,
  guard, ok_or, Bytes, if◌then◌else◌, ◌==◌, leb, ltb, length, is_empty, take, drop,
}
use agenttender.Common.Words.{word16, word32, word64}
use agenttender.Recording.Geometry
use agenttender.Recording.Geometry.{Geometry}
use agenttender.Recording.Format.{
  RecordKind, output, resized, input, Record, ResizeCause, user, repaint, SegmentHeader, crc_len,
  prefix_len, kind_output, kind_input, kind_resize, cause_user, cause_repaint, body_fixed_len,
  body_max_len, resize_payload_len, next_sequence_of, geometry_after,
}
use agenttender.Recording.Decoded.{
  SegmentEnd, clean, truncated, length_check, length_bounds, record_checksum, Violation,
  zero_geometry, unknown_kind, payload_size, unknown_resize_cause, correlation_violation,
  input_not_recorded, sequence_violation, elapsed_regressed, DecodeErrorKind, corrupt, invalid,
  SegmentSummary,
}

unfoldable pub head_or_zero : Bytes → ℕ
head_or_zero [] = 0
head_or_zero (b ∷ _) = b

unfoldable pub resize_cause : ℕ → ℕ → Result Violation ResizeCause
resize_cause cause correlation =
    if (cause == cause_user) && (correlation == 0)
    then ok user
    else if cause == cause_repaint
    then (if correlation == 0 then err correlation_violation else ok (repaint correlation))
    else if cause == cause_user
    then err correlation_violation
    else err (unknown_resize_cause cause)

-- The match of `decode_body` on the kind byte.
unfoldable pub body_kind : ℕ → Bytes → Bool → Result Violation RecordKind
unfolding Geometry.new resize_cause head_or_zero
body_kind kind payload input_recorded =
    if kind == kind_output
    then (do guard (not (is_empty payload)) payload_size; ok (output payload))
    else if kind == kind_input
    then (do
      guard (not (is_empty payload)) payload_size
      guard input_recorded input_not_recorded
      ok (input payload))
    else if kind == kind_resize
    then (do
      guard (length payload == resize_payload_len) payload_size
      geometry ← ok_or (Geometry.new (word16 payload) (word16 (drop 2 payload))) zero_geometry
      cause ← resize_cause (head_or_zero (drop 4 payload)) (word32 (drop 5 payload))
      ok (resized geometry cause))
    else err (unknown_kind kind)

-- `summary.next_sequence` is the sequence read
unfoldable pub is_expected : Option ℕ → ℕ → Bool
is_expected none s = false
is_expected (some expected) s = expected == s

-- `last.is_some_and(|previous| elapsed < previous)`
unfoldable pub regressed : Option ℕ → ℕ → Bool
regressed none elapsed = false
regressed (some previous) elapsed = ltb elapsed previous

unfoldable pub decode_body : Bytes → SegmentHeader → SegmentSummary → Result Violation Record
unfolding head_or_zero body_kind is_expected regressed
decode_body body header summary = do
  let sequence = word64 (drop 1 body)
  let elapsed_ns = word64 (drop 9 body)
  kind ← body_kind (head_or_zero body) (drop body_fixed_len body) header.input_recorded
  guard (is_expected summary.next_sequence sequence) sequence_violation
  guard (not (regressed summary.last_elapsed_ns elapsed_ns)) elapsed_regressed
  ok (record { sequence = sequence; elapsed_ns = elapsed_ns; kind = kind })

-- One round of the decoding loop: the segment ends, fails, or has a record of that many bytes.
pub data Round : Type 0 where
  ended : SegmentEnd → Round
  failed : DecodeErrorKind → Round
  got : Record → ℕ → Round

unfoldable pub got_body : ℕ → Result Violation Record → Round
got_body len (ok r) = got r len
got_body len (err v) = failed (invalid v)

unfoldable pub summary_after : SegmentSummary → Record → SegmentSummary
unfolding next_sequence_of geometry_after
summary_after s r = record s {
  next_sequence = next_sequence_of r.sequence;
  last_sequence = some r.sequence;
  last_elapsed_ns = some r.elapsed_ns;
  final_geometry = geometry_after r.kind s.final_geometry;
}

module _ (crc : Bytes → ℕ) where
  -- What follows a length word that passed its checks.
  unfoldable pub checked_round : SegmentHeader → SegmentSummary → ℕ → Bytes → ℕ → Round
  unfolding got_body
  checked_round header summary pos rest body_len =
      if ltb (length rest) (prefix_len + body_len + crc_len)
      then ended (truncated pos)
      else if not
          (crc (take (prefix_len + body_len) rest) == word32 (drop (prefix_len + body_len) rest))
      then failed (corrupt record_checksum)
      else got_body (prefix_len + body_len + crc_len)
          (decode_body (drop prefix_len (take (prefix_len + body_len) rest)) header summary)

  unfoldable pub decode_round : SegmentHeader → SegmentSummary → ℕ → Bytes → Round
  unfolding checked_round
  decode_round header summary pos rest =
      if length rest == 0
      then ended clean
      else if ltb (length rest) prefix_len
      then ended (truncated pos)
      else if not (word32 (drop 4 rest) == 4294967295 - word32 rest)
      then failed (corrupt length_check)
      else if not (leb body_fixed_len (word32 rest) && leb (word32 rest) body_max_len)
      then failed (corrupt length_bounds)
      else checked_round header summary pos rest (word32 rest)
