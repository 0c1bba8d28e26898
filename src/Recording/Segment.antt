-- ===== src/Recording/Segment.antt =====
-- The decoding of segments (src/recording.rs): the loop over a segment's records, and the checks
-- across segments. The loop takes fuel; `none` says that it ran out.
use agenttender.Common.{
  ℕ, zero, suc, ◌+◌, Bool, true, false, not, ◌&&◌, List, [], ◌∷◌, ◌++◌, Option, none, some, Result,
  ok, err, Bytes, bytes_eq, if◌then◌else◌, ◌==◌, length, is_empty, drop,
}
use agenttender.Recording.Geometry.{Geometry}
use agenttender.Recording.Format.{Record, SegmentHeader}
use agenttender.Recording.Decoded.{
  SegmentEnd, DecodedSegment, Violation, segment_index_violation, segment_run, segment_origin,
  segment_flags, segment_term, segment_first_sequence, segment_geometry, segment_elapsed, invalid,
  DecodeError, SegmentSummary, error_at,
}
use agenttender.Recording.Decoder.{ended, failed, got, regressed, decode_round, summary_after}
use agenttender.Recording.Header.{decode_header}

-- The first segment's header and the summary of the segment before, for all but the first.
pub record Continuity : Type 0 where
  pub position : ℕ
  pub previous : Option (SegmentHeader × SegmentSummary)

-- `header.geometry == prev.final_geometry`
unfoldable pub geometry_eq : Geometry → Geometry → Bool
geometry_eq a b = (a.rows == b.rows) && (a.cols == b.cols)

unfoldable pub bool_eq : Bool → Bool → Bool
bool_eq true b = b
bool_eq false b = not b

unfoldable pub is_next : Option ℕ → ℕ → Bool
is_next none first_sequence = false
is_next (some s) first_sequence = s == first_sequence

-- The chain of tests against the first segment and the one before.
unfoldable pub continues_from : SegmentHeader → SegmentHeader → SegmentSummary → Option Violation
unfolding bytes_eq geometry_eq bool_eq is_next
continues_from header first prev =
    if not (bytes_eq header.run_id.uuid first.run_id.uuid)
    then some segment_run
    else if not (header.origin_unix_ns == first.origin_unix_ns)
    then some segment_origin
    else if not (bool_eq header.input_recorded first.input_recorded)
    then some segment_flags
    else if not (bytes_eq header.term first.term)
    then some segment_term
    else if not (is_next prev.next_sequence header.first_sequence)
    then some segment_first_sequence
    else if not (geometry_eq header.geometry prev.final_geometry)
    then some segment_geometry
    else none

unfoldable pub check_header_continuity : SegmentHeader → Continuity → Option Violation
unfolding continues_from
check_header_continuity header c =
    if not (header.segment_index == c.position)
    then some segment_index_violation
    else elim c.previous [ none ↦ none | some (first, prev) ↦ continues_from header first prev ]

-- The summary that the loop starts from.
unfoldable pub initial_summary : SegmentHeader → ℕ → SegmentSummary
initial_summary header header_len = record {
  header_len = header_len;
  next_sequence = some header.first_sequence;
  last_sequence = none;
  last_elapsed_ns = none;
  final_geometry = header.geometry;
}

-- The violation of a header against what it must continue, if that is given.
unfoldable pub violation_of : SegmentHeader → Option Continuity → Option Violation
unfolding check_header_continuity
violation_of header none = none
violation_of header (some c) = check_header_continuity header c

-- `previous_elapsed_ns`
unfoldable pub previous_elapsed : Option Continuity → Option ℕ
previous_elapsed none = none
previous_elapsed (some c) = elim c.previous [ none ↦ none | some (_, prev) ↦ prev.last_elapsed_ns ]

abbrev pub Loop : Type 0
Loop = Result DecodeError (List Record × (SegmentEnd × SegmentSummary))

module _ (crc : Bytes → ℕ) where
  -- The loop of `decode_segment_with_summary`.
  unfoldable pub decode_records :
      ℕ → SegmentHeader → Option ℕ → ℕ → Bytes → SegmentSummary → List Record → Option Loop
  unfolding decode_round summary_after regressed
  decode_records zero header prev pos rest summary records = none
  decode_records (suc fuel) header prev pos rest summary records =
      elim (decode_round crc header summary pos rest) [
        | ended end ↦ some (ok (records, (end, summary)))
        | failed kind ↦ some (err (error_at kind pos summary.last_sequence))
        | got r len ↦ elim (is_empty records && regressed prev r.elapsed_ns) [
          | true ↦ some (err (error_at (invalid segment_elapsed) pos none))
          | false ↦
              decode_records fuel header prev (pos + len) (drop len rest) (summary_after summary r)
                (records ++ (r ∷ []))
        ]
      ]

unfoldable pub finish_segment :
    SegmentHeader → Option Loop → Option (Result DecodeError (DecodedSegment × SegmentSummary))
finish_segment header none = none
finish_segment header (some (err e)) = some (err e)
finish_segment header (some (ok (records, (end, summary)))) =
    some (ok (record { header = header; records = records; end = end }, summary))

-- `map(|(segment, _)| segment)`
unfoldable pub segment_of :
    Option (Result DecodeError (DecodedSegment × SegmentSummary))
    → Option (Result DecodeError DecodedSegment)
segment_of none = none
segment_of (some (err e)) = some (err e)
segment_of (some (ok (segment, summary))) = some (ok segment)

module _ (crc : Bytes → ℕ) (version_num : Bytes → ℕ) where
  unfoldable pub decode_segment_with_summary :
      Bytes → Option Continuity → Option (Result DecodeError (DecodedSegment × SegmentSummary))
  unfolding decode_header error_at violation_of previous_elapsed initial_summary decode_records
      finish_segment
  decode_segment_with_summary bytes continuity = elim (decode_header crc version_num bytes) [
    | err kind ↦ some (err (error_at kind 0 none))
    | ok (header, header_len) ↦ elim (violation_of header continuity) [
      | some violation ↦ some (err (error_at (invalid violation) 0 none))
      | none ↦ finish_segment header (
          decode_records crc (suc (length bytes)) header (previous_elapsed continuity) header_len
            (drop header_len bytes) (initial_summary header header_len) [])
    ]
  ]

  unfoldable pub decode_segment : Bytes → Option (Result DecodeError DecodedSegment)
  unfolding decode_segment_with_summary segment_of
  decode_segment bytes = segment_of (decode_segment_with_summary bytes none)
