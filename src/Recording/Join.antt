-- ===== src/Recording/Join.antt =====
-- `decode_recording` (src/recording.rs): an ordered list of segments as one recording. `none` says
-- that the loop of a segment ran out of fuel, or that `expect` finds no first header.
use agenttender.Common.{
  ℕ, ◌+◌, Bool, true, false, List, [], ◌∷◌, ◌++◌, Option, none, some, Result, ok, err, Bytes,
  if◌then◌else◌, ltb, is_empty,
}
use agenttender.Recording.Format.{Record, SegmentHeader}
use agenttender.Recording.Decoded.{
  SegmentEnd, clean, truncated, DecodedSegment, truncated_interior_segment, no_segments,
  segment_index_violation, empty_interior_segment, DecodeErrorKind, corrupt, invalid, DecodeError,
  SegmentSummary, error_at, DecodedRecording,
}
use agenttender.Recording.Segment.{Continuity, decode_segment_with_summary}

-- The variables of the loop.
pub record Joined : Type 0 where
  pub first : Option SegmentHeader
  pub previous : Option SegmentSummary
  pub records : List Record
  pub end : SegmentEnd
  pub position : ℕ

unfoldable pub or_else : {A : Type 0} → Option A → Option A → Option A
or_else none y = y
or_else (some x) y = some x

unfoldable pub zip : {A B : Type 0} → Option A → Option B → Option (A × B)
zip (some a) (some b) = some (a, b)
zip _ _ = none

unfoldable pub continuity : Joined → Option Continuity
unfolding zip
continuity j = some (record { position = j.position; previous = zip j.first j.previous })

last_so_far : Option SegmentSummary → Option ℕ
last_so_far none = none
last_so_far (some p) = p.last_sequence

-- The closure `at`.
at_segment : ℕ → DecodeErrorKind → ℕ → Option ℕ → DecodeError
unfolding error_at
at_segment position kind offset last = record (error_at kind offset last) {
  segment = some position;
}

-- The `map_err` on a segment's own failure.
unfoldable pub relocate : Joined → DecodeError → DecodeError
unfolding or_else last_so_far
relocate j e = record e {
  segment = some j.position;
  last_valid_sequence = or_else e.last_valid_sequence (last_so_far j.previous);
}

-- An interior segment must end cleanly and hold a record.
unfoldable pub interior_error : Joined → Bool → DecodedSegment → SegmentSummary → Option DecodeError
unfolding at_segment or_else last_so_far
interior_error j true segment summary = none
interior_error j false segment summary = elim segment.end [
  | truncated offset ↦ some (
      at_segment j.position (corrupt truncated_interior_segment) offset
        (or_else summary.last_sequence (last_so_far j.previous)))
  | clean ↦ elim (is_empty segment.records) [
    | true ↦ some (
        at_segment j.position (invalid empty_interior_segment) summary.header_len
          (last_so_far j.previous))
    | false ↦ none
  ]
]

-- The updates of a round, and the checked increment of the position.
unfoldable pub add_segment : Joined → DecodedSegment → SegmentSummary → Result DecodeError Joined
unfolding or_else at_segment last_so_far
add_segment j segment summary =
    if ltb j.position 4294967295
    then ok (record {
      first = or_else j.first (some segment.header);
      previous = some summary;
      records = j.records ++ segment.records;
      end = segment.end;
      position = j.position + 1;
    })
    else err (at_segment j.position (invalid segment_index_violation) 0 (last_so_far j.previous))

-- The result of the loop, with `expect` on the first header.
unfoldable pub finish : Joined → Option (Result DecodeError DecodedRecording)
finish j = elim j.first [
  | none ↦ none
  | some header ↦ some (
      ok (record { header = header; segment_count = j.position; records = j.records; end = j.end }))
]

-- What follows a segment that was decoded.
unfoldable pub accept_segment :
    Joined → Bool → DecodedSegment → SegmentSummary → Result DecodeError Joined
unfolding interior_error add_segment
accept_segment j is_final segment summary = elim (interior_error j is_final segment summary) [
  | some e ↦ err e
  | none ↦ add_segment j segment summary
]

module _ (crc : Bytes → ℕ) (version_num : Bytes → ℕ) where
  -- One round of the loop.
  unfoldable pub join_segment : Joined → Bytes → Bool → Option (Result DecodeError Joined)
  unfolding decode_segment_with_summary relocate continuity accept_segment
  join_segment j bytes is_final =
      elim (decode_segment_with_summary crc version_num bytes (continuity j)) [
        | none ↦ none
        | some (err e) ↦ some (err (relocate j e))
        | some (ok (segment, summary)) ↦ some (accept_segment j is_final segment summary)
      ]

  unfoldable pub join_segments : Joined → List Bytes → Option (Result DecodeError DecodedRecording)
  unfolding join_segment finish
  join_segments j [] = finish j
  join_segments j (bytes ∷ segments) = elim (join_segment j bytes (is_empty segments)) [
    | none ↦ none
    | some (err e) ↦ some (err e)
    | some (ok after) ↦ join_segments after segments
  ]

  unfoldable pub decode_recording : List Bytes → Option (Result DecodeError DecodedRecording)
  unfolding error_at join_segments
  decode_recording [] = some (err (error_at (invalid no_segments) 0 none))
  decode_recording (bytes ∷ segments) =
      join_segments
        (record { first = none; previous = none; records = []; end = clean; position = 0 })
        (bytes ∷ segments)
