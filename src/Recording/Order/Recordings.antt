-- ===== src/Recording/Order/Recordings.antt =====
-- The order of the records that `decode_recording` (src/recording.rs) returns, across segments.
use agenttender.Common.{
  ℕ, Bool, not, List, [], ◌∷◌, Option, none, some, Result, ok, err, Bytes, is_empty, ◌≡◌, refl,
  arith,
}
use agenttender.Recording.Format.{SegmentHeader}
use agenttender.Recording.Decoded.{
  clean, DecodedSegment, DecodedRecording, DecodeError, SegmentSummary,
}
use agenttender.Recording.Segment.{decode_segment_with_summary}
use agenttender.Recording.Order.{InOrder}
use agenttender.Recording.Order.Segments.{decode_segment_with_summary-Facts}
use agenttender.Recording.Join.{
  Joined, continuity, accept_segment, finish, join_segment, join_segments, decode_recording,
}
use agenttender.Recording.Order.Joins.{Stands, Stands-first, Stands-next}

finish-ok :
    (j : Joined) (h : SegmentHeader) (r : DecodedRecording)
    → j.first ≡ some h
    → finish j ≡ some (ok r)
    → (r.header ≡ h) × (r.records ≡ j.records)
unfolding finish
finish-ok j h r p eq = (ground arith, ground arith)

-- The order of a whole recording.
abbrev pub IsOrdered : DecodedRecording → Type 0
IsOrdered r = InOrder r.header.input_recorded (some r.header.first_sequence) none r.records

module _ (crc : Bytes → ℕ) (version_num : Bytes → ℕ) where
  abbrev segment : Bytes → Joined → Option (Result DecodeError (DecodedSegment × SegmentSummary))
  segment bytes j = decode_segment_with_summary crc version_num bytes (continuity j)

  -- A round that goes on decoded a segment and accepted it.
  join_segment-ok :
      (j after : Joined) (bytes : Bytes) (is_final : Bool)
      (x : Option (Result DecodeError (DecodedSegment × SegmentSummary)))
      → segment bytes j ≡ x
      → join_segment crc version_num j bytes is_final ≡ some (ok after)
      → (d : DecodedSegment) × (s : SegmentSummary) × (segment bytes j ≡ some (ok (d, s)))
        × (accept_segment j is_final d s ≡ ok after)
  unfolding join_segment
  join_segment-ok j after bytes is_final none p eq = absurd (ground arith)
  join_segment-ok j after bytes is_final (some (err e)) p eq = absurd (ground arith)
  join_segment-ok j after bytes is_final (some (ok (d, s))) p eq = (d, s, p, ground arith)

  join_segments-ok :
      (j : Joined) (bytes : Bytes) (segments : List Bytes) (r : DecodedRecording)
      (x : Option (Result DecodeError Joined))
      → join_segment crc version_num j bytes (is_empty segments) ≡ x
      → join_segments crc version_num j (bytes ∷ segments) ≡ some (ok r)
      → (after : Joined) × (join_segment crc version_num j bytes (is_empty segments)
          ≡ some (ok after))
        × (join_segments crc version_num after segments ≡ some (ok r))
  unfolding join_segments
  join_segments-ok j bytes segments r none p eq = absurd (ground arith)
  join_segments-ok j bytes segments r (some (err e)) p eq = absurd (ground arith)
  join_segments-ok j bytes segments r (some (ok after)) p eq = (after, p, ground arith)

  join_segments-IsOrdered :
      (segments : List Bytes) (j : Joined) (h : SegmentHeader) (p : SegmentSummary)
      (r : DecodedRecording)
      → Stands (not (is_empty segments)) j h p
      → join_segments crc version_num j segments ≡ some (ok r)
      → IsOrdered r
  unfolding join_segments finish
  join_segments-IsOrdered [] j h p r stands eq =
      let (a, b) = finish-ok j h r stands.first eq in rw (a, b) stands.in_order
  join_segments-IsOrdered (bytes ∷ segments) j h p r stands eq =
      let (after, go, more) = join_segments-ok j bytes segments r _ refl eq in
      let (d, s, q, accepted) = join_segment-ok j after bytes (is_empty segments) _ refl go in
      join_segments-IsOrdered segments after h s r
        (Stands-next j after h p (is_empty segments) d s stands
          (decode_segment_with_summary-Facts crc version_num bytes (continuity j) d s q) accepted)
        more

  -- The records of a recording that decodes, over all its segments, have consecutive sequence
  -- numbers that start at the header's first one; their times never go back; and there is no
  -- empty payload, no zero terminal size, and no input unless the header says that input is recorded.
  pub decode_recording-IsOrdered :
      (segments : List Bytes) (r : DecodedRecording)
      → decode_recording crc version_num segments ≡ some (ok r)
      → IsOrdered r
  unfolding decode_recording
  decode_recording-IsOrdered [] r eq = absurd (ground arith)
  decode_recording-IsOrdered (bytes ∷ segments) r eq =
      let j : Joined = record {
        first = none;
        previous = none;
        records = [];
        end = clean;
        position = 0;
      } in
      let (after, go, more) = join_segments-ok j bytes segments r _ refl eq in
      let (d, s, q, accepted) = join_segment-ok j after bytes (is_empty segments) _ refl go in
      join_segments-IsOrdered segments after d.header s r
        (Stands-first j after (is_empty segments) d s refl refl
          (decode_segment_with_summary-Facts crc version_num bytes (continuity j) d s q) accepted)
        more
