-- ===== src/Recording/Total/Recordings.antt =====
-- `decode_recording` of src/recording.rs always returns, and its `expect` finds a header.
use agenttender.Common.{
  ℕ, Bool, List, [], ◌∷◌, Option, none, some, Result, ok, err, Bytes, ◌≡◌, refl, arith, is_empty,
}
use agenttender.Recording.Format.{SegmentHeader}
use agenttender.Recording.Decoded.{
  DecodedSegment, SegmentSummary, DecodeError, DecodedRecording, clean, error_at, invalid,
  no_segments,
}
use agenttender.Recording.Segment.{decode_segment_with_summary}
use agenttender.Recording.Join.{
  Joined, join_segment, join_segments, decode_recording, finish, accept_segment, add_segment,
  or_else, relocate, continuity,
}
use agenttender.Recording.Total.{decode_segment_with_summary_total}

or_else-some : {A : Type 0} (x : Option A) (y : A) → (a : A) × (or_else x (some y) ≡ some a)
unfolding or_else
or_else-some none y = (y, refl)
or_else-some (some x) y = (x, refl)

-- A segment that is accepted leaves a first header.
accept_segment-first :
    (j after : Joined) (is_final : Bool) (segment : DecodedSegment) (summary : SegmentSummary)
    → accept_segment j is_final segment summary ≡ ok after
    → (h : SegmentHeader) × (after.first ≡ some h)
unfolding accept_segment add_segment
accept_segment-first j after is_final segment summary eq =
    let (h, p) = or_else-some j.first segment.header in (h, ground (arith, p))

module _ (crc : Bytes → ℕ) (version_num : Bytes → ℕ) where
  -- A round fails, or goes on with a first header.
  abbrev Goes : Joined → Bytes → Bool → Type 0
  Goes j bytes is_final =
      (r : Result DecodeError Joined) × (join_segment crc version_num j bytes is_final ≡ some r)
      × ((after : Joined) → r ≡ ok after → (h : SegmentHeader) × (after.first ≡ some h))

  join_decoded :
      (j : Joined) (bytes : Bytes) (is_final : Bool)
      (x : Result DecodeError (DecodedSegment × SegmentSummary))
      → decode_segment_with_summary crc version_num bytes (continuity j) ≡ some x
      → Goes j bytes is_final
  unfolding join_segment continuity
  join_decoded j bytes is_final (err e) eq =
      (err (relocate j e), rw (join_segment, eq) refl, λ after p. absurd (ground arith))
  join_decoded j bytes is_final (ok (segment, summary)) eq = (
    accept_segment j is_final segment summary,
    rw (join_segment, eq) refl,
    λ after p. accept_segment-first j after is_final segment summary p,
  )

  join_segment_total : (j : Joined) (bytes : Bytes) (is_final : Bool) → Goes j bytes is_final
  join_segment_total j bytes is_final =
      let (x, eq) = decode_segment_with_summary_total crc version_num bytes (continuity j) in
      join_decoded j bytes is_final x eq

  abbrev Answers : Option (Result DecodeError DecodedRecording) → Type 0
  Answers x = (r : Result DecodeError DecodedRecording) × (x ≡ some r)

  join_result :
      (j : Joined) (bytes : Bytes) (segments : List Bytes) (r : Result DecodeError Joined)
      → join_segment crc version_num j bytes (is_empty segments) ≡ some r
      → ((after : Joined) → r ≡ ok after → Answers (join_segments crc version_num after segments))
      → Answers (join_segments crc version_num j (bytes ∷ segments))
  unfolding join_segments
  join_result j bytes segments (err e) eq goes = (err e, rw (join_segments, eq) refl)
  join_result j bytes segments (ok after) eq goes =
      let (r, q) = goes after refl in (r, rw (join_segments, eq) q)

  -- A loop with a segment left returns if it does so behind that segment.
  join_more :
      (j : Joined) (bytes : Bytes) (segments : List Bytes)
      → ((after : Joined) (h : SegmentHeader)
          → after.first ≡ some h
          → Answers (join_segments crc version_num after segments))
      → Answers (join_segments crc version_num j (bytes ∷ segments))
  join_more j bytes segments more =
      let (r, eq, goes) = join_segment_total j bytes (is_empty segments) in
      join_result j bytes segments r eq (λ after q. let (h, p) = goes after q in more after h p)

  join_segments_total :
      (segments : List Bytes) (j : Joined) (h : SegmentHeader)
      → j.first ≡ some h
      → Answers (join_segments crc version_num j segments)
  unfolding join_segments finish
  join_segments_total [] j h p = (
    ok (record { header = h; segment_count = j.position; records = j.records; end = j.end }),
    rw (join_segments, finish, p) refl,
  )
  join_segments_total (bytes ∷ segments) j h p =
      join_more j bytes segments (join_segments_total segments)

  -- Whatever the segments are, the decoder returns a recording or an error: no loop runs out of
  -- the fuel that it is given, and a list that is not empty leaves the header that `expect` wants.
  pub decode_recording_total :
      (segments : List Bytes)
      → (r : Result DecodeError DecodedRecording) × (decode_recording crc version_num segments
          ≡ some r)
  unfolding decode_recording
  decode_recording_total [] = (err (error_at (invalid no_segments) 0 none), refl)
  decode_recording_total (bytes ∷ segments) =
      join_more (record { first = none; previous = none; records = []; end = clean; position = 0 })
        bytes segments (join_segments_total segments)
