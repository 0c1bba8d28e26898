-- ===== src/Recording/Encoder.antt =====
-- `SegmentEncoder` (src/recording.rs): the bytes of one segment, and the rules on every record.
use agenttender.Common.{
  ℕ, ◌+◌, ◌-◌, Bool, not, ◌&&◌, ◌∷◌, ◌++◌, Option, none, some, Result, ok, err, ◌>>=◌, ◌>>◌, guard,
  ok_or, Bytes, if◌then◌else◌, ◌==◌, leb, ltb, length, is_empty,
}
use agenttender.Common.Words.{be16, be32, be64}
use agenttender.Recording.Geometry.{Geometry}
use agenttender.Recording.Format.{
  RecordKind, output, resized, input, Record, ResizeCause, user, repaint, SegmentHeader, magic,
  format_version, flag_input_recorded, header_min_len, kind_output, kind_input, kind_resize,
  cause_user, cause_repaint, max_payload, body_fixed_len, next_sequence_of, geometry_after,
}

pub data EncodeError : Type 0 where
  first_sequence_error : EncodeError
  sequence_error : ℕ → ℕ → EncodeError
  sequence_exhausted : EncodeError
  elapsed_regressed : ℕ → ℕ → EncodeError
  empty_payload : EncodeError
  payload_too_large : ℕ → EncodeError
  input_not_recorded empty_segment_rotation segment_index_exhausted : EncodeError

pub record SegmentEncoder : Type 0 where
  pub header : SegmentHeader
  pub next_sequence : Option ℕ
  pub last_elapsed_ns : Option ℕ
  pub geometry : Geometry
  pub records : ℕ

-- `SegmentEncoder::new`
unfoldable pub new : SegmentHeader → Result EncodeError SegmentEncoder
new h =
    if (h.segment_index == 0) && not (h.first_sequence == 1)
    then err first_sequence_error
    else ok (record {
      header = h;
      next_sequence = some h.first_sequence;
      last_elapsed_ns = none;
      geometry = h.geometry;
      records = 0;
    })

-- The header's fixed fields and its TERM.
unfoldable pub header_body : SegmentHeader → Bytes
header_body h =
    magic
    ++ (be16 format_version
        ++ (be16 (header_min_len + length h.term)
            ++ (be16 (if h.input_recorded then flag_input_recorded else 0)
                ++ (h.run_id.uuid
                    ++ (be32 h.segment_index
                        ++ (be64 h.first_sequence
                            ++ (be64 h.origin_unix_ns
                                ++ (be16 h.geometry.rows
                                    ++ (be16 h.geometry.cols
                                        ++ (be16 (length h.term) ++ h.term))))))))))

unfoldable pub checked_payload : Bytes → Result EncodeError Bytes
checked_payload bytes =
    if is_empty bytes
    then err empty_payload
    else if ltb max_payload (length bytes)
    then err (payload_too_large (length bytes))
    else ok bytes

unfoldable pub cause_bytes : ResizeCause → Bytes
cause_bytes user = cause_user ∷ be32 0
cause_bytes (repaint correlation) = cause_repaint ∷ be32 correlation

unfoldable pub resize_bytes : Geometry → ResizeCause → Bytes
unfolding cause_bytes
resize_bytes g cause = be16 g.rows ++ (be16 g.cols ++ cause_bytes cause)

-- The kind and the payload of a record.
unfoldable pub kind_and_payload : Bool → RecordKind → Result EncodeError (ℕ × Bytes)
unfolding checked_payload resize_bytes
kind_and_payload input_recorded (output bytes) = do
  payload ← checked_payload bytes
  ok (kind_output, payload)
kind_and_payload input_recorded (input bytes) = do
  payload ← checked_payload bytes
  guard input_recorded input_not_recorded
  ok (kind_input, payload)
kind_and_payload input_recorded (resized geometry cause) =
    ok (kind_resize, resize_bytes geometry cause)

-- The body's length word, its complement, and the body.
unfoldable pub record_body : ℕ → Record → Bytes → Bytes
record_body kind r payload =
    let w = body_fixed_len + length payload in
    be32 w
    ++ (be32 (4294967295 - w) ++ (kind ∷ (be64 r.sequence ++ (be64 r.elapsed_ns ++ payload))))

unfoldable pub check_elapsed : Option ℕ → ℕ → Result EncodeError (Unit {0})
check_elapsed none got = ok tt
check_elapsed (some previous) got = guard (leb previous got) (elapsed_regressed previous got)

-- The checks of `encode`, with the record's kind byte and payload.
unfoldable pub accept : SegmentEncoder → Record → Result EncodeError (ℕ × Bytes)
unfolding check_elapsed kind_and_payload
accept e r = do
  expected ← ok_or e.next_sequence sequence_exhausted
  guard (r.sequence == expected) (sequence_error expected r.sequence)
  check_elapsed e.last_elapsed_ns r.elapsed_ns
  kind_and_payload e.header.input_recorded r.kind

-- The state after a record that was accepted.
unfoldable pub advance : SegmentEncoder → Record → SegmentEncoder
unfolding next_sequence_of geometry_after
advance e r = record e {
  next_sequence = next_sequence_of r.sequence;
  last_elapsed_ns = some r.elapsed_ns;
  geometry = geometry_after r.kind e.geometry;
  records = e.records + 1;
}

-- `SegmentEncoder::next_segment`
unfoldable pub next_segment : SegmentEncoder → Result EncodeError SegmentEncoder
next_segment e = do
  guard (not (e.records == 0)) empty_segment_rotation
  first ← ok_or e.next_sequence sequence_exhausted
  guard (ltb e.header.segment_index 4294967295) segment_index_exhausted
  let h = e.header
  ok (record {
    header = record h {
      segment_index = h.segment_index + 1;
      first_sequence = first;
      geometry = e.geometry;
    };
    next_sequence = some first;
    last_elapsed_ns = e.last_elapsed_ns;
    geometry = e.geometry;
    records = 0;
  })

-- `crc` is `crc32c::crc32c`.
module _ (crc : Bytes → ℕ) where
  abbrev pub sealed : Bytes → Bytes
  sealed body = body ++ be32 (crc body)

  unfoldable pub header_bytes : SegmentEncoder → Bytes
  unfolding header_body
  header_bytes e = sealed (header_body e.header)

  -- `SegmentEncoder::encode`
  unfoldable pub encode : Record → SegmentEncoder → SegmentEncoder × Result EncodeError Bytes
  unfolding accept advance record_body
  encode r e = elim (accept e r) [
    | err x ↦ (e, err x)
    | ok (kind, payload) ↦ (advance e r, ok (sealed (record_body kind r payload)))
  ]
