-- ===== src/Recording/Decoded.antt =====
-- What the decoder of src/recording.rs returns: segments, and located failures.
use agenttender.Common.{ℕ, List, Option, none}
use agenttender.Recording.Geometry.{Geometry}
use agenttender.Recording.Format.{Record, SegmentHeader}

pub data SegmentEnd : Type 0 where
  clean : SegmentEnd
  truncated : ℕ → SegmentEnd

pub record DecodedSegment : Type 0 where
  pub header : SegmentHeader
  pub records : List Record
  pub end : SegmentEnd

pub data Corruption : Type 0 where
  header_incomplete header_length header_checksum length_check length_bounds : Corruption
  record_checksum truncated_interior_segment : Corruption

pub data Violation : Type 0 where
  header_length_mismatch reserved_flags run_id_version first_sequence_violation : Violation
  zero_geometry term_byte : Violation
  unknown_kind : ℕ → Violation
  payload_size : Violation
  unknown_resize_cause : ℕ → Violation
  correlation_violation input_not_recorded sequence_violation elapsed_regressed : Violation
  no_segments segment_index_violation segment_run segment_origin segment_flags : Violation
  segment_term segment_first_sequence segment_geometry segment_elapsed : Violation
  empty_interior_segment : Violation

pub data DecodeErrorKind : Type 0 where
  bad_magic : DecodeErrorKind
  unsupported_version : ℕ → DecodeErrorKind
  corrupt : Corruption → DecodeErrorKind
  invalid : Violation → DecodeErrorKind

pub record DecodeError : Type 0 where
  pub kind : DecodeErrorKind
  pub segment : Option ℕ
  pub offset : ℕ
  pub last_valid_sequence : Option ℕ

pub record SegmentSummary : Type 0 where
  pub header_len : ℕ
  pub next_sequence : Option ℕ
  pub last_sequence : Option ℕ
  pub last_elapsed_ns : Option ℕ
  pub final_geometry : Geometry

unfoldable pub error_at : DecodeErrorKind → ℕ → Option ℕ → DecodeError
error_at kind offset last = record {
  kind = kind;
  segment = none;
  offset = offset;
  last_valid_sequence = last;
}

pub record DecodedRecording : Type 0 where
  pub header : SegmentHeader
  pub segment_count : ℕ
  pub records : List Record
  pub end : SegmentEnd
