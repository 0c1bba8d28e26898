-- ===== src/Recording/Header.antt =====
-- `decode_header` (src/recording.rs). `crc` is `crc32c::crc32c`, `version_num` the version of a UUID.
use Prim.Native.Nat.{bit_and}
use agenttender.Common.{
  ℕ, ◌+◌, ◌-◌, not, ◌&&◌, Result, ok, ◌>>=◌, ◌>>◌, guard, ok_or, map_err, Bytes, bytes_eq, ◌==◌,
  leb, ltb, length, take, drop,
}
use agenttender.Common.Words.{word16, word32, word64}
use agenttender.Model.Ids.{from_v7}
use agenttender.Recording.Geometry
use agenttender.Recording.Geometry.{Geometry}
use agenttender.Recording.Format.{
  SegmentHeader, magic, format_version, flag_input_recorded, header_min_len, header_max_len,
  header_fixed_len, crc_len, term_name,
}
use agenttender.Recording.Decoded.{
  header_incomplete, header_length, header_checksum, header_length_mismatch, reserved_flags,
  run_id_version, first_sequence_violation, zero_geometry, term_byte, DecodeErrorKind, bad_magic,
  unsupported_version, corrupt, invalid,
}

-- The fields of `decode_header`, once the checksum and the lengths agree.
unfoldable pub header_fields : (Bytes → ℕ) → Bytes → ℕ → Result DecodeErrorKind SegmentHeader
unfolding from_v7 Geometry.new term_name
header_fields version_num bytes term_len = do
  let flags = word16 (drop 12 bytes)
  guard (bit_and flags 65534 == 0) (invalid reserved_flags)
  run_id ← ok_or (from_v7 version_num (take 16 (drop 14 bytes))) (invalid run_id_version)
  let segment_index = word32 (drop 30 bytes)
  let first_sequence = word64 (drop 34 bytes)
  guard (not (first_sequence == 0)) (invalid first_sequence_violation)
  guard (not ((segment_index == 0) && not (first_sequence == 1))) (invalid first_sequence_violation)
  geometry ←
      ok_or (Geometry.new (word16 (drop 50 bytes)) (word16 (drop 52 bytes))) (invalid zero_geometry)
  term ← map_err (λ _. invalid term_byte) (term_name (take term_len (drop header_fixed_len bytes)))
  ok (record {
    run_id = run_id;
    segment_index = segment_index;
    first_sequence = first_sequence;
    origin_unix_ns = word64 (drop 42 bytes);
    geometry = geometry;
    input_recorded = not (bit_and flags flag_input_recorded == 0);
    term = term;
  })

-- `decode_header`: the framing and the checksum, then the fields.
unfoldable pub decode_header :
    (Bytes → ℕ) → (Bytes → ℕ) → Bytes → Result DecodeErrorKind (SegmentHeader × ℕ)
unfolding bytes_eq header_fields
decode_header crc version_num bytes = do
  guard (not (ltb (length bytes) header_min_len)) (corrupt header_incomplete)
  guard (bytes_eq (take 8 bytes) magic) bad_magic
  let version = word16 (drop 8 bytes)
  guard (version == format_version) (unsupported_version version)
  let header_len = word16 (drop 10 bytes)
  guard (leb header_min_len header_len && leb header_len header_max_len) (corrupt header_length)
  guard (not (ltb (length bytes) header_len)) (corrupt header_incomplete)
  let crc_at = header_len - crc_len
  guard (crc (take crc_at bytes) == word32 (drop crc_at bytes)) (corrupt header_checksum)
  let term_len = word16 (drop 54 bytes)
  guard (header_min_len + term_len == header_len) (invalid header_length_mismatch)
  header ← header_fields version_num bytes term_len
  ok (header, header_len)
