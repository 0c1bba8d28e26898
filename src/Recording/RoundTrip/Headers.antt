-- ===== src/Recording/RoundTrip/Headers.antt =====
-- The header of a segment (src/recording.rs): what `decode_header` reads back from it.
use Prim.Native.Nat.{bit_and}
use agenttender.Common.{
  ℕ, ◌+◌, ◌-◌, ◌<◌, ◌≤◌, Bool, true, false, not, ◌&&◌, some, ok, Bytes, bytes_eq, drop, take, sym,
  ◌>>=◌, ◌≡◌, refl, ap, arith, length, if◌then◌else◌, ◌==◌, leb, ltb,
}
use agenttender.Common.Words.{IsU32, IsU64, word16, word32, word64}
use agenttender.Model.Ids.{RunId, from_v7}
use agenttender.Recording.Geometry
use agenttender.Recording.Geometry.{Geometry, IsGeometry}
use agenttender.Recording.Format.{
  SegmentHeader, magic, format_version, flag_input_recorded, header_min_len, header_max_len,
  header_fixed_len, crc_len, max_term_len, all_term_bytes, term_name,
}
use agenttender.Recording.Header.{decode_header, header_fields}

-- A header that a run can have: its UUID is a v7, the numbers are in the range of their Rust types,
-- the first segment starts at sequence 1, and the TERM is valid.
pub record IsHeader (version_num : Bytes → ℕ) (h : SegmentHeader) : Type 0 where
  pub uuid_len : length h.run_id.uuid ≡ 16
  pub version : version_num h.run_id.uuid ≡ 7
  pub index_range : IsU32 h.segment_index
  pub sequence_range : IsU64 h.first_sequence
  pub sequence_pos : 0 < h.first_sequence
  pub first : ((h.segment_index == 0) && not (h.first_sequence == 1)) ≡ false
  pub origin_range : IsU64 h.origin_unix_ns
  pub geometry_range : IsGeometry h.geometry
  pub term_len : length h.term ≤ max_term_len
  pub term_bytes : all_term_bytes h.term ≡ true

abbrev pub flags_of : Bool → ℕ
flags_of input_recorded = if input_recorded then flag_input_recorded else 0

flags_of-recorded : (b : Bool) → (not (bit_and (flags_of b) flag_input_recorded == 0)) ≡ b
flags_of-recorded true = refl
flags_of-recorded false = refl

flags_of-reserved : (b : Bool) → (bit_and (flags_of b) 65534 == 0) ≡ true
flags_of-reserved true = refl
flags_of-reserved false = refl

from_v7-ok : (v : Bytes → ℕ) (r : RunId) → v r.uuid ≡ 7 → from_v7 v r.uuid ≡ some r
unfolding from_v7
from_v7-ok v r p = ground arith

new-ok : (g : Geometry) → IsGeometry g → Geometry.new g.rows g.cols ≡ some g
unfolding Geometry.new
new-ok g h = ground arith

term_name-ok : (t : Bytes) → length t ≤ max_term_len → all_term_bytes t ≡ true → term_name t ≡ ok t
unfolding term_name
term_name-ok t l a = ground arith

positive : (n : ℕ) → 0 < n → (n == 0) ≡ false
positive n h = ground arith

pub header_fields-ok :
    (version_num : Bytes → ℕ) (bytes : Bytes) (h : SegmentHeader)
    → IsHeader version_num h
    → word16 (drop 12 bytes) ≡ flags_of h.input_recorded
    → take 16 (drop 14 bytes) ≡ h.run_id.uuid
    → word32 (drop 30 bytes) ≡ h.segment_index
    → word64 (drop 34 bytes) ≡ h.first_sequence
    → word64 (drop 42 bytes) ≡ h.origin_unix_ns
    → word16 (drop 50 bytes) ≡ h.geometry.rows
    → word16 (drop 52 bytes) ≡ h.geometry.cols
    → take (length h.term) (drop header_fixed_len bytes) ≡ h.term
    → header_fields version_num bytes (length h.term) ≡ ok h
unfolding header_fields
header_fields-ok v bytes h i a b c d e f g t =
    rw (a, b, c, d, e, f, g, t)
      (rw
        (
          flags_of-reserved h.input_recorded,
          from_v7-ok v h.run_id i.version,
          positive h.first_sequence i.sequence_pos,
          i.first,
          new-ok h.geometry i.geometry_range,
          term_name-ok h.term i.term_len i.term_bytes,
          flags_of-recorded h.input_recorded,
        )
        refl)

not_less : (n m : ℕ) → n ≤ m → ltb m n ≡ false
not_less n m h = ground arith

between : (low high n : ℕ) → low ≤ n → n ≤ high → (leb low n && leb n high) ≡ true
between low high n a b = ground arith

pub same : (m n : ℕ) → m ≡ n → (m == n) ≡ true
same m n h = ground arith

pub decode_header-ok :
    (crc v : Bytes → ℕ) (bytes : Bytes) (h : SegmentHeader) (n : ℕ)
    → bytes_eq (take 8 bytes) magic ≡ true
    → word16 (drop 8 bytes) ≡ format_version
    → word16 (drop 10 bytes) ≡ n
    → n ≡ header_min_len + length h.term
    → length h.term ≤ max_term_len
    → n ≤ length bytes
    → crc (take (n - crc_len) bytes) ≡ word32 (drop (n - crc_len) bytes)
    → word16 (drop 54 bytes) ≡ length h.term
    → header_fields v bytes (length h.term) ≡ ok h
    → decode_header crc v bytes ≡ ok (h, n)
unfolding decode_header
decode_header-ok crc v bytes h n m ver l e t long c tl f =
    rw
      (
        m,
        ver,
        l,
        tl,
        not_less header_min_len (length bytes) (omega arith),
        between header_min_len header_max_len n (omega arith) (omega arith),
        not_less n (length bytes) long,
        same (crc (take (n - crc_len) bytes)) (word32 (drop (n - crc_len) bytes)) c,
        same (header_min_len + length h.term) n (sym e),
      )
      (ap (λ x. x >>= (λ header. ok (header, n))) f)
