-- ===== src/Recording/Format.antt =====
-- The data of a recording and the layout constants (src/recording.rs). A `Sequence` is a non-zero
-- u64, a `TermName` its bytes.
use agenttender.Common.{
  ℕ, ◌+◌, Bool, true, ◌&&◌, [], ◌∷◌, Option, none, some, Result, ok, err, Bytes, codes, leb, ltb,
  length, if◌then◌else◌, ◌++◌,
}
use agenttender.Common.Words.{u64_max}
use agenttender.Model.Ids.{RunId}
use agenttender.Recording.Geometry.{Geometry}

abbrev pub format_version : ℕ
format_version = 1

abbrev pub max_payload : ℕ
max_payload = 65536

abbrev pub max_term_len : ℕ
max_term_len = 256

-- `b"TNDRREC\0"`
abbrev pub magic : Bytes
magic = codes "TNDRREC" ++ (0 ∷ [])

abbrev pub header_fixed_len : ℕ
header_fixed_len = 56

abbrev pub crc_len : ℕ
crc_len = 4

abbrev pub header_min_len : ℕ
header_min_len = header_fixed_len + crc_len

abbrev pub header_max_len : ℕ
header_max_len = header_min_len + max_term_len

abbrev pub flag_input_recorded : ℕ
flag_input_recorded = 1

abbrev pub prefix_len : ℕ
prefix_len = 8

abbrev pub body_fixed_len : ℕ
body_fixed_len = 17

abbrev pub body_max_len : ℕ
body_max_len = body_fixed_len + max_payload

abbrev pub resize_payload_len : ℕ
resize_payload_len = 9

abbrev pub kind_output : ℕ
kind_output = 0x01

abbrev pub kind_resize : ℕ
kind_resize = 0x02

abbrev pub kind_input : ℕ
kind_input = 0x03

abbrev pub cause_user : ℕ
cause_user = 0x01

abbrev pub cause_repaint : ℕ
cause_repaint = 0x02

-- `Sequence::next`
unfoldable pub next_sequence_of : ℕ → Option ℕ
next_sequence_of s = if ltb s u64_max then some (s + 1) else none

pub data TermNameError : Type 0 where
  too_long invalid_byte : TermNameError

-- `value.bytes().all(|b| (0x21..=0x7E).contains(&b))`
unfoldable pub all_term_bytes : Bytes → Bool
all_term_bytes [] = true
all_term_bytes (b ∷ bs) = (leb 0x21 b && leb b 0x7e) && all_term_bytes bs

-- `TermName::new`
unfoldable pub term_name : Bytes → Result TermNameError Bytes
unfolding all_term_bytes
term_name value =
    if ltb max_term_len (length value)
    then err too_long
    else if all_term_bytes value
    then ok value
    else err invalid_byte

-- The correlation is not zero.
pub data ResizeCause : Type 0 where
  user : ResizeCause
  repaint : ℕ → ResizeCause

pub data RecordKind : Type 0 where
  output : Bytes → RecordKind
  resized : Geometry → ResizeCause → RecordKind
  input : Bytes → RecordKind

pub record Record : Type 0 where
  pub sequence : ℕ
  pub elapsed_ns : ℕ
  pub kind : RecordKind

pub record SegmentHeader : Type 0 where
  pub run_id : RunId
  pub segment_index : ℕ
  pub first_sequence : ℕ
  pub origin_unix_ns : ℕ
  pub geometry : Geometry
  pub input_recorded : Bool
  pub term : Bytes

-- The geometry in effect after a record.
unfoldable pub geometry_after : RecordKind → Geometry → Geometry
geometry_after (output bytes) g = g
geometry_after (input bytes) g = g
geometry_after (resized geometry cause) g = geometry
