-- ===== src/AttachProto/Reader/Fields.antt =====
-- One field of a frame at a time, through its bytes and back.
use agenttender.Common.{
  ℕ, ◌+◌, ◌≡◌, refl, arith, [], ◌∷◌, ◌++◌, ok, Bytes, length, some, ◌≤◌, ◌∙◌, length-append,
  take-append, drop-append, ◌%◌,
}
use mathlib.Core.Path.{ap₂}
use agenttender.Common.Words.{IsU64, be64, word32-be32, word64-be64}
use agenttender.Recording.Geometry.{Geometry, IsGeometry}
use agenttender.AttachProto.Outcome.{
  Progress, PushOutcome, written, revoked, closed, encode_outcome, decode_outcome, outcome_of,
  received, What,
}
use agenttender.AttachProto.Frame.{
  Mode, attach, RejectClass, protocol, mode_byte, mode_of, class_byte, class_of, resize_payload,
  parse_resize, write_msg, max_frame_payload,
}
use agenttender.AttachProto.Reader.{epoch_in, read_msg}

pub mode_of-mode_byte : (m : Mode) → mode_of (mode_byte m) ≡ ok m
unfolding mode_of mode_byte
mode_of-mode_byte attach = refl
mode_of-mode_byte _ = refl

pub class_of-class_byte : (c : RejectClass) → class_of (class_byte c) ≡ ok c
unfolding class_of class_byte
class_of-class_byte protocol = refl
class_of-class_byte _ = refl

pub parse_resize-payload : (g : Geometry) → IsGeometry g → parse_resize (resize_payload g) ≡ some g
unfolding parse_resize resize_payload
parse_resize-payload g h = ground arith

pub epoch_in-be64 : (w : What) (e : ℕ) → IsU64 e → epoch_in w (be64 e) ≡ ok e
unfolding epoch_in
epoch_in-be64 w e h = rw (word64-be64 e [] h)

-- The progress that a sidecar can report: the sum of its counts is a u64.
abbrev pub IsProgress : Progress → Type 0
IsProgress p = IsU64 (p.accepted + p.unwritten)

abbrev pub IsOutcome : PushOutcome → Type 0
IsOutcome (written n) = IsU64 n
IsOutcome (revoked p) = IsProgress p
IsOutcome (closed p) = IsProgress p

decode_outcome_fields :
    (status a r : ℕ)
    → IsU64 a
    → IsU64 r
    → decode_outcome (status ∷ (be64 a ++ be64 r)) ≡ outcome_of status a r
unfolding decode_outcome
decode_outcome_fields status a r ha hr =
    ap₂ (outcome_of status) (word64-be64 a (be64 r) ha) (word64-be64 r [] hr)

pub decode-encode_outcome :
    (o : PushOutcome) → IsOutcome o → decode_outcome (encode_outcome o) ≡ ok o
unfolding encode_outcome
decode-encode_outcome (written n) h =
    decode_outcome_fields 0 n n h h ∙ (unfold outcome_of in ground arith)
decode-encode_outcome (revoked p) h =
    decode_outcome_fields 1 p.accepted (received p) (omega arith) (unfold received in ground arith)
    ∙ (unfold outcome_of received in ground arith)
decode-encode_outcome (closed p) h =
    decode_outcome_fields 2 p.accepted (received p) (omega arith) (unfold received in ground arith)
    ∙ (unfold outcome_of received in ground arith)

-- A whole message is read back, whatever follows it.
pub read_msg-write_msg :
    (t : ℕ) (payload rest : Bytes)
    → length payload ≤ max_frame_payload
    → read_msg (write_msg t payload ++ rest) ≡ ok (t, payload, rest)
unfolding read_msg write_msg
read_msg-write_msg t payload rest h =
    let n = length payload in
    let whole : n % 4294967296 ≡ n = omega arith in
    ground (
      arith,
      word32-be32 n (payload ++ rest),
      length-append payload rest,
      take-append payload rest,
      drop-append payload rest,
    )
