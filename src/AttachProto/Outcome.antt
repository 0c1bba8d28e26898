-- ===== src/AttachProto/Outcome.antt =====
-- The outcome of a push, and the protocol's errors (src/attach_proto.rs).
pub mod Canonical
use agenttender.Common.{
  ℕ, ◌+◌, ◌-◌, ◌%◌, Bool, true, false, not, ◌&&◌, List, [], ◌∷◌, ◌++◌, Option, none, some, Result,
  ok, err, ◌>>=◌, ◌>>◌, guard, ok_or, map_err, if◌then◌else◌, ◌==◌, ltb, leb, length, take, drop,
  Bytes,
}
use agenttender.Common.Words.{u64_max, be16, be32, be64, word16, word32, word64}
use agenttender.Recording.Geometry
use agenttender.PtyExit.{PtyExitCode}
use agenttender.Recording.Geometry.{Geometry}

-- Which frame is malformed.
pub data What : Type 0 where
  input_done_frame resize_frame accepted_frame rejected_frame retired_frame : What

pub data ProtocolError : Type 0 where
  unknown_type : ℕ → ProtocolError
  unsupported_hello : ProtocolError
  malformed : What → ProtocolError
  unknown_reject_class : ℕ → ProtocolError
  unknown_outcome : ℕ → ProtocolError
  inconsistent_outcome : ℕ → ℕ → ProtocolError

pub record Progress : Type 0 where
  pub accepted : ℕ
  pub unwritten : ℕ

-- `Progress::received`, a saturating sum
unfoldable pub received : Progress → ℕ
received p = if leb (p.accepted + p.unwritten) u64_max then p.accepted + p.unwritten else u64_max

pub data PushOutcome : Type 0 where
  written : ℕ → PushOutcome
  revoked : Progress → PushOutcome
  closed : Progress → PushOutcome

-- `PushOutcome::encode`
unfoldable pub encode_outcome : PushOutcome → Bytes
unfolding received
encode_outcome (written n) = 0 ∷ (be64 n ++ be64 n)
encode_outcome (revoked p) = 1 ∷ (be64 p.accepted ++ be64 (received p))
encode_outcome (closed p) = 2 ∷ (be64 p.accepted ++ be64 (received p))

-- The closure `progress` of `PushOutcome::decode`
progress_of : ℕ → ℕ → Result ProtocolError Progress
progress_of acc rec =
    if leb acc rec
    then ok (record { accepted = acc; unwritten = rec - acc })
    else err (inconsistent_outcome acc rec)

unfoldable pub outcome_of : ℕ → ℕ → ℕ → Result ProtocolError PushOutcome
unfolding progress_of
outcome_of status acc rec =
    if status == 0
    then (if acc == rec then ok (written acc) else err (inconsistent_outcome acc rec))
    else if status == 1
    then (do p ← progress_of acc rec; ok (revoked p))
    else if status == 2
    then (do p ← progress_of acc rec; ok (closed p))
    else err (unknown_outcome status)

unfoldable pub status_of : Bytes → ℕ
status_of [] = 0
status_of (b ∷ _) = b

-- `PushOutcome::decode`; only a payload of 17 bytes has the fields that it reads.
unfoldable pub decode_outcome : Bytes → Result ProtocolError PushOutcome
unfolding outcome_of status_of
decode_outcome payload =
    if length payload == 17
    then outcome_of (status_of payload) (word64 (drop 1 payload)) (word64 (drop 9 payload))
    else err (malformed input_done_frame)
