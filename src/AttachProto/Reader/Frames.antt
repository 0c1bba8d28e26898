-- ===== src/AttachProto/Reader/Frames.antt =====
-- A frame through its bytes and back, and a stream of frames.
use agenttender.Common.{
  ℕ, ◌≡◌, ◌≤◌, ◌<◌, refl, ◌∙◌, arith, [], ◌∷◌, ◌++◌, ok, map_err, Bytes, length, ap,
}
use agenttender.Common.Words.{IsU64, be64}
use agenttender.AttachProto.Outcome.{
  PushOutcome, written, revoked, closed, accepted_frame, retired_frame, encode_outcome,
}
use agenttender.AttachProto.Frame.{
  Frame, hello, data_frame, resize, detach, accepted_at, rejected, retired_at, input_done,
  write_msg, write_frame, max_frame_payload, msg_hello, mode_byte, class_byte, resize_payload,
}
use agenttender.AttachProto.Reader.{frame_error, decode, decode_msg, read_frame}
use agenttender.Recording.Geometry.{IsGeometry}
use agenttender.AttachProto.Reader.Fields.{
  IsOutcome, mode_of-mode_byte, class_of-class_byte, parse_resize-payload, epoch_in-be64,
  decode-encode_outcome, read_msg-write_msg,
}

-- A frame that the wire can carry. The reason of a refusal is valid
-- UTF-8, which `from_utf8_lossy` returns as it is.
abbrev pub IsWire : (Bytes → Bytes) → Frame → Type 0
IsWire lossy (hello mode) = Unit
IsWire lossy (data_frame bytes) = length bytes ≤ max_frame_payload
IsWire lossy (resize size) = IsGeometry size
IsWire lossy detach = Unit
IsWire lossy (accepted_at epoch) = IsU64 epoch
IsWire lossy (rejected class reason) = (length reason < max_frame_payload) × (lossy reason ≡ reason)
IsWire lossy (retired_at epoch) = IsU64 epoch
IsWire lossy (input_done outcome) = IsOutcome outcome

length-encode_outcome : (o : PushOutcome) → length (encode_outcome o) ≤ max_frame_payload
unfolding encode_outcome
length-encode_outcome (written n) = omega arith
length-encode_outcome (revoked p) = omega arith
length-encode_outcome (closed p) = omega arith

module _ (lossy : Bytes → Bytes) where
  -- A whole message leaves the stream in sync, whether or not its payload fits its type.
  pub read_frame-write_msg :
      (t : ℕ) (payload rest : Bytes)
      → length payload ≤ max_frame_payload
      → read_frame lossy (write_msg t payload ++ rest)
        ≡ (map_err frame_error (decode lossy t payload), rest)
  unfolding read_frame
  read_frame-write_msg t payload rest h = rw (read_msg-write_msg t payload rest h, decode_msg)

  read_frame_of_decode :
      (t : ℕ) (payload rest : Bytes) (f : Frame)
      → length payload ≤ max_frame_payload
      → decode lossy t payload ≡ ok f
      → read_frame lossy (write_msg t payload ++ rest) ≡ (ok f, rest)
  read_frame_of_decode t payload rest f h e =
      read_frame-write_msg t payload rest h ∙ ap (λ d. (map_err frame_error d, rest)) e

  -- Every frame that the wire can carry is read back from what `write_frame` writes for it, with the
  -- rest of the stream untouched: its data has at most 64 KiB, and a refusal's reason less, in UTF-8
  -- that the lossy decoding returns as it is; its epoch and counts are u64s, and its size is a valid
  -- geometry.
  pub read_frame-write_frame :
      (f : Frame) (rest : Bytes)
      → IsWire lossy f
      → read_frame lossy (write_frame f ++ rest) ≡ (ok f, rest)
  unfolding write_frame
  read_frame-write_frame (hello mode) rest h =
      read_frame_of_decode msg_hello (1 ∷ mode_byte mode ∷ []) rest (hello mode) (omega arith)
        (unfold decode in ground (arith, mode_of-mode_byte mode))
  read_frame-write_frame (data_frame bytes) rest h =
      read_frame_of_decode 1 bytes rest (data_frame bytes) h (unfold decode in refl)
  read_frame-write_frame (resize size) rest h =
      read_frame_of_decode 2 (resize_payload size) rest (resize size)
        (unfold resize_payload in omega arith)
        (unfold decode in ground (arith, parse_resize-payload size h))
  read_frame-write_frame detach rest h =
      read_frame_of_decode 3 [] rest detach (omega arith) (unfold decode in refl)
  read_frame-write_frame (accepted_at epoch) rest h =
      read_frame_of_decode 5 (be64 epoch) rest (accepted_at epoch) (omega arith)
        (unfold decode in ground (arith, epoch_in-be64 accepted_frame epoch h))
  read_frame-write_frame (rejected class reason) rest h =
      read_frame_of_decode 6 (class_byte class ∷ reason) rest (rejected class reason) (omega arith)
        (unfold decode in ground (arith, class_of-class_byte class))
  read_frame-write_frame (retired_at epoch) rest h =
      read_frame_of_decode 7 (be64 epoch) rest (retired_at epoch) (omega arith)
        (unfold decode in ground (arith, epoch_in-be64 retired_frame epoch h))
  read_frame-write_frame (input_done outcome) rest h =
      read_frame_of_decode 8 (encode_outcome outcome) rest (input_done outcome)
        (length-encode_outcome outcome)
        (unfold decode in ground (arith, decode-encode_outcome outcome h))
