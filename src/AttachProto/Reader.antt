-- ===== src/AttachProto/Reader.antt =====
-- The reader of frames (src/attach_proto.rs).
pub mod Fields
pub mod Frames
pub mod Bounds
use agenttender.Common.{
  ℕ, ◌+◌, ◌-◌, ◌%◌, Bool, true, false, not, ◌&&◌, List, [], ◌∷◌, ◌++◌, Option, none, some, Result,
  ok, err, ◌>>=◌, ◌>>◌, guard, ok_or, map_err, if◌then◌else◌, ◌==◌, ltb, leb, length, take, drop,
  Bytes,
}
use agenttender.Common.Words.{u64_max, be16, be32, be64, word16, word32, word64}
use agenttender.Recording.Geometry
use agenttender.PtyExit.{PtyExitCode}
use agenttender.Recording.Geometry.{Geometry}
use agenttender.AttachProto.Outcome.{
  What, ProtocolError, unknown_type, unsupported_hello, malformed, resize_frame, accepted_frame,
  rejected_frame, retired_frame, status_of, decode_outcome,
}
use agenttender.AttachProto.Frame.{
  Frame, hello, data_frame, resize, detach, accepted_at, rejected, retired_at, input_done, msg_data,
  msg_resize, msg_detach, msg_hello, msg_accepted, msg_rejected, msg_retired, msg_input_done,
  protocol_version, max_frame_payload, mode_of, class_of, parse_resize,
}

pub data IoError : Type 0 where
  unexpected_eof oversized : IoError

-- The type, the payload and what is left of the reader.
unfoldable pub read_msg : Bytes → Result IoError (ℕ × Bytes × Bytes)
unfolding status_of
read_msg r =
    if ltb (length r) 5
    then err unexpected_eof
    else (let len = word32 (drop 1 r) in
        if ltb max_frame_payload len
        then err oversized
        else if ltb (length (drop 5 r)) len
        then err unexpected_eof
        else ok (status_of r, take len (drop 5 r), drop len (drop 5 r)))

-- `match payload { [PROTOCOL_VERSION, mode] => …, _ => … }`
pub hello_of : Bytes → Result ProtocolError Frame
unfolding mode_of
hello_of (version ∷ mode ∷ []) =
    if version == protocol_version
    then (do m ← mode_of mode; ok (hello m))
    else err unsupported_hello
hello_of _ = err unsupported_hello

-- The closure `epoch` of `Frame::decode`
pub epoch_in : What → Bytes → Result ProtocolError ℕ
epoch_in what payload = if length payload == 8 then ok (word64 payload) else err (malformed what)

pub data FrameError : Type 0 where
  io : IoError → FrameError
  malformed_frame : ProtocolError → FrameError
  unknown_frame : ℕ → FrameError

-- The `map_err` of `read_frame`
pub frame_error : ProtocolError → FrameError
frame_error (unknown_type t) = unknown_frame t
frame_error e = malformed_frame e

-- `lossy` is `String::from_utf8_lossy`.
module _ (lossy : Bytes → Bytes) where
  rejected_of : Bytes → Result ProtocolError Frame
  unfolding class_of
  rejected_of [] = err (malformed rejected_frame)
  rejected_of (class ∷ reason) = do c ← class_of class; ok (rejected c (lossy reason))

  -- `Frame::decode`
  unfoldable pub decode : ℕ → Bytes → Result ProtocolError Frame
  unfolding hello_of epoch_in rejected_of decode_outcome parse_resize
  decode t payload =
      if t == msg_data
      then ok (data_frame payload)
      else if t == msg_resize
      then (do g ← ok_or (parse_resize payload) (malformed resize_frame); ok (resize g))
      else if t == msg_detach
      then ok detach
      else if t == msg_hello
      then hello_of payload
      else if t == msg_accepted
      then (do e ← epoch_in accepted_frame payload; ok (accepted_at e))
      else if t == msg_rejected
      then rejected_of payload
      else if t == msg_retired
      then (do e ← epoch_in retired_frame payload; ok (retired_at e))
      else if t == msg_input_done
      then (do o ← decode_outcome payload; ok (input_done o))
      else err (unknown_type t)

  decode_msg : Result IoError (ℕ × Bytes × Bytes) → Bytes → Result FrameError Frame × Bytes
  unfolding decode frame_error
  decode_msg (err e) r = (err (io e), r)
  decode_msg (ok (t, payload, rest)) r = (map_err frame_error (decode t payload), rest)

  -- The frame and what is left of the reader, which is not read again after an I/O error.
  unfoldable pub read_frame : Bytes → Result FrameError Frame × Bytes
  unfolding decode_msg read_msg
  read_frame r = decode_msg (read_msg r) r
