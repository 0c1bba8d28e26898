-- ===== src/AttachProto/Frame.antt =====
-- The frames and what is written for them (src/attach_proto.rs).
use agenttender.Common.{
  ℕ, ◌%◌, List, [], ◌∷◌, ◌++◌, Option, none, some, Result, ok, err, ok_or, if◌then◌else◌, ◌==◌, ltb,
  length, drop, Bytes,
}
use agenttender.Common.Words.{be16, be32, be64, word16}
use agenttender.Recording.Geometry
use agenttender.PtyExit.{PtyExitCode}
use agenttender.Recording.Geometry.{Geometry}
use agenttender.AttachProto.Outcome.{
  ProtocolError, unsupported_hello, unknown_reject_class, PushOutcome, encode_outcome,
}

abbrev pub msg_data : ℕ
msg_data = 0x01

abbrev pub msg_resize : ℕ
msg_resize = 0x02

abbrev pub msg_detach : ℕ
msg_detach = 0x03

abbrev pub msg_hello : ℕ
msg_hello = 0x04

abbrev pub msg_accepted : ℕ
msg_accepted = 0x05

abbrev pub msg_rejected : ℕ
msg_rejected = 0x06

abbrev pub msg_retired : ℕ
msg_retired = 0x07

abbrev pub msg_input_done : ℕ
msg_input_done = 0x08

abbrev pub protocol_version : ℕ
protocol_version = 1

abbrev pub max_frame_payload : ℕ
max_frame_payload = 65536

pub data Mode : Type 0 where
  attach takeover push : Mode

pub data RejectClass : Type 0 where
  protocol control runtime identity : RejectClass

-- `mode as u8`
unfoldable pub mode_byte : Mode → ℕ
mode_byte attach = 1
mode_byte takeover = 2
mode_byte push = 3

-- `Mode::try_from`
unfoldable pub mode_of : ℕ → Result ProtocolError Mode
mode_of b =
    if b == 1
    then ok attach
    else if b == 2
    then ok takeover
    else if b == 3
    then ok push
    else err unsupported_hello

-- `class as u8`
unfoldable pub class_byte : RejectClass → ℕ
class_byte protocol = 1
class_byte control = 2
class_byte runtime = 3
class_byte identity = 4

abbrev all_classes : List RejectClass
all_classes = protocol ∷ control ∷ runtime ∷ identity ∷ []

-- `find(|class| *class as u8 == byte)`
find_class : ℕ → List RejectClass → Option RejectClass
unfolding class_byte
find_class b [] = none
find_class b (c ∷ rest) = if class_byte c == b then some c else find_class b rest

-- `RejectClass::try_from`
unfoldable pub class_of : ℕ → Result ProtocolError RejectClass
unfolding find_class
class_of b = ok_or (find_class b all_classes) (unknown_reject_class b)

pub data Frame : Type 0 where
  hello : Mode → Frame
  data_frame : Bytes → Frame
  resize : Geometry → Frame
  detach : Frame
  accepted_at : ℕ → Frame
  rejected : RejectClass → Bytes → Frame
  retired_at : ℕ → Frame
  input_done : PushOutcome → Frame

unfoldable pub resize_payload : Geometry → Bytes
resize_payload g = be16 g.rows ++ be16 g.cols

unfoldable pub parse_resize : Bytes → Option Geometry
unfolding Geometry.new
parse_resize payload =
    if ltb (length payload) 4 then none else Geometry.new (word16 payload) (word16 (drop 2 payload))

-- `write_msg`, the length cast to u32
unfoldable pub write_msg : ℕ → Bytes → Bytes
write_msg msg_type payload = msg_type ∷ (be32 (length payload % 4294967296) ++ payload)

-- The bytes that `write_frame` writes
unfoldable pub write_frame : Frame → Bytes
unfolding write_msg mode_byte resize_payload class_byte encode_outcome
write_frame (hello mode) = write_msg msg_hello (protocol_version ∷ mode_byte mode ∷ [])
write_frame (data_frame bytes) = write_msg msg_data bytes
write_frame (resize size) = write_msg msg_resize (resize_payload size)
write_frame detach = write_msg msg_detach []
write_frame (accepted_at epoch) = write_msg msg_accepted (be64 epoch)
write_frame (rejected class reason) = write_msg msg_rejected (class_byte class ∷ reason)
write_frame (retired_at epoch) = write_msg msg_retired (be64 epoch)
write_frame (input_done outcome) = write_msg msg_input_done (encode_outcome outcome)

-- `PtyExitCode::from(RejectClass)`
unfoldable pub exit_code_of : RejectClass → PtyExitCode
exit_code_of protocol = PtyExitCode.protocol
exit_code_of control = PtyExitCode.control
exit_code_of runtime = PtyExitCode.runtime
exit_code_of identity = PtyExitCode.identity
