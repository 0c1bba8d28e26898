-- ===== src/Examples/Protocol.antt =====
-- Frames on a stream.
use agenttender.Common.{
  ℕ, zero, suc, ap, ◌≡◌, refl, arith, [], ◌∷◌, ◌++◌, ok, err, map_err, length, take, codes, Bytes,
}
use agenttender.AttachProto.Outcome.{closed, PushOutcome, encode_outcome, decode_outcome}
use agenttender.AttachProto.Frame.{Frame, rejected, control, write_frame, write_msg}
use agenttender.AttachProto.Reader.{io, unexpected_eof, frame_error, read_frame, decode}
use agenttender.AttachProto.Reader.Frames.{read_frame-write_frame, read_frame-write_msg}
use agenttender.AttachProto.Outcome.Canonical.{encode-decode_outcome}
use agenttender.AttachProto.Reader.Bounds.{read_frame_cut}

-- `from_utf8_lossy` on valid UTF-8.
abbrev same : Bytes → Bytes
same bytes = bytes

abbrev refusal : Frame
refusal = rejected control (codes "busy")

read_frame-write_frame_example :
    read_frame same (write_frame refusal ++ codes "next") ≡ (ok refusal, codes "next")
read_frame-write_frame_example =
    read_frame-write_frame same refusal (codes "next") (omega arith, refl)

abbrev stopped : PushOutcome
stopped = closed (record { accepted = 3; unwritten = 5 })

abbrev stopped_bytes : Bytes
stopped_bytes = 2 ∷ 0 ∷ 0 ∷ 0 ∷ 0 ∷ 0 ∷ 0 ∷ 0 ∷ 3 ∷ 0 ∷ 0 ∷ 0 ∷ 0 ∷ 0 ∷ 0 ∷ 0 ∷ 8 ∷ []

encode-decode_outcome_example : encode_outcome stopped ≡ stopped_bytes
encode-decode_outcome_example =
    encode-decode_outcome stopped_bytes stopped (omega arith) (unfold decode_outcome in refl)

abbrev stream : Bytes
stream = 1 ∷ 0 ∷ 0 ∷ 0 ∷ 2 ∷ 7 ∷ 8 ∷ 9 ∷ []

abbrev two_bytes : Bytes
two_bytes = 7 ∷ 8 ∷ []

zeros : ℕ → Bytes
zeros zero = []
zeros (suc n) = 0 ∷ zeros n

length-zeros : (n : ℕ) → length (zeros n) ≡ n
unfolding zeros
length-zeros zero = refl
length-zeros (suc n) = ap suc (length-zeros n)

read_frame-write_msg_example :
    read_frame same (write_msg 2 (0 ∷ 24 ∷ []) ++ codes "next")
    ≡ (map_err frame_error (decode same 2 (0 ∷ 24 ∷ [])), codes "next")
read_frame-write_msg_example =
    read_frame-write_msg same 2 (0 ∷ 24 ∷ []) (codes "next") (omega arith)

read_frame_cut_example :
    (read_frame same (take 7 (write_msg 1 (codes "abc")))).0 ≡ err (io unexpected_eof)
read_frame_cut_example = read_frame_cut same 7 1 (codes "abc") (omega arith) (omega arith)
