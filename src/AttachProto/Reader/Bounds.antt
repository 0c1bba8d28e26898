-- ===== src/AttachProto/Reader/Bounds.antt =====
-- What the reader refuses, and how much it takes.
use agenttender.Common.{
  ℕ, zero, suc, ◌+◌, ◌%◌, ◌≡◌, ◌≤◌, ◌<◌, refl, ◌∙◌, arith, ◌⊎◌, ◌++◌, ok, err, Bytes, length, take,
  drop, length-take, length-drop, false, ◌==◌, ◌≢◌, ap, map_err,
}
use agenttender.Common.Words.{IsU32, word32, word32-be32}
use agenttender.AttachProto.Outcome.{unknown_type}
use agenttender.AttachProto.Frame.{write_msg, max_frame_payload}
use agenttender.AttachProto.Reader.{
  frame_error, io, unknown_frame, unexpected_eof, oversized, decode, read_frame, read_msg,
}
use agenttender.AttachProto.Reader.Frames.{read_frame-write_msg}

-- A message is taken only if its payload keeps the limit, and then exactly its five header bytes
-- and its payload are taken from the reader.
pub read_msg_bounds :
    (r : Bytes) (t : ℕ) (payload rest : Bytes)
    → read_msg r ≡ ok (t, payload, rest)
    → (length payload ≤ max_frame_payload) × (length r ≡ 5 + length payload + length rest)
unfolding read_msg
read_msg_bounds r t payload rest h = ground (
  arith,
  length-take (word32 (drop 1 r)) (drop 5 r),
  length-drop (word32 (drop 1 r)) (drop 5 r),
  length-drop 5 r,
)

unequal : (t k : ℕ) → t ≢ k → (t == k) ≡ false
unequal t k h = ground arith

module _ (lossy : Bytes → Bytes) where
  decode_unknown :
      (t : ℕ) (payload : Bytes) → (t ≡ 0) ⊎ (8 < t) → decode lossy t payload ≡ err (unknown_type t)
  unfolding decode
  decode_unknown t payload u = rw (
    unequal t 1 (omega arith),
    unequal t 2 (omega arith),
    unequal t 3 (omega arith),
    unequal t 4 (omega arith),
    unequal t 5 (omega arith),
    unequal t 6 (omega arith),
    unequal t 7 (omega arith),
    unequal t 8 (omega arith),
  )

  -- A payload above the limit, of a length that fits the length word, is refused from its header
  -- alone, although `write_msg` writes it.
  pub read_frame_oversized :
      (t : ℕ) (payload rest : Bytes)
      → max_frame_payload < length payload
      → IsU32 (length payload)
      → (read_frame lossy (write_msg t payload ++ rest)).0 ≡ err (io oversized)
  unfolding read_frame read_msg write_msg
  read_frame_oversized t payload rest big fits =
      let n = length payload in
      let whole : n % 4294967296 ≡ n = omega arith in
      ground (arith, word32-be32 n (payload ++ rest))

  -- A message that the stream cuts off, at whatever byte, is an I/O error and never a frame.
  pub read_frame_cut :
      (k t : ℕ) (payload : Bytes)
      → length payload ≤ max_frame_payload
      → k < 5 + length payload
      → (read_frame lossy (take k (write_msg t payload))).0 ≡ err (io unexpected_eof)
  unfolding read_frame read_msg write_msg
  read_frame_cut zero t payload h b = refl
  read_frame_cut (suc zero) t payload h b = refl
  read_frame_cut (suc (suc zero)) t payload h b = refl
  read_frame_cut (suc (suc (suc zero))) t payload h b = refl
  read_frame_cut (suc (suc (suc (suc zero)))) t payload h b = refl
  read_frame_cut (suc (suc (suc (suc (suc k))))) t payload h b =
      let n = length payload in
      let whole : n % 4294967296 ≡ n = omega arith in
      ground (arith, word32-be32 n (take k payload), length-take k payload)

  -- A message of a type that this version does not know is reported with its type, and the stream
  -- goes on behind its payload.
  pub read_frame_unknown :
      (t : ℕ) (payload rest : Bytes)
      → (t ≡ 0) ⊎ (8 < t)
      → length payload ≤ max_frame_payload
      → read_frame lossy (write_msg t payload ++ rest) ≡ (err (unknown_frame t), rest)
  unfolding frame_error
  read_frame_unknown t payload rest u h =
      read_frame-write_msg lossy t payload rest h
      ∙ ap (λ d. (map_err frame_error d, rest)) (decode_unknown t payload u)
