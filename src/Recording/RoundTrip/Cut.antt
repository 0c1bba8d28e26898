-- ===== src/Recording/RoundTrip/Cut.antt =====
-- A record cut short (src/recording.rs): what the decoder makes of a strict prefix of its bytes.
use agenttender.Common.{
  ℕ, suc, ◌+◌, ◌-◌, ◌<◌, ◌≤◌, [], ◌∷◌, ◌++◌, ok, Bytes, Bool-cases, leb, inl, inr, ◌⊎◌, drop, take,
  ◌≡◌, refl, ap, ◌∙◌, arith, length, length-append, length-take,
}
use agenttender.Common.Words.{be32, word32, word32-be32}
use agenttender.Recording.Format.{
  Record, SegmentHeader, prefix_len, crc_len, body_fixed_len, body_max_len,
}
use agenttender.Recording.Encoder.{SegmentEncoder, encode, record_body}
use agenttender.Recording.Decoded.{SegmentSummary, SegmentEnd, clean, truncated}
use agenttender.Recording.Decoder.{ended, decode_round, checked_round}
use agenttender.Recording.RoundTrip.{framed}
use agenttender.Recording.RoundTrip.Records.{encode-ok, body_of, body_kind-payload, IsRecord}

word32-take : (n : ℕ) (xs : Bytes) → 4 ≤ n → word32 (take n xs) ≡ word32 xs
word32-take (suc (suc (suc (suc n)))) (a ∷ b ∷ c ∷ d ∷ xs) h = refl
word32-take (suc (suc (suc (suc n)))) (a ∷ b ∷ c ∷ []) h = refl
word32-take (suc (suc (suc (suc n)))) (a ∷ b ∷ []) h = refl
word32-take (suc (suc (suc (suc n)))) (a ∷ []) h = refl
word32-take (suc (suc (suc (suc n)))) [] h = refl
word32-take _ xs h = absurd (omega arith)

word32-drop-take : (n : ℕ) (xs : Bytes) → 8 ≤ n → word32 (drop 4 (take n xs)) ≡ word32 (drop 4 xs)
word32-drop-take (suc (suc (suc (suc n)))) (a ∷ b ∷ c ∷ d ∷ xs) h = word32-take n xs (omega arith)
word32-drop-take (suc (suc (suc (suc n)))) (a ∷ b ∷ c ∷ []) h = refl
word32-drop-take (suc (suc (suc (suc n)))) (a ∷ b ∷ []) h = refl
word32-drop-take (suc (suc (suc (suc n)))) (a ∷ []) h = refl
word32-drop-take (suc (suc (suc (suc n)))) [] h = refl
word32-drop-take _ xs h = absurd (omega arith)

leb-cases : (a b : ℕ) → (a ≤ b) ⊎ (b < a)
leb-cases a b = elim (Bool-cases (leb a b)) [
  | inl p ↦ inl (ground arith)
  | inr p ↦ inr (ground arith)
]

-- The end of a segment at a byte position with some bytes left over.
abbrev pub end_at : Bytes → ℕ → SegmentEnd
end_at [] pos = clean
end_at (b ∷ bs) pos = truncated pos

decode_round-short :
    (crc : Bytes → ℕ) (h : SegmentHeader) (s : SegmentSummary) (pos : ℕ) (bytes : Bytes) (w : ℕ)
    → word32 bytes ≡ w
    → word32 (drop 4 bytes) ≡ 4294967295 - w
    → body_fixed_len ≤ w
    → w ≤ body_max_len
    → length bytes < prefix_len + w + crc_len
    → decode_round crc h s pos bytes ≡ ended (end_at bytes pos)
unfolding decode_round checked_round
decode_round-short crc h s pos [] w a b low high l = ground arith
decode_round-short crc h s pos (x ∷ bytes) w a b low high l = ground arith

decode_round-tiny :
    (crc : Bytes → ℕ) (h : SegmentHeader) (s : SegmentSummary) (pos : ℕ) (bytes : Bytes)
    → length bytes < prefix_len
    → decode_round crc h s pos bytes ≡ ended (end_at bytes pos)
unfolding decode_round
decode_round-tiny crc h s pos [] l = ground arith
decode_round-tiny crc h s pos (x ∷ bytes) l = ground arith

module _ (crc : Bytes → ℕ) where
  -- A strict prefix of a framed body ends the segment.
  framed-cut :
      (h : SegmentHeader) (s : SegmentSummary) (pos n w : ℕ) (body after : Bytes)
      → length body ≡ w
      → length after ≡ crc_len
      → body_fixed_len ≤ w
      → w ≤ body_max_len
      → n < prefix_len + w + crc_len
      → decode_round crc h s pos (take n (framed w body ++ after))
        ≡ ended (end_at (take n (framed w body ++ after)) pos)
  framed-cut h s pos n w body after p q low high l =
      let bytes = framed w body ++ after in
      elim (leb-cases prefix_len n) [
        | inr small ↦
            decode_round-tiny crc h s pos (take n bytes) (omega (arith, length-take n bytes))
        | inl big ↦
            decode_round-short crc h s pos (take n bytes) w
              (word32-take n bytes (omega arith)
                ∙ word32-be32 w (be32 (4294967295 - w) ++ (body ++ after)) (omega arith))
              (word32-drop-take n bytes big
                ∙ word32-be32 (4294967295 - w) (body ++ after) (omega arith))
              low high (omega (arith, length-take n bytes))
      ]

  -- A strict prefix of the bytes of an accepted record ends the segment there: cleanly when no
  -- byte of the record is left, and truncated at the record's offset otherwise.
  pub decode_round-cut :
      (e e' : SegmentEncoder) (r : Record) (bytes : Bytes) (h : SegmentHeader) (s : SegmentSummary)
      (pos n : ℕ)
      → IsRecord r
      → encode crc r e ≡ (e', ok bytes)
      → n < length bytes
      → decode_round crc h s pos (take n bytes) ≡ ended (end_at (take n bytes) pos)
  unfolding record_body
  decode_round-cut e e' r bytes h s pos n range eq l =
      let (k, payload, acc, _, b) = encode-ok crc e e' r bytes _ refl eq in
      let (_, bound) =
        body_kind-payload e.header.input_recorded r.kind k payload range.kind_range acc.kind in
      let w = body_fixed_len + length payload in
      let frame = framed w (body_of k r payload) in
      rw b (
        framed-cut h s pos n w (body_of k r payload) (be32 (crc frame)) (omega arith) refl
          (omega arith) (omega arith)
          (omega (arith, ap length b, length-append frame (be32 (crc frame)))))
