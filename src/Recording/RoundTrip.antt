-- ===== src/Recording/RoundTrip.antt =====
-- The framing of a record (src/recording.rs): what the decoder reads back from an encoded record.
pub mod Records
pub mod Cut
pub mod Loops
pub mod Headers
pub mod Layout
pub mod Segments
pub mod Rotation
use agenttender.Common.{
  ℕ, zero, suc, ◌+◌, ◌-◌, ◌<◌, ◌≤◌, Bool, true, false, ◌&&◌, List, [], ◌∷◌, ◌++◌, Option, none,
  some, Result, ok, err, Bytes, is_empty, drop, take, sym, append_assoc, ◌≡◌, refl, ap, ◌∙◌, arith,
  length, length-append, take-append, drop-append,
}
use agenttender.Common.Words.{IsU32, IsU64, be32, be64, word32, word64, word32-be32, word64-be64}
use agenttender.Recording.Geometry
use agenttender.Recording.Geometry.{Geometry}
use agenttender.Recording.Format.{
  Record, RecordKind, output, input, resized, SegmentHeader, prefix_len, crc_len, body_fixed_len,
  body_max_len,
}
use agenttender.Recording.Encoder.{record_body, sealed}
use agenttender.Recording.Decoded.{SegmentSummary}
use agenttender.Recording.Decoder.{Round, got_body, decode_round, checked_round, decode_body}

pub take-first : (xs ys : Bytes) (n : ℕ) → length xs ≡ n → take n (xs ++ ys) ≡ xs
take-first xs ys n p = rw (sym p) (take-append xs ys)

pub drop-first : (xs ys : Bytes) (n : ℕ) → length xs ≡ n → drop n (xs ++ ys) ≡ ys
drop-first xs ys n p = rw (sym p) (drop-append xs ys)

-- The length word, its complement, and a body.
abbrev pub framed : ℕ → Bytes → Bytes
framed w body = be32 w ++ (be32 (4294967295 - w) ++ body)

-- A record whose words agree goes to `decode_body`.
decode_round-checked :
    (crc : Bytes → ℕ) (h : SegmentHeader) (s : SegmentSummary) (pos : ℕ) (bytes : Bytes) (w : ℕ)
    → word32 bytes ≡ w
    → word32 (drop 4 bytes) ≡ 4294967295 - w
    → body_fixed_len ≤ w
    → w ≤ body_max_len
    → prefix_len + w + crc_len ≤ length bytes
    → crc (take (prefix_len + w) bytes) ≡ word32 (drop (prefix_len + w) bytes)
    → decode_round crc h s pos bytes
      ≡ got_body
          (prefix_len + w + crc_len)
          (decode_body (drop prefix_len (take (prefix_len + w) bytes)) h s)
unfolding decode_round checked_round
decode_round-checked crc h s pos bytes w a b low high l c = ground arith

module _ (crc : Bytes → ℕ) (body rest : Bytes) (w : ℕ) (p : length body ≡ w)
    (low : body_fixed_len ≤ w) (high : w ≤ body_max_len) (c : IsU32 (crc (framed w body))) where
  abbrev after : Bytes
  after = be32 (crc (framed w body)) ++ rest

  abbrev bytes : Bytes
  bytes = framed w body ++ after

  length-framed : length (framed w body) ≡ prefix_len + w
  length-framed = omega arith

  take-framed : take (prefix_len + w) bytes ≡ framed w body
  take-framed = take-first (framed w body) after (prefix_len + w) length-framed

  pub decode_round-framed :
      (h : SegmentHeader) (s : SegmentSummary) (pos : ℕ)
      → decode_round crc h s pos bytes ≡ got_body (prefix_len + w + crc_len) (decode_body body h s)
  decode_round-framed h s pos =
      decode_round-checked crc h s pos bytes w
        (word32-be32 w (be32 (4294967295 - w) ++ (body ++ after)) (omega arith))
        (word32-be32 (4294967295 - w) (body ++ after) (omega arith)) low high
        (omega (arith, length-append (framed w body) after))
        (ap crc take-framed
          ∙ sym (
              ap word32 (drop-first (framed w body) after (prefix_len + w) length-framed)
              ∙ word32-be32 (crc (framed w body)) rest c))
      ∙ ap (λ b. got_body (prefix_len + w + crc_len) (decode_body (drop prefix_len b) h s))
          take-framed
