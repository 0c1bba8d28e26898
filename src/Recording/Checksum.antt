-- ===== src/Recording/Checksum.antt =====
-- What the checksum of a record (src/recording.rs) guards.
use agenttender.Common.{ℕ, ◌+◌, ◌-◌, ◌≤◌, Bytes, length, take, drop, ◌≡◌, arith, Result, ok, err}
use agenttender.Common.Words.{word32}
use agenttender.Recording.Format.{
  Record, SegmentHeader, prefix_len, body_fixed_len, body_max_len, crc_len,
}
use agenttender.Recording.Decoded.{SegmentSummary, Violation}
use agenttender.Recording.Decoder.{got, got_body, decode_round, checked_round, decode_body}

got_body-len :
    (len len' : ℕ) (x : Result Violation Record) (r : Record)
    → got_body len x ≡ got r len'
    → len ≡ len'
unfolding got_body
got_body-len len len' (ok x) r eq = ground arith
got_body-len len len' (err e) r eq = absurd (ground arith)

-- A record that the decoder accepts lies within the bytes that are left, has at least its fixed
-- fields and at most the largest payload, and its last four bytes are the checksum of all the
-- bytes of the record before them.
pub decode_round-checksum :
    (crc : Bytes → ℕ) (h : SegmentHeader) (s : SegmentSummary) (pos : ℕ) (rest : Bytes) (r : Record)
    (len : ℕ)
    → decode_round crc h s pos rest ≡ got r len
    → (len ≤ length rest)
      × (prefix_len + body_fixed_len + crc_len ≤ len)
      × (len ≤ prefix_len + body_max_len + crc_len)
      × (crc (take (len - crc_len) rest) ≡ word32 (drop (len - crc_len) rest))
unfolding decode_round checked_round
decode_round-checksum crc h s pos rest r len eq =
    let w = word32 rest in
    let body = decode_body (drop prefix_len (take (prefix_len + w) rest)) h s in
    ground (arith, got_body-len (prefix_len + w + crc_len) len body r)
