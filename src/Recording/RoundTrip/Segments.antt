-- ===== src/Recording/RoundTrip/Segments.antt =====
-- A whole segment (src/recording.rs): the decoder on what `SegmentEncoder` wrote.
use agenttender.Common.{
  ℕ, suc, ◌+◌, ◌<◌, List, [], ◌++◌, none, some, ok, Bytes, All, take, sym, ◌≡◌, refl, ap, ◌∙◌,
  arith, length, length-append, append-nil, inl,
}
use agenttender.Common.Words.{IsU32, be32}
use agenttender.Recording.Format.{SegmentHeader, Record, header_min_len}
use agenttender.Recording.Encoder.{SegmentEncoder, new, encode, header_body, header_bytes, sealed}
use agenttender.Recording.Decoded.{SegmentEnd, clean, SegmentSummary}
use agenttender.Recording.Decoder.{decode_round, ended}
use agenttender.Recording.Segment.{
  segment_of, decode_segment, decode_segment_with_summary, decode_records, initial_summary,
  finish_segment, violation_of, previous_elapsed,
}
use agenttender.Recording.RoundTrip.{drop-first}
use agenttender.Recording.RoundTrip.Headers.{IsHeader}
use agenttender.Recording.RoundTrip.Records.{IsRecord, Agrees}
use agenttender.Recording.RoundTrip.Cut.{end_at, decode_round-cut}
use agenttender.Recording.RoundTrip.Loops.{Encodes, decode_records-Encodes}
use agenttender.Recording.RoundTrip.Layout.{length-header_body, decode_header-sealed}

module _ (crc : Bytes → ℕ) (v : Bytes → ℕ) (c : (bs : Bytes) → IsU32 (crc bs)) (h : SegmentHeader)
    (i : IsHeader v h) where
  abbrev len : ℕ
  len = header_min_len + length h.term

  length-sealed : length (sealed crc (header_body h)) ≡ len
  length-sealed = omega (
    arith,
    length-header_body h i.uuid_len,
    length-append (header_body h) (be32 (crc (header_body h))),
  )

  -- A segment's loop starts behind its header.
  decode_segment-sealed :
      (bytes : Bytes) (records : List Record) (end : SegmentEnd) (s : SegmentSummary)
      → decode_records crc
          (suc (length (sealed crc (header_body h) ++ bytes)))
          h
          none
          len
          bytes
          (initial_summary h len)
          []
        ≡ some (ok (records, (end, s)))
      → decode_segment crc v (sealed crc (header_body h) ++ bytes)
        ≡ some (ok (record { header = h; records = records; end = end }))
  unfolding decode_segment decode_segment_with_summary finish_segment violation_of previous_elapsed
  decode_segment-sealed bytes records end s eq =
      rw
        (
          decode_segment,
          decode_segment_with_summary,
          decode_header-sealed h v i crc c bytes,
          drop-first (sealed crc (header_body h)) bytes len length-sealed,
        )
        (ap (λ l. segment_of (finish_segment h l)) eq)

  new-parts :
      (e : SegmentEncoder) → new h ≡ ok e → (e.header ≡ h) × Agrees e (initial_summary h len)
  unfolding new initial_summary
  new-parts e eq = (ground arith, record { next = ground arith; elapsed = inl refl })

  -- What follows the records ends the segment.
  segment-tail :
      (e e' : SegmentEncoder) (rs : List Record) (bs tail : Bytes)
      → new h ≡ ok e
      → Encodes crc e rs e' bs
      → All IsRecord rs
      → ((s : SegmentSummary) (pos : ℕ) → decode_round crc h s pos tail ≡ ended (end_at tail pos))
      → decode_segment crc v (header_bytes crc e ++ (bs ++ tail))
        ≡ some (ok (record { header = h; records = rs; end = end_at tail (len + length bs) }))
  unfolding header_bytes
  segment-tail e e' rs bs tail n enc ranges t =
      let (eh, a) = new-parts e n in
      let l = length-append (sealed crc (header_body h)) (bs ++ tail) in
      rw eh (
        decode_segment-sealed (bs ++ tail) rs (end_at tail (len + length bs)) _ (
          decode_records-Encodes crc c e e' rs [] bs tail
            (suc (length (sealed crc (header_body h) ++ (bs ++ tail)))) len (initial_summary h len)
            h enc eh a ranges t (omega (arith, l))))

  -- A segment that was written whole decodes to its header and its records, and ends cleanly,
  -- when the header and the records are in the range of their types and the checksum is a u32.
  pub decode_segment-encode :
      (e e' : SegmentEncoder) (rs : List Record) (bs : Bytes)
      → new h ≡ ok e
      → Encodes crc e rs e' bs
      → All IsRecord rs
      → decode_segment crc v (header_bytes crc e ++ bs)
        ≡ some (ok (record { header = h; records = rs; end = clean }))
  unfolding decode_round
  decode_segment-encode e e' rs bs n enc ranges =
      ap (λ b. decode_segment crc v (header_bytes crc e ++ b)) (sym (append-nil bs))
      ∙ segment-tail e e' rs bs [] n enc ranges (λ s pos. refl)

  -- A segment cut inside the record after `rs` decodes to the records before it: at that record's
  -- first byte the end is clean, and behind it truncated at the record's offset.
  pub decode_segment-cut :
      (e e' e'' : SegmentEncoder) (rs : List Record) (bs : Bytes) (r : Record) (b : Bytes) (n : ℕ)
      → new h ≡ ok e
      → Encodes crc e rs e' bs
      → All IsRecord rs
      → encode crc r e' ≡ (e'', ok b)
      → IsRecord r
      → n < length b
      → decode_segment crc v (header_bytes crc e ++ (bs ++ take n b))
        ≡ some (ok (record { header = h; records = rs; end = end_at (take n b) (len + length bs) }))
  decode_segment-cut e e' e'' rs bs r b n start enc ranges more range l =
      segment-tail e e' rs bs (take n b) start enc ranges
        (λ s pos. decode_round-cut crc e' e'' r b h s pos n range more l)
