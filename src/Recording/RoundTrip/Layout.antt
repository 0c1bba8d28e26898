-- ===== src/Recording/RoundTrip/Layout.antt =====
-- The layout of a segment header (src/recording.rs): the offsets that `decode_header` reads at.
use native.Mathlib.Nat.{zero-add, suc-add}
use agenttender.Common.{
  ℕ, zero, suc, ◌+◌, ◌-◌, ◌≤◌, [], ◌∷◌, ◌++◌, ok, Bytes, bytes_eq_iff, drop, take, take-append, sym,
  ◌≡◌, refl, ap, ◌∙◌, arith, length, length-append, append_assoc,
}
use agenttender.Common.Words.{
  IsU32, word16, word32, word64, be16, be32, be64, word16-be16, word32-be32, word64-be64,
}
use agenttender.Recording.Format.{
  SegmentHeader, magic, format_version, header_min_len, header_fixed_len, crc_len,
}
use agenttender.Recording.Encoder.{header_body, sealed}
use agenttender.Recording.Header.{decode_header, header_fields}
use agenttender.Recording.RoundTrip.{take-first, drop-first}
use agenttender.Recording.RoundTrip.Headers.{IsHeader, flags_of, header_fields-ok, decode_header-ok}

drop_past : (xs ys : Bytes) (n k : ℕ) → length xs ≡ n → drop (n + k) (xs ++ ys) ≡ drop k ys
drop_past [] ys n k p = rw (sym p, zero-add) refl
drop_past (x ∷ xs) ys zero k p = absurd (omega arith)
drop_past (x ∷ xs) ys (suc n) k p = rw suc-add (drop_past xs ys n k (omega arith))

module _ (h : SegmentHeader) where
  abbrev len : ℕ
  len = length h.term

  -- The fields up to the UUID, and those behind it.
  abbrev front : Bytes
  front =
      magic
      ++ (be16 format_version ++ (be16 (header_min_len + len) ++ be16 (flags_of h.input_recorded)))

  abbrev back : Bytes
  back =
      be32 h.segment_index
      ++ (be64 h.first_sequence
          ++ (be64 h.origin_unix_ns
              ++ (be16 h.geometry.rows ++ (be16 h.geometry.cols ++ (be16 len ++ h.term)))))

  header_body-parts : header_body h ≡ front ++ (h.run_id.uuid ++ back)
  unfolding header_body
  header_body-parts = refl

  pub length-header_body :
      length h.run_id.uuid ≡ 16 → length (header_body h) ≡ header_fixed_len + len
  length-header_body p =
      ap length header_body-parts ∙ omega (arith, p, length-append h.run_id.uuid back)

  module _ (v : Bytes → ℕ) (i : IsHeader v h) (crc : Bytes → ℕ) (c : (bs : Bytes) → IsU32 (crc bs))
      (rest : Bytes) where
    abbrev after : Bytes
    after = be32 (crc (header_body h)) ++ rest

    abbrev laid : Bytes
    laid = front ++ (h.run_id.uuid ++ (back ++ after))

    sealed-laid : sealed crc (header_body h) ++ rest ≡ laid
    sealed-laid =
        append_assoc (header_body h) (be32 (crc (header_body h))) rest
        ∙ ap (λ b. b ++ after) header_body-parts
        ∙ ap (λ b. front ++ b) (append_assoc h.run_id.uuid back after)

    laid-body : laid ≡ header_body h ++ after
    laid-body = sym (sealed-laid) ∙ append_assoc (header_body h) (be32 (crc (header_body h))) rest

    past : (k : ℕ) → drop (16 + k) (h.run_id.uuid ++ (back ++ after)) ≡ drop k (back ++ after)
    past k = drop_past h.run_id.uuid (back ++ after) 16 k i.uuid_len

    term_at : take len (drop header_fixed_len laid) ≡ h.term
    term_at = ap (take len) (past 26) ∙ take-append h.term after

    fields-laid : header_fields v laid len ≡ ok h
    fields-laid =
        header_fields-ok v laid h i
          (word16-be16 (flags_of h.input_recorded) (h.run_id.uuid ++ (back ++ after))
            (ground arith))
          (take-first h.run_id.uuid (back ++ after) 16 i.uuid_len)
          (ap word32 (past 0) ∙ word32-be32 h.segment_index (drop 4 (back ++ after)) i.index_range)
          (ap word64 (past 4)
            ∙ word64-be64 h.first_sequence (drop 12 (back ++ after)) i.sequence_range)
          (ap word64 (past 12)
            ∙ word64-be64 h.origin_unix_ns (drop 20 (back ++ after)) i.origin_range)
          (ap word16 (past 20)
            ∙ word16-be16 h.geometry.rows (drop 22 (back ++ after)) i.geometry_range.rows_range)
          (ap word16 (past 22)
            ∙ word16-be16 h.geometry.cols (drop 24 (back ++ after)) i.geometry_range.cols_range)
          term_at

    length-laid : header_min_len + len ≤ length laid
    length-laid = omega (
      arith,
      ap length laid-body,
      length-append (header_body h) after,
      length-header_body i.uuid_len,
    )

    crc_at : header_min_len + len - crc_len ≡ header_fixed_len + len
    crc_at = omega arith

    checksum :
        crc (take (header_min_len + len - crc_len) laid)
        ≡ word32 (drop (header_min_len + len - crc_len) laid)
    checksum =
        let l = length-header_body i.uuid_len in
        rw (crc_at, laid-body)
          (ap crc (take-first (header_body h) after (header_fixed_len + len) l)
            ∙ sym (
                ap word32 (drop-first (header_body h) after (header_fixed_len + len) l)
                ∙ word32-be32 (crc (header_body h)) rest (c (header_body h))))

    -- The decoder reads the header back from the encoder's bytes, whatever follows them.
    pub decode_header-sealed :
        decode_header crc v (sealed crc (header_body h) ++ rest) ≡ ok (h, header_min_len + len)
    decode_header-sealed =
        ap (decode_header crc v) sealed-laid
        ∙ decode_header-ok crc v laid h (header_min_len + len) ((bytes_eq_iff magic magic).1 refl)
            refl
            (word16-be16 (header_min_len + len)
              (be16 (flags_of h.input_recorded) ++ (h.run_id.uuid ++ (back ++ after)))
              (omega (arith, i.term_len)))
            refl i.term_len length-laid checksum
            (ap word16 (past 24) ∙ word16-be16 len (h.term ++ after) (omega (arith, i.term_len)))
            fields-laid
