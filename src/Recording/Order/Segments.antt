-- ===== src/Recording/Order/Segments.antt =====
-- The order of the records that a segment of src/recording.rs decodes to.
use agenttender.Common.{
  ℕ, zero, suc, ◌+◌, true, false, ◌&&◌, List, [], ◌∷◌, ◌++◌, Option, none, some, Result, ok, err,
  Bytes, is_empty, drop, Option-cases, sym, append_assoc, append-nil, ◌≡◌, refl, ◌∙◌, arith, inl,
  inr, Bool-cases, length,
}
use agenttender.Recording.Format.{Record, SegmentHeader}
use agenttender.Recording.Decoded.{DecodeErrorKind, SegmentEnd, DecodedSegment, SegmentSummary}
use agenttender.Recording.Decoder.{regressed, decode_round, summary_after}
use agenttender.Recording.Segment.{Continuity, Loop, decode_records}
use agenttender.Recording.Loop.{
  Round-cases, decode_records-ended, decode_records-failed, decode_records-regressed,
  decode_records-got,
}
use agenttender.Recording.Order.{InOrder, decode_round-Continues}
use agenttender.Recording.Header.{decode_header}
use agenttender.Recording.Segment.{
  decode_segment_with_summary, finish_segment, violation_of, previous_elapsed, initial_summary,
}

-- The summary after some records.
abbrev pub summary_of : SegmentSummary → List Record → SegmentSummary
summary_of s [] = s
summary_of s (r ∷ rs) = summary_of (summary_after s r) rs

-- The first record is not before the last of the segment before.
abbrev pub FirstAfter : Option ℕ → List Record → Type 0
FirstAfter prev [] = Unit {0}
FirstAfter prev (r ∷ rs) = regressed prev r.elapsed_ns ≡ false

module _ (crc : Bytes → ℕ) where
  -- What the loop appends to its records continues the summary it starts from.
  decode_records-InOrder :
      (fuel : ℕ) (h : SegmentHeader) (prev : Option ℕ) (pos : ℕ) (rest : Bytes)
      (s s' : SegmentSummary) (records all : List Record) (end : SegmentEnd)
      → decode_records crc fuel h prev pos rest s records ≡ some (ok (all, (end, s')))
      → (new : List Record) × (all ≡ records ++ new)
        × (s' ≡ summary_of s new)
        × (is_empty records ≡ true → FirstAfter prev new)
        × InOrder h.input_recorded s.next_sequence s.last_elapsed_ns new
  unfolding decode_records summary_after
  decode_records-InOrder zero h prev pos rest s s' records all end eq = absurd (ground arith)
  decode_records-InOrder (suc fuel) h prev pos rest s s' records all end eq =
      elim (Round-cases (decode_round crc h s pos rest)) [
        | inl (e, p) ↦ (
          [],
          ground (
            arith,
            decode_records-ended crc fuel h prev pos rest s records e p,
            append-nil records,
          ),
          ground (arith, decode_records-ended crc fuel h prev pos rest s records e p),
          λ _. tt,
          tt,
        )
        | inr (inl (k, p)) ↦
            absurd (ground (arith, decode_records-failed crc fuel h prev pos rest s records k p))
        | inr (inr (r, len, p)) ↦
            elim (Bool-cases (is_empty records && regressed prev r.elapsed_ns)) [
              | inl t ↦ absurd (
                  ground
                    (arith, decode_records-regressed crc fuel h prev pos rest s records r len p t))
              | inr t ↦
                  let (new, q, f, _, o) =
                    decode_records-InOrder fuel h prev (pos + len) (drop len rest)
                      (summary_after s r) s' (records ++ (r ∷ [])) all end
                      (sym (decode_records-got crc fuel h prev pos rest s records r len p t)
                        ∙ eq) in
                  let (n, g, a) = decode_round-Continues crc h s pos rest r len p in
                  (
                    r ∷ new,
                    q ∙ append_assoc records (r ∷ []) new,
                    f,
                    (λ z. ground arith),
                    (n, g, a, o),
                  )
            ]
      ]

-- A segment that decodes has a header that continues what it is given, and the records of the loop.
pub record SegmentFacts (h : SegmentHeader) (c : Option Continuity) (new : List Record)
    (s : SegmentSummary) : Type 0 where
  pub continues : violation_of h c ≡ none
  pub header_len : ℕ
  pub summary : s ≡ summary_of (initial_summary h header_len) new
  pub first_after : FirstAfter (previous_elapsed c) new
  pub in_order : InOrder h.input_recorded (some h.first_sequence) none new

finish_ok :
    (h : SegmentHeader) (x : Option Loop) (d : DecodedSegment) (s : SegmentSummary)
    → finish_segment h x ≡ some (ok (d, s))
    → (x ≡ some (ok (d.records, (d.end, s)))) × (h ≡ d.header)
unfolding finish_segment
finish_ok h none d s eq = absurd (ground arith)
finish_ok h (some (err e)) d s eq = absurd (ground arith)
finish_ok h (some (ok (records, (end, summary)))) d s eq = (ground arith, ground arith)

module _ (crc : Bytes → ℕ) (version_num : Bytes → ℕ) (bytes : Bytes) (c : Option Continuity)
    (d : DecodedSegment) (s : SegmentSummary) where
  abbrev loop : SegmentHeader → ℕ → Option Loop
  loop h len =
      decode_records crc (suc (length bytes)) h (previous_elapsed c) len (drop len bytes)
        (initial_summary h len) []

  segment-loop :
      (h : SegmentHeader) (len : ℕ)
      → decode_header crc version_num bytes ≡ ok (h, len)
      → violation_of h c ≡ none
      → decode_segment_with_summary crc version_num bytes c ≡ finish_segment h (loop h len)
  unfolding decode_segment_with_summary
  segment-loop h len p q = rw (decode_segment_with_summary, p) (rw q refl)

  loop-Facts :
      (h : SegmentHeader) (len : ℕ)
      → violation_of h c ≡ none
      → finish_segment h (loop h len) ≡ some (ok (d, s))
      → SegmentFacts d.header c d.records s
  unfolding initial_summary
  loop-Facts h len q eq =
      let (x, k) = finish_ok h (loop h len) d s eq in
      let (new, a, f, g, o) =
        decode_records-InOrder crc (suc (length bytes)) h (previous_elapsed c) len (drop len bytes)
          (initial_summary h len) s [] d.records d.end x in
      rw (sym k, a)
        (record {
          continues = q;
          header_len = len;
          summary = f;
          first_after = g refl;
          in_order = o;
        })

  header-Facts :
      (x : Result DecodeErrorKind (SegmentHeader × ℕ))
      → decode_header crc version_num bytes ≡ x
      → decode_segment_with_summary crc version_num bytes c ≡ some (ok (d, s))
      → SegmentFacts d.header c d.records s
  unfolding decode_segment_with_summary initial_summary
  header-Facts (err kind) p eq = absurd (ground arith)
  header-Facts (ok (h, len)) p eq = elim (Option-cases (violation_of h c)) [
    | inr (v, q) ↦ absurd (ground arith)
    | inl q ↦ loop-Facts h len q (sym (segment-loop h len p q) ∙ eq)
  ]

  pub decode_segment_with_summary-Facts :
      decode_segment_with_summary crc version_num bytes c ≡ some (ok (d, s))
      → SegmentFacts d.header c d.records s
  decode_segment_with_summary-Facts eq = header-Facts (decode_header crc version_num bytes) refl eq
