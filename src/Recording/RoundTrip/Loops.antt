-- ===== src/Recording/RoundTrip/Loops.antt =====
-- A segment's records (src/recording.rs): the decoding loop on what the encoder wrote, and on what
-- is left of it when its last record was cut short.
use agenttender.Common.{
  ℕ, zero, suc, ◌+◌, ◌<◌, Bool, true, false, ◌&&◌, List, [], ◌∷◌, ◌++◌, Option, none, some, ok,
  Bytes, All, is_empty, sym, ◌≡◌, refl, ap, ◌∙◌, arith, length, length-append, drop-append,
  append_assoc, append-nil, inr,
}
use agenttender.Common.Words.{IsU32}
use agenttender.Recording.Format.{Record, SegmentHeader}
use agenttender.Recording.Encoder.{SegmentEncoder, encode, advance}
use agenttender.Recording.Decoded.{SegmentSummary}
use agenttender.Recording.Decoder.{ended, regressed, decode_round, summary_after}
use agenttender.Recording.Segment.{Loop, decode_records}
use agenttender.Recording.Loop.{decode_records-ended, decode_records-got}
use agenttender.Recording.Total.{decode_round-got}
use agenttender.Recording.Order.Segments.{summary_of}
use agenttender.Recording.RoundTrip.Records.{encode-ok, IsRecord, Agrees, decode_round-encode}
use agenttender.Recording.RoundTrip.Cut.{end_at}

-- The encoder accepts the records one after another, and these are its bytes.
pub data Encodes (crc : Bytes → ℕ)
    : SegmentEncoder → List Record → SegmentEncoder → Bytes → Type 0 where
  nothing : (e : SegmentEncoder) → Encodes crc e [] e []
  one_more :
      (e e' e'' : SegmentEncoder) (r : Record) (rs : List Record) (b bs : Bytes)
      → encode crc r e ≡ (e', ok b)
      → Encodes crc e' rs e'' bs
      → Encodes crc e (r ∷ rs) e'' (b ++ bs)

Agrees-advance :
    (e : SegmentEncoder) (s : SegmentSummary) (r : Record)
    → Agrees (advance e r) (summary_after s r)
unfolding advance summary_after
Agrees-advance e s r = record { next = refl; elapsed = inr refl }

advance-header : (e : SegmentEncoder) (r : Record) → (advance e r).header ≡ e.header
unfolding advance
advance-header e r = refl

regressed-none : (x : Bool) (t : ℕ) → (x && regressed none t) ≡ false
unfolding regressed
regressed-none true t = refl
regressed-none false t = refl

loop_end :
    {xs ys : List Record} {m n : ℕ} (tail : Bytes) (s : SegmentSummary)
    → xs ≡ ys
    → m ≡ n
    → ◌≡◌ {A = Option Loop}
        (some (ok (xs, (end_at tail m, s))))
        (some (ok (ys, (end_at tail n, s))))
loop_end tail s p q = rw (p, q) refl

module _ (crc : Bytes → ℕ) (c : (bs : Bytes) → IsU32 (crc bs)) where
  -- Where the loop ends behind the records, it has read them all.
  pub decode_records-Encodes :
      (e e' : SegmentEncoder) (rs acc : List Record) (bs tail : Bytes) (fuel pos : ℕ)
      (s : SegmentSummary) (h : SegmentHeader)
      → Encodes crc e rs e' bs
      → e.header ≡ h
      → Agrees e s
      → All IsRecord rs
      → ((s : SegmentSummary) (pos : ℕ) → decode_round crc h s pos tail ≡ ended (end_at tail pos))
      → length (bs ++ tail) < fuel
      → decode_records crc fuel h none pos (bs ++ tail) s acc
        ≡ some (ok (acc ++ rs, (end_at tail (pos + length bs), summary_of s rs)))
  decode_records-Encodes e e' rs acc bs tail zero pos s h n eh a ranges t l = absurd (omega arith)
  decode_records-Encodes e e' rs acc bs tail (suc fuel) pos s h (nothing x) eh a ranges t l =
      decode_records-ended crc fuel h none pos tail s acc (end_at tail pos) (t s pos)
      ∙ loop_end tail s (sym (append-nil acc)) (omega arith)
  decode_records-Encodes e e' rs acc bs tail (suc fuel) pos s h
        (one_more x x' x'' r rs' b bs' eq more) eh a (range, ranges) t l =
      let (_, _, _, adv, _) = encode-ok crc x x' r b _ refl eq in
      let g =
        ap (λ h. decode_round crc h s pos (b ++ (bs' ++ tail))) (sym eh)
        ∙ decode_round-encode crc x x' r b (bs' ++ tail) s pos c range a eq in
      let (some_bytes, _) = decode_round-got crc h s pos (b ++ (bs' ++ tail)) r (length b) g in
      ap (λ bytes. decode_records crc (suc fuel) h none pos bytes s acc) (append_assoc b bs' tail)
      ∙ decode_records-got crc fuel h none pos (b ++ (bs' ++ tail)) s acc r (length b) g
          (regressed-none (is_empty acc) r.elapsed_ns)
      ∙ ap
          (λ rest.
            decode_records crc fuel h none (pos + length b) rest (summary_after s r)
              (acc ++ (r ∷ [])))
          (drop-append b (bs' ++ tail))
      ∙ decode_records-Encodes x' e' rs' (acc ++ (r ∷ [])) bs' tail fuel (pos + length b)
          (summary_after s r) h more (ap (λ e. e.header) adv ∙ advance-header x r ∙ eh)
          (rw adv (Agrees-advance x s r)) ranges t
          (omega
            (arith, length-append (b ++ bs') tail, length-append b bs', length-append bs' tail))
      ∙ loop_end tail (summary_of (summary_after s r) rs') (append_assoc acc (r ∷ []) rs')
          (omega (arith, length-append b bs'))
