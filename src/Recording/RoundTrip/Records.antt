-- ===== src/Recording/RoundTrip/Records.antt =====
-- A record that `SegmentEncoder::encode` accepts (src/recording.rs) is read back by the decoder.
use agenttender.Common.{
  ℕ, ◌+◌, ◌<◌, ◌≤◌, Bool, false, [], ◌∷◌, ◌++◌, none, some, Result, ok, err, Bytes, drop, sym,
  append_assoc, ◌≡◌, refl, ap, ◌∙◌, arith, length, length-append, inl, inr, ◌⊎◌,
}
use agenttender.Common.Words.{IsU32, IsU64, be32, be64, word64, word64-be64}
use agenttender.Recording.Geometry
use agenttender.Recording.Geometry.{Geometry, IsGeometry}
use agenttender.Recording.Format.{
  Record, RecordKind, output, input, resized, user, repaint, SegmentHeader, prefix_len, crc_len,
  body_fixed_len,
}
use agenttender.Recording.Encoder.{
  check_elapsed, SegmentEncoder, EncodeError, encode, accept, advance, kind_and_payload,
  checked_payload, resize_bytes, cause_bytes, record_body, sealed,
}
use agenttender.Recording.RoundTrip.{framed, decode_round-framed}
use agenttender.Recording.Decoded.{SegmentSummary}
use agenttender.Recording.Decoder.{
  regressed, is_expected, got, got_body, decode_round, decode_body, body_kind, resize_cause,
  head_or_zero,
}

-- A kind whose numbers are in the range of their Rust types.
abbrev pub IsKind : RecordKind → Type 0
IsKind (output bytes) = Unit {0}
IsKind (input bytes) = Unit {0}
IsKind (resized g user) = IsGeometry g
IsKind (resized g (repaint correlation)) = IsGeometry g × (0 < correlation) × IsU32 correlation

pub record IsRecord (r : Record) : Type 0 where
  pub sequence_range : IsU64 r.sequence
  pub elapsed_range : IsU64 r.elapsed_ns
  pub kind_range : IsKind r.kind

-- An accepted payload reads back as the kind it was made of, and its length is in bounds.
pub body_kind-payload :
    (b : Bool) (kind : RecordKind) (k : ℕ) (payload : Bytes)
    → IsKind kind
    → kind_and_payload b kind ≡ ok (k, payload)
    → (body_kind k payload b ≡ ok kind) × (length payload ≤ 65536)
unfolding kind_and_payload checked_payload body_kind resize_bytes Geometry.new resize_cause
    head_or_zero cause_bytes
body_kind-payload b (output bytes) k payload h eq = (ground arith, ground arith)
body_kind-payload b (input bytes) k payload h eq = (ground arith, ground arith)
body_kind-payload b (resized g user) k payload h eq = (ground arith, ground arith)
body_kind-payload b (resized g (repaint c)) k payload (h, pos, range) eq =
    (ground arith, ground arith)

-- The body that an encoder writes.
abbrev pub body_of : ℕ → Record → Bytes → Bytes
body_of k r payload = k ∷ (be64 r.sequence ++ (be64 r.elapsed_ns ++ payload))

-- The decoder is where the encoder is. A later segment starts without a time of its own.
pub record Agrees (e : SegmentEncoder) (s : SegmentSummary) : Type 0 where
  pub next : s.next_sequence ≡ e.next_sequence
  pub elapsed : (s.last_elapsed_ns ≡ none) ⊎ (s.last_elapsed_ns ≡ e.last_elapsed_ns)

-- What the checks of `encode` say of a record that passes them.
pub record Accepted (e : SegmentEncoder) (r : Record) (k : ℕ) (payload : Bytes) : Type 0 where
  pub next : e.next_sequence ≡ some r.sequence
  pub elapsed : regressed e.last_elapsed_ns r.elapsed_ns ≡ false
  pub kind : kind_and_payload e.header.input_recorded r.kind ≡ ok (k, payload)

accept-Accepted :
    (e : SegmentEncoder) (r : Record) (k : ℕ) (payload : Bytes)
    → accept e r ≡ ok (k, payload)
    → Accepted e r k payload
unfolding accept check_elapsed regressed
accept-Accepted e r k payload eq = record {
  next = ground arith;
  elapsed = ground arith;
  kind = ground arith;
}

decode_body-fields :
    (body : Bytes) (h : SegmentHeader) (s : SegmentSummary) (r : Record)
    → word64 (drop 1 body) ≡ r.sequence
    → word64 (drop 9 body) ≡ r.elapsed_ns
    → s.next_sequence ≡ some r.sequence
    → regressed s.last_elapsed_ns r.elapsed_ns ≡ false
    → body_kind (head_or_zero body) (drop body_fixed_len body) h.input_recorded ≡ ok r.kind
    → decode_body body h s ≡ ok r
unfolding decode_body is_expected
decode_body-fields body h s r p q n e b = ground arith

decode_body-body_of :
    (h : SegmentHeader) (s : SegmentSummary) (r : Record) (k : ℕ) (payload : Bytes)
    → IsRecord r
    → s.next_sequence ≡ some r.sequence
    → regressed s.last_elapsed_ns r.elapsed_ns ≡ false
    → body_kind k payload h.input_recorded ≡ ok r.kind
    → decode_body (body_of k r payload) h s ≡ ok r
unfolding head_or_zero
decode_body-body_of h s r k payload range n e b =
    decode_body-fields (body_of k r payload) h s r
      (word64-be64 r.sequence (be64 r.elapsed_ns ++ payload) range.sequence_range)
      (word64-be64 r.elapsed_ns payload range.elapsed_range) n e b

Agrees-elapsed :
    (e : SegmentEncoder) (s : SegmentSummary) (t : ℕ)
    → Agrees e s
    → regressed e.last_elapsed_ns t ≡ false
    → regressed s.last_elapsed_ns t ≡ false
unfolding regressed
Agrees-elapsed e s t a p = elim a.elapsed [ inl q ↦ rw q refl | inr q ↦ rw q p ]

bytes_or_none : Result EncodeError Bytes → Bytes
bytes_or_none (ok bytes) = bytes
bytes_or_none (err e) = []

module _ (crc : Bytes → ℕ) where
  encode-accepted :
      (e : SegmentEncoder) (r : Record) (k : ℕ) (payload : Bytes)
      → accept e r ≡ ok (k, payload)
      → encode crc r e ≡ (advance e r, ok (sealed crc (record_body k r payload)))
  unfolding encode
  encode-accepted e r k payload p = rw (encode, p) refl

  pub encode-ok :
      (e e' : SegmentEncoder) (r : Record) (bytes : Bytes) (x : Result EncodeError (ℕ × Bytes))
      → accept e r ≡ x
      → encode crc r e ≡ (e', ok bytes)
      → (k : ℕ) × (payload : Bytes) × Accepted e r k payload
        × (e' ≡ advance e r)
        × (bytes ≡ sealed crc (record_body k r payload))
  unfolding encode bytes_or_none
  encode-ok e e' r bytes (err x) p eq = absurd (ground arith)
  encode-ok e e' r bytes (ok (k, payload)) p eq =
      let q = sym eq ∙ encode-accepted e r k payload p in
      (k, payload, accept-Accepted e r k payload p, ap (λ t. t.0) q, ap (λ t. bytes_or_none t.1) q)

  sealed-got :
      (h : SegmentHeader) (s : SegmentSummary) (pos : ℕ) (rest : Bytes) (r : Record) (k : ℕ)
      (payload : Bytes)
      → ((bs : Bytes) → IsU32 (crc bs))
      → length payload ≤ 65536
      → decode_body (body_of k r payload) h s ≡ ok r
      → decode_round crc h s pos (sealed crc (record_body k r payload) ++ rest)
        ≡ got r (length (sealed crc (record_body k r payload)))
  unfolding record_body got_body
  sealed-got h s pos rest r k payload c bound d =
      let w = body_fixed_len + length payload in
      let body = body_of k r payload in
      let frame = framed w body in
      let l : length body ≡ w = omega arith in
      ap (decode_round crc h s pos) (append_assoc frame (be32 (crc frame)) rest)
      ∙ decode_round-framed crc body rest w l (omega arith) (omega arith) (c frame) h s pos
      ∙ ap (got_body (prefix_len + w + crc_len)) d
      ∙ ap (got r) (omega (arith, length-append frame (be32 (crc frame))))

  -- A record that the encoder accepts is what the decoder gets from its bytes, whatever follows
  -- them, when the checksum is a u32 and the record's numbers are in range.
  pub decode_round-encode :
      (e e' : SegmentEncoder) (r : Record) (bytes rest : Bytes) (s : SegmentSummary) (pos : ℕ)
      → ((bs : Bytes) → IsU32 (crc bs))
      → IsRecord r
      → Agrees e s
      → encode crc r e ≡ (e', ok bytes)
      → decode_round crc e.header s pos (bytes ++ rest) ≡ got r (length bytes)
  decode_round-encode e e' r bytes rest s pos c range a eq =
      let (k, payload, acc, _, b) = encode-ok e e' r bytes _ refl eq in
      let (kind, bound) =
        body_kind-payload e.header.input_recorded r.kind k payload range.kind_range acc.kind in
      rw b (
        sealed-got e.header s pos rest r k payload c bound (
          decode_body-body_of e.header s r k payload range (a.next ∙ acc.next)
            (Agrees-elapsed e s r.elapsed_ns a acc.elapsed) kind))
