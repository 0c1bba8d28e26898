-- ===== src/Recording/RoundTrip/Rotation.antt =====
-- The rotation to another segment (src/recording.rs): `next_segment` against the checks that the
-- decoder makes across segments.
use agenttender.Common.{
  ℕ, ◌+◌, Bool, true, false, List, Option, none, some, ok, Bytes, bytes_eq_iff, sym, ◌≡◌, refl, ap,
  ◌∙◌, arith, ◌⊎◌, ◌≢◌, inl, inr,
}
use agenttender.Recording.Format.{SegmentHeader, Record, geometry_after}
use agenttender.Recording.Geometry.{Geometry}
use agenttender.Recording.Encoder.{SegmentEncoder, new, advance, next_segment}
use agenttender.Recording.Decoded.{SegmentSummary}
use agenttender.Recording.Decoder.{summary_after}
use agenttender.Recording.Segment.{
  Continuity, previous_elapsed, initial_summary, check_header_continuity, continues_from, is_next,
  bool_eq, geometry_eq,
}
use agenttender.Recording.Order.Segments.{summary_of}
use agenttender.Recording.RoundTrip.Headers.{same}
use agenttender.Recording.RoundTrip.Records.{encode-ok}
use agenttender.Recording.RoundTrip.Loops.{Encodes, nothing, one_more}

-- The decoder's summary says what the encoder's state says.
pub record Follows (h : SegmentHeader) (e : SegmentEncoder) (s : SegmentSummary) : Type 0 where
  pub header : e.header ≡ h
  pub next : e.next_sequence ≡ s.next_sequence
  pub geometry : e.geometry ≡ s.final_geometry
  pub elapsed : (e.records ≡ 0) ⊎ (e.last_elapsed_ns ≡ s.last_elapsed_ns)

-- The encoder of a segment before its first record: of the first segment, or after a rotation.
pub data Starts : SegmentHeader → SegmentEncoder → Type 0 where
  first_segment : (h : SegmentHeader) (e : SegmentEncoder) → new h ≡ ok e → Starts h e
  later_segment : (e e' : SegmentEncoder) → next_segment e ≡ ok e' → Starts e'.header e'

Follows-Starts :
    (h : SegmentHeader) (e : SegmentEncoder) (n : ℕ)
    → Starts h e
    → Follows h e (initial_summary h n)
unfolding new next_segment initial_summary
Follows-Starts h e n (Starts.first_segment h' e' eq) = record {
  header = ground arith;
  next = ground arith;
  geometry = ground arith;
  elapsed = inl (ground arith);
}
Follows-Starts h e n (Starts.later_segment before e' eq) = record {
  header = refl;
  next = ground arith;
  geometry = ground arith;
  elapsed = inl (ground arith);
}

Follows-advance :
    (h : SegmentHeader) (e : SegmentEncoder) (s : SegmentSummary) (r : Record)
    → Follows h e s
    → Follows h (advance e r) (summary_after s r)
unfolding advance summary_after
Follows-advance h e s r f = record {
  header = f.header;
  next = refl;
  geometry = ap (geometry_after r.kind) f.geometry;
  elapsed = inr refl;
}

Follows-Encodes :
    (crc : Bytes → ℕ) (h : SegmentHeader) (e e' : SegmentEncoder) (rs : List Record) (bs : Bytes)
    (s : SegmentSummary)
    → Encodes crc e rs e' bs
    → Follows h e s
    → Follows h e' (summary_of s rs)
Follows-Encodes crc h e e' rs bs s (nothing x) f = f
Follows-Encodes crc h e e' rs bs s (one_more x x' x'' r rs' b bs' eq more) f =
    let (_, _, _, adv, _) = encode-ok crc x x' r b _ refl eq in
    Follows-Encodes crc h x' e' rs' bs' (summary_after s r) more
      (rw adv (Follows-advance h x s r f))

-- What all segments of a recording share.
pub record SameRecording (first h : SegmentHeader) : Type 0 where
  pub run_id : h.run_id.uuid ≡ first.run_id.uuid
  pub origin : h.origin_unix_ns ≡ first.origin_unix_ns
  pub input : h.input_recorded ≡ first.input_recorded
  pub term : h.term ≡ first.term

bool_eq-same : (a b : Bool) → a ≡ b → bool_eq a b ≡ true
unfolding bool_eq
bool_eq-same true b p = sym p
bool_eq-same false b p = ground arith

geometry_eq-same : (a b : Geometry) → a ≡ b → geometry_eq a b ≡ true
unfolding geometry_eq
geometry_eq-same a b p = ground arith

is_next-same : (o : Option ℕ) (n : ℕ) → o ≡ some n → is_next o n ≡ true
unfolding is_next
is_next-same none n p = absurd (ground arith)
is_next-same (some m) n p = ground arith

continues_from-ok :
    (first hd : SegmentHeader) (s : SegmentSummary)
    → SameRecording first hd
    → s.next_sequence ≡ some hd.first_sequence
    → hd.geometry ≡ s.final_geometry
    → continues_from hd first s ≡ none
unfolding continues_from
continues_from-ok first hd s sr n g =
    rw
      (
        (bytes_eq_iff hd.run_id.uuid first.run_id.uuid).1 sr.run_id,
        same hd.origin_unix_ns first.origin_unix_ns sr.origin,
        bool_eq-same hd.input_recorded first.input_recorded sr.input,
        (bytes_eq_iff hd.term first.term).1 sr.term,
        is_next-same s.next_sequence hd.first_sequence n,
        geometry_eq-same hd.geometry s.final_geometry g,
      )
      refl

check-ok :
    (hd first : SegmentHeader) (s : SegmentSummary) (n : ℕ)
    → hd.segment_index ≡ n
    → continues_from hd first s ≡ none
    → check_header_continuity hd (record { position = n; previous = some (first, s) }) ≡ none
unfolding check_header_continuity
check-ok hd first s n p q = rw (same hd.segment_index n p) q

-- What `next_segment` makes of the state.
next_segment-ok :
    (e e' : SegmentEncoder)
    → next_segment e ≡ ok e'
    → (e.next_sequence ≡ some e'.header.first_sequence)
      × (e'.header ≡ record (e.header) {
        segment_index = e.header.segment_index + 1;
        first_sequence = e'.header.first_sequence;
        geometry = e.geometry;
      })
      × (e'.last_elapsed_ns ≡ e.last_elapsed_ns)
      × (e.records ≢ 0)
unfolding next_segment
next_segment-ok e e' eq = (ground arith, ground arith, ground arith, ground arith)

-- The segment that a rotation starts, behind the first segment or a later one, has a header that
-- passes every check of the decoder against the segments before it, and the last time that its encoder
-- keeps is the one with which the decoder compares the segment's first record.
pub next_segment-continues :
    (crc : Bytes → ℕ) (first h : SegmentHeader) (e e' e'' : SegmentEncoder) (rs : List Record)
    (bs : Bytes) (n : ℕ)
    → Starts h e
    → Encodes crc e rs e' bs
    → SameRecording first h
    → next_segment e' ≡ ok e''
    → let c : Continuity = record {
      position = h.segment_index + 1;
      previous = some (first, summary_of (initial_summary h n) rs);
    } in
      (check_header_continuity e''.header c ≡ none)
      × (e''.last_elapsed_ns ≡ previous_elapsed (some c))
unfolding previous_elapsed
next_segment-continues crc first h e e' e'' rs bs n start enc sr eq =
    let f =
      Follows-Encodes crc h e e' rs bs (initial_summary h n) enc (Follows-Starts h e n start) in
    let (p, q, t, some_record) = next_segment-ok e' e'' eq in
    let s = summary_of (initial_summary h n) rs in
    let hd = e''.header in
    let same_h =
      q
      ∙ ap {A = SegmentHeader} {B = SegmentHeader}
          (λ k. record k {
            segment_index = k.segment_index + 1;
            first_sequence = hd.first_sequence;
            geometry = e'.geometry;
          })
          f.header in
    (
      check-ok hd first s (h.segment_index + 1) (ap (λ k. k.segment_index) same_h) (
          continues_from-ok first hd s
            (record {
              run_id = ap (λ k. k.run_id.uuid) same_h ∙ sr.run_id;
              origin = ap (λ k. k.origin_unix_ns) same_h ∙ sr.origin;
              input = ap (λ k. k.input_recorded) same_h ∙ sr.input;
              term = ap (λ k. k.term) same_h ∙ sr.term;
            })
            (sym f.next ∙ p) (ap (λ k. k.geometry) same_h ∙ f.geometry)),
      elim f.elapsed [ inl z ↦ absurd (some_record z) | inr x ↦ t ∙ x ],
    )
