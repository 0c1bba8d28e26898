-- ===== src/Recording/Order.antt =====
-- What a recording of src/recording.rs holds: consecutive sequence numbers, times that never go
-- back, and input only where the header says that input is recorded.
pub mod Segments
pub mod Joins
pub mod Recordings
use agenttender.Common.{
  ℕ, zero, suc, ◌+◌, Bool, true, false, ◌&&◌, List, [], ◌∷◌, ◌++◌, Option, none, some, Result, ok,
  err, Bytes, is_empty, drop, sym, append_assoc, append-nil, guard, take, ◌>>◌, ap, ◌>>=◌, ◌≡◌,
  refl, ◌∙◌, arith, inl, inr, Bool-cases, All, ◌<◌, ◌≤◌, length,
}
use mathlib.Core.Path.{subst}
use agenttender.Recording.Geometry
use agenttender.Common.Words.{word64, word32}
use agenttender.Recording.Geometry.{Geometry}
use agenttender.Recording.Format.{
  prefix_len, crc_len, body_fixed_len, Record, RecordKind, output, input, resized, ResizeCause,
  user, repaint, SegmentHeader, next_sequence_of,
}
use agenttender.Recording.Decoded.{Violation, SegmentEnd, DecodedSegment, SegmentSummary}
use agenttender.Recording.Decoder.{
  head_or_zero, got, regressed, decode_round, checked_round, got_body, decode_body, body_kind,
  is_expected, summary_after,
}
use agenttender.Recording.Segment.{Loop, decode_records}
use agenttender.Recording.Loop.{
  Round-cases, decode_records-ended, decode_records-failed, decode_records-regressed,
  decode_records-got,
}

-- The kinds that a header allows.
pub data Allows : Bool → RecordKind → Type 0 where
  output_ok : {b : Bool} (bytes : Bytes) → 0 < length bytes → Allows b (output bytes)
  input_ok : (bytes : Bytes) → 0 < length bytes → Allows true (input bytes)
  resize_ok :
      {b : Bool} (g : Geometry) (cause : ResizeCause)
      → 0 < g.rows
      → 0 < g.cols
      → Allows b (resized g cause)

-- The records follow the sequence number expected and the time of the record before.
abbrev pub InOrder : Bool → Option ℕ → Option ℕ → List Record → Type 0
InOrder b next last [] = Unit {0}
InOrder b next last (r ∷ rs) =
    (next ≡ some r.sequence)
    × (regressed last r.elapsed_ns ≡ false)
    × Allows b r.kind
    × InOrder b (next_sequence_of r.sequence) (some r.elapsed_ns) rs

non_empty : (xs : Bytes) → is_empty xs ≡ false → 0 < length xs
non_empty [] p = absurd (ground arith)
non_empty (x ∷ xs) p = omega arith

body_kind-Allows :
    (k : ℕ) (payload : Bytes) (b : Bool) (kind : RecordKind)
    → body_kind k payload b ≡ ok kind
    → Allows b kind
unfolding body_kind Geometry.new
body_kind-Allows k payload b (output bytes) eq = output_ok bytes (ground (arith, non_empty payload))
body_kind-Allows k payload true (input bytes) eq =
    input_ok bytes (ground (arith, non_empty payload))
body_kind-Allows k payload false (input bytes) eq = absurd (ground arith)
body_kind-Allows k payload b (resized g cause) eq = resize_ok g cause (ground arith) (ground arith)

-- A record that continues what the summary says.
abbrev pub Continues : Bool → SegmentSummary → Record → Type 0
Continues b s r =
    (s.next_sequence ≡ some r.sequence)
    × (regressed s.last_elapsed_ns r.elapsed_ns ≡ false)
    × Allows b r.kind

is_expected-some : (o : Option ℕ) (n : ℕ) → is_expected o n ≡ true → o ≡ some n
unfolding is_expected
is_expected-some none n eq = absurd (ground arith)
is_expected-some (some m) n eq = ap some (ground arith)

-- The value of a chain that succeeds, and that its head did.
pub bind_ok :
    {E A B : Type 0} (m : Result E A) (next : A → Result E B) (b : B)
    → (m >>= next) ≡ ok b
    → (a : A) × (m ≡ ok a) × (next a ≡ ok b)
bind_ok (ok a) next b eq = (a, refl, eq)
bind_ok (err e) next b eq = absurd (ground arith)

guards_ok :
    {E : Type 0} (t u : Bool) (e f : E) (x r : Record)
    → (guard t e >> (guard u f >> ok x)) ≡ ok r
    → (t ≡ true) × (u ≡ true) × (x ≡ r)
guards_ok true true e f x r eq = (refl, refl, ground arith)
guards_ok true false e f x r eq = absurd (ground arith)
guards_ok false u e f x r eq = absurd (ground arith)

decode_body-Continues :
    (body : Bytes) (h : SegmentHeader) (s : SegmentSummary) (r : Record)
    → decode_body body h s ≡ ok r
    → Continues h.input_recorded s r
unfolding decode_body
decode_body-Continues body h s r eq =
    let (kind, p, q) =
      bind_ok (body_kind (head_or_zero body) (drop body_fixed_len body) h.input_recorded) _ r eq in
    let (t, u, x) = guards_ok (is_expected s.next_sequence (word64 (drop 1 body))) _ _ _ _ r q in
    subst (Continues h.input_recorded s) x (
      is_expected-some s.next_sequence _ t,
      ground arith,
      body_kind-Allows (head_or_zero body) (drop body_fixed_len body) h.input_recorded kind p,
    )

got_body-Continues :
    (len len' : ℕ) (x : Result Violation Record) (r : Record)
    → got_body len x ≡ got r len'
    → x ≡ ok r
unfolding got_body
got_body-Continues len len' (ok x) r eq = ap ok (ground arith)
got_body-Continues len len' (err e) r eq = absurd (ground arith)

module _ (crc : Bytes → ℕ) where
  pub decode_round-Continues :
      (h : SegmentHeader) (s : SegmentSummary) (pos : ℕ) (rest : Bytes) (r : Record) (len : ℕ)
      → decode_round crc h s pos rest ≡ got r len
      → Continues h.input_recorded s r
  unfolding decode_round checked_round
  decode_round-Continues h s pos rest r len eq =
      decode_body-Continues (drop prefix_len (take (prefix_len + word32 rest) rest)) h s r
        (got_body-Continues (prefix_len + word32 rest + crc_len) len _ r (ground arith))
