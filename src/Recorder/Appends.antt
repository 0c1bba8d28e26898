-- ===== src/Recorder/Appends.antt =====
-- What the writer's operations (src/recorder.rs) make of the segments.
pub mod Preparing
pub mod Publishing
use agenttender.Common.{
  ℕ, ◌+◌, Bool, true, false, List, [], ◌∷◌, ◌++◌, Option, none, some, Result, ok, err, Bytes,
  length, ◌≡◌, refl, sym, ◌∙◌, ap, arith, append-nil, take-append, take_all, length-append,
  Result-cases, Outcome-cases, Ends, failed, gave, Ends-cases, Option-cases, Bool-cases, inl, inr,
  take, leb,
}
use mathlib.Core.Path.{subst}
use agenttender.Model.PtyControl.Requests.{ErrorKind}
use agenttender.Recording.Format.{Record, SegmentHeader}
use agenttender.Recording.Encoder.{
  SegmentEncoder, EncodeError, next_segment, header_bytes, encode, advance, accept,
}
use agenttender.Recorder.State.{RecorderLimits, StopReason}
use agenttender.Recorder.Storage.{
  Disk, Answers, store_publish, renamed, closed, write_all, truncate,
}
use agenttender.Recorder.Writer.{
  Writer, Parts, sync, synced, publish, published, append, cut_back, prepare, prepare_here, rotate,
  start_segment, with_encoder, check_size,
}
use agenttender.Recorder.Layout.{Writes, Rests, Rests-weaken, Ready, Prepared, Appended}
use agenttender.Recorder.Appends.Publishing.{
  sync-disk, sync-encoder, sync-segment_len, Publishes, store_publish-Publishes, Rests-Ready,
  Prepares, prepare_here-Prepares, publish-Publishes,
}
use agenttender.Recorder.Appends.Preparing.{
  start_segment-Prepares, encode-header_bytes, rotate-Prepares, prepare-Prepares,
}

-- The answer of a call that failed.
abbrev pub IsFailure : Option ErrorKind → Type 0
IsFailure none = ⊥
IsFailure (some kind) = Unit

failure : (o : Option ErrorKind) (kind : ErrorKind) → o ≡ some kind → IsFailure o
failure none kind e = absurd (ground arith)
failure (some k) kind e = tt

module _ (crc : Bytes → ℕ) (h : SegmentHeader) where
  -- An append leaves the record's bytes, or some of them, behind the segment.
  write_all-Ends :
      (bytes segment : Bytes) (a : Answers) (d : Disk)
      → d.open_segment ≡ some segment
      → Ends
          (λ d' e.
            (n : ℕ) × (d'.open_segment ≡ some (segment ++ take n bytes))
            × (d'.earlier ≡ d.earlier)
            × (d'.beyond ≡ d.beyond))
          (λ d' u.
            (d'.open_segment ≡ some (segment ++ bytes))
            × (d'.earlier ≡ d.earlier)
            × (d'.beyond ≡ d.beyond))
          (write_all bytes a d)
  unfolding write_all
  write_all-Ends bytes segment a d o = elim (Option-cases a.write) [
    | inl n ↦ rw (write_all, o, n) (gave _ _ (refl, refl, refl))
    | inr (f, n) ↦ rw (write_all, o, n) (failed _ _ (f.1, refl, refl, refl))
  ]

  -- The records rest, and the segment that holds the last of them ends at `before`.
  abbrev pub RestsAt : List Record → ℕ → Disk → Type 0
  RestsAt rs before d = (v : Rests crc h Unit rs d) × (before ≡ length v.segment)

  pub append-Ends :
      (a : Answers) (rs : List Record) (r : Record) (bytes : Bytes) (y : Parts)
      → Prepared crc h rs r bytes y.disk y.writer
      → Ends
          (λ y' e. RestsAt rs y.writer.segment_len y'.disk)
          (λ y' u. Appended crc h rs r y.writer.segment_len y'.disk y'.writer)
          (append a bytes y)
  unfolding append
  append-Ends a rs r bytes y v =
      elim (Ends-cases (write_all bytes a y.disk)
        (write_all-Ends bytes v.segment a y.disk v.open_is)) [
          | inl (e, n, p) ↦
              rw (append, n)
                (failed _ _ (
                  record {
                    segment = v.segment;
                    encoder = v.encoder;
                    tail = take p.0 bytes;
                    written = rw p.2 v.written;
                    open_is = p.1;
                    behind = inr (tt, (r, y.writer.encoder, bytes, p.0, v.encoded, refl));
                    beyond_is = inl (p.3 ∙ v.alone);
                  },
                  v.len,
                ))
          | inr (u, n, p) ↦
              rw (append, n)
                (gave _ _ (record {
                  segment = v.segment;
                  bytes = bytes;
                  encoder = v.encoder;
                  written = rw p.1 v.written;
                  encoded = v.encoded;
                  open_is = p.0;
                  before_is = v.len;
                  len = omega (arith, v.len, length-append v.segment bytes);
                  alone = p.2 ∙ v.alone;
                }))
        ]

  pub RestsAt-Appended :
      (rs : List Record) (r : Record) (before : ℕ) (d : Disk) (w : Writer)
      → Appended crc h rs r before d w
      → RestsAt rs before d
  RestsAt-Appended rs r before d w v = (
    record {
      segment = v.segment;
      encoder = v.encoder;
      tail = v.bytes;
      written = v.written;
      open_is = v.open_is;
      behind = inr (
        tt,
        (
          r,
          w.encoder,
          v.bytes,
          length v.bytes,
          v.encoded,
          sym (take_all (length v.bytes) v.bytes (omega arith)),
        ),
      );
      beyond_is = inl v.alone;
    },
    v.before_is,
  )

  cut_back-truncate :
      (a : Answers) (before : ℕ) (y : Parts)
      → (cut_back a before y).disk ≡ (truncate before a y.disk).0
  unfolding cut_back
  cut_back-truncate a before y = ground arith

  truncate-Rests :
      {left : Type 0} (a : Answers) (rs : List Record) (before : ℕ) (d : Disk)
      → (IsFailure a.set_len → left)
      → RestsAt rs before d
      → Rests crc h left rs (truncate before a d).0
  unfolding truncate
  truncate-Rests {left} a rs before d f (v, b) =
      let cut : Rests crc h left rs
          (record d { open_segment = some (take before (v.segment ++ v.tail)) }) =
        record {
          segment = v.segment;
          encoder = v.encoder;
          tail = [];
          written = v.written;
          open_is = ap some (
              ap (λ n. take n (v.segment ++ v.tail)) b
              ∙ take-append v.segment v.tail
              ∙ sym (append-nil v.segment));
          behind = inl refl;
          beyond_is = v.beyond_is;
        } in
      elim (Option-cases a.set_len) [
        | inr (e, n) ↦
            rw (truncate, v.open_is, n) (Rests-weaken crc h (λ u. f (failure a.set_len e n)) rs d v)
        | inl n ↦ elim (Option-cases a.seek) [
          | inr (e, m) ↦ rw (truncate, v.open_is, n, m) cut
          | inl m ↦ rw (truncate, v.open_is, n, m) cut
        ]
      ]

  -- A cut leaves the records that rest below it, and nothing behind them unless it fails.
  pub cut_back-Rests :
      {left : Type 0} (a : Answers) (rs : List Record) (before : ℕ) (y : Parts)
      → (IsFailure a.set_len → left)
      → RestsAt rs before y.disk
      → Rests crc h left rs (cut_back a before y).disk
  cut_back-Rests a rs before y f v =
      rw (cut_back-truncate a before y) (truncate-Rests a rs before y.disk f v)
