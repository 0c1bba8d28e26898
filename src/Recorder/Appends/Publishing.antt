-- ===== src/Recorder/Appends/Publishing.antt =====
-- The publication of a segment and a record's encoding (src/recorder.rs), on the segments.
use agenttender.Common.{
  ℕ, List, [], ◌∷◌, ◌++◌, ◌⊎◌, some, ok, Result, Bytes, length, ◌≡◌, refl, sym, ◌∙◌, ap, arith,
  append-nil, Result-cases, Ends, failed, gave, Ends-cases, Option-cases, inl, inr,
}
use agenttender.Model.PtyControl.Requests.{ErrorKind}
use agenttender.Recording.Format.{Record, SegmentHeader}
use agenttender.Recording.Encoder.{SegmentEncoder, next_segment, header_bytes, encode}
use agenttender.Recorder.State.{RecorderLimits, StopReason}
use agenttender.Recorder.Storage.{Disk, Answers, store_publish, renamed, closed}
use agenttender.Recorder.Writer.{
  Writer, Parts, sync, synced, publish, published, prepare_here, with_encoder, check_size,
}
use agenttender.Recorder.Layout.{Rests, Ready, Prepared}

pub sync-disk : (a : Answers) (y : Parts) → (sync a y).0.disk ≡ y.disk
unfolding sync synced
sync-disk a y = ground arith

pub sync-encoder : (a : Answers) (y : Parts) → (sync a y).0.writer.encoder ≡ y.writer.encoder
unfolding sync synced
sync-encoder a y = ground arith

pub sync-segment_len :
    (a : Answers) (y : Parts) → (sync a y).0.writer.segment_len ≡ y.writer.segment_len
unfolding sync synced
sync-segment_len a y = ground arith

-- A publication closes the open segment if it succeeds, and changes no segment otherwise.
abbrev pub Publishes : Bytes → Disk → Disk × Result ErrorKind (Unit {0}) → Type 0
Publishes header d =
    Ends
      (λ d' e.
        (d'.earlier ≡ d.earlier)
        × (d'.open_segment ≡ d.open_segment)
        × ((d'.beyond ≡ d.beyond) ⊎ (d'.beyond ≡ d.beyond ++ (header ∷ []))))
      (λ d' u.
        (d'.earlier ≡ d.earlier ++ closed d.open_segment)
        × (d'.open_segment ≡ some header)
        × (d'.beyond ≡ d.beyond))

pub store_publish-Publishes :
    (index : ℕ) (header : Bytes) (a : Answers) (d : Disk)
    → Publishes header d (store_publish index header a d)
unfolding store_publish
store_publish-Publishes index header a d = elim (Result-cases (renamed index a)) [
  | inl (e, n) ↦ rw (store_publish, n) (failed _ _ (refl, refl, inl refl))
  | inr (u, n) ↦ elim (Option-cases a.sync_dir) [
    | inl m ↦ rw (store_publish, n, m) (gave _ _ (refl, refl, refl))
    | inr (e, m) ↦ rw (store_publish, n, m) (failed _ _ (refl, refl, inr refl))
  ]
]

module _ (crc : Bytes → ℕ) (h : SegmentHeader) where
  pub Rests-Ready :
      {left : Type 0} (rs : List Record) (d : Disk) (w : Writer)
      → Ready crc h rs d w
      → Rests crc h left rs d
  Rests-Ready rs d w v = record {
    segment = v.segment;
    encoder = w.encoder;
    tail = [];
    written = v.written;
    open_is = v.open_is ∙ ap some (sym (append-nil v.segment));
    behind = inl refl;
    beyond_is = inl v.alone;
  }

  -- A publication that failed leaves the segments, and the header of the next one at most.
  pub Rests-failed :
      {left : Type 0} (rs : List Record) (d d1 d' : Disk) (w : Writer) (next : SegmentEncoder)
      (header : Bytes)
      → Ready crc h rs d w
      → next_segment w.encoder ≡ ok next
      → header ≡ header_bytes crc next
      → d1 ≡ d
      → d'.earlier ≡ d1.earlier
      → d'.open_segment ≡ d1.open_segment
      → (d'.beyond ≡ d1.beyond) ⊎ (d'.beyond ≡ d1.beyond ++ (header ∷ []))
      → Rests crc h left rs d'
  Rests-failed rs d d1 d' w next header v n e same p q b =
      let alone = ap (λ x. x.beyond) same ∙ v.alone in
      record {
        segment = v.segment;
        encoder = w.encoder;
        tail = [];
        written = rw (p ∙ ap (λ x. x.earlier) same) v.written;
        open_is =
            q ∙ ap (λ x. x.open_segment) same ∙ v.open_is ∙ ap some (sym (append-nil v.segment));
        behind = inl refl;
        beyond_is = elim b [
          | inl k ↦ inl (k ∙ alone)
          | inr k ↦ inr (next, n, k ∙ ap (λ x. x ++ (header ∷ [])) alone ∙ ap (λ x. x ∷ []) e)
        ];
      }

  abbrev pub Prepares : List Record → Record → Parts × Result StopReason Bytes → Type 0
  Prepares rs r =
      Ends (λ y e. Rests crc h ⊥ rs y.disk) (λ y bytes. Prepared crc h rs r bytes y.disk y.writer)

  pub prepare_here-Prepares :
      (limits : RecorderLimits) (rs : List Record) (r : Record) (y : Parts)
      → Ready crc h rs y.disk y.writer
      → Prepares rs r (prepare_here crc limits r y)
  unfolding prepare_here with_encoder
  prepare_here-Prepares limits rs r y v = elim (Result-cases ((encode crc r y.writer.encoder).1)) [
    | inl (x, n) ↦ rw (prepare_here, n) (failed _ _ (Rests-Ready rs y.disk y.writer v))
    | inr (bytes, n) ↦ elim (Result-cases (check_size limits y.writer (length bytes))) [
      | inl (x, m) ↦ rw (prepare_here, n, m) (failed _ _ (Rests-Ready rs y.disk y.writer v))
      | inr (u, m) ↦
          rw (prepare_here, n, m)
            (gave _ _ (record {
              segment = v.segment;
              encoder = y.writer.encoder;
              written = v.written;
              encoded = ap (λ x. ((encode crc r y.writer.encoder).0, x)) n;
              open_is = v.open_is;
              len = v.len;
              alone = v.alone;
            }))
    ]
  ]

  pub publish-Publishes :
      (limits : RecorderLimits) (a : Answers) (header : Bytes) (index : ℕ) (y : Parts)
      → Ends
          (λ y' e.
            (y'.disk.earlier ≡ y.disk.earlier)
            × (y'.disk.open_segment ≡ y.disk.open_segment)
            × ((y'.disk.beyond ≡ y.disk.beyond)
                ⊎ (y'.disk.beyond ≡ y.disk.beyond ++ (header ∷ []))))
          (λ y' u.
            (y'.disk.earlier ≡ y.disk.earlier ++ closed y.disk.open_segment)
            × (y'.disk.open_segment ≡ some header)
            × (y'.writer.segment_len ≡ length header)
            × (y'.disk.beyond ≡ y.disk.beyond))
          (publish limits a header index y)
  unfolding publish published
  publish-Publishes limits a header index y =
      elim (Result-cases (check_size limits y.writer (length header))) [
        | inl (e, n) ↦ rw (publish, n) (failed _ _ (refl, refl, inl refl))
        | inr (u, n) ↦
            elim (Ends-cases (store_publish index header a y.disk)
              (store_publish-Publishes index header a y.disk)) [
                | inl (e, m, p) ↦ rw (publish, n, m) (failed _ _ p)
                | inr (v, m, p) ↦ rw (publish, published, n, m) (gave _ _ (p.0, p.1, refl, p.2))
              ]
      ]
