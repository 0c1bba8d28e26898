-- ===== src/Recorder/Size.antt =====
-- The size limit of a recording (src/recorder.rs): `max_bytes` bounds the bytes on the disk.
use agenttender.Common.{
  ℕ, ◌+◌, ◌≤◌, ◌<◌, List, [], ◌∷◌, ◌++◌, Result, ok, Bytes, length, ◌≡◌, refl, arith, inl, inr,
  Bool-cases, Option-cases, Result-cases, Ends, failed, gave, Ends-cases, leb,
}
use agenttender.Common.Words.{u64_max}
use agenttender.Recording.Format.{Record}
use agenttender.Recording.Encoder.{SegmentEncoder, next_segment, header_bytes, encode}
use agenttender.Recorder.State.{RecorderLimits, StopReason}
use agenttender.Recorder.Storage.{Disk, Answers, store_publish, renamed, closed}
use agenttender.Recorder.Writer.{
  Writer, Parts, sync, synced, publish, published, prepare, prepare_here, rotate, start_segment,
  with_encoder, check_size,
}

unfoldable pub total_len_of : List Bytes → ℕ
total_len_of [] = 0
total_len_of (b ∷ bs) = length b + total_len_of bs

-- The bytes of all segments, headers included.
unfoldable pub disk_len : Disk → ℕ
disk_len d = total_len_of d.earlier + (total_len_of (closed d.open_segment) + total_len_of d.beyond)

total_len_of-append :
    (xs ys : List Bytes) → total_len_of (xs ++ ys) ≡ total_len_of xs + total_len_of ys
unfolding total_len_of
total_len_of-append [] ys = omega arith
total_len_of-append (x ∷ xs) ys = omega (arith, total_len_of-append xs ys)

-- The writer counts what is on the disk, and is within the limit.
pub record IsExact (limits : RecorderLimits) (y : Parts) : Type 0 where
  pub counted : disk_len y.disk ≡ y.writer.total_len
  pub within : y.writer.total_len ≤ limits.max_bytes

abbrev pub IsWithin : RecorderLimits → Parts → Type 0
IsWithin limits y = disk_len y.disk ≤ limits.max_bytes

store_publish-len :
    (index : ℕ) (header : Bytes) (a : Answers) (d : Disk)
    → Ends
        (λ d' e. disk_len d' ≤ disk_len d + length header)
        (λ d' u. disk_len d' ≡ disk_len d + length header)
        (store_publish index header a d)
unfolding store_publish disk_len total_len_of
store_publish-len index header a d = elim (Result-cases (renamed index a)) [
  | inl (e, n) ↦ rw (store_publish, n) (failed _ _ (omega arith))
  | inr (u, n) ↦ elim (Option-cases a.sync_dir) [
    | inl m ↦
        rw (store_publish, n, m)
          (gave _ _ (omega (arith, total_len_of-append d.earlier (closed d.open_segment))))
    | inr (e, m) ↦
        rw (store_publish, n, m)
          (failed _ _ (omega (arith, total_len_of-append d.beyond (header ∷ []))))
  ]
]

check_size-ok :
    (limits : RecorderLimits) (w : Writer) (n : ℕ) (u : Unit {0})
    → limits.max_bytes < u64_max
    → check_size limits w n ≡ ok u
    → w.total_len + n ≤ limits.max_bytes
unfolding check_size
check_size-ok limits w n u room eq = ground (arith, eq, room)

pub sync-IsExact :
    (limits : RecorderLimits) (a : Answers) (y : Parts)
    → IsExact limits y
    → IsExact limits (sync a y).0
unfolding sync synced
sync-IsExact limits a y v = record {
  counted = ground (arith, v.counted);
  within = ground (arith, v.within);
}

sync-total_len : (a : Answers) (y : Parts) → (sync a y).0.writer.total_len ≡ y.writer.total_len
unfolding sync synced
sync-total_len a y = ground arith

module _ (crc : Bytes → ℕ) (limits : RecorderLimits) (room : limits.max_bytes < u64_max) where
  pub publish-size :
      (a : Answers) (header : Bytes) (index : ℕ) (y : Parts)
      → IsExact limits y
      → Ends
          (λ y' e. IsWithin limits y')
          (λ y' u. IsExact limits y' × (y'.writer.total_len ≡ y.writer.total_len + length header))
          (publish limits a header index y)
  unfolding publish published
  publish-size a header index y v =
      elim (Result-cases (check_size limits y.writer (length header))) [
        | inl (e, n) ↦ rw (publish, n) (failed _ _ (omega (arith, v.counted, v.within)))
        | inr (u, n) ↦
            let fits = check_size-ok limits y.writer (length header) u room n in
            elim (Ends-cases (store_publish index header a y.disk)
              (store_publish-len index header a y.disk)) [
                | inl (e, m, p) ↦
                    rw (publish, n, m) (failed _ _ (omega (arith, p, fits, v.counted)))
                | inr (w, m, p) ↦
                    rw (publish, n, m)
                      (gave _ _
                        (record { counted = omega (arith, p, v.counted); within = fits }, refl))
              ]
      ]

  -- A record is encoded, and has room.
  abbrev pub HasRoom : Parts × Result StopReason Bytes → Type 0
  HasRoom =
      Ends (λ y e. IsWithin limits y)
        (λ y bytes. IsExact limits y × (y.writer.total_len + length bytes ≤ limits.max_bytes))

  pub exact-IsWithin : (y : Parts) → IsExact limits y → IsWithin limits y
  exact-IsWithin y v = omega (arith, v.counted, v.within)

  with_encoder-IsExact :
      (e : SegmentEncoder) (y : Parts) → IsExact limits y → IsExact limits (with_encoder e y)
  unfolding with_encoder
  with_encoder-IsExact e y v = record { counted = v.counted; within = v.within }

  prepare_here-HasRoom :
      (r : Record) (y : Parts) → IsExact limits y → HasRoom (prepare_here crc limits r y)
  unfolding prepare_here with_encoder
  prepare_here-HasRoom r y v =
      let e = (encode crc r y.writer.encoder).0 in
      let same = with_encoder-IsExact e y v in
      elim (Result-cases ((encode crc r y.writer.encoder).1)) [
        | inl (x, n) ↦ rw (prepare_here, n) (failed _ _ (exact-IsWithin y v))
        | inr (bytes, n) ↦ elim (Result-cases (check_size limits y.writer (length bytes))) [
          | inl (x, m) ↦ rw (prepare_here, n, m) (failed _ _ (exact-IsWithin y v))
          | inr (u, m) ↦
              rw (prepare_here, n, m)
                (gave _ _ (same, check_size-ok limits y.writer (length bytes) u room m))
        ]
      ]

  start_segment-HasRoom :
      (a : Answers) (next : SegmentEncoder) (bytes : Bytes) (y : Parts)
      → IsExact limits y
      → y.writer.total_len + (length (header_bytes crc next) + length bytes) ≤ limits.max_bytes
      → HasRoom (start_segment crc limits a next bytes y)
  unfolding start_segment with_encoder
  start_segment-HasRoom a next bytes y v fits =
      let y1 = (sync a y).0 in
      let v1 = sync-IsExact limits a y v in
      let header = header_bytes crc next in
      let index = next.header.segment_index in
      elim (Result-cases ((sync a y).1)) [
        | inl (e, n) ↦ rw (start_segment, n) (failed _ _ (exact-IsWithin y1 v1))
        | inr (u, n) ↦
            elim (Ends-cases (publish limits a header index y1)
              (publish-size a header index y1 v1)) [
                | inl (e, m, p) ↦ rw (start_segment, n, m) (failed _ _ p)
                | inr (w, m, p) ↦
                    let y2 = (publish limits a header index y1).0 in
                    rw (start_segment, n, m)
                      (gave _ _ (
                        with_encoder-IsExact next y2 p.0,
                        omega (arith, fits, p.1, sync-total_len a y),
                      ))
              ]
      ]

  rotate-HasRoom :
      (a : Answers) (r : Record) (next : SegmentEncoder) (y : Parts)
      → IsExact limits y
      → HasRoom (rotate crc limits a r next y)
  unfolding rotate
  rotate-HasRoom a r next y v =
      let next' = (encode crc r next).0 in
      elim (Result-cases ((encode crc r next).1)) [
        | inl (e, n) ↦ rw (rotate, n) (failed _ _ (exact-IsWithin y v))
        | inr (bytes, n) ↦
            let adding = length (header_bytes crc next') + length bytes in
            elim (Result-cases (check_size limits y.writer adding)) [
              | inl (x, m) ↦ rw (rotate, n, m) (failed _ _ (exact-IsWithin y v))
              | inr (u, m) ↦
                  rw (rotate, n, m)
                    (start_segment-HasRoom a next' bytes y v
                      (check_size-ok limits y.writer adding u room m))
            ]
      ]

  pub prepare-HasRoom :
      (a : Answers) (r : Record) (y : Parts) → IsExact limits y → HasRoom (prepare crc limits a r y)
  unfolding prepare
  prepare-HasRoom a r y v =
      let here = prepare_here-HasRoom r y v in
      elim (Bool-cases (leb limits.segment_bytes y.writer.segment_len)) [
        | inr n ↦ rw (prepare, n) here
        | inl n ↦ elim (Result-cases (next_segment y.writer.encoder)) [
          | inl (e, m) ↦ rw (prepare, n, m) here
          | inr (next, m) ↦ rw (prepare, n, m) (rotate-HasRoom a r next y v)
        ]
      ]
