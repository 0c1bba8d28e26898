-- ===== src/Recorder/Limit/Storage.antt =====
-- The bytes that the calls of the storage (src/recorder.rs) leave on the disk.
use agenttender.Common.{
  ℕ, ◌+◌, ◌≤◌, Bool, true, false, Bytes, length, take, length-append, length-take, ◌≡◌, ap, arith,
  inl, inr, Option-cases, Ends, failed, gave, Ends-cases,
}
use agenttender.Recorder.State.{RecorderLimits}
use agenttender.Recorder.Storage.{Disk, Answers, closed, write_all, truncate}
use agenttender.Recorder.Writer.{Parts, append, cut_back}
use agenttender.Recorder.System.{cut_if}
use agenttender.Recorder.Size.{total_len_of, disk_len, IsExact, IsWithin}

pub take-≤ : (n : ℕ) (xs : Bytes) → length (take n xs) ≤ length xs
take-≤ n xs = omega (arith, length-take n xs)

pub write_all-len :
    (bytes : Bytes) (a : Answers) (d : Disk)
    → Ends
        (λ d' e. disk_len d' ≤ disk_len d + length bytes)
        (λ d' u. disk_len d' ≡ disk_len d + length bytes)
        (write_all bytes a d)
unfolding write_all disk_len total_len_of
write_all-len bytes a d = elim (Option-cases d.open_segment) [
  | inl o ↦ rw (write_all, o) (failed _ _ (omega (arith, ap (λ o. total_len_of (closed o)) o)))
  | inr (segment, o) ↦ elim (Option-cases a.write) [
    | inl n ↦ rw (write_all, o, n) (gave _ _ (omega (arith, length-append segment bytes)))
    | inr (f, n) ↦
        rw (write_all, o, n)
          (failed _ _ (omega (arith, length-append segment (take f.1 bytes), take-≤ f.1 bytes)))
  ]
]

pub append-size :
    (limits : RecorderLimits) (a : Answers) (bytes : Bytes) (y : Parts)
    → IsExact limits y
    → y.writer.total_len + length bytes ≤ limits.max_bytes
    → Ends (λ y' e. IsWithin limits y') (λ y' u. IsExact limits y') (append a bytes y)
unfolding append
append-size limits a bytes y v fits =
    elim (Ends-cases (write_all bytes a y.disk) (write_all-len bytes a y.disk)) [
      | inl (e, n, p) ↦ rw (append, n) (failed _ _ (omega (arith, p, fits, v.counted)))
      | inr (u, n, p) ↦
          rw (append, n)
            (gave _ _ (record { counted = omega (arith, p, v.counted); within = fits }))
    ]

pub truncate-len : (n : ℕ) (a : Answers) (d : Disk) → disk_len (truncate n a d).0 ≤ disk_len d
unfolding truncate disk_len total_len_of
truncate-len n a d = elim (Option-cases d.open_segment) [
  | inl o ↦ rw (truncate, o) (omega (arith, ap (λ o. total_len_of (closed o)) o))
  | inr (segment, o) ↦ elim (Option-cases a.set_len) [
    | inr (e, m) ↦ rw (truncate, o, m) (omega (arith, ap (λ o. total_len_of (closed o)) o))
    | inl m ↦ elim (Option-cases a.seek) [
      | inl k ↦ rw (truncate, o, m, k) (omega (arith, take-≤ n segment))
      | inr (e, k) ↦ rw (truncate, o, m, k) (omega (arith, take-≤ n segment))
    ]
  ]
]

pub cut_back-disk :
    (a : Answers) (n : ℕ) (y : Parts) → (cut_back a n y).disk ≡ (truncate n a y.disk).0
unfolding cut_back
cut_back-disk a n y = ground arith

pub cut_if-IsWithin :
    (limits : RecorderLimits) (b : Bool) (a : Answers) (n : ℕ) (y : Parts)
    → IsWithin limits y
    → IsWithin limits (cut_if b a n y)
unfolding cut_if
cut_if-IsWithin limits true a n y v =
    rw (cut_back-disk a n y) (omega (arith, v, truncate-len n a y.disk))
cut_if-IsWithin limits false a n y v = v
