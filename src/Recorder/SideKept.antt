-- ===== src/Recorder/SideKept.antt =====
-- What the storage side of the writer (src/recorder.rs) keeps of the shared state, from what its few
-- changes of that state keep.
use agenttender.Common.{
  ℕ, ◌+◌, Bool, true, Option, Result, ok, err, Bytes, ◌≡◌, arith, Option-cases, Result-cases,
  Outcome-cases, ◌⊎◌, inl, inr,
}
use agenttender.Recording.Format.{Record}
use agenttender.Recording.Encoder.{EncodeError, SegmentEncoder, next_segment, header_bytes, encode}
use agenttender.Recorder.State.{RecorderLimits, StopReason, State, stop, give_up}
use agenttender.Recorder.Storage.{Answers}
use agenttender.Recorder.Writer.{
  Parts, sync, synced, publish, published, append, cut_back, prepare, prepare_here, rotate,
  start_segment, with_encoder,
}
use agenttender.Recorder.System.{
  Phase, stopping, sync_or_stop, cut_if, attempt, appended_to, publish_first,
}

encoded :
    (crc : Bytes → ℕ) (r : Record) (e : SegmentEncoder)
    → ((e' : SegmentEncoder) × (x : EncodeError) × (encode crc r e ≡ (e', err x)))
      ⊎ ((e' : SegmentEncoder) × (bytes : Bytes) × (encode crc r e ≡ (e', ok bytes)))
encoded crc r e = Outcome-cases (encode crc r e)

abbrev pub state_of : {A : Type 0} → Parts × Result StopReason A → State
state_of (y, outcome) = y.state

-- What the writer's storage side may change of the shared state.
pub record IsSideKept (P : State → Type 0) : Type 0 where
  pub stops : (reason : StopReason) (s : State) → P s → P (stop reason s)
  pub publishes : (n : ℕ) (s : State) → P s → P (record s { segments = n })
  pub syncs : (o : Option ℕ) (s : State) → P s → P (record s { synced = o })
  pub ends : (s : State) → P s → P (record s { writer_done = true })

module _ {P : State → Type 0} (k : IsSideKept P) where
  pub give_up-kept : (s : State) → P s → P (give_up s)
  unfolding give_up
  give_up-kept s p = ground (arith, k.stops StopReason.stalled s p)

  pub sync-kept : (a : Answers) (y : Parts) → P y.state → P (state_of (sync a y))
  unfolding sync synced
  sync-kept a y p = ground (arith, k.syncs y.writer.last_appended y.state p)

  pub publish-kept :
      (limits : RecorderLimits) (a : Answers) (header : Bytes) (n : ℕ) (y : Parts)
      → P y.state
      → P (state_of (publish limits a header n y))
  unfolding publish published
  publish-kept limits a header n y p = ground (arith, k.publishes (n + 1) y.state p)

  pub append-kept :
      (a : Answers) (bytes : Bytes) (y : Parts) → P y.state → P (state_of (append a bytes y))
  unfolding append
  append-kept a bytes y p = ground (arith, p)

  pub cut_if-kept :
      (b : Bool) (a : Answers) (n : ℕ) (y : Parts) → P y.state → P (cut_if b a n y).state
  unfolding cut_if cut_back
  cut_if-kept b a n y p = ground (arith, p)

  pub sync_or_stop-kept :
      (a : Answers) (good bad : Phase) (y : Parts)
      → P y.state
      → P (sync_or_stop a good bad y).parts.state
  unfolding sync_or_stop stopping sync synced
  sync_or_stop-kept a good bad y p = elim (Option-cases a.sync_data) [
    | inl n ↦ ground (arith, k.syncs y.writer.last_appended y.state p)
    | inr (e, n) ↦ ground (arith, k.stops (StopReason.write_failed e) y.state p)
  ]

  module _ (limits : RecorderLimits) (crc : Bytes → ℕ) where
    prepare_here-kept :
        (r : Record) (y : Parts) → P y.state → P (state_of (prepare_here crc limits r y))
    unfolding prepare_here with_encoder
    prepare_here-kept r y p = ground (arith, p)

    start_segment-kept :
        (a : Answers) (next : SegmentEncoder) (bytes : Bytes) (y : Parts)
        → P y.state
        → P (state_of (start_segment crc limits a next bytes y))
    unfolding start_segment with_encoder
    start_segment-kept a next bytes y p = ground (
      arith,
      sync-kept a y p,
      publish-kept limits a (header_bytes crc next) next.header.segment_index (sync a y).0
          (sync-kept a y p),
    )

    rotate-kept :
        (a : Answers) (r : Record) (next : SegmentEncoder) (y : Parts)
        → P y.state
        → P (state_of (rotate crc limits a r next y))
    unfolding rotate
    rotate-kept a r next y p = elim (encoded crc r next) [
      | inl (e, x, n) ↦ ground (arith, p)
      | inr (e, bytes, n) ↦ ground (arith, start_segment-kept a e bytes y p)
    ]

    pub prepare-kept :
        (a : Answers) (r : Record) (y : Parts) → P y.state → P (state_of (prepare crc limits a r y))
    unfolding prepare
    prepare-kept a r y p = elim (Result-cases (next_segment y.writer.encoder)) [
      | inl (x, n) ↦ ground (arith, prepare_here-kept r y p)
      | inr (next, n) ↦ ground (arith, prepare_here-kept r y p, rotate-kept a r next y p)
    ]

    pub attempt-kept :
        (a : Answers) (r : Record) (y : Parts)
        → P y.state
        → P (attempt crc limits a r y).parts.state
    unfolding attempt appended_to
    attempt-kept a r y p = ground (arith, prepare-kept a r y p)

    pub publish_first-kept :
        (a : Answers) (y : Parts) → P y.state → P (publish_first crc limits a y).parts.state
    unfolding publish_first stopping
    publish_first-kept a y p =
        let q = publish-kept limits a (header_bytes crc y.writer.encoder) 0 y p in
        elim (Outcome-cases (publish limits a (header_bytes crc y.writer.encoder) 0 y)) [
          | inl (y1, reason, n) ↦ ground (arith, n, q, k.stops reason y1.state)
          | inr (y1, u, n) ↦ ground (arith, n, q)
        ]
