-- ===== src/Recorder/Writer.antt =====
-- The writer's storage side (src/recorder.rs): encoding, rotation, the size limit, appends, syncs
-- and the cut after a stop. The source's `file` is the disk's open segment, and its `last_sync` is
-- a test, `due`, that each step is given.
use agenttender.Common.{
  ℕ, ◌+◌, ◌-◌, Bool, true, false, Option, none, some, Result, ok, err, Bytes, length, leb, ltb,
  if◌then◌else◌,
}
use agenttender.Model.PtyControl.Requests.{ErrorKind}
use agenttender.Recording.Format.{Record}
use agenttender.Recording.Encoder.{SegmentEncoder, next_segment, header_bytes, encode}
use agenttender.Recorder.State.{
  RecorderLimits, StopReason, size_limit, write_failed, State, saturating_add,
}
use agenttender.Recorder.Storage.{Disk, Answers, store_publish, write_all, truncate}

pub record Writer : Type 0 where
  pub encoder : SegmentEncoder
  pub segment_len : ℕ
  pub total_len : ℕ
  pub last_appended : Option ℕ
  pub unsynced : Bool

-- The recorder: the shared state, the writer and the disk under it.
pub record Parts : Type 0 where
  pub state : State
  pub writer : Writer
  pub disk : Disk

-- `Writer::new`
unfoldable pub new : SegmentEncoder → Writer
new encoder = record {
  encoder = encoder;
  segment_len = 0;
  total_len = 0;
  last_appended = none;
  unsynced = false;
}

abbrev pub invalid : StopReason
invalid = write_failed ErrorKind.invalid_data

-- `Writer::check_size`
unfoldable pub check_size : RecorderLimits → Writer → ℕ → Result StopReason (Unit {0})
check_size limits w adding =
    if ltb limits.max_bytes (saturating_add w.total_len adding) then err size_limit else ok tt

-- What a publication that succeeded changes.
unfoldable pub published : ℕ → ℕ → Disk → Parts → Parts
published index len disk y = record {
  state = record (y.state) { segments = index + 1 };
  writer = record (y.writer) { segment_len = len; total_len = y.writer.total_len + len };
  disk = disk;
}

-- `Writer::publish`
unfoldable pub publish :
    RecorderLimits → Answers → Bytes → ℕ → Parts → Parts × Result StopReason (Unit {0})
unfolding check_size store_publish published
publish limits a header index y = elim (check_size limits y.writer (length header)) [
  | err reason ↦ (y, err reason)
  | ok _ ↦
      let (disk, outcome) = store_publish index header a y.disk in
      elim outcome [
        | err kind ↦ (record y { disk = disk }, err (write_failed kind))
        | ok _ ↦ (published index (length header) disk y, ok tt)
      ]
]

-- What a sync that succeeded changes.
unfoldable pub synced : Parts → Parts
synced y = record y {
  state = record (y.state) { synced = y.writer.last_appended };
  writer = record (y.writer) { unsynced = false };
}

-- `Writer::sync`
unfoldable pub sync : Answers → Parts → Parts × Result StopReason (Unit {0})
unfolding synced
sync a y = elim y.writer.unsynced [
  | false ↦ (y, ok tt)
  | true ↦ elim a.sync_data [ some kind ↦ (y, err (write_failed kind)) | none ↦ (synced y, ok tt) ]
]

unfoldable pub with_encoder : SegmentEncoder → Parts → Parts
with_encoder e y = record y { writer = record (y.writer) { encoder = e } }

-- `Writer::append`
unfoldable pub append : Answers → Bytes → Parts → Parts × Result StopReason (Unit {0})
unfolding write_all
append a bytes y =
    let (disk, outcome) = write_all bytes a y.disk in
    elim outcome [
      | err kind ↦ (record y { disk = disk }, err (write_failed kind))
      | ok _ ↦
          let w = y.writer in
          (
            record y {
              writer = record w {
                segment_len = w.segment_len + length bytes;
                total_len = w.total_len + length bytes;
                unsynced = true;
              };
              disk = disk;
            },
            ok tt,
          )
    ]

-- `Writer::cut_back`
unfoldable pub cut_back : Answers → ℕ → Parts → Parts
unfolding truncate
cut_back a len y =
    let (disk, outcome) = truncate len a y.disk in
    elim outcome [
      | false ↦ record y { disk = disk }
      | true ↦
          let w = y.writer in
          record y {
            writer = record w {
              segment_len = len;
              total_len = w.total_len - (w.segment_len - len);
            };
            disk = disk;
          }
    ]

module _ (crc : Bytes → ℕ) where
  -- `Writer::prepare` where the segment has room, or cannot be rotated
  unfoldable pub prepare_here : RecorderLimits → Record → Parts → Parts × Result StopReason Bytes
  unfolding encode with_encoder check_size
  prepare_here limits r y =
      let (e, outcome) = encode crc r y.writer.encoder in
      elim outcome [
        | err _ ↦ (with_encoder e y, err invalid)
        | ok bytes ↦ elim (check_size limits y.writer (length bytes)) [
          | err reason ↦ (with_encoder e y, err reason)
          | ok _ ↦ (with_encoder e y, ok bytes)
        ]
      ]

  -- the rotation, once the record is encoded: the sync, and the next segment's publication
  unfoldable pub start_segment :
      RecorderLimits → Answers → SegmentEncoder → Bytes → Parts → Parts × Result StopReason Bytes
  unfolding sync publish header_bytes with_encoder
  start_segment limits a next bytes y =
      let (y1, outcome) = sync a y in
      elim outcome [
        | err reason ↦ (y1, err reason)
        | ok _ ↦
            let (y2, outcome) =
              publish limits a (header_bytes crc next) next.header.segment_index y1 in
            elim outcome [ err reason ↦ (y2, err reason) | ok _ ↦ (with_encoder next y2, ok bytes) ]
      ]

  -- `Writer::prepare` where the segment is full
  unfoldable pub rotate :
      RecorderLimits → Answers → Record → SegmentEncoder → Parts → Parts × Result StopReason Bytes
  unfolding encode check_size start_segment header_bytes
  rotate limits a r next y =
      let (e, outcome) = encode crc r next in
      elim outcome [
        | err _ ↦ (y, err invalid)
        | ok bytes ↦
            elim (check_size limits y.writer (length (header_bytes crc e) + length bytes)) [
              | err reason ↦ (y, err reason)
              | ok _ ↦ start_segment limits a e bytes y
            ]
      ]

  -- `Writer::prepare`
  unfoldable pub prepare :
      RecorderLimits → Answers → Record → Parts → Parts × Result StopReason Bytes
  unfolding prepare_here rotate next_segment
  prepare limits a r y =
      if leb limits.segment_bytes y.writer.segment_len
      then elim (next_segment y.writer.encoder) [
        | err _ ↦ prepare_here limits r y
        | ok next ↦ rotate limits a r next y
      ]
      else prepare_here limits r y
