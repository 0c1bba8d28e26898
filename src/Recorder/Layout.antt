-- ===== src/Recorder/Layout.antt =====
-- What the segments of a recording hold (src/recorder.rs over src/recording.rs): a header and the
-- encodings of the records of each, and behind them, in the open one, what an append that failed or
-- came too late has left.
use agenttender.Common.{ℕ, List, [], ◌∷◌, ◌++◌, some, ok, Bytes, length, ◌≡◌, ◌⊎◌, inl, inr, take}
use agenttender.Recording.Format.{Record, SegmentHeader}
use agenttender.Recording.Encoder.{SegmentEncoder, next_segment, header_bytes, encode}
use agenttender.Recording.Encoder
use agenttender.Recorder.Storage.{Disk}
use agenttender.Recorder.Writer.{Writer}

-- The encoder, started on a header, has written these records: the segments that it has closed, and
-- the bytes of the open one.
pub data Writes (crc : Bytes → ℕ) (h : SegmentHeader)
    : List Bytes → Bytes → SegmentEncoder → List Record → Type 0 where
  opened : (e : SegmentEncoder) → Encoder.new h ≡ ok e → Writes crc h [] (header_bytes crc e) e []
  grown :
      (earlier : List Bytes) (segment : Bytes) (e e' : SegmentEncoder) (rs : List Record)
      (r : Record) (bytes : Bytes)
      → Writes crc h earlier segment e rs
      → encode crc r e ≡ (e', ok bytes)
      → Writes crc h earlier (segment ++ bytes) e' (rs ++ (r ∷ []))
  rotated :
      (earlier : List Bytes) (segment : Bytes) (e e' : SegmentEncoder) (rs : List Record)
      → Writes crc h earlier segment e rs
      → next_segment e ≡ ok e'
      → Writes crc h (earlier ++ (segment ∷ [])) (header_bytes crc e') e' rs

module _ (crc : Bytes → ℕ) where
  -- The bytes are of an append of a record that the encoder accepts: all of them, or the first ones.
  abbrev pub IsPartial : SegmentEncoder → Bytes → Type 0
  IsPartial e tail =
      (r : Record) × (e' : SegmentEncoder) × (bytes : Bytes) × (n : ℕ) × (encode crc r e
        ≡ (e', ok bytes))
      × (tail ≡ take n bytes)

  -- Nothing was renamed into place in vain, or the header alone of the encoder's next segment.
  abbrev pub IsBeyond : SegmentEncoder → List Bytes → Type 0
  IsBeyond e beyond =
      (beyond ≡ [])
      ⊎ ((next : SegmentEncoder) × (next_segment e ≡ ok next)
          × (beyond ≡ header_bytes crc next ∷ []))

module _ (crc : Bytes → ℕ) (h : SegmentHeader) where
  -- The records are on the disk. Behind them are the bytes `tail`, of one append and for the reason
  -- `left` only, and no other segment but an empty one.
  pub record Rests (left : Type 0) (rs : List Record) (d : Disk) : Type 0 where
    pub segment : Bytes
    pub encoder : SegmentEncoder
    pub tail : Bytes
    pub written : Writes crc h d.earlier segment encoder rs
    pub open_is : d.open_segment ≡ some (segment ++ tail)
    pub behind : (tail ≡ []) ⊎ (left × IsPartial crc encoder tail)
    pub beyond_is : IsBeyond crc encoder d.beyond

  -- The same, with a reason that follows.
  pub Rests-weaken :
      {left left' : Type 0} (f : left → left') (rs : List Record) (d : Disk)
      → Rests left rs d
      → Rests left' rs d
  Rests-weaken f rs d v = record {
    segment = v.segment;
    encoder = v.encoder;
    tail = v.tail;
    written = v.written;
    open_is = v.open_is;
    behind = elim v.behind [ inl e ↦ inl e | inr (l, p) ↦ inr (f l, p) ];
    beyond_is = v.beyond_is;
  }

  -- The writer is ready for another record.
  pub record Ready (rs : List Record) (d : Disk) (w : Writer) : Type 0 where
    pub segment : Bytes
    pub written : Writes crc h d.earlier segment w.encoder rs
    pub open_is : d.open_segment ≡ some segment
    pub len : w.segment_len ≡ length segment
    pub alone : d.beyond ≡ []

  -- A record is encoded, and not appended.
  pub record Prepared (rs : List Record) (r : Record) (bytes : Bytes) (d : Disk) (w : Writer)
      : Type 0 where
    pub segment : Bytes
    pub encoder : SegmentEncoder
    pub written : Writes crc h d.earlier segment encoder rs
    pub encoded : encode crc r encoder ≡ (w.encoder, ok bytes)
    pub open_is : d.open_segment ≡ some segment
    pub len : w.segment_len ≡ length segment
    pub alone : d.beyond ≡ []

  -- A record is appended, at the length `before` of the segment.
  pub record Appended (rs : List Record) (r : Record) (before : ℕ) (d : Disk) (w : Writer)
      : Type 0 where
    pub segment : Bytes
    pub bytes : Bytes
    pub encoder : SegmentEncoder
    pub written : Writes crc h d.earlier segment encoder rs
    pub encoded : encode crc r encoder ≡ (w.encoder, ok bytes)
    pub open_is : d.open_segment ≡ some (segment ++ bytes)
    pub before_is : before ≡ length segment
    pub len : w.segment_len ≡ length (segment ++ bytes)
    pub alone : d.beyond ≡ []

  pub Ready-Appended :
      (rs : List Record) (r : Record) (before : ℕ) (d : Disk) (w : Writer)
      → Appended rs r before d w
      → Ready (rs ++ (r ∷ [])) d w
  Ready-Appended rs r before d w v = record {
    segment = v.segment ++ v.bytes;
    written = Writes.grown d.earlier v.segment v.encoder w.encoder rs r v.bytes v.written v.encoded;
    open_is = v.open_is;
    len = v.len;
    alone = v.alone;
  }
