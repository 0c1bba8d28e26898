-- ===== src/Recorder/Holds.antt =====
-- The invariant of the recorder (src/recorder.rs): the segments hold the records that the ledger
-- counts as appended, phase by phase of the writer.
use agenttender.Common.{ℕ, true, false, List, [], ◌∷◌, none, ok, err, Bytes, ◌≡◌, ◌⊎◌}
use agenttender.Recording.Format.{Record, RecordKind, SegmentHeader}
use agenttender.Recording.Encoder.{SegmentEncoder, header_bytes}
use agenttender.Recording.Encoder
use agenttender.Recorder.State.{StopReason, State}
use agenttender.Recorder.Storage.{Disk}
use agenttender.Recorder.Writer.{Parts}
use agenttender.Recorder.Layout.{Rests, Ready, Appended}
use agenttender.Recorder.Appends.{RestsAt}
use agenttender.Recorder.Ledger.{Ledger, stop-Ledger}
use agenttender.Recorder.System.{System, Phase}
use agenttender.Recorder.SideKept.{IsSideKept}

-- The phases that append nothing more.
pub data IsLast : Phase → Type 0 where
  at_closing : IsLast Phase.closing
  at_leaving : IsLast Phase.leaving
  at_ended : IsLast Phase.ended

-- Nothing is left to record, unless recording has stopped.
abbrev pub IsDone : State → Type 0
IsDone s = s.stopped ≡ none → (s.backlog ≡ []) × (s.accepting ≡ false)

pub Ledger-IsSideKept :
    (rs ps : List Record) (offered : List RecordKind) → IsSideKept (Ledger rs ps offered)
Ledger-IsSideKept rs ps offered = record {
  stops = λ reason s v. stop-Ledger reason s v;
  publishes = λ n s v. v;
  syncs = λ o s v. v;
  ends = λ s v. v;
}

-- No segment was renamed into place in vain, or the header alone of the first one.
abbrev pub IsFirstBeyond : (Bytes → ℕ) → SegmentHeader → List Bytes → Type 0
IsFirstBeyond crc h beyond =
    (beyond ≡ [])
    ⊎ ((e : SegmentEncoder) × (Encoder.new h ≡ ok e) × (beyond ≡ header_bytes crc e ∷ []))

-- `left` is the reason why a part of an append that the recording has not kept is left behind.
module _ (crc : Bytes → ℕ) (h : SegmentHeader) (left : Type 0) where
  -- The records are on the disk, and nothing else below the last of them.
  abbrev pub IsOnDisk : List Record → Disk → Type 0
  IsOnDisk rs d =
      Rests crc h left rs d
      ⊎ ((rs ≡ []) × (d.earlier ≡ []) × (d.open_segment ≡ none) × IsFirstBeyond crc h d.beyond)

  pub data Holds (offered : List RecordKind) : Phase → Parts → Type 0 where
    starts :
        (y : Parts)
        → Encoder.new h ≡ ok y.writer.encoder
        → y.disk.earlier ≡ []
        → y.disk.open_segment ≡ none
        → y.disk.beyond ≡ []
        → Ledger [] [] offered y.state
        → Holds offered Phase.starting y
    waits :
        (rs : List Record) (y : Parts)
        → Ready crc h rs y.disk y.writer
        → Ledger rs [] offered y.state
        → Holds offered Phase.waiting y
    settled :
        (rs : List Record) (y : Parts)
        → Ready crc h rs y.disk y.writer
        → Ledger rs [] offered y.state
        → Holds offered Phase.recorded y
    takes :
        (rs : List Record) (r : Record) (y : Parts)
        → Ready crc h rs y.disk y.writer
        → Ledger rs (r ∷ []) offered y.state
        → Holds offered (Phase.taken r) y
    appends :
        (rs : List Record) (r : Record) (before : ℕ) (u : Unit {0}) (y : Parts)
        → Appended crc h rs r before y.disk y.writer
        → Ledger rs (r ∷ []) offered y.state
        → Holds offered (Phase.tried r.sequence before true (ok u)) y
    fails :
        (rs : List Record) (r : Record) (q before : ℕ) (reason : StopReason) (y : Parts)
        → RestsAt crc h rs before y.disk
        → Ledger rs (r ∷ []) offered y.state
        → Holds offered (Phase.tried q before true (err reason)) y
    refuses :
        (rs : List Record) (r : Record) (q before : ℕ) (reason : StopReason) (y : Parts)
        → Rests crc h ⊥ rs y.disk
        → Ledger rs (r ∷ []) offered y.state
        → Holds offered (Phase.tried q before false (err reason)) y
    finishes :
        (rs : List Record) (phase : Phase) (y : Parts)
        → IsLast phase
        → IsOnDisk rs y.disk
        → Ledger rs [] offered y.state
        → IsDone y.state
        → Holds offered phase y

  abbrev pub HoldsIn : List RecordKind → System → Type 0
  HoldsIn offered y = Holds offered y.phase y.parts
