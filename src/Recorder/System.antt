-- ===== src/Recorder/System.antt =====
-- The recorder as a system (src/recorder.rs): the sections that producers, `finish` and the writer
-- thread run under the lock are steps, interleaved in any order. The writer's preparing and
-- appending of a record is one step: it takes the lock to publish `synced` and `segments` only, which
-- no other thread writes.
use agenttender.Common.{
  ℕ, ◌-◌, Bool, true, false, List, [], ◌∷◌, none, some, Result, ok, err, Bytes,
}
use agenttender.Model.PtyControl.Requests.{ErrorKind}
use agenttender.Recording.Format.{Record, SegmentHeader}
use agenttender.Recording.Encoder.{SegmentEncoder, header_bytes}
use agenttender.Recording.Encoder
use agenttender.Recorder.State.{
  RecorderLimits, StopReason, write_failed, State, initial, stop, cost_of,
}
use agenttender.Recorder.Storage.{Answers}
use agenttender.Recorder.Writer
use agenttender.Recorder.Writer.{Parts, publish, sync, append, cut_back, prepare}

-- Where the writer thread is: before its first publication, in `next_record`, with a record taken,
-- with an append attempted (or not) from a segment length, after a completed append, at the last
-- sync, past it, and ended.
pub data Phase : Type 0 where
  starting waiting : Phase
  taken : Record → Phase
  tried : ℕ → ℕ → Bool → Result StopReason (Unit {0}) → Phase
  recorded closing leaving ended : Phase

pub record System : Type 0 where
  pub phase : Phase
  pub parts : Parts

-- `io::ErrorKind::InvalidInput`
abbrev pub invalid_input : ErrorKind
invalid_input = ErrorKind.other_kind 1

-- `Shared::stop` on the shared state
unfoldable pub stopping : StopReason → Parts → Parts
unfolding stop
stopping reason y = record y { state = stop reason y.state }

-- `RecorderThread::start`: an encoder that is refused ends the recording at once.
unfoldable pub start : SegmentHeader → Result State System
unfolding initial stop Encoder.new Writer.new
start h = elim (Encoder.new h) [
  | err _ ↦
      let s = stop (write_failed invalid_input) (initial h.first_sequence) in
      err (record s { writer_done = true })
  | ok e ↦ ok (record {
    phase = Phase.starting;
    parts = record {
      state = initial h.first_sequence;
      writer = Writer.new e;
      disk = record { earlier = []; open_segment = none; beyond = [] };
    };
  })
]

-- A sync whose failure stops the recording, and the phases after it.
unfoldable pub sync_or_stop : Answers → Phase → Phase → Parts → System
unfolding sync stopping
sync_or_stop a good bad y =
    let (y1, outcome) = sync a y in
    elim outcome [
      | err reason ↦ record { phase = bad; parts = stopping reason y1 }
      | ok _ ↦ record { phase = good; parts = y1 }
    ]

-- `backlog.pop_front()` and its cost
unfoldable pub pop : Record → List Record → Parts → Parts
unfolding cost_of
pop r rest y = record y {
  state = record (y.state) {
    backlog = rest;
    backlog_bytes = y.state.backlog_bytes - cost_of r.kind;
  };
}

-- One round of `Writer::next_record`; where it waits, nothing changes.
unfoldable pub next_record : Answers → Bool → Parts → System
unfolding pop sync_or_stop
next_record a due y = elim y.state.stopped [
  | some _ ↦ record { phase = Phase.closing; parts = y }
  | none ↦ elim y.state.backlog [
    | r ∷ rest ↦ record { phase = Phase.taken r; parts = pop r rest y }
    | [] ↦ elim y.state.accepting [
      | false ↦ record { phase = Phase.closing; parts = y }
      | true ↦ elim due [
        | true ↦ sync_or_stop a Phase.waiting Phase.closing y
        | false ↦ record { phase = Phase.waiting; parts = y }
      ]
    ]
  ]
]

-- An append that completed before any stop.
unfoldable pub completed : ℕ → Parts → Parts
completed sequence y = record y {
  state = record (y.state) { appended = some sequence };
  writer = record (y.writer) { last_appended = some sequence };
}

unfoldable pub cut_if : Bool → Answers → ℕ → Parts → Parts
unfolding cut_back
cut_if true a before y = cut_back a before y
cut_if false a before y = y

-- The section of `Writer::run` behind an append.
unfoldable pub settle : Answers → ℕ → ℕ → Bool → Result StopReason (Unit {0}) → Parts → System
unfolding cut_if stopping completed
settle a sequence before attempted result y = elim y.state.stopped [
  | some _ ↦ record { phase = Phase.closing; parts = cut_if attempted a before y }
  | none ↦ elim result [
    | err reason ↦ record {
      phase = Phase.closing;
      parts = cut_if attempted a before (stopping reason y);
    }
    | ok _ ↦ record { phase = Phase.recorded; parts = completed sequence y }
  ]
]

-- The phase after an append.
unfoldable pub appended_to : ℕ → ℕ → Parts × Result StopReason (Unit {0}) → System
appended_to sequence before (y, result) = record {
  phase = Phase.tried sequence before true result;
  parts = y;
}

module _ (crc : Bytes → ℕ) where
  -- The preparing and appending in `Writer::run`.
  unfoldable pub attempt : RecorderLimits → Answers → Record → Parts → System
  unfolding prepare append appended_to
  attempt limits a r y =
      let (y1, outcome) = prepare crc limits a r y in
      elim outcome [
        | err reason ↦ record {
          phase = Phase.tried r.sequence y1.writer.segment_len false (err reason);
          parts = y1;
        }
        | ok bytes ↦ appended_to r.sequence y1.writer.segment_len (append a bytes y1)
      ]

  -- The writer's first publication.
  unfoldable pub publish_first : RecorderLimits → Answers → Parts → System
  unfolding publish header_bytes stopping
  publish_first limits a y =
      let (y1, outcome) = publish limits a (header_bytes crc y.writer.encoder) 0 y in
      elim outcome [
        | err reason ↦ record { phase = Phase.leaving; parts = stopping reason y1 }
        | ok _ ↦ record { phase = Phase.waiting; parts = y1 }
      ]

  -- The writer thread's next step.
  unfoldable pub writer_step : RecorderLimits → Answers → Bool → Phase → Parts → System
  unfolding publish_first next_record attempt settle sync_or_stop
  writer_step limits a due Phase.starting y = publish_first limits a y
  writer_step limits a due Phase.waiting y = next_record a due y
  writer_step limits a due (Phase.taken r) y = attempt limits a r y
  writer_step limits a due (Phase.tried sequence before attempted result) y =
      settle a sequence before attempted result y
  writer_step limits a due Phase.recorded y = elim due [
    | true ↦ sync_or_stop a Phase.waiting Phase.closing y
    | false ↦ record { phase = Phase.waiting; parts = y }
  ]
  writer_step limits a due Phase.closing y = sync_or_stop a Phase.leaving Phase.leaving y
  writer_step limits a due Phase.leaving y = record {
    phase = Phase.ended;
    parts = record y { state = record (y.state) { writer_done = true } };
  }
  writer_step limits a due Phase.ended y = record { phase = Phase.ended; parts = y }
