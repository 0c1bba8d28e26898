-- ===== src/Recorder/State.antt =====
-- The state that the producers and the writer share (src/recorder.rs). `reported` holds the calls of
-- the stop callback, and a call's `now` is the clock's reading in nanoseconds since the origin.
use agenttender.Common.{
  ℕ, zero, suc, ◌+◌, min, Bool, true, false, not, ◌||◌, List, [], ◌∷◌, ◌++◌, Option, none, some,
  Bytes, length, take, drop, ltb, if◌then◌else◌,
}
use agenttender.Common.Words.{u64_max}
use agenttender.Model.PtyControl.Requests.{ErrorKind}
use agenttender.Recording.Format.{
  RecordKind, output, resized, input, Record, ResizeCause, max_payload, next_sequence_of,
}
use agenttender.Recording.Geometry.{Geometry}

pub record RecorderLimits : Type 0 where
  pub segment_bytes : ℕ
  pub max_bytes : ℕ
  pub backlog_bytes : ℕ

pub data StopReason : Type 0 where
  size_limit : StopReason
  write_failed : ErrorKind → StopReason
  backlog_full : StopReason
  stalled : StopReason

pub record Stopped : Type 0 where
  pub last_recorded : Option ℕ
  pub reason : StopReason

pub record RecorderSummary : Type 0 where
  pub last_recorded : Option ℕ
  pub last_synced : Option ℕ
  pub stopped : Option Stopped
  pub segments : ℕ

-- `on_stop` says that the callback has not been taken.
pub record State : Type 0 where
  pub next : Option ℕ
  pub backlog : List Record
  pub backlog_bytes : ℕ
  pub accepting : Bool
  pub appended : Option ℕ
  pub synced : Option ℕ
  pub segments : ℕ
  pub stopped : Option Stopped
  pub on_stop : Bool
  pub reported : List Stopped
  pub writer_done : Bool

abbrev pub resize_cost : ℕ
resize_cost = 16

unfoldable pub cost_of : RecordKind → ℕ
cost_of (output bytes) = length bytes
cost_of (input bytes) = length bytes
cost_of (resized geometry cause) = resize_cost

-- `u64::saturating_add`, and `usize::saturating_add` where it has 64 bits
abbrev pub saturating_add : ℕ → ℕ → ℕ
saturating_add a b = min (a + b) u64_max

abbrev pub is_some {ℓ} : {A : Type ℓ} → Option A → Bool
is_some none = false
is_some (some a) = true

-- `RecorderThread::start`, before its thread runs; `first` is the header's first sequence.
unfoldable pub initial : ℕ → State
initial first = record {
  next = some first;
  backlog = [];
  backlog_bytes = 0;
  accepting = true;
  appended = none;
  synced = none;
  segments = 0;
  stopped = none;
  on_stop = true;
  reported = [];
  writer_done = false;
}

-- `state.on_stop.take()`, and the call of what it held
abbrev pub report : Bool → Stopped → List Stopped → List Stopped
report true stopped reported = reported ++ (stopped ∷ [])
report false stopped reported = reported

-- `Shared::stop`
unfoldable pub stop : StopReason → State → State
stop reason s = elim s.stopped [
  | some _ ↦ s
  | none ↦
      let stopped : Stopped = record { last_recorded = s.appended; reason = reason } in
      record s {
        stopped = some stopped;
        backlog = [];
        backlog_bytes = 0;
        on_stop = false;
        reported = report s.on_stop stopped s.reported;
      }
]

-- The record that takes a sequence: the clock's reading is cut to a u64.
unfoldable pub sequenced : ℕ → ℕ → RecordKind → Record
sequenced now sequence kind = record {
  sequence = sequence;
  elapsed_ns = min now u64_max;
  kind = kind;
}

-- `backlog.push_back` and what goes with it
unfoldable pub push : Record → State → State
unfolding next_sequence_of cost_of
push r s = record s {
  next = next_sequence_of r.sequence;
  backlog = s.backlog ++ (r ∷ []);
  backlog_bytes = s.backlog_bytes + cost_of r.kind;
}

-- `Shared::enqueue`
unfoldable pub enqueue : RecorderLimits → ℕ → RecordKind → State → State
unfolding stop sequenced push cost_of
enqueue limits now kind s = if is_some s.stopped || not s.accepting then s else elim s.next [
  | none ↦ stop size_limit s
  | some sequence ↦
      if ltb limits.backlog_bytes (saturating_add s.backlog_bytes (cost_of kind))
      then stop backlog_full s
      else push (sequenced now sequence kind) s
]

-- `bytes.chunks(MAX_PAYLOAD)`, on the bytes' number as fuel
unfoldable pub chunks : ℕ → Bytes → List Bytes
chunks zero bytes = []
chunks (suc fuel) [] = []
chunks (suc fuel) (b ∷ bytes) =
    take max_payload (b ∷ bytes) ∷ chunks fuel (drop max_payload (b ∷ bytes))

-- The loop of `Recorder::output`; chunk `i` is sequenced when the clock reads `clock i`.
unfoldable pub enqueue_chunks : RecorderLimits → (ℕ → ℕ) → ℕ → List Bytes → State → State
unfolding enqueue
enqueue_chunks limits clock i [] s = s
enqueue_chunks limits clock i (chunk ∷ rest) s =
    enqueue_chunks limits clock (suc i) rest (enqueue limits (clock i) (output chunk) s)

-- `Recorder::output`
unfoldable pub output_offered : RecorderLimits → (ℕ → ℕ) → Bytes → State → State
unfolding enqueue_chunks chunks
output_offered limits clock bytes s = enqueue_chunks limits clock 0 (chunks (length bytes) bytes) s

-- `Recorder::resize_applied`; `applied` says whether `apply` succeeded.
unfoldable pub resize_applied : RecorderLimits → ℕ → Geometry → ResizeCause → Bool → State → State
unfolding enqueue
resize_applied limits now geometry cause applied s =
    if applied then enqueue limits now (resized geometry cause) s else s

-- The two critical sections of `RecorderThread::finish`, and its summary.
unfoldable pub close : State → State
close s = record s { accepting = false }

unfoldable pub give_up : State → State
unfolding stop
give_up s = if s.writer_done then s else stop stalled s

unfoldable pub summary : State → RecorderSummary
summary s = record {
  last_recorded = s.appended;
  last_synced = s.synced;
  stopped = s.stopped;
  segments = s.segments;
}
