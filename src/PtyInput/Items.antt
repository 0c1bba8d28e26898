-- ===== src/PtyInput/Items.antt =====
-- The requests to the writer thread and the two bounded queues (src/pty_input.rs). A `SyncSender` is
-- the number of its channel.
use agenttender.Common.{
  ℕ, ◌+◌, ◌%◌, ◌^◌, Bool, true, false, List, [], ◌∷◌, ◌++◌, Option, none, some, ok, err, Bytes,
  length, leb, if◌then◌else◌, ◌==◌,
}
use agenttender.Recording.Geometry.{Geometry}
use agenttender.Model.PtyControl.Arbiter.{ControllerKind, HandleKey, ControllerHandle}
use agenttender.Model.PtyControl.Requests.{PendingInput, new_pending}

abbrev pub control_capacity : ℕ
control_capacity = 16

abbrev pub input_capacity : ℕ
input_capacity = 32

-- `claim holder kind reply`, `takeover holder reply`
pub data Control : Type 0 where
  claim : ℕ → ControllerKind → ℕ → Control
  takeover : ℕ → ℕ → Control
  resize : HandleKey → Geometry → Control
  disconnect : ControllerHandle → Control

-- `write request reply`, `end_of handle ended`
pub data InputItem : Type 0 where
  write : PendingInput → Option ℕ → InputItem
  end_of : ControllerHandle → Option ℕ → InputItem

pub record Queues : Type 0 where
  pub controls : List Control
  pub inputs : List InputItem

-- `InputWriter::request`
unfoldable pub request : ℕ → ControllerHandle → Bytes → Option PendingInput
unfolding new_pending
request id handle bytes = elim (new_pending id handle bytes) [ ok p ↦ some p | err e ↦ none ]

-- One look of `push_control` at its queue: nothing is queued while the sender has to wait.
unfoldable pub push_control : Control → Queues → Queues
push_control c q =
    if leb control_capacity (length q.controls)
    then q
    else record q { controls = q.controls ++ (c ∷ []) }

-- One look of `push_input` at its queue.
unfoldable pub push_input : InputItem → Queues → Queues
push_input item q =
    if leb input_capacity (length q.inputs)
    then q
    else record q { inputs = q.inputs ++ (item ∷ []) }

-- What `submit` and the two `write_nowait`s queue; nothing for empty input.
unfoldable pub submit : ℕ → ControllerHandle → Bytes → Option ℕ → Queues → Queues
unfolding request push_input
submit id handle bytes reply q = elim (request id handle bytes) [
  | none ↦ q
  | some p ↦ push_input (write p reply) q
]

-- `InputWriter::end_of_input` and `end_of_input_and_wait`
unfoldable pub end_of_input : ControllerHandle → Option ℕ → Queues → Queues
unfolding push_input
end_of_input handle ended q = push_input (end_of handle ended) q

-- The closure `belongs` of `disconnect`.
unfoldable pub belongs : ℕ → InputItem → Bool
belongs holder (write p reply) = p.key.holder == holder
belongs holder (end_of handle ended) = handle.key.holder == holder

-- `partition`, on both sides
unfoldable pub theirs : ℕ → List InputItem → List InputItem
unfolding belongs
theirs holder [] = []
theirs holder (item ∷ items) =
    if belongs holder item then item ∷ theirs holder items else theirs holder items

unfoldable pub others : ℕ → List InputItem → List InputItem
unfolding belongs
others holder [] = []
others holder (item ∷ items) =
    if belongs holder item then others holder items else item ∷ others holder items

-- `fetch_add(1)` on the counters of holders and requests: the number given, and the next one.
unfoldable pub fetch_add : ℕ → ℕ × ℕ
fetch_add n = (n, (n + 1) % 2 ^ 64)

-- One look of `write_nowait_unless` at its queue: its result, or none while it waits on.
unfoldable pub push_unless : Bool → PendingInput → Queues → Queues × Option Bool
push_unless abandon p q =
    if leb input_capacity (length q.inputs)
    then (if abandon then (q, some false) else (q, none))
    else (record q { inputs = q.inputs ++ (write p none ∷ []) }, some true)
