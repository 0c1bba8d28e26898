-- ===== src/Examples/Inputs.antt =====
-- Senders of PTY input, and a writer thread whose PTY takes one byte at a time.
use agenttender.Common.{
  ℕ, ◌+◌, ◌≡◌, refl, arith, List, [], ◌∷◌, ◌++◌, ◌⊎◌, Option, none, some, Result, ok, Bytes,
  bytes_eq, codes,
}
use agenttender.Model.Ids.{RunId}
use agenttender.Model.PtyControl.Arbiter.{human, ControllerHandle, unowned}
use agenttender.Model.PtyControl.Requests.{PtyInputSink, ErrorKind, PendingInput}
use agenttender.PtyInput.Items.{Control, InputItem}
use agenttender.PtyInput.Serving.{release_input, EndMarker, staged, in_flight}
use agenttender.PtyInput.Rounds.{Phase, Thread, Event, run, served_disconnect}
use agenttender.PtyInput.Capacity.{IsBounded, run-IsBounded}
use agenttender.PtyInput.Cancelled.{Splits, Controls, served_disconnect-Splits}
use agenttender.PtyInput.Answers.{control_hits, item_hits}
use agenttender.PtyInput.Totals.{total_of}
use agenttender.PtyInput.Once.{requested, run-total}

abbrev taking : Bytes → Bytes → Bytes × Result ErrorKind ℕ
taking [] got = (got, ok 0)
taking (b ∷ bs) got = (got ++ (b ∷ []), ok 1)

-- The state is what the PTY has been given.
abbrev slow : PtyInputSink
slow = record { State = Bytes; try_write = taking }

abbrev run_id : RunId
run_id = record { uuid = codes "0123456789abcdef" }

abbrev handle : ControllerHandle
handle = record { key = record { run_id = run_id; epoch = 1; holder = 7 }; kind = human }

abbrev ls : PendingInput
ls = record {
  request_id = 1;
  key = handle.key;
  kind = human;
  bytes = codes "ls";
  accepted = 0;
  outcome = none;
}

abbrev fresh : Thread Bytes
fresh = record {
  phase = Phase.at_top;
  queues = record { controls = []; inputs = [] };
  arbiter = record { run_id = run_id; state = unowned 0 };
  pty = [];
  current = none;
  effects = [];
}

abbrev events : List (Event slow)
events =
    Event.controls (Control.claim 7 human 3)
    ∷ Event.inputs (InputItem.write ls (some 4))
    ∷ Event.works
    ∷ Event.works
    ∷ Event.works
    ∷ Event.inputs (InputItem.end_of handle (some 5))
    ∷ Event.controls (Control.disconnect handle)
    ∷ Event.works
    ∷ []

fresh-IsBounded : IsBounded fresh.queues
fresh-IsBounded = record { few_controls = omega arith; few_inputs = omega arith }

run-IsBounded_example : IsBounded (run slow events fresh).queues
run-IsBounded_example = run-IsBounded slow events fresh fresh-IsBounded

run-total_example :
    total_of slow 4 (run slow events fresh) ≡ total_of slow 4 fresh + requested slow 4 events fresh
run-total_example = run-total slow 4 events fresh

one_request : requested slow 4 events fresh ≡ 1
unfolding requested control_hits item_hits bytes_eq
one_request = refl

-- One of the two bytes is written when the disconnect is served.
abbrev writing : Thread Bytes
writing = run slow events fresh

one_byte : writing.pty ≡ codes "l"
unfolding run bytes_eq
one_byte = refl

served_disconnect-Splits_example :
    let y' = served_disconnect slow handle [] none writing in
    (Splits 7 writing.queues.inputs y'.queues.inputs)
    × ((kept : Option EndMarker) × (y'.phase ≡ Phase.serving [] kept) × Splits 7 [] (staged kept))
    × (Splits 7 (in_flight writing.current) (in_flight y'.current))
    × (y'.queues.controls ≡ writing.queues.controls)
    × ((y'.pty ≡ writing.pty) ⊎ Controls 7 (release_input handle writing.arbiter).0.state)
served_disconnect-Splits_example = served_disconnect-Splits slow handle [] none writing
