-- ===== src/Examples/Recorders.antt =====
-- A recorder that writes two outputs and closes.
use agenttender.Common.{
  ◌⊎◌, ℕ, ◌+◌, ◌*◌, ◌≤◌, ◌≡◌, refl, arith, List, [], ◌∷◌, ◌++◌, Bool, true, false, none, some, ok,
  Bytes, codes, length,
}
use agenttender.Model.PtyControl.Requests.{ErrorKind}
use agenttender.Recording.Format.{Record, output, SegmentHeader}
use agenttender.Recorder.State.{RecorderLimits, Stopped, StopReason}
use agenttender.Recorder.Storage.{Answers}
use agenttender.Recorder.System.{System, Phase, start}
use agenttender.Recorder.Reach.{Event, run, offered}
use agenttender.Recorder.Stops.{IsSound, run-IsSound, HasStopped, run-HasStopped}
use agenttender.Recorder.Recorded.{IsTrying, run-Recording, run_complete}
use agenttender.Recorder.Recorded.Threads.{Recording, SomeCutFails}
use agenttender.Recorder.Holds.{IsOnDisk}
use agenttender.Recorder.Ledger.{kinds}
use agenttender.Recorder.Ending.{run-ended, by_writer}
use agenttender.Recorder.Limit.{run-IsWithin}
use agenttender.Recorder.Size.{IsWithin}

abbrev seven : Bytes → ℕ
seven bs = 7

abbrev header : SegmentHeader
header = record {
  run_id = record { uuid = codes "0123456789abcdef" };
  segment_index = 0;
  first_sequence = 1;
  origin_unix_ns = 1700000000000000000;
  geometry = record { rows = 24; cols = 80 };
  input_recorded = false;
  term = codes "xterm";
}

abbrev limits : RecorderLimits
limits = record { segment_bytes = 100; max_bytes = 1000; backlog_bytes = 100 }

abbrev begun : System
begun = record {
  phase = Phase.starting;
  parts = record {
    state = record {
      next = some 1;
      backlog = [];
      backlog_bytes = 0;
      accepting = true;
      appended = none;
      synced = none;
      segments = 0;
      stopped = none;
      on_stop = true;
      reported = [];
      writer_done = false;
    };
    writer = record {
      encoder = record {
        header = header;
        next_sequence = some 1;
        last_elapsed_ns = none;
        geometry = header.geometry;
        records = 0;
      };
      segment_len = 0;
      total_len = 0;
      last_appended = none;
      unsynced = false;
    };
    disk = record { earlier = []; open_segment = none; beyond = [] };
  };
}

begun-start : start header ≡ ok begun
unfolding start
begun-start = refl

abbrev fine : Answers
fine = record {
  create_dirs = none;
  open_tmp = none;
  write_header = none;
  sync_header = none;
  rename_tmp = none;
  sync_dir = none;
  write = none;
  sync_data = none;
  set_len = none;
  seek = none;
}

abbrev clock : ℕ → ℕ
clock i = 5

abbrev events : List Event
events =
    Event.writes fine false
    ∷ Event.outputs clock (codes "hi")
    ∷ Event.writes fine false
    ∷ Event.outputs clock (codes "there")
    ∷ Event.writes fine false
    ∷ Event.writes fine true
    ∷ Event.closes
    ∷ Event.outputs clock (codes "late")
    ∷ []

abbrev to_the_end : List Event
to_the_end =
    events
    ++ by_writer (
        (fine, false)
        ∷ (fine, false)
        ∷ (fine, true)
        ∷ (fine, false)
        ∷ (fine, false)
        ∷ (fine, false)
        ∷ (fine, true)
        ∷ (fine, false)
        ∷ (fine, true)
        ∷ [])

ends : (run seven limits to_the_end begun).phase ≡ Phase.ended
unfolding run
ends = refl

unstopped : (run seven limits to_the_end begun).parts.state.stopped ≡ none
unfolding run
unstopped = refl

run_complete_example :
    (rs : List Record) × IsOnDisk seven header
      (SomeCutFails to_the_end)
      rs
      (run seven limits to_the_end begun).parts.disk
    × (kinds rs ≡ offered to_the_end)
run_complete_example = run_complete seven header limits begun to_the_end begun-start ends unstopped

offered_kinds : offered to_the_end ≡ output (codes "hi") ∷ output (codes "there") ∷ []
unfolding offered
offered_kinds = refl

-- The second write fails when three of its bytes are written.
abbrev full : Answers
full = record fine { write = some (ErrorKind.other_kind 28, 3) }

abbrev failing : List Event
failing = events ++ by_writer ((fine, false) ∷ (fine, false) ∷ (full, false) ∷ (fine, true) ∷ [])

run-Recording_example :
    Recording seven header
      (IsTrying (run seven limits failing begun).phase ⊎ SomeCutFails failing)
      (offered failing)
      (run seven limits failing begun).parts.disk
      (run seven limits failing begun).parts.state
run-Recording_example = run-Recording seven header limits begun failing begun-start

run-IsSound_example : IsSound limits (run seven limits failing begun).parts.state
run-IsSound_example = run-IsSound seven limits header begun failing (omega arith) begun-start

run-IsWithin_example : IsWithin limits (run seven limits failing begun).parts
run-IsWithin_example = run-IsWithin seven limits header begun failing (omega arith) begun-start

abbrev broken : Stopped
broken = record {
  last_recorded = some 1;
  reason = StopReason.write_failed (ErrorKind.other_kind 28);
}

broken-stopped : (run seven limits failing begun).parts.state.stopped ≡ some broken
unfolding run
broken-stopped = refl

run-HasStopped_example :
    HasStopped broken
      (run seven limits failing begun).parts.state.appended
      (run seven limits failing begun).parts.state.reported
      (run seven limits events (run seven limits failing begun)).parts.state
run-HasStopped_example =
    run-HasStopped seven limits (run seven limits failing begun) events broken broken-stopped

closed : (run seven limits events begun).parts.state.accepting ≡ false
unfolding run
closed = refl

abbrev eleven : List (Answers × Bool)
eleven =
    (fine, false)
    ∷ (fine, false)
    ∷ (fine, true)
    ∷ (full, false)
    ∷ (fine, false)
    ∷ (fine, false)
    ∷ (fine, true)
    ∷ (fine, false)
    ∷ (fine, true)
    ∷ (fine, true)
    ∷ (fine, true)
    ∷ []

queued : 4 * length (run seven limits events begun).parts.state.backlog + 6 ≤ length eleven
unfolding run
queued = omega arith

run-ended_example :
    (run seven limits (by_writer eleven) (run seven limits events begun)).phase ≡ Phase.ended
run-ended_example = run-ended seven limits (run seven limits events begun) eleven closed queued
