-- ===== src/Recorder/Reach.antt =====
-- The runs of the recorder (src/recorder.rs): the steps of the threads in any order, on any answers
-- of the file system, with a clock that does not go back.
use agenttender.Common.{ℕ, Bool, true, List, [], ◌∷◌, ◌++◌, map, Bytes, length}
use agenttender.Recording.Format.{RecordKind, output, resized, ResizeCause}
use agenttender.Recording.Geometry.{Geometry}
use agenttender.Recorder.State.{
  RecorderLimits, State, chunks, output_offered, resize_applied, close, give_up,
}
use agenttender.Recorder.Storage.{Answers}
use agenttender.Recorder.System.{System, writer_step}

-- What a thread does next: a producer's `output` or `resize_applied`, the two sections of `finish`,
-- and the writer's next step, with the file system's answers and whether a sync is due.
pub data Event : Type 0 where
  outputs : (ℕ → ℕ) → Bytes → Event
  resizes : ℕ → Geometry → ResizeCause → Bool → Event
  closes gives_up : Event
  writes : Answers → Bool → Event

unfoldable pub on_state : (State → State) → System → System
on_state f y = let p = y.parts in record { phase = y.phase; parts = record p { state = f p.state } }

unfoldable pub step : (Bytes → ℕ) → RecorderLimits → Event → System → System
unfolding on_state output_offered resize_applied close give_up writer_step
step crc limits (outputs clock bytes) y = on_state (output_offered limits clock bytes) y
step crc limits (resizes now geometry cause applied) y =
    on_state (resize_applied limits now geometry cause applied) y
step crc limits closes y = on_state close y
step crc limits gives_up y = on_state give_up y
step crc limits (writes a due) y = writer_step crc limits a due y.phase y.parts

unfoldable pub run : (Bytes → ℕ) → RecorderLimits → List Event → System → System
unfolding step
run crc limits [] y = y
run crc limits (e ∷ es) y = run crc limits es (step crc limits e y)

-- What a producer offers.
unfoldable pub offers : Event → List RecordKind
unfolding chunks
offers (outputs clock bytes) = map output (chunks (length bytes) bytes)
offers (resizes now geometry cause true) = resized geometry cause ∷ []
offers _ = []

-- What the producers offer before `finish` closes the recording.
unfoldable pub offered : List Event → List RecordKind
unfolding offers
offered [] = []
offered (closes ∷ es) = []
offered (e ∷ es) = offers e ++ offered es
