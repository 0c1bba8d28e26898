-- ===== src/Recorder/Recorded/Threads.antt =====
-- A step of any thread (src/recorder.rs) keeps the invariant.
use agenttender.Common.{
  ◌⊎◌, ℕ, Bool, true, false, List, [], ◌∷◌, ◌++◌, map, none, ok, Bytes, length, ◌≡◌, refl, ◌∙◌, ap,
  arith,
}
use agenttender.Recording.Format.{Record, RecordKind, SegmentHeader, output, resized}
use agenttender.Recording.Encoder
use agenttender.Recorder.State.{
  RecorderLimits, State, close, give_up, initial, push, chunks, output_offered, resize_applied,
  enqueue,
}
use agenttender.Recorder.Storage.{Disk}
use agenttender.Recorder.Writer
use agenttender.Recorder.Writer.{Parts}
use agenttender.Recorder.System.{System, Phase, start}
use agenttender.Recorder.Reach.{Event, step, on_state, offers}
use agenttender.Recorder.SideKept.{give_up-kept}
use agenttender.Recorder.Kept.{IsKept, chunks-kept, enqueue-kept}
use agenttender.Recorder.Ledger.{
  Ledger, kinds, last_sequence, grown, grown-nil, enqueue-Ledger, output_offered-Ledger,
  give_up-Ledger, stop-accepting,
}
use agenttender.Recorder.Holds.{IsDone, IsOnDisk, Holds, HoldsIn}
use agenttender.Recorder.Steps.Rounds.{IsDone-IsSideKept}
use agenttender.Recorder.Appends.{IsFailure}
use agenttender.Recorder.Steps.{writer_step-Holds}

pub IsDone-IsKept : (limits : RecorderLimits) → IsKept limits IsDone
unfolding push
IsDone-IsKept limits = record {
  side = IsDone-IsSideKept;
  pops = λ r rest s v n b. absurd (ground (arith, (v n).0));
  completes = λ n s v e. v;
  pushes = λ now q kind s v n a e l. absurd (ground (arith, (v n).1));
}

pub accepting-IsKept : (limits : RecorderLimits) (b : Bool) → IsKept limits (λ s. s.accepting ≡ b)
unfolding push
accepting-IsKept limits b = record {
  side = record {
    stops = λ reason s v. stop-accepting reason s ∙ v;
    publishes = λ n s v. v;
    syncs = λ o s v. v;
    ends = λ s v. v;
  };
  pops = λ r rest s v n e. v;
  completes = λ n s v e. v;
  pushes = λ now q kind s v n a e l. v;
}

pub close-Ledger :
    (rs ps : List Record) (o : List RecordKind) (s : State)
    → Ledger rs ps o s
    → Ledger rs ps o (close s)
unfolding close
close-Ledger rs ps o s v = v

pub close-IsDone : (s : State) → IsDone s → IsDone (close s)
unfolding close
close-IsDone s v = λ e. ((v e).0, refl)

pub close-accepting : (s : State) → s.accepting ≡ false → (close s).accepting ≡ false
unfolding close
close-accepting s a = refl

pub initial-Ledger : (first : ℕ) → Ledger [] [] [] (initial first)
unfolding initial
initial-Ledger first = record { last = refl; all = λ e. refl; rest = []; prefix = refl }

pub start-parts :
    (h : SegmentHeader) (y : System)
    → start h ≡ ok y
    → (y.phase ≡ Phase.starting)
      × (Encoder.new h ≡ ok y.parts.writer.encoder)
      × (y.parts.disk.earlier ≡ [])
      × (y.parts.disk.open_segment ≡ none)
      × (y.parts.state ≡ initial h.first_sequence)
      × (y.parts.disk.beyond ≡ [])
unfolding start Writer.new
start-parts h y eq =
    (ground arith, ground arith, ground arith, ground arith, ground arith, ground arith)

pub start-accepting :
    (h : SegmentHeader) (y : System) → start h ≡ ok y → y.parts.state.accepting ≡ true
unfolding initial
start-accepting h y eq = ap (λ s. s.accepting) (start-parts h y eq).4

-- The writer's step comes to a cut that fails, if it comes to one.
abbrev pub CutFails : Event → Type 0
CutFails (Event.writes a due) = IsFailure a.set_len
CutFails _ = ⊥

abbrev pub SomeCutFails : List Event → Type 0
SomeCutFails [] = ⊥
SomeCutFails (e ∷ es) = CutFails e ⊎ SomeCutFails es

module _ (crc : Bytes → ℕ) (h : SegmentHeader) (left : Type 0) where
  -- Where the records of a run are, and which they are.
  pub record Recording (offered : List RecordKind) (d : Disk) (s : State) : Type 0 where
    pub records : List Record
    pub on_disk : IsOnDisk crc h left records d
    pub last : s.appended ≡ last_sequence records
    pub rest : List RecordKind
    pub prefix : kinds records ++ rest ≡ offered

  pub recording :
      {rs : List Record} (ps : List Record) (o : List RecordKind) (y : Parts)
      → IsOnDisk crc h left rs y.disk
      → Ledger rs ps o y.state
      → Recording o y.disk y.state
  recording {rs} ps o y d v = record {
    records = rs;
    on_disk = d;
    last = v.last;
    rest = v.rest;
    prefix = v.prefix;
  }

  -- A change of the shared state that the ledger follows.
  pub on_state-Holds :
      (f : State → State) (before after : List RecordKind) (phase : Phase) (y : Parts)
      → ((rs ps : List Record) → Ledger rs ps before y.state → Ledger rs ps after (f y.state))
      → (IsDone y.state → IsDone (f y.state))
      → Holds crc h left before phase y
      → Holds crc h left after phase (record y { state = f y.state })
  on_state-Holds f o o' phase y g d (Holds.starts x new earlier unopened alone v) =
      Holds.starts (record x { state = f x.state }) new earlier unopened alone (g [] [] v)
  on_state-Holds f o o' phase y g d (Holds.waits rs x w v) =
      Holds.waits rs (record x { state = f x.state }) w (g rs [] v)
  on_state-Holds f o o' phase y g d (Holds.settled rs x w v) =
      Holds.settled rs (record x { state = f x.state }) w (g rs [] v)
  on_state-Holds f o o' phase y g d (Holds.takes rs r x w v) =
      Holds.takes rs r (record x { state = f x.state }) w (g rs (r ∷ []) v)
  on_state-Holds f o o' phase y g d (Holds.appends rs r before u x w v) =
      Holds.appends rs r before u (record x { state = f x.state }) w (g rs (r ∷ []) v)
  on_state-Holds f o o' phase y g d (Holds.fails rs r q before e x w v) =
      Holds.fails rs r q before e (record x { state = f x.state }) w (g rs (r ∷ []) v)
  on_state-Holds f o o' phase y g d (Holds.refuses rs r q before e x w v) =
      Holds.refuses rs r q before e (record x { state = f x.state }) w (g rs (r ∷ []) v)
  on_state-Holds f o o' phase y g d (Holds.finishes rs p x l w v done) =
      Holds.finishes rs p (record x { state = f x.state }) l w (g rs [] v) (d done)

  pub step-Holds :
      (limits : RecorderLimits) (o : List RecordKind) (e : Event) (y : System)
      → (CutFails e → left)
      → HoldsIn crc h left o y
      → HoldsIn crc h left (grown y.parts.state.accepting o (offers e)) (step crc limits e y)
  unfolding step on_state offers resize_applied output_offered
  step-Holds limits o (Event.outputs clock bytes) y f v =
      let s = y.parts.state in
      on_state-Holds (output_offered limits clock bytes) o
        (grown s.accepting o (map output (chunks (length bytes) bytes))) y.phase y.parts
        (λ rs ps l. output_offered-Ledger limits clock bytes s o l)
        (chunks-kept (IsDone-IsKept limits) clock 0 (chunks (length bytes) bytes) s) v
  step-Holds limits o (Event.resizes now geometry cause true) y f v =
      let s = y.parts.state in
      on_state-Holds (enqueue limits now (resized geometry cause)) o
        (grown s.accepting o (resized geometry cause ∷ [])) y.phase y.parts
        (λ rs ps l. enqueue-Ledger limits now (resized geometry cause) s l)
        (enqueue-kept (IsDone-IsKept limits) now (resized geometry cause) s) v
  step-Holds limits o (Event.resizes now geometry cause false) y f v =
      rw (grown-nil y.parts.state.accepting o) v
  step-Holds limits o Event.closes y f v = rw (grown-nil y.parts.state.accepting o) (
      on_state-Holds close o o y.phase y.parts (λ rs ps l. close-Ledger rs ps o y.parts.state l)
        (close-IsDone y.parts.state) v)
  step-Holds limits o Event.gives_up y f v = rw (grown-nil y.parts.state.accepting o) (
      on_state-Holds give_up o o y.phase y.parts (λ rs ps l. give_up-Ledger y.parts.state l)
        (give_up-kept IsDone-IsSideKept y.parts.state) v)
  step-Holds limits o (Event.writes a due) y f v =
      rw (grown-nil y.parts.state.accepting o)
        (writer_step-Holds crc h left limits o a due y.phase y.parts f v)
