-- ===== src/Recorder/Steps/Rounds.antt =====
-- `next_record` and the section behind an append (src/recorder.rs), branch by branch.
use agenttender.Common.{
  ℕ, Bool, true, false, List, [], ◌∷◌, ◌++◌, Option, none, some, Result, ok, err, ◌≡◌, sym, ◌∙◌, ap,
  arith, inl, inr, Option-cases,
}
use agenttender.Recording.Format.{Record, RecordKind}
use agenttender.Recorder.State.{StopReason, State, Stopped, stop}
use agenttender.Recorder.Storage.{Answers}
use agenttender.Recorder.Writer.{Parts, cut_back}
use agenttender.Recorder.Ledger.{Ledger, kinds}
use agenttender.Recorder.System.{
  System, Phase, stopping, settle, cut_if, completed, sync_or_stop, next_record, pop,
}
use agenttender.Recorder.SideKept.{IsSideKept}
use agenttender.Recorder.Holds.{IsDone}

pub cut_if-state : (b : Bool) (a : Answers) (n : ℕ) (y : Parts) → (cut_if b a n y).state ≡ y.state
unfolding cut_if cut_back
cut_if-state b a n y = ground arith

pub settle-stopped :
    (a : Answers) (q before : ℕ) (b : Bool) (result : Result StopReason (Unit {0})) (y : Parts)
    (st : Stopped)
    → y.state.stopped ≡ some st
    → settle a q before b result y ≡ record { phase = Phase.closing; parts = cut_if b a before y }
unfolding settle
settle-stopped a q before b result y st n =
    ap {A = Option Stopped} {B = System}
      (λ o. elim o [
        | some _ ↦ record { phase = Phase.closing; parts = cut_if b a before y }
        | none ↦ elim result [
          | err reason ↦ record {
            phase = Phase.closing;
            parts = cut_if b a before (stopping reason y);
          }
          | ok _ ↦ record { phase = Phase.recorded; parts = completed q y }
        ]
      ])
      n

pub next_record-stopped :
    (a : Answers) (due : Bool) (y : Parts) (st : Stopped)
    → y.state.stopped ≡ some st
    → next_record a due y ≡ record { phase = Phase.closing; parts = y }
unfolding next_record
next_record-stopped a due y st n = ground arith

pub next_record-got :
    (a : Answers) (due : Bool) (y : Parts) (r : Record) (rest : List Record)
    → y.state.stopped ≡ none
    → y.state.backlog ≡ r ∷ rest
    → next_record a due y ≡ record { phase = Phase.taken r; parts = pop r rest y }
unfolding next_record
next_record-got a due y r rest n b = ground arith

pub next_record-closed :
    (a : Answers) (due : Bool) (y : Parts)
    → y.state.stopped ≡ none
    → y.state.backlog ≡ []
    → y.state.accepting ≡ false
    → next_record a due y ≡ record { phase = Phase.closing; parts = y }
unfolding next_record
next_record-closed a due y n b c = ground arith

pub next_record-due :
    (a : Answers) (due : Bool) (y : Parts)
    → y.state.stopped ≡ none
    → y.state.backlog ≡ []
    → y.state.accepting ≡ true
    → due ≡ true
    → next_record a due y ≡ sync_or_stop a Phase.waiting Phase.closing y
unfolding next_record
next_record-due a due y n b c d = ground arith

pub next_record-waits :
    (a : Answers) (due : Bool) (y : Parts)
    → y.state.stopped ≡ none
    → y.state.backlog ≡ []
    → y.state.accepting ≡ true
    → due ≡ false
    → next_record a due y ≡ record { phase = Phase.waiting; parts = y }
unfolding next_record
next_record-waits a due y n b c d = ground arith

pub pop-Ledger :
    (rs : List Record) {offered : List RecordKind} (r : Record) (rest : List Record) (y : Parts)
    → y.state.backlog ≡ r ∷ rest
    → Ledger rs [] offered y.state
    → Ledger rs (r ∷ []) offered (pop r rest y).state
unfolding pop
pop-Ledger rs r rest y b v = record {
  last = v.last;
  all = λ e. ap (λ k. kinds rs ++ kinds k) (sym b) ∙ v.all e;
  rest = v.rest;
  prefix = v.prefix;
}

pub stopped-IsDone : (reason : StopReason) (s : State) → IsDone (stop reason s)
unfolding stop
stopped-IsDone reason s = λ e. absurd (ground arith)

pub IsDone-IsSideKept : IsSideKept IsDone
IsDone-IsSideKept = record {
  stops = λ reason s v. stopped-IsDone reason s;
  publishes = λ n s v. v;
  syncs = λ o s v. v;
  ends = λ s v. v;
}

pub stop-stopped :
    (reason : StopReason) (s : State) → (st : Stopped) × ((stop reason s).stopped ≡ some st)
unfolding stop
stop-stopped reason s = elim (Option-cases s.stopped) [
  | inl n ↦ (record { last_recorded = s.appended; reason = reason }, ground arith)
  | inr (st, n) ↦ (st, ground arith)
]
