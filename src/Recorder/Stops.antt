-- ===== src/Recorder/Stops.antt =====
-- The backlog and the stop of the recorder (src/recorder.rs), in every order of the threads' steps.
use agenttender.Common.{
  ℕ, ◌+◌, ◌-◌, ◌≤◌, ◌<◌, Bool, true, not, List, [], ◌∷◌, ◌++◌, Option, none, some, ok, Bytes, ◌≡◌,
  refl, ◌∙◌, ap, arith, Option-cases, inl, inr,
}
use agenttender.Common.Words.{u64_max}
use agenttender.Recording.Format.{Record, SegmentHeader, RecordKind}
use agenttender.Recording.Encoder
use agenttender.Recorder.State.{
  RecorderLimits, StopReason, Stopped, State, initial, stop, push, sequenced, cost_of, close,
  saturating_add, is_some,
}
use agenttender.Recorder.System.{System, start}
use agenttender.Recorder.Reach.{Event, run}
use agenttender.Recorder.Kept.{IsKept, run-kept}

unfoldable pub total_cost : List Record → ℕ
total_cost [] = 0
total_cost (r ∷ rs) = cost_of r.kind + total_cost rs

total_cost-append :
    (rs : List Record) (r : Record) → total_cost (rs ++ (r ∷ [])) ≡ total_cost rs + cost_of r.kind
unfolding total_cost
total_cost-append [] r = omega arith
total_cost-append (x ∷ rs) r = omega (arith, total_cost-append rs r)

unfoldable pub stops_of : Option Stopped → List Stopped
stops_of none = []
stops_of (some stopped) = stopped ∷ []

-- The backlog's bytes are counted and bounded; the callback has run once for a stop, and not before;
-- a stop has emptied the backlog, and its boundary is the last completed append.
pub record Accounts (limits : RecorderLimits) (backlog : List Record) (bytes : ℕ) (on_stop : Bool)
    (reported : List Stopped) (stopped : Option Stopped) (appended : Option ℕ) : Type 0 where
  pub bytes_sum : bytes ≡ total_cost backlog
  pub bound : bytes ≤ limits.backlog_bytes
  pub reports : reported ≡ stops_of stopped
  pub callback : on_stop ≡ not (is_some stopped)
  pub cleared : is_some stopped ≡ true → backlog ≡ []
  pub boundary : (st : Stopped) → stopped ≡ some st → st.last_recorded ≡ appended

abbrev pub IsSound : RecorderLimits → State → Type 0
IsSound limits s =
    Accounts limits s.backlog s.backlog_bytes s.on_stop s.reported s.stopped s.appended

stop-again :
    (reason : StopReason) (s : State) (st : Stopped) → s.stopped ≡ some st → stop reason s ≡ s
unfolding stop
stop-again reason s st n = ground arith

module _ (limits : RecorderLimits) (room : limits.backlog_bytes < u64_max) where
  stop-IsSound :
      (reason : StopReason) (s : State) → IsSound limits s → IsSound limits (stop reason s)
  unfolding stop stops_of total_cost
  stop-IsSound reason s v = elim (Option-cases s.stopped) [
    | inr (st, n) ↦ rw (stop-again reason s st n) v
    | inl n ↦ record {
      bytes_sum = ground arith;
      bound = ground arith;
      reports = ground (arith, v.reports, v.callback);
      callback = ground arith;
      cleared = λ p. ground arith;
      boundary = λ st p. ground arith;
    }
  ]

  push-IsSound :
      (now sequence : ℕ) (kind : RecordKind) (s : State)
      → IsSound limits s
      → s.stopped ≡ none
      → s.accepting ≡ true
      → s.next ≡ some sequence
      → saturating_add s.backlog_bytes (cost_of kind) ≤ limits.backlog_bytes
      → IsSound limits (push (sequenced now sequence kind) s)
  unfolding push sequenced
  push-IsSound now sequence kind s v n b q l = record {
    bytes_sum =
        omega (arith, v.bytes_sum, total_cost-append s.backlog (sequenced now sequence kind));
    bound = omega (arith, room, l);
    reports = v.reports;
    callback = v.callback;
    cleared = λ p. ground arith;
    boundary = v.boundary;
  }

  pop-IsSound :
      (r : Record) (rest : List Record) (s : State)
      → IsSound limits s
      → s.stopped ≡ none
      → s.backlog ≡ r ∷ rest
      → IsSound limits
          (record s { backlog = rest; backlog_bytes = s.backlog_bytes - cost_of r.kind })
  unfolding total_cost
  pop-IsSound r rest s v n b = record {
    bytes_sum = omega (arith, v.bytes_sum, ap total_cost b);
    bound = omega (arith, v.bound);
    reports = v.reports;
    callback = v.callback;
    cleared = λ p. ground arith;
    boundary = v.boundary;
  }

  IsSound-IsKept : IsKept limits (IsSound limits)
  unfolding close
  IsSound-IsKept = record {
    side = record {
      stops = stop-IsSound;
      publishes = λ n s v. v;
      syncs = λ o s v. v;
      ends = λ s v. v;
    };
    pops = pop-IsSound;
    completes = λ n s v e. record {
      bytes_sum = v.bytes_sum;
      bound = v.bound;
      reports = v.reports;
      callback = v.callback;
      cleared = v.cleared;
      boundary = λ st p. ground arith;
    };
    pushes = push-IsSound;
  }

  initial-IsSound : (first : ℕ) → IsSound limits (initial first)
  unfolding initial stops_of total_cost
  initial-IsSound first = record {
    bytes_sum = refl;
    bound = omega arith;
    reports = refl;
    callback = refl;
    cleared = λ p. refl;
    boundary = λ st p. ground arith;
  }

close-IsSound : (limits : RecorderLimits) (s : State) → IsSound limits s → IsSound limits (close s)
unfolding close
close-IsSound limits s v = v

start-state :
    (h : SegmentHeader) (y : System) → start h ≡ ok y → y.parts.state ≡ initial h.first_sequence
unfolding start Encoder.new
start-state h y eq = ground arith

-- Whatever the order of the threads' steps and whatever the file system answers, the backlog's bytes
-- are the cost of the queued records and within `backlog_bytes` (below 2^64 - 1); the stop callback
-- has been called once with the stop if recording has stopped and not at all otherwise; a stop leaves
-- no record queued and names the last completed append.
pub run-IsSound :
    (crc : Bytes → ℕ) (limits : RecorderLimits) (h : SegmentHeader) (y : System) (es : List Event)
    → limits.backlog_bytes < u64_max
    → start h ≡ ok y
    → IsSound limits (run crc limits es y).parts.state
run-IsSound crc limits h y es room eq =
    run-kept (IsSound-IsKept limits room) crc (close-IsSound limits) es y
      (rw (start-state h y eq) (initial-IsSound limits room h.first_sequence))

-- A state that has stopped.
pub record HasStopped (stopped : Stopped) (appended : Option ℕ) (reported : List Stopped)
    (s : State) : Type 0 where
  pub stop_is : s.stopped ≡ some stopped
  pub appended_is : s.appended ≡ appended
  pub reported_is : s.reported ≡ reported

stays :
    {st : Stopped} {ap : Option ℕ} {rep : List Stopped} (s s' : State)
    → HasStopped st ap rep s
    → s'.stopped ≡ s.stopped
    → s'.appended ≡ s.appended
    → s'.reported ≡ s.reported
    → HasStopped st ap rep s'
stays s s' v p q r = record {
  stop_is = p ∙ v.stop_is;
  appended_is = q ∙ v.appended_is;
  reported_is = r ∙ v.reported_is;
}

close-HasStopped :
    {st : Stopped} {ap : Option ℕ} {rep : List Stopped} (s : State)
    → HasStopped st ap rep s
    → HasStopped st ap rep (close s)
unfolding close
close-HasStopped s v = stays s (close s) v refl refl refl

HasStopped-IsKept :
    (limits : RecorderLimits) (st : Stopped) (ap : Option ℕ) (rep : List Stopped)
    → IsKept limits (HasStopped st ap rep)
unfolding close
HasStopped-IsKept limits st ap rep = record {
  side = record {
    stops = λ reason s v. rw (stop-again reason s st v.stop_is) v;
    publishes = λ n s v. stays s (record s { segments = n }) v refl refl refl;
    syncs = λ o s v. stays s (record s { synced = o }) v refl refl refl;
    ends = λ s v. stays s (record s { writer_done = true }) v refl refl refl;
  };
  pops = λ r rest s v n b. absurd (ground (arith, v.stop_is));
  completes = λ n s v e. absurd (ground (arith, v.stop_is));
  pushes = λ now q kind s v n b e l. absurd (ground (arith, v.stop_is));
}

-- The first stop wins: once recording has stopped, no step of any thread changes the stop, the last
-- append that it names or the calls of the callback.
pub run-HasStopped :
    (crc : Bytes → ℕ) (limits : RecorderLimits) (y : System) (es : List Event) (st : Stopped)
    → y.parts.state.stopped ≡ some st
    → HasStopped st y.parts.state.appended y.parts.state.reported (run crc limits es y).parts.state
run-HasStopped crc limits y es st eq =
    let s = y.parts.state in
    run-kept (HasStopped-IsKept limits st s.appended s.reported) crc close-HasStopped es y
      (record { stop_is = eq; appended_is = refl; reported_is = refl })
