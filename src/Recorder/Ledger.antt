-- ===== src/Recorder/Ledger.antt =====
-- The order of the records (src/recorder.rs): what is appended, in flight and queued is what the
-- producers offered, until a stop.
use mathlib.Core.Path.{subst}
use agenttender.Common.{
  ℕ, suc, Bool, true, false, List, [], ◌∷◌, ◌++◌, map, Option, none, some, Bytes, ◌≡◌, refl, sym,
  ◌∙◌, ap, arith, append_assoc, append-nil, Bool-cases, Option-cases, inl, inr, ltb, length,
}
use agenttender.Recording.Format.{Record, RecordKind, output}
use agenttender.Recorder.State.{
  RecorderLimits, StopReason, size_limit, backlog_full, stalled, Stopped, State, stop, push,
  sequenced, cost_of, enqueue, enqueue_chunks, saturating_add, give_up, chunks, output_offered,
}

abbrev pub kinds : List Record → List RecordKind
kinds [] = []
kinds (r ∷ rs) = r.kind ∷ kinds rs

kinds-append : (xs ys : List Record) → kinds (xs ++ ys) ≡ kinds xs ++ kinds ys
kinds-append [] ys = refl
kinds-append (x ∷ xs) ys = ap (◌∷◌ x.kind) (kinds-append xs ys)

abbrev pub last_or : Option ℕ → List Record → Option ℕ
last_or o [] = o
last_or o (r ∷ rs) = last_or (some r.sequence) rs

-- The sequence of the last record.
abbrev pub last_sequence : List Record → Option ℕ
last_sequence rs = last_or none rs

last_or-append :
    (o : Option ℕ) (rs : List Record) (r : Record) → last_or o (rs ++ (r ∷ [])) ≡ some r.sequence
last_or-append o [] r = refl
last_or-append o (x ∷ rs) r = last_or-append (some x.sequence) rs r

-- `rs` is appended, `ps` in flight: with the backlog they are what was offered, until a stop; after
-- it the appended records still are a prefix of what was offered.
pub record Accounts (rs ps : List Record) (offered : List RecordKind) (appended : Option ℕ)
    (stopped : Option Stopped) (backlog : List Record) : Type 0 where
  pub last : appended ≡ last_sequence rs
  pub all : stopped ≡ none → kinds rs ++ (kinds ps ++ kinds backlog) ≡ offered
  pub rest : List RecordKind
  pub prefix : kinds rs ++ rest ≡ offered

abbrev pub Ledger : List Record → List Record → List RecordKind → State → Type 0
Ledger rs ps offered s = Accounts rs ps offered s.appended s.stopped s.backlog

-- What is offered counts while the recording is open.
abbrev pub grown : Bool → List RecordKind → List RecordKind → List RecordKind
grown true offered more = offered ++ more
grown false offered more = offered

stop-stopped :
    (reason : StopReason) (s : State)
    → s.stopped ≡ none
    → (stop reason s).stopped ≡ some (record { last_recorded = s.appended; reason = reason })
unfolding stop
stop-stopped reason s n = ground arith

stop-appended : (reason : StopReason) (s : State) → (stop reason s).appended ≡ s.appended
unfolding stop
stop-appended reason s = ground arith

pub stop-accepting : (reason : StopReason) (s : State) → (stop reason s).accepting ≡ s.accepting
unfolding stop
stop-accepting reason s = ground arith

stop-again :
    (reason : StopReason) (s : State) (st : Stopped) → s.stopped ≡ some st → stop reason s ≡ s
unfolding stop
stop-again reason s st n = ground arith

pub enqueue-accepting :
    (limits : RecorderLimits) (now : ℕ) (kind : RecordKind) (s : State)
    → (enqueue limits now kind s).accepting ≡ s.accepting
unfolding enqueue stop push
enqueue-accepting limits now kind s = ground arith

enqueue-stopped :
    (limits : RecorderLimits) (now : ℕ) (kind : RecordKind) (s : State) (st : Stopped)
    → s.stopped ≡ some st
    → enqueue limits now kind s ≡ s
unfolding enqueue
enqueue-stopped limits now kind s st n = ground arith

pub enqueue-closed :
    (limits : RecorderLimits) (now : ℕ) (kind : RecordKind) (s : State)
    → s.accepting ≡ false
    → enqueue limits now kind s ≡ s
unfolding enqueue
enqueue-closed limits now kind s n = ground arith

give_up-done : (s : State) → s.writer_done ≡ true → give_up s ≡ s
unfolding give_up
give_up-done s n = ground arith

give_up-stalled : (s : State) → s.writer_done ≡ false → give_up s ≡ stop stalled s
unfolding give_up
give_up-stalled s n = ground arith

module _ {rs ps : List Record} {offered : List RecordKind} where
  -- Once stopped, more may be offered.
  Ledger-more :
      (more : List RecordKind) (s s' : State) (st : Stopped)
      → Ledger rs ps offered s
      → s'.stopped ≡ some st
      → s'.appended ≡ s.appended
      → Ledger rs ps (offered ++ more) s'
  Ledger-more more s s' st v n q = record {
    last = q ∙ v.last;
    all = λ e. absurd (ground arith);
    rest = v.rest ++ more;
    prefix = sym (append_assoc (kinds rs) v.rest more) ∙ ap (λ o. o ++ more) v.prefix;
  }

  stop-more :
      (reason : StopReason) (more : List RecordKind) (s : State)
      → s.stopped ≡ none
      → Ledger rs ps offered s
      → Ledger rs ps (offered ++ more) (stop reason s)
  stop-more reason more s n v =
      Ledger-more more s (stop reason s) _ v (stop-stopped reason s n) (stop-appended reason s)

  push-Ledger :
      (now sequence : ℕ) (kind : RecordKind) (s : State)
      → s.stopped ≡ none
      → Ledger rs ps offered s
      → Ledger rs ps (offered ++ (kind ∷ [])) (push (sequenced now sequence kind) s)
  unfolding push sequenced
  push-Ledger now sequence kind s n v = record {
    last = v.last;
    all = λ e.
        ap (λ k. kinds rs ++ (kinds ps ++ k))
          (kinds-append s.backlog (sequenced now sequence kind ∷ []))
        ∙ ap (λ k. kinds rs ++ k) (sym (append_assoc (kinds ps) (kinds s.backlog) (kind ∷ [])))
        ∙ sym (append_assoc (kinds rs) (kinds ps ++ kinds s.backlog) (kind ∷ []))
        ∙ ap (λ o. o ++ (kind ∷ [])) (v.all n);
    rest = v.rest ++ (kind ∷ []);
    prefix = sym (append_assoc (kinds rs) v.rest (kind ∷ [])) ∙ ap (λ o. o ++ (kind ∷ [])) v.prefix;
  }

  pub stop-Ledger :
      (reason : StopReason) (s : State)
      → Ledger rs ps offered s
      → Ledger rs ps offered (stop reason s)
  stop-Ledger reason s v = elim (Option-cases s.stopped) [
    | inr (st, n) ↦ rw (stop-again reason s st n) v
    | inl n ↦ rw⁻¹ (append-nil offered) (stop-more reason [] s n v)
  ]

  pub enqueue-Ledger :
      (limits : RecorderLimits) (now : ℕ) (kind : RecordKind) (s : State)
      → Ledger rs ps offered s
      → Ledger rs ps (grown s.accepting offered (kind ∷ [])) (enqueue limits now kind s)
  unfolding enqueue
  enqueue-Ledger limits now kind s v = elim (Bool-cases s.accepting) [
    | inr a ↦ rw (enqueue-closed limits now kind s a, a) v
    | inl a ↦ elim (Option-cases s.stopped) [
      | inr (st, n) ↦
          rw (enqueue-stopped limits now kind s st n, a) (Ledger-more (kind ∷ []) s s st v n refl)
      | inl n ↦ elim (Option-cases s.next) [
        | inl e ↦ rw (enqueue, n, a, e) (stop-more size_limit (kind ∷ []) s n v)
        | inr (q, e) ↦
            elim (Bool-cases
              (ltb limits.backlog_bytes (saturating_add s.backlog_bytes (cost_of kind)))) [
                | inl b ↦ rw (enqueue, n, a, e, b) (stop-more backlog_full (kind ∷ []) s n v)
                | inr b ↦ rw (enqueue, n, a, e, b) (push-Ledger now q kind s n v)
              ]
      ]
    ]
  ]

  pub give_up-Ledger : (s : State) → Ledger rs ps offered s → Ledger rs ps offered (give_up s)
  give_up-Ledger s v = elim (Bool-cases s.writer_done) [
    | inl n ↦ rw (give_up-done s n) v
    | inr n ↦ rw (give_up-stalled s n) (stop-Ledger stalled s v)
  ]

pub grown-append :
    (b : Bool) (xs ys zs : List RecordKind) → grown b (grown b xs ys) zs ≡ grown b xs (ys ++ zs)
grown-append true xs ys zs = append_assoc xs ys zs
grown-append false xs ys zs = refl

pub grown-nil : (b : Bool) (xs : List RecordKind) → grown b xs [] ≡ xs
grown-nil true xs = append-nil xs
grown-nil false xs = refl

module _ {rs ps : List Record} where
  chunks-Ledger :
      (limits : RecorderLimits) (clock : ℕ → ℕ) (i : ℕ) (cs : List Bytes) (s : State)
      (offered : List RecordKind)
      → Ledger rs ps offered s
      → Ledger rs ps
          (grown s.accepting offered (map output cs))
          (enqueue_chunks limits clock i cs s)
  unfolding enqueue_chunks
  chunks-Ledger limits clock i [] s offered v = rw (grown-nil s.accepting offered) v
  chunks-Ledger limits clock i (c ∷ cs) s offered v =
      let s' = enqueue limits (clock i) (output c) s in
      let more = grown s.accepting offered (output c ∷ []) in
      subst (λ o. Ledger rs ps o (enqueue_chunks limits clock (suc i) cs s'))
        (ap (λ b. grown b more (map output cs)) (enqueue-accepting limits (clock i) (output c) s)
          ∙ grown-append s.accepting offered (output c ∷ []) (map output cs))
        (chunks-Ledger limits clock (suc i) cs s' more
          (enqueue-Ledger limits (clock i) (output c) s v))

  pub output_offered-Ledger :
      (limits : RecorderLimits) (clock : ℕ → ℕ) (bytes : Bytes) (s : State)
      (offered : List RecordKind)
      → Ledger rs ps offered s
      → Ledger rs ps
          (grown s.accepting offered (map output (chunks (length bytes) bytes)))
          (output_offered limits clock bytes s)
  unfolding output_offered
  output_offered-Ledger limits clock bytes s offered v =
      chunks-Ledger limits clock 0 (chunks (length bytes) bytes) s offered v

  pub completed-Ledger :
      (r : Record) (offered : List RecordKind) (s : State)
      → Ledger rs (r ∷ ps) offered s
      → s.stopped ≡ none
      → Ledger (rs ++ (r ∷ [])) ps offered (record s { appended = some r.sequence })
  completed-Ledger r offered s v n =
      let all =
        ap (λ k. k ++ (kinds ps ++ kinds s.backlog)) (kinds-append rs (r ∷ []))
        ∙ append_assoc (kinds rs) (r.kind ∷ []) (kinds ps ++ kinds s.backlog)
        ∙ v.all n in
      record {
        last = sym (last_or-append none rs r);
        all = λ e. all;
        rest = kinds ps ++ kinds s.backlog;
        prefix = all;
      }
