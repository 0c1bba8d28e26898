-- ===== src/AttachEscape/Reads.antt =====
-- One read and one look at the clock (src/attach_escape.rs): what they do with the bytes held.
use agenttender.Common.{
  ℕ, suc, Bool, true, false, [], ◌++◌, Option, none, some, Bytes, length, ◌≡◌, refl, sym, ap, arith,
  ◌∙◌, append_assoc, append-nil,
}
use mathlib.Core.Path.{subst}
use agenttender.AttachEscape.Keys.{other}
use agenttender.AttachEscape.Parser.{
  EscapeParser, EscapeMode, continue, ctrl_backslash, disabled, decide, feed, feed_loop,
  flush_expired, not_due, partial_deadline,
}
use agenttender.AttachEscape.Progress.{Fed, feed_loop-Runs}
use agenttender.AttachEscape.Order.{Within, Within-refl, held_bytes, IsParser, decide-Decided}
use agenttender.AttachEscape.Order.Feeds.{Timed, untimed, timed, Accounts, Runs-Accounts}

-- A parser that some reads and timeouts have left.
pub record Ready (p : EscapeParser) : Type 0 where
  pub valid : IsParser p
  pub time : Timed p.partial p.partial_since
  pub off : p.mode ≡ disabled → (held_bytes p ≡ []) × (p.partial ≡ [])

abbrev pub all_held : EscapeParser → Bytes
all_held p = held_bytes p ++ p.partial

-- What `Accounts` leaves ready, when the escape is on.
Accounts-Ready :
    (before forward : Bytes) (out : Fed) → Accounts ctrl_backslash before forward out → Ready out.0
Accounts-Ready before forward out a = record {
  valid = a.valid;
  time = a.time;
  off = λ d. absurd (ground (arith, a.mode));
}

-- A read returns, and accounts for what was held and typed.
abbrev pub Reads : ℕ → Bytes → EscapeParser → Bytes → Type 0
Reads now input p forward =
    (r : Fed) × (feed now input p forward ≡ some r)
    × Accounts p.mode (all_held p ++ input) forward r
    × Ready r.0

abbrev pub fed_in : ℕ → Bytes → EscapeParser → Bytes → EscapeMode → Option Fed
fed_in now input p forward m = elim m [
  | disabled ↦ some (p, forward ++ input, continue)
  | ctrl_backslash ↦
      feed_loop (suc (length (p.partial ++ input))) now false (p.partial ++ input)
        (record p { partial = [] }) forward
]

pub feed-mode :
    (now : ℕ) (input : Bytes) (p : EscapeParser) (forward : Bytes) (m : EscapeMode)
    → p.mode ≡ m
    → feed now input p forward ≡ fed_in now input p forward m
unfolding feed
feed-mode now input p forward m eq = ap (fed_in now input p forward) eq

nothing_held :
    (xs ys input : Bytes) → xs ≡ [] → ys ≡ [] → Within (input ++ (xs ++ ys)) ((xs ++ ys) ++ input)
nothing_held xs ys input p q =
    rw (p, q) (subst (λ zs. Within zs input) (sym (append-nil input)) (Within-refl input))

pub feed-Reads :
    (now : ℕ) (input : Bytes) (p : EscapeParser) (forward : Bytes) (m : EscapeMode)
    → p.mode ≡ m
    → Ready p
    → Reads now input p forward
feed-Reads now input p forward ctrl_backslash eq ready =
    let bytes = p.partial ++ input in
    let (r, f, runs) =
      feed_loop-Runs (suc (length bytes)) now false bytes (record p { partial = [] }) forward
        (omega arith) in
    let a =
      Runs-Accounts now false bytes (record p { partial = [] }) forward r runs
        (record { kept = ready.valid.kept; idle = ready.valid.idle }) refl in
    (
      r,
      feed-mode now input p forward ctrl_backslash eq ∙ f,
      subst (λ xs. Accounts p.mode xs forward r) (sym (append_assoc (held_bytes p) p.partial input))
          a,
      Accounts-Ready _ forward r (subst (λ m. Accounts m (held_bytes p ++ bytes) forward r) eq a),
    )
feed-Reads now input p forward disabled eq ready =
    let (h, e) = ready.off eq in
    (
      (p, forward ++ input, continue),
      feed-mode now input p forward disabled eq,
      record {
        sent = input;
        forwarded = refl;
        ordered = nothing_held (held_bytes p) p.partial input h e;
        valid = ready.valid;
        time = ready.time;
        mode = refl;
      },
      ready,
    )

abbrev pub flushed : EscapeParser → Bytes → Bool → Fed
flushed p forward not_yet = elim not_yet [
  | true ↦ (p, forward, continue)
  | false ↦
      let d = decide p.partial other (record p { partial_since = none; partial = [] }) forward in
      (d.0, d.1, continue)
]

pub flush-due :
    (now : ℕ) (p : EscapeParser) (forward : Bytes) (b : Bool)
    → not_due now (partial_deadline p) ≡ b
    → ◌≡◌ {A = Fed}
        ((flush_expired now p forward).0, (flush_expired now p forward).1, continue)
        (flushed p forward b)
unfolding flush_expired
flush-due now p forward true eq = rw eq refl
flush-due now p forward false eq = rw eq refl

flushed-Accounts :
    (p : EscapeParser) (forward : Bytes) (b : Bool)
    → Ready p
    → Accounts p.mode (all_held p) forward (flushed p forward b)
flushed-Accounts p forward true ready = record {
  sent = [];
  forwarded = sym (append-nil forward);
  ordered = Within-refl (all_held p);
  valid = ready.valid;
  time = ready.time;
  mode = refl;
}
flushed-Accounts p forward false ready =
    let out =
      decide-Decided p.partial forward other (record p { partial_since = none; partial = [] })
        (record { kept = ready.valid.kept; idle = ready.valid.idle }) in
    record {
      sent = out.sent;
      forwarded = out.forwarded;
      ordered =
          subst (λ xs. Within (out.sent ++ xs) (all_held p))
            (sym (append-nil (held_bytes (flushed p forward false).0))
              ∙ ap (λ xs. held_bytes (flushed p forward false).0 ++ xs) (sym out.partial))
            out.ordered;
      valid = out.valid;
      time = rw (out.partial, out.time) untimed;
      mode = out.mode;
    }

-- What a timeout does to the bytes held.
pub flush-Accounts :
    (now : ℕ) (p : EscapeParser) (forward : Bytes)
    → Ready p
    → Accounts p.mode
        (all_held p)
        forward
        ((flush_expired now p forward).0, (flush_expired now p forward).1, continue)
flush-Accounts now p forward ready =
    subst (Accounts p.mode (all_held p) forward) (sym (flush-due now p forward _ refl))
      (flushed-Accounts p forward (not_due now (partial_deadline p)) ready)

Timed-none : (xs : Bytes) (t : Option ℕ) → Timed xs t → xs ≡ [] → t ≡ none
Timed-none xs t untimed e = refl
Timed-none xs t (timed b bs n) e = absurd (ground arith)

flush-none :
    (now : ℕ) (p : EscapeParser) (forward : Bytes)
    → p.partial_since ≡ none
    → (flush_expired now p forward).0 ≡ p
unfolding partial_deadline not_due
flush-none now p forward eq = ap (λ x. x.0) (flush-due now p forward true (ground arith))

pub flush-Ready :
    (now : ℕ) (p : EscapeParser) (forward : Bytes) (m : EscapeMode)
    → p.mode ≡ m
    → Ready p
    → Ready (flush_expired now p forward).0
flush-Ready now p forward ctrl_backslash eq ready = Accounts-Ready (all_held p) forward _ (
    subst
      (λ m.
        Accounts m (all_held p) forward
          ((flush_expired now p forward).0, (flush_expired now p forward).1, continue))
      eq (flush-Accounts now p forward ready))
flush-Ready now p forward disabled eq ready =
    let (_, e) = ready.off eq in
    subst Ready (sym (flush-none now p forward (Timed-none p.partial p.partial_since ready.time e)))
      ready
