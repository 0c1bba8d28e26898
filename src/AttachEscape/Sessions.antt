-- ===== src/AttachEscape/Sessions.antt =====
-- The reads and the timeouts of an attach client (src/attach_escape.rs), from a new parser on.
use agenttender.Common.{
  ℕ, List, [], ◌∷◌, ◌++◌, Option, none, some, Bytes, ◌≡◌, refl, sym, ap, ◌∙◌, append_assoc,
  append-nil,
}
use mathlib.Core.Path.{subst}
use agenttender.AttachEscape.Reads.{Ready, all_held, feed-Reads, flush-Accounts, flush-Ready}
use agenttender.AttachEscape.Parser.{
  EscapeParser, EscapeMode, continue, detach, new, feed, flush_expired,
}
use agenttender.AttachEscape.Progress.{Fed}
use agenttender.AttachEscape.Order.{
  Within, nothing, Within-none, Within-refl, Within-append, held_bytes,
}
use agenttender.AttachEscape.Order.Feeds.{untimed, join, Accounts}

-- What happens to the parser: a read at an instant, or the look at the clock.
pub data Event : Type 0 where
  typed : ℕ → Bytes → Event
  looked : ℕ → Event

-- Events until the escape detaches, with what has been forwarded.
unfoldable pub session : List Event → EscapeParser → Bytes → Option Fed
unfolding feed flush_expired
session [] p forward = some (p, forward, continue)
session (looked now ∷ events) p forward =
    let (p', forward') = flush_expired now p forward in session events p' forward'
session (typed now input ∷ events) p forward = elim (feed now input p forward) [
  | none ↦ none
  | some (p', forward', detach) ↦ some (p', forward', detach)
  | some (p', forward', continue) ↦ session events p' forward'
]

abbrev pub typed_bytes : List Event → Bytes
typed_bytes [] = []
typed_bytes (looked now ∷ events) = typed_bytes events
typed_bytes (typed now input ∷ events) = input ++ typed_bytes events

-- What a session sends and still holds.
abbrev Delivers : List Event → EscapeParser → Bytes → Type 0
Delivers events p forward =
    (r : Fed) × (session events p forward ≡ some r)
    × (sent : Bytes) × (r.1 ≡ forward ++ sent)
    × Within (sent ++ all_held r.0) (all_held p ++ typed_bytes events)

more_typed :
    (xs before input more : Bytes)
    → Within xs (before ++ input)
    → Within xs (before ++ (input ++ more))
more_typed xs before input more v = subst (Within xs) (append_assoc before input more) (
    subst (λ ys. Within ys ((before ++ input) ++ more)) (append-nil xs)
      (Within-append xs (before ++ input) [] more v (Within-none more)))

-- A read that went on, with the rest of the session.
session-more :
    (now : ℕ) (input : Bytes) (events : List Event) (p : EscapeParser) (forward : Bytes) (r : Fed)
    → feed now input p forward ≡ some r
    → Accounts p.mode (all_held p ++ input) forward r
    → (r.2 ≡ continue → Delivers events r.0 r.1)
    → Delivers (typed now input ∷ events) p forward
unfolding session
session-more now input events p forward (p', forward', detach) eq a more = (
  (p', forward', detach),
  rw (session, eq) refl,
  a.sent,
  a.forwarded,
  more_typed (a.sent ++ all_held p') (all_held p) input (typed_bytes events) a.ordered,
)
session-more now input events p forward (p', forward', continue) eq a more =
    let (r, q, sent, f, o) = more refl in
    (
      r,
      rw (session, eq) q,
      a.sent ++ sent,
      f ∙ ap (λ xs. xs ++ sent) a.forwarded ∙ append_assoc forward a.sent sent,
      subst (Within ((a.sent ++ sent) ++ all_held r.0))
          (append_assoc (all_held p) input (typed_bytes events))
          (join a.sent sent (all_held r.0) (all_held p') (all_held p ++ input) (typed_bytes events)
            a.ordered o),
    )

session-Delivers :
    (events : List Event) (p : EscapeParser) (forward : Bytes) → Ready p → Delivers events p forward
unfolding session
session-Delivers [] p forward ready = (
  (p, forward, continue),
  refl,
  [],
  sym (append-nil forward),
  subst (Within (all_held p)) (sym (append-nil (all_held p))) (Within-refl (all_held p)),
)
session-Delivers (looked now ∷ events) p forward ready =
    let a = flush-Accounts now p forward ready in
    let (r, q, sent, f, o) =
      session-Delivers events (flush_expired now p forward).0 (flush_expired now p forward).1
        (flush-Ready now p forward p.mode refl ready) in
    (
      r,
      q,
      a.sent ++ sent,
      f ∙ ap (λ xs. xs ++ sent) a.forwarded ∙ append_assoc forward a.sent sent,
      join a.sent sent (all_held r.0) _ (all_held p) (typed_bytes events) a.ordered o,
    )
session-Delivers (typed now input ∷ events) p forward ready =
    let (r, q, a, after) = feed-Reads now input p forward p.mode refl ready in
    session-more now input events p forward r q a (λ _. session-Delivers events r.0 r.1 after)

new-Ready : (mode : EscapeMode) → Ready (new mode)
unfolding new
new-Ready mode = record {
  valid = record { kept = nothing; idle = λ _. refl };
  time = untimed;
  off = λ _. (refl, refl);
}

-- Whatever is typed and however it is split into reads and timeouts, the parser answers each read;
-- and the bytes that it forwards, followed by those it still holds, stand in the order typed among
-- the bytes typed: none is invented, repeated or moved, in either mode.
pub session_new :
    (mode : EscapeMode) (events : List Event)
    → (r : Fed) × (session events (new mode) [] ≡ some r)
      × Within (r.1 ++ (held_bytes r.0 ++ r.0.partial)) (typed_bytes events)
unfolding new
session_new mode events =
    let (r, q, sent, f, o) = session-Delivers events (new mode) [] (new-Ready mode) in
    (
      r,
      q,
      subst (λ xs. Within (xs ++ (held_bytes r.0 ++ r.0.partial)) (typed_bytes events)) (sym f) o,
    )
