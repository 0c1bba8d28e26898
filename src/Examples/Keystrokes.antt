-- ===== src/Examples/Keystrokes.antt =====
-- Keystrokes of an attach client.
use agenttender.Common.{◌++◌, ◌≡◌, refl, arith, List, [], ◌∷◌, none, some, codes}
use agenttender.AttachEscape.Parser.{
  EscapeParser, continue, detach, ctrl_backslash, new, feed, flush_expired, partial_deadline,
}
use agenttender.AttachEscape.Progress.{Fed}
use agenttender.AttachEscape.Order.{Within, nothing, held_bytes}
use agenttender.AttachEscape.Order.Feeds.{timed}
use agenttender.AttachEscape.Reads.{Ready, all_held}
use agenttender.AttachEscape.Sessions.{Event, typed, looked, session, typed_bytes, session_new}
use agenttender.AttachEscape.Plain.{feed-plain}
use agenttender.AttachEscape.Deadline.{flush_expired-deadline}

-- `Ctrl-\` and, in a later read, `d`
abbrev leave : List Event
leave = typed 0 (codes "ls" ++ (0x1c ∷ [])) ∷ looked 30000000 ∷ typed 40000000 (codes "dx") ∷ []

session_new_example :
    (r : Fed) × (session leave (new ctrl_backslash) [] ≡ some r)
    × Within (r.1 ++ (held_bytes r.0 ++ r.0.partial)) (typed_bytes leave)
session_new_example = session_new ctrl_backslash leave

abbrev idle_parser : EscapeParser
idle_parser = record {
  mode = ctrl_backslash;
  prefix = none;
  between = [];
  between_kept = [];
  partial = [];
  partial_since = none;
}

leave-session : session leave idle_parser [] ≡ some (idle_parser, codes "ls", detach)
leave-session = unfold session in refl

feed-plain_example :
    feed 5 (codes "cd") idle_parser (codes "x") ≡ some (idle_parser, codes "xcd", continue)
feed-plain_example =
    feed-plain 5 (codes "cd") idle_parser (codes "x") ((refl, refl), ((refl, refl), tt)) refl refl
      refl

-- `Ctrl-\`, then a lone `Esc`
abbrev waiting : EscapeParser
waiting = record {
  mode = ctrl_backslash;
  prefix = some (0x1c ∷ []);
  between = [];
  between_kept = [];
  partial = 0x1b ∷ [];
  partial_since = some 7;
}

waiting-Ready : Ready waiting
waiting-Ready = record {
  valid = record { kept = nothing; idle = λ n. refl };
  time = timed 0x1b [] 7;
  off = λ d. absurd (ground arith);
}

flush_expired-deadline_example :
    ((flush_expired 20000008 waiting (codes "x")).1 ≡ codes "x" ++ (0x1c ∷ 0x1b ∷ []))
    × (all_held (flush_expired 20000008 waiting (codes "x")).0 ≡ [])
flush_expired-deadline_example =
    flush_expired-deadline 20000008 20000007 waiting (codes "x") waiting-Ready
      (unfold partial_deadline in refl) (omega arith)
