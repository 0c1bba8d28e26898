-- ===== src/AttachEscape/Parser.antt =====
-- `EscapeParser` (src/attach_escape.rs): what is held and what is forwarded. The `Vec` that the
-- methods append to is an argument and a result. The loop of `feed` takes fuel; `none` says that it
-- ran out.
use agenttender.Common.{
  ℕ, zero, suc, ◌+◌, Bool, true, false, [], ◌∷◌, ◌++◌, Option, none, some, Bytes, if◌then◌else◌,
  ltb, length, take, drop,
}
use agenttender.AttachEscape.Keys.{Key, prefix_key, detach_key, other, incidental}
use agenttender.AttachEscape.Tokens.{complete, unfinished, token, could_become_prefix}

-- 20 ms
abbrev pub partial_hold : ℕ
partial_hold = 20000000

pub data EscapeMode : Type 0 where
  ctrl_backslash disabled : EscapeMode

pub data Escape : Type 0 where
  continue detach : Escape

pub record EscapeParser : Type 0 where
  pub mode : EscapeMode
  pub prefix : Option Bytes
  pub between : Bytes
  pub between_kept : Bytes
  pub partial : Bytes
  pub partial_since : Option ℕ

unfoldable pub new : EscapeMode → EscapeParser
new mode = record {
  mode = mode;
  prefix = none;
  between = [];
  between_kept = [];
  partial = [];
  partial_since = none;
}

-- `decide` with a prefix held
unfoldable pub decide_held :
    Bytes → Bytes → Key → EscapeParser → Bytes → EscapeParser × Bytes × Escape
decide_held prefix bytes (incidental of_backslash) p forward = (
  record p {
    between = p.between ++ bytes;
    between_kept = if of_backslash then p.between_kept else p.between_kept ++ bytes;
  },
  forward,
  continue,
)
decide_held prefix bytes detach_key p forward =
    (record p { prefix = none; between = []; between_kept = [] }, forward ++ p.between_kept, detach)
decide_held prefix bytes prefix_key p forward = (
  record p { prefix = none; between = []; between_kept = [] },
  (forward ++ p.between_kept) ++ bytes,
  continue,
)
decide_held prefix bytes other p forward = (
  record p { prefix = none; between = []; between_kept = [] },
  ((forward ++ prefix) ++ p.between) ++ bytes,
  continue,
)

-- `decide` with none held
unfoldable pub decide_idle : Bytes → Key → EscapeParser → Bytes → EscapeParser × Bytes × Escape
decide_idle bytes prefix_key p forward = (record p { prefix = some bytes }, forward, continue)
decide_idle bytes _ p forward = (p, forward ++ bytes, continue)

unfoldable pub decide : Bytes → Key → EscapeParser → Bytes → EscapeParser × Bytes × Escape
unfolding decide_held decide_idle
decide bytes key p forward = elim p.prefix [
  | none ↦ decide_idle bytes key p forward
  | some prefix ↦ decide_held prefix bytes key p forward
]

-- `self.prefix.is_some() || could_become_prefix(rest)`
unfoldable pub holds_back : EscapeParser → Bytes → Bool
unfolding could_become_prefix
holds_back p rest = elim p.prefix [ some _ ↦ true | none ↦ could_become_prefix rest ]

-- `at > 0 || self.partial_since.is_none()` renews the time.
unfoldable pub since : ℕ → Bool → Option ℕ → Option ℕ
since now moved none = some now
since now moved (some t) = if moved then some now else some t

-- The loop of `feed` on `bytes[at..]`; `moved` is `at > 0`.
unfoldable pub feed_loop :
    ℕ → ℕ → Bool → Bytes → EscapeParser → Bytes → Option (EscapeParser × Bytes × Escape)
unfolding token decide holds_back since
feed_loop zero now moved rest p forward = none
feed_loop (suc fuel) now moved [] p forward =
    some (record p { partial_since = none }, forward, continue)
feed_loop (suc fuel) now moved (b ∷ bs) p forward = elim (token (b ∷ bs)) [
  | complete len key ↦
      let (p', forward', answer) = decide (take len (b ∷ bs)) key p forward in
      elim answer [
        | detach ↦ some (record p' { partial_since = none }, forward', detach)
        | continue ↦ feed_loop fuel now true (drop len (b ∷ bs)) p' forward'
      ]
  | unfinished ↦ elim (holds_back p (b ∷ bs)) [
    | true ↦ some (
      record p { partial = b ∷ bs; partial_since = since now moved p.partial_since },
      forward,
      continue,
    )
    | false ↦ some (record p { partial_since = none }, forward ++ (b ∷ bs), continue)
  ]
]

-- `now` is the instant that `feed` reads.
unfoldable pub feed : ℕ → Bytes → EscapeParser → Bytes → Option (EscapeParser × Bytes × Escape)
unfolding feed_loop
feed now input p forward = elim p.mode [
  | disabled ↦ some (p, forward ++ input, continue)
  | ctrl_backslash ↦
      feed_loop (suc (length (p.partial ++ input))) now false (p.partial ++ input)
        (record p { partial = [] }) forward
]

unfoldable pub partial_deadline : EscapeParser → Option ℕ
partial_deadline p = elim p.partial_since [ none ↦ none | some t ↦ some (t + partial_hold) ]

-- `partial_deadline().is_none_or(|due| now < due)`
unfoldable pub not_due : ℕ → Option ℕ → Bool
not_due now none = true
not_due now (some due) = ltb now due

unfoldable pub flush_expired : ℕ → EscapeParser → Bytes → EscapeParser × Bytes
unfolding not_due partial_deadline decide
flush_expired now p forward =
    if not_due now (partial_deadline p)
    then (p, forward)
    else (let (p', forward', _) =
          decide p.partial other (record p { partial_since = none; partial = [] }) forward in
        (p', forward'))
