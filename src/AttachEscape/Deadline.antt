-- ===== src/AttachEscape/Deadline.antt =====
-- The deadline of an unfinished sequence (src/attach_escape.rs).
use agenttender.Common.{
  ℕ, ◌≤◌, false, [], ◌++◌, none, some, Bytes, ◌≡◌, sym, ap, arith, ◌∙◌, append_assoc, inl, inr,
  Option-cases,
}
use agenttender.AttachEscape.Keys.{other}
use agenttender.AttachEscape.Parser.{
  EscapeParser, decide, decide_held, decide_idle, flush_expired, not_due, partial_deadline,
}
use agenttender.AttachEscape.Order.{held_bytes, prefix_of, IsParser, decide-idle, decide-held}
use agenttender.AttachEscape.Reads.{Ready, all_held, flush-due}

idle-held : (p : EscapeParser) → IsParser p → p.prefix ≡ none → held_bytes p ≡ []
idle-held p v eq = ap (λ o. prefix_of o ++ p.between) eq ∙ v.idle eq

-- A key that is none of the escape's is sent behind everything held, and leaves nothing held.
decide-other :
    (bytes forward : Bytes) (p : EscapeParser)
    → IsParser p
    → ((decide bytes other p forward).1 ≡ forward ++ (held_bytes p ++ bytes))
      × (all_held (decide bytes other p forward).0 ≡ p.partial)
unfolding decide_held decide_idle
decide-other bytes forward p v = elim (Option-cases p.prefix) [
  | inl eq ↦ (
    ap (λ x. x.1) (decide-idle bytes forward other p eq)
        ∙ ap (λ h. forward ++ (h ++ bytes)) (sym (idle-held p v eq)),
    ap (λ x. all_held x.0) (decide-idle bytes forward other p eq)
        ∙ ap (λ h. h ++ p.partial) (idle-held p v eq),
  )
  | inr (prefix, eq) ↦ (
    ap (λ x. x.1) (decide-held prefix bytes forward other p eq)
        ∙ ap (λ xs. xs ++ bytes) (append_assoc forward prefix p.between)
        ∙ append_assoc forward (prefix ++ p.between) bytes
        ∙ ap (λ o. forward ++ ((prefix_of o ++ p.between) ++ bytes)) (sym eq),
    ap (λ x. all_held x.0) (decide-held prefix bytes forward other p eq),
  )
]

-- An unfinished sequence whose deadline has come is forwarded as it was typed, behind the prefix
-- and the events held before it, and nothing stays held.
pub flush_expired-deadline :
    (now due : ℕ) (p : EscapeParser) (forward : Bytes)
    → Ready p
    → partial_deadline p ≡ some due
    → due ≤ now
    → ((flush_expired now p forward).1 ≡ forward ++ all_held p)
      × (all_held (flush_expired now p forward).0 ≡ [])
unfolding not_due
flush_expired-deadline now due p forward ready eq late =
    let q = flush-due now p forward false (ap (not_due now) eq ∙ ground arith) in
    let (f, h) =
      decide-other p.partial forward (record p { partial_since = none; partial = [] })
        (record { kept = ready.valid.kept; idle = ready.valid.idle }) in
    (ap (λ x. x.1) q ∙ f, ap (λ x. all_held x.0) q ∙ h)
