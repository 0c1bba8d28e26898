-- ===== src/AttachEscape/Plain.antt =====
-- Plain typing (src/attach_escape.rs): bytes that begin no key sequence and no escape.
use agenttender.Common.{
  ℕ, zero, suc, ◌<◌, Bool, true, false, [], ◌∷◌, ◌++◌, none, some, Bytes, All, length, ◌≡◌, refl,
  sym, ap, arith, ◌∙◌, append_assoc, append-nil, ◌⊎◌, inl, inr, ◌==◌, Bool-cases,
}
use agenttender.AttachEscape.Keys.{Key, detach_key, other}
use agenttender.AttachEscape.Tokens.{token, complete, prefix_byte, esc}
use agenttender.AttachEscape.Order.{decide-idle}
use agenttender.AttachEscape.Progress.{feed_loop-decided, feed_loop-drained}
use agenttender.AttachEscape.Reads.{feed-mode}
use agenttender.AttachEscape.Parser.{
  EscapeParser, EscapeMode, continue, ctrl_backslash, disabled, decide, decide_idle, feed,
  feed_loop,
}

abbrev pub IsPlain : ℕ → Type 0
IsPlain b = ((b == prefix_byte) ≡ false) × ((b == esc) ≡ false)

token-plain :
    (b : ℕ) (bs : Bytes)
    → IsPlain b
    → (token (b ∷ bs) ≡ complete 1 detach_key) ⊎ (token (b ∷ bs) ≡ complete 1 other)
unfolding token
token-plain b bs (p, e) = elim (Bool-cases (b == 100)) [
  | inl d ↦ inl (rw p (rw d refl))
  | inr d ↦ inr (rw p (rw d (rw e refl)))
]

decide-plain :
    (bytes forward : Bytes) (k : Key) (p : EscapeParser)
    → p.prefix ≡ none
    → (k ≡ detach_key) ⊎ (k ≡ other)
    → decide bytes k p forward ≡ (p, forward ++ bytes, continue)
unfolding decide_idle
decide-plain bytes forward k p eq (inl q) =
    decide-idle bytes forward k p eq ∙ ap (λ k. decide_idle bytes k p forward) q
decide-plain bytes forward k p eq (inr q) =
    decide-idle bytes forward k p eq ∙ ap (λ k. decide_idle bytes k p forward) q

-- A round of the loop on a plain byte forwards it.
feed_loop-byte :
    (fuel now : ℕ) (moved : Bool) (b : ℕ) (bs : Bytes) (p : EscapeParser) (forward : Bytes)
    (k : Key)
    → token (b ∷ bs) ≡ complete 1 k
    → decide (b ∷ []) k p forward ≡ (p, forward ++ (b ∷ []), continue)
    → feed_loop (suc fuel) now moved (b ∷ bs) p forward
      ≡ feed_loop fuel now true bs p (forward ++ (b ∷ []))
feed_loop-byte fuel now moved b bs p forward k t d =
    feed_loop-decided fuel now moved b bs p forward 1 k t (ap (λ x. x.2) d)
    ∙ ap (λ x. feed_loop fuel now true bs x.0 x.1) d

feed_loop-plain :
    (fuel now : ℕ) (moved : Bool) (rest : Bytes) (p : EscapeParser) (forward : Bytes)
    → length rest < fuel
    → All IsPlain rest
    → p.prefix ≡ none
    → feed_loop fuel now moved rest p forward
      ≡ some (record p { partial_since = none }, forward ++ rest, continue)
feed_loop-plain zero now moved rest p forward l a eq = absurd (omega arith)
feed_loop-plain (suc fuel) now moved [] p forward l a eq =
    feed_loop-drained fuel now moved p forward
    ∙ ap (λ xs. some (record p { partial_since = none }, xs, continue)) (sym (append-nil forward))
feed_loop-plain (suc fuel) now moved (b ∷ bs) p forward l (a, more) eq =
    let next =
      feed_loop-plain fuel now true bs p (forward ++ (b ∷ [])) (omega arith) more eq
      ∙ ap (λ xs. some (record p { partial_since = none }, xs, continue))
          (append_assoc forward (b ∷ []) bs) in
    elim (token-plain b bs a) [
      | inl t ↦
          feed_loop-byte fuel now moved b bs p forward detach_key t
            (decide-plain (b ∷ []) forward detach_key p eq (inl refl))
          ∙ next
      | inr t ↦
          feed_loop-byte fuel now moved b bs p forward other t
            (decide-plain (b ∷ []) forward other p eq (inr refl))
          ∙ next
    ]

-- The parser that the loop leaves is the one that `feed` was called on.
unheld :
    (p : EscapeParser)
    → p.partial ≡ []
    → p.partial_since ≡ none
    → record p { partial = []; partial_since = none } ≡ p
unheld p e t = rw (e, t) refl

plain_in :
    (now : ℕ) (input : Bytes) (p : EscapeParser) (forward : Bytes) (m : EscapeMode)
    → p.mode ≡ m
    → All IsPlain input
    → p.prefix ≡ none
    → p.partial ≡ []
    → p.partial_since ≡ none
    → feed now input p forward ≡ some (p, forward ++ input, continue)
plain_in now input p forward disabled q a eq e t = feed-mode now input p forward disabled q
plain_in now input p forward ctrl_backslash q a eq e t =
    feed-mode now input p forward ctrl_backslash q
    ∙ ap
        (λ xs.
          feed_loop (suc (length (xs ++ input))) now false (xs ++ input) (record p { partial = [] })
            forward)
        e
    ∙ feed_loop-plain (suc (length input)) now false input (record p { partial = [] }) forward
        (omega arith) a eq
    ∙ ap (λ p. some (p, forward ++ input, continue)) (unheld p e t)

-- When nothing is held, a read without `Ctrl-\` and `Esc` bytes is forwarded whole and leaves the
-- parser as it was, in either mode.
pub feed-plain :
    (now : ℕ) (input : Bytes) (p : EscapeParser) (forward : Bytes)
    → All IsPlain input
    → p.prefix ≡ none
    → p.partial ≡ []
    → p.partial_since ≡ none
    → feed now input p forward ≡ some (p, forward ++ input, continue)
feed-plain now input p forward a eq e t = plain_in now input p forward p.mode refl a eq e t
