-- ===== src/AttachEscape/Order.antt =====
-- What becomes of the typed bytes (src/attach_escape.rs): forwarded or held in the order typed.
pub mod Feeds
use agenttender.Common.{
  ℕ, zero, suc, ◌+◌, ◌-◌, ◌<◌, ◌≤◌, Bool, true, false, List, [], ◌∷◌, ◌++◌, Option, none, some,
  Bytes, length, take, drop, take-append-drop, ◌≡◌, refl, sym, ap, arith, ◌∙◌, append_assoc,
  append-nil, Option-cases, inl, inr, if◌then◌else◌,
}
use mathlib.Core.Path.{subst}
use agenttender.AttachEscape.Keys.{Key, prefix_key, detach_key, other, incidental}
use agenttender.AttachEscape.Parser.{
  EscapeMode, EscapeParser, Escape, continue, detach, decide, decide_held, decide_idle,
}

-- The bytes of the first list stand in the second in the same order.
pub data Within : Bytes → Bytes → Type 0 where
  nothing : Within [] []
  keep : (b : ℕ) (xs ys : Bytes) → Within xs ys → Within (b ∷ xs) (b ∷ ys)
  skip : (b : ℕ) (xs ys : Bytes) → Within xs ys → Within xs (b ∷ ys)

pub Within-refl : (xs : Bytes) → Within xs xs
Within-refl [] = nothing
Within-refl (x ∷ xs) = keep x xs xs (Within-refl xs)

pub Within-none : (xs : Bytes) → Within [] xs
Within-none [] = nothing
Within-none (x ∷ xs) = skip x [] xs (Within-none xs)

pub Within-append : (a b c d : Bytes) → Within a b → Within c d → Within (a ++ c) (b ++ d)
Within-append a b c d nothing w = w
Within-append a b c d (keep x xs ys v) w = keep x (xs ++ c) (ys ++ d) (Within-append xs ys c d v w)
Within-append a b c d (skip x xs ys v) w = skip x (xs ++ c) (ys ++ d) (Within-append xs ys c d v w)

pub Within-trans : (a b c : Bytes) → Within a b → Within b c → Within a c
Within-trans a b c v nothing = v
Within-trans a b c v (skip x xs ys w) = skip x a ys (Within-trans a b ys v w)
Within-trans a b c (keep y vs bs v) (keep x xs ys w) = keep x vs ys (Within-trans vs xs ys v w)
Within-trans a b c (skip y vs bs v) (keep x xs ys w) = skip x a ys (Within-trans a xs ys v w)

abbrev pub prefix_of : Option Bytes → Bytes
prefix_of none = []
prefix_of (some bytes) = bytes

-- The bytes of a held prefix and of the events behind it.
abbrev pub held_bytes : EscapeParser → Bytes
held_bytes p = prefix_of p.prefix ++ p.between

-- What is kept of the events stands among them, and there are none without a prefix.
pub record IsParser (p : EscapeParser) : Type 0 where
  pub kept : Within p.between_kept p.between
  pub idle : p.prefix ≡ none → p.between ≡ []

-- A decision on some bytes: what it sends and holds, in order, stands in what was held and typed.
pub record Decided (p : EscapeParser) (bytes forward : Bytes) (out : EscapeParser × Bytes × Escape)
    : Type 0 where
  pub sent : Bytes
  pub forwarded : out.1 ≡ forward ++ sent
  pub ordered : Within (sent ++ held_bytes out.0) (held_bytes p ++ bytes)
  pub valid : IsParser out.0
  pub partial : out.0.partial ≡ p.partial
  pub mode : out.0.mode ≡ p.mode
  pub time : out.0.partial_since ≡ p.partial_since

incidental_kept :
    (ob : Bool) (kept between bytes : Bytes)
    → Within kept between
    → Within (if ob then kept else kept ++ bytes) (between ++ bytes)
incidental_kept true kept between bytes v =
    subst (λ xs. Within xs (between ++ bytes)) (append-nil kept)
      (Within-append kept between [] bytes v (Within-none bytes))
incidental_kept false kept between bytes v =
    Within-append kept between bytes bytes v (Within-refl bytes)

none_held :
    {m : EscapeMode} {partial : Bytes} {t : Option ℕ}
    → IsParser (record {
      mode = m;
      prefix = none;
      between = [];
      between_kept = [];
      partial = partial;
      partial_since = t;
    })
none_held = record { kept = nothing; idle = λ _. refl }

-- Kept events and what follows them stand in what was held and typed.
behind :
    (bytes : Bytes) (p : EscapeParser) (kept more : Bytes)
    → Within kept p.between
    → Within more bytes
    → Within (kept ++ more) (held_bytes p ++ bytes)
behind bytes p kept more v w =
    Within-append kept (held_bytes p) more bytes
      (Within-append [] (prefix_of p.prefix) kept p.between (Within-none (prefix_of p.prefix)) v) w

decide_held-Decided :
    (prefix bytes forward : Bytes) (k : Key) (p : EscapeParser)
    → p.prefix ≡ some prefix
    → IsParser p
    → Decided p bytes forward (decide_held prefix bytes k p forward)
unfolding decide_held
decide_held-Decided prefix bytes forward (incidental ob) p eq v = record {
  sent = [];
  forwarded = sym (append-nil forward);
  ordered =
      subst
        (λ o. Within (prefix_of o ++ (p.between ++ bytes)) ((prefix_of o ++ p.between) ++ bytes))
        (sym eq)
        (subst (Within (prefix ++ (p.between ++ bytes))) (sym (append_assoc prefix p.between bytes))
          (Within-refl (prefix ++ (p.between ++ bytes))));
  valid = record {
    kept = incidental_kept ob p.between_kept p.between bytes v.kept;
    idle = λ n. absurd (ground (arith, eq));
  };
  partial = refl;
  mode = refl;
  time = refl;
}
decide_held-Decided prefix bytes forward detach_key p eq v = record {
  sent = p.between_kept;
  forwarded = refl;
  ordered = behind bytes p p.between_kept [] v.kept (Within-none bytes);
  valid = none_held;
  partial = refl;
  mode = refl;
  time = refl;
}
decide_held-Decided prefix bytes forward prefix_key p eq v = record {
  sent = p.between_kept ++ bytes;
  forwarded = append_assoc forward p.between_kept bytes;
  ordered =
      subst (λ xs. Within xs (held_bytes p ++ bytes)) (sym (append-nil (p.between_kept ++ bytes)))
        (behind bytes p p.between_kept bytes v.kept (Within-refl bytes));
  valid = none_held;
  partial = refl;
  mode = refl;
  time = refl;
}
decide_held-Decided prefix bytes forward other p eq v = record {
  sent = held_bytes p ++ bytes;
  forwarded = rw eq (
      ap (λ xs. xs ++ bytes) (append_assoc forward prefix p.between)
      ∙ append_assoc forward (prefix ++ p.between) bytes);
  ordered =
      subst (λ xs. Within xs (held_bytes p ++ bytes)) (sym (append-nil (held_bytes p ++ bytes)))
        (Within-refl (held_bytes p ++ bytes));
  valid = none_held;
  partial = refl;
  mode = refl;
  time = refl;
}

decide_idle-Decided :
    (bytes forward : Bytes) (k : Key) (p : EscapeParser)
    → p.prefix ≡ none
    → IsParser p
    → Decided p bytes forward (decide_idle bytes k p forward)
unfolding decide_idle
decide_idle-Decided bytes forward prefix_key p eq v = record {
  sent = [];
  forwarded = sym (append-nil forward);
  ordered =
      rw (eq, v.idle eq)
        (subst (λ xs. Within xs bytes) (sym (append-nil bytes)) (Within-refl bytes));
  valid = record { kept = v.kept; idle = λ n. v.idle eq };
  partial = refl;
  mode = refl;
  time = refl;
}
decide_idle-Decided bytes forward _ p eq v = record {
  sent = bytes;
  forwarded = refl;
  ordered =
      rw (eq, v.idle eq)
        (subst (λ xs. Within xs bytes) (sym (append-nil bytes)) (Within-refl bytes));
  valid = v;
  partial = refl;
  mode = refl;
  time = refl;
}

abbrev decided_on :
    Bytes → Bytes → Key → EscapeParser → Option Bytes → EscapeParser × Bytes × Escape
decided_on bytes forward k p o = elim o [
  | none ↦ decide_idle bytes k p forward
  | some prefix ↦ decide_held prefix bytes k p forward
]

pub decide-idle :
    (bytes forward : Bytes) (k : Key) (p : EscapeParser)
    → p.prefix ≡ none
    → decide bytes k p forward ≡ decide_idle bytes k p forward
unfolding decide
decide-idle bytes forward k p eq = ap (decided_on bytes forward k p) eq

pub decide-held :
    (prefix bytes forward : Bytes) (k : Key) (p : EscapeParser)
    → p.prefix ≡ some prefix
    → decide bytes k p forward ≡ decide_held prefix bytes k p forward
unfolding decide
decide-held prefix bytes forward k p eq = ap (decided_on bytes forward k p) eq

pub decide-Decided :
    (bytes forward : Bytes) (k : Key) (p : EscapeParser)
    → IsParser p
    → Decided p bytes forward (decide bytes k p forward)
decide-Decided bytes forward k p v = elim (Option-cases p.prefix) [
  | inl eq ↦
      subst (Decided p bytes forward) (sym (decide-idle bytes forward k p eq))
        (decide_idle-Decided bytes forward k p eq v)
  | inr (prefix, eq) ↦
      subst (Decided p bytes forward) (sym (decide-held prefix bytes forward k p eq))
        (decide_held-Decided prefix bytes forward k p eq v)
]
