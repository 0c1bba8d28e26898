-- ===== src/Directive/Derived.antt =====
-- When a session name can be derived from a script's file name (src/directive.rs).
use agenttender.Common.{
  ℕ, ◌≤◌, true, false, not, [], ◌∷◌, some, Result, ok, err, guard, ◌>>◌, map, map_err, is_empty,
  if◌then◌else◌, ltb, leb, ◌==◌, codes, ◌≡◌, refl, ◌∙◌, ap, arith, inl, inr, Bool-cases,
}
use agenttender.Directive.Text.{
  Text, trim_start, width, byte_len, any, strip_prefix, starts_with, is_whitespace,
}
use agenttender.Directive.Names.{NameError, contains_whitespace, validate}
use agenttender.Directive.Left.{IsLeft, kept_name-IsLeft}
use agenttender.Directive.Derive.{
  nothing_left, invalid, stem_of, dash, is_leading, fit, kept_name, checked, derive_session_name,
}
use agenttender.Directive.Kept.{
  byte_len-fit, any-dashes_dot, any-dashes_slash, any-stem_of, any-kept_name,
}

byte_len-kept_name : (b : Text) → byte_len (kept_name b) ≤ 255
unfolding kept_name byte_len
byte_len-kept_name b =
    let name = trim_start is_leading (map dash (stem_of b)) in
    elim (Bool-cases (ltb 255 (byte_len name))) [
      | inl h ↦ rw (kept_name, h) (byte_len-fit 255 name)
      | inr h ↦ rw (kept_name, h) (grind arith)
    ]

-- No underscore in front.
abbrev IsPlain : Text → Type 0
IsPlain t = starts_with (codes "_") t ≡ false

trim_start-IsPlain : (t : Text) → IsPlain (trim_start is_leading t)
unfolding trim_start strip_prefix
trim_start-IsPlain [] = refl
trim_start-IsPlain (c ∷ cs) = elim (Bool-cases (c == 95)) [
  | inl h ↦ rw h (trim_start-IsPlain cs)
  | inr h ↦ elim (Bool-cases (c == 45)) [
    | inl k ↦ rw (h, k) (trim_start-IsPlain cs)
    | inr k ↦ rw (h, k) (rw h refl)
  ]
]

underscore : (c : ℕ) (cs : Text) → (c == 95) ≡ true → ¬ IsPlain (c ∷ cs)
unfolding strip_prefix
underscore c cs u h = ground arith

fit-IsPlain : (n : ℕ) (t : Text) → IsPlain t → IsPlain (fit n t)
unfolding fit strip_prefix
fit-IsPlain n [] h = h
fit-IsPlain n (c ∷ cs) h = elim (Bool-cases (leb (width c) n)) [
  | inl k ↦ elim (Bool-cases (c == 95)) [
    | inl u ↦ absurd (underscore c cs u h)
    | inr u ↦ rw (k, u) refl
  ]
  | inr k ↦ rw k refl
]

kept_name-IsPlain : (b : Text) → IsPlain (kept_name b)
unfolding kept_name
kept_name-IsPlain b =
    let name = trim_start is_leading (map dash (stem_of b)) in
    let plain = trim_start-IsPlain (map dash (stem_of b)) in
    elim (Bool-cases (ltb 255 (byte_len name))) [
      | inl h ↦ rw (kept_name, h) (fit-IsPlain 255 name plain)
      | inr h ↦ rw (kept_name, h) plain
    ]

not_over : (n : ℕ) → n ≤ 255 → ltb 255 n ≡ false
not_over n h = ground arith

-- What `validate` finds wrong with a name that keeps all other rules.
validate-whitespace :
    (t : Text)
    → is_empty t ≡ false
    → byte_len t ≤ 255
    → any (λ c. c == 47) t ≡ false
    → any (λ c. c == 46) t ≡ false
    → IsPlain t
    → validate t ≡ guard (not (any is_whitespace t)) contains_whitespace
unfolding validate
validate-whitespace t e n s d p = elim (Bool-cases (any is_whitespace t)) [
  | inl w ↦ rw (validate, e, not_over (byte_len t) n, s, d, w) refl
  | inr w ↦ rw (validate, e, not_over (byte_len t) n, s, d, w, p) refl
]

checked_end :
    (b name : Text) (r : Result NameError (Unit {0}))
    → is_empty name ≡ false
    → validate name ≡ r
    → checked b name ≡ map_err (invalid name) r >> ok name
checked_end b name r e v = rw e (ap (λ x. map_err (invalid name) x >> ok name) v)

derive_session_name-kept :
    (b : Text)
    → any (λ c. c == 47) b ≡ false
    → derive_session_name (some b) ≡ (
        if is_empty (kept_name b)
        then err (nothing_left b)
        else if any is_whitespace (kept_name b)
        then err (invalid (kept_name b) contains_whitespace)
        else ok (kept_name b))
unfolding derive_session_name
derive_session_name-kept b h = elim (Bool-cases (is_empty (kept_name b))) [
  | inl e ↦ rw (derive_session_name, e) refl
  | inr e ↦
      let v =
        validate-whitespace (kept_name b) e (byte_len-kept_name b)
          (any-kept_name (λ c. c == 47) b
            (any-dashes_slash (stem_of b) (any-stem_of (λ c. c == 47) b h)))
          (any-kept_name (λ c. c == 46) b (any-dashes_dot (stem_of b))) (kept_name-IsPlain b) in
      checked_end b (kept_name b)
        (guard (not (any is_whitespace (kept_name b))) contains_whitespace) e v
      ∙ elim (Bool-cases (any is_whitespace (kept_name b))) [
        | inl w ↦ rw (e, w) refl
        | inr w ↦ rw (e, w) refl
      ]
]

-- A session name is derived from every file name (which has no slash) unless nothing is left of it, or
-- what is left has whitespace: the name is what is left, and no other rule of session names can be
-- broken. What is left is the file name without its last extension (or without the leading dot that
-- is its only one), with hyphens for its dots, without the underscores and hyphens in front, and cut
-- after the last character that ends within 255 bytes.
pub derive_session_name_lem :
    (b : Text)
    → any (λ c. c == 47) b ≡ false
    → (name : Text) × IsLeft b name
      × (derive_session_name (some b) ≡ (
          if is_empty name
          then err (nothing_left b)
          else if any is_whitespace name
          then err (invalid name contains_whitespace)
          else ok name))
derive_session_name_lem b h = (kept_name b, kept_name-IsLeft b, derive_session_name-kept b h)
