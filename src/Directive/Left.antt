-- ===== src/Directive/Left.antt =====
-- What is left of a script's file name, said without the code (src/directive.rs), and that
-- `derive_session_name` keeps it.
use agenttender.Common.{
  ℕ, ◌+◌, ◌-◌, ◌≤◌, ◌<◌, ◌≡◌, ◌≢◌, refl, sym, ◌∙◌, ap, arith, inl, inr, ◌⊎◌, true, false, [], ◌∷◌,
  ◌++◌, none, some, map, All, Bool-cases, append-nil, leb, ltb, ◌==◌, ==_iff, if◌then◌else◌,
}
use mathlib.Core.Path.{subst}
use agenttender.Directive.Text.{Text, trim_start, width, byte_len}
use agenttender.Directive.Derive.{
  or_at, before_last, stem_of, dash, is_leading, fit, truncated, kept_name,
}
use agenttender.Directive.Kept.{byte_len-fit}

abbrev NotDot : ℕ → Type 0
NotDot c = c ≢ 46

-- The file name and its stem: without a dot the whole; behind a leading dot that is the only one; or
-- in front of the last dot.
pub data IsStem : Text → Text → Type 0 where
  whole : (b : Text) → All NotDot b → IsStem b b
  hidden : (b : Text) → All NotDot b → IsStem (46 ∷ b) b
  extension :
      (c : ℕ) (stem ext : Text) → All NotDot ext → IsStem (c ∷ (stem ++ (46 ∷ ext))) (c ∷ stem)

-- An underscore or a hyphen.
abbrev pub IsLead : ℕ → Type 0
IsLead c = (c ≡ 95) ⊎ (c ≡ 45)

abbrev pub HasNoLead : Text → Type 0
HasNoLead [] = Unit
HasNoLead (c ∷ cs) = ¬ IsLead c

-- The next character does not fit into so many bytes.
abbrev pub IsLongest : ℕ → Text → Text → Type 0
IsLongest n name [] = Unit
IsLongest n name (c ∷ cs) = n < byte_len name + width c

-- The name that is left of a file name: its stem with hyphens for dots, without the underscores and
-- hyphens in front, as far as whole characters go within 255 bytes.
pub record IsLeft (b name : Text) : Type 0 where
  pub stem : Text
  pub lead : Text
  pub dropped : Text
  pub is_stem : IsStem b stem
  pub leads : All IsLead lead
  pub splits : map (λ c. if c == 46 then 45 else c) stem ≡ lead ++ (name ++ dropped)
  pub clean : HasNoLead (name ++ dropped)
  pub fits : byte_len name ≤ 255
  pub longest : IsLongest 255 name dropped

unequal : (c : ℕ) → (c == 46) ≡ false → c ≢ 46
unequal c h = ground arith

before_last-Stem :
    (t : Text)
    → ((before_last 46 t ≡ none) × All NotDot t)
      ⊎ ((s : Text) × (ext : Text) × (before_last 46 t ≡ some s)
          × (t ≡ s ++ (46 ∷ ext))
          × All NotDot ext)
unfolding before_last
before_last-Stem [] = inl (refl, tt)
before_last-Stem (c ∷ cs) = elim (before_last-Stem cs) [
  | inr (s, ext, e, t, a) ↦ inr (c ∷ s, ext, ap (or_at (c == 46) c) e, ap (λ x. c ∷ x) t, a)
  | inl (e, a) ↦ elim (Bool-cases (c == 46)) [
    | inl h ↦ inr ([], cs, rw (h, e) refl, ap (λ x. x ∷ cs) ((==_iff c 46).0 h), a)
    | inr h ↦ inl (rw (h, e) refl, (unequal c h, a))
  ]
]

no_dot : (s ext : Text) → ¬ All NotDot (s ++ (46 ∷ ext))
no_dot [] ext (p, a) = p refl
no_dot (c ∷ s) ext (p, a) = no_dot s ext a

has_dot : (s ext t : Text) → t ≡ s ++ (46 ∷ ext) → ¬ All NotDot t
has_dot s ext t q a = no_dot s ext (subst (All NotDot) q a)

without_dot : (t : Text) → All NotDot t → before_last 46 t ≡ none
unfolding before_last
without_dot t a = elim (before_last-Stem t) [
  | inl (e, b) ↦ e
  | inr (s, ext, e, q, b) ↦ absurd (has_dot s ext t q a)
]

stem_of-Stem : (b : Text) → IsStem b (stem_of b)
unfolding stem_of
stem_of-Stem b = elim (before_last-Stem b) [
  | inl (e, a) ↦ rw (stem_of, e) (IsStem.whole b a)
  | inr ([], ext, e, q, a) ↦ rw (stem_of, e, q, without_dot ext a) (IsStem.hidden ext a)
  | inr (c ∷ s, ext, e, q, a) ↦ rw (stem_of, e, q) (IsStem.extension c s ext a)
]

IsLongest-cons :
    (n c : ℕ) (name dropped : Text)
    → leb (width c) n ≡ true
    → IsLongest (n - width c) name dropped
    → IsLongest n (c ∷ name) dropped
unfolding byte_len
IsLongest-cons n c name [] h l = tt
IsLongest-cons n c name (d ∷ ds) h l = grind arith

fit-Longest :
    (n : ℕ) (t : Text) → (dropped : Text) × (t ≡ fit n t ++ dropped) × IsLongest n (fit n t) dropped
unfolding fit byte_len
fit-Longest n [] = ([], refl, tt)
fit-Longest n (c ∷ cs) =
    let (dropped, e, l) = fit-Longest (n - width c) cs in
    elim (Bool-cases (leb (width c) n)) [
      | inl h ↦ (
        dropped,
        rw h (ap (λ x. c ∷ x) e),
        rw h (IsLongest-cons n c (fit (n - width c) cs) dropped h l),
      )
      | inr h ↦ (c ∷ cs, rw h refl, rw h (grind (arith, h)))
    ]

leading : (c : ℕ) → is_leading c ≡ true → IsLead c
leading c h = ground arith

not_leading : (c : ℕ) → is_leading c ≡ false → ¬ IsLead c
not_leading c h = ground arith

within : (n : ℕ) → ltb 255 n ≡ false → n ≤ 255
within n h = ground arith

trim_start-Leads :
    (t : Text)
    → (lead : Text) × All IsLead lead
      × (t ≡ lead ++ trim_start is_leading t)
      × HasNoLead (trim_start is_leading t)
unfolding trim_start
trim_start-Leads [] = ([], tt, refl, tt)
trim_start-Leads (c ∷ cs) =
    let (lead, all, e, clean) = trim_start-Leads cs in
    elim (Bool-cases (is_leading c)) [
      | inl h ↦ (c ∷ lead, (leading c h, all), rw h (ap (λ x. c ∷ x) e), rw h clean)
      | inr h ↦ ([], tt, rw h refl, rw h (not_leading c h))
    ]

truncated-Longest :
    (t : Text)
    → (dropped : Text) × (t ≡ truncated t ++ dropped)
      × (byte_len (truncated t) ≤ 255)
      × IsLongest 255 (truncated t) dropped
truncated-Longest t =
    let (dropped, e, l) = fit-Longest 255 t in
    elim (Bool-cases (ltb 255 (byte_len t))) [
      | inl h ↦ (dropped, rw h e, rw h (byte_len-fit 255 t), rw h l)
      | inr h ↦ ([], rw h (sym (append-nil t)), rw h (within (byte_len t) h), tt)
    ]

-- The name that the code keeps is what is left.
pub kept_name-IsLeft : (b : Text) → IsLeft b (kept_name b)
unfolding kept_name
kept_name-IsLeft b =
    let dashed = map dash (stem_of b) in
    let (lead, all, e, clean) = trim_start-Leads dashed in
    let (dropped, f, fits, longest) = truncated-Longest (trim_start is_leading dashed) in
    record {
      stem = stem_of b;
      lead = lead;
      dropped = dropped;
      is_stem = stem_of-Stem b;
      leads = all;
      splits = e ∙ ap (◌++◌ lead) f;
      clean = subst HasNoLead f clean;
      fits = fits;
      longest = longest;
    }
