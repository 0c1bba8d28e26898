-- ===== src/Directive/Kept.antt =====
-- What a derived session name keeps of the file name's characters (src/directive.rs).
use agenttender.Common.{
  ℕ, ◌-◌, Bool, true, false, [], ◌∷◌, Option, none, some, map, is_empty, if◌then◌else◌, ltb, leb,
  ◌==◌, drop, ◌≡◌, refl, arith, ◌≤◌, Bool-cases, inl, inr,
}
use agenttender.Directive.Text.{Text, trim_start, width, byte_len, any}
use agenttender.Directive.Derive.{
  or_at, before_last, or_whole, stem_at, stem_of, dash, is_leading, fit, kept_name,
}

pub any_cons :
    (p : ℕ → Bool) (c : ℕ) (cs : Text) → any p (c ∷ cs) ≡ false → (p c ≡ false) × (any p cs ≡ false)
unfolding any
any_cons p c cs h = ground arith

pub cons_any :
    (p : ℕ → Bool) (c : ℕ) (cs : Text) → p c ≡ false → any p cs ≡ false → any p (c ∷ cs) ≡ false
unfolding any
cons_any p c cs h k = rw (any, h, k) refl

pub if_any :
    (p : ℕ → Bool) (b : Bool) (s t : Text)
    → any p s ≡ false
    → any p t ≡ false
    → any p (if b then s else t) ≡ false
if_any p true s t h k = h
if_any p false s t h k = k

pub any-fit : (p : ℕ → Bool) (n : ℕ) (t : Text) → any p t ≡ false → any p (fit n t) ≡ false
unfolding fit any
any-fit p n [] h = h
any-fit p n (c ∷ cs) h =
    let (here, later) = any_cons p c cs h in
    if_any p (leb (width c) n) (c ∷ fit (n - width c) cs) []
      (cons_any p c (fit (n - width c) cs) here (any-fit p (n - width c) cs later)) refl

pub any-trim_start : (p q : ℕ → Bool) (t : Text) → any p t ≡ false → any p (trim_start q t) ≡ false
unfolding trim_start any
any-trim_start p q [] h = h
any-trim_start p q (c ∷ cs) h =
    if_any p (q c) (trim_start q cs) (c ∷ cs) (any-trim_start p q cs (any_cons p c cs h).1) h

pub dash_dot : (c : ℕ) → (dash c == 46) ≡ false
dash_dot c = ground arith

pub dash_slash : (c : ℕ) → (c == 47) ≡ false → (dash c == 47) ≡ false
dash_slash c h = ground arith

pub any-dashes_dot : (t : Text) → any (λ c. c == 46) (map dash t) ≡ false
unfolding any
any-dashes_dot [] = refl
any-dashes_dot (c ∷ cs) =
    cons_any (λ x. x == 46) (dash c) (map dash cs) (dash_dot c) (any-dashes_dot cs)

pub any-dashes_slash :
    (t : Text) → any (λ c. c == 47) t ≡ false → any (λ c. c == 47) (map dash t) ≡ false
unfolding any
any-dashes_slash [] h = refl
any-dashes_slash (c ∷ cs) h =
    let (here, later) = any_cons (λ x. x == 47) c cs h in
    cons_any (λ x. x == 47) (dash c) (map dash cs) (dash_slash c here) (any-dashes_slash cs later)

-- A test that fails on every character of an optional text.
abbrev pub NoneHas : (ℕ → Bool) → Option Text → Type 0
NoneHas p none = Unit
NoneHas p (some t) = any p t ≡ false

pub or_at_none :
    (p : ℕ → Bool) (b : Bool) (c : ℕ) (o : Option Text)
    → p c ≡ false
    → NoneHas p o
    → NoneHas p (or_at b c o)
unfolding any
or_at_none p b c (some t) h k = cons_any p c t h k
or_at_none p true c none h k = refl
or_at_none p false c none h k = tt

pub before_last_none :
    (p : ℕ → Bool) (at : ℕ) (t : Text) → any p t ≡ false → NoneHas p (before_last at t)
unfolding before_last
before_last_none p at [] h = tt
before_last_none p at (c ∷ cs) h =
    let (here, later) = any_cons p c cs h in
    or_at_none p (c == at) c (before_last at cs) here (before_last_none p at cs later)

pub or_whole_none :
    (p : ℕ → Bool) (t : Text) (o : Option Text)
    → any p t ≡ false
    → NoneHas p o
    → any p (or_whole t o) ≡ false
or_whole_none p t none h k = h
or_whole_none p t (some s) h k = k

pub any-drop : (p : ℕ → Bool) (t : Text) → any p t ≡ false → any p (drop 1 t) ≡ false
any-drop p [] h = h
any-drop p (c ∷ cs) h = (any_cons p c cs h).1

pub stem_at_none :
    (p : ℕ → Bool) (t : Text) (o : Option Text)
    → any p t ≡ false
    → NoneHas p o
    → any p (stem_at t o) ≡ false
stem_at_none p t none h k = h
stem_at_none p t (some s) h k =
    if_any p (is_empty s) _ s
      (or_whole_none p (drop 1 t) (before_last 46 (drop 1 t)) (any-drop p t h)
        (before_last_none p 46 (drop 1 t) (any-drop p t h)))
      k

pub any-stem_of : (p : ℕ → Bool) (t : Text) → any p t ≡ false → any p (stem_of t) ≡ false
unfolding stem_of
any-stem_of p t h = stem_at_none p t (before_last 46 t) h (before_last_none p 46 t h)

pub any-kept_name :
    (p : ℕ → Bool) (b : Text) → any p (map dash (stem_of b)) ≡ false → any p (kept_name b) ≡ false
unfolding kept_name
any-kept_name p b h =
    let name = trim_start is_leading (map dash (stem_of b)) in
    let k = any-trim_start p is_leading (map dash (stem_of b)) h in
    if_any p (ltb 255 (byte_len name)) (fit 255 name) name (any-fit p 255 name k) k

pub byte_len-fit : (n : ℕ) (t : Text) → byte_len (fit n t) ≤ n
unfolding fit byte_len
byte_len-fit n [] = omega arith
byte_len-fit n (c ∷ cs) = elim (Bool-cases (leb (width c) n)) [
  | inl h ↦ rw h (grind (arith, byte_len-fit (n - width c) cs))
  | inr h ↦ rw h (omega arith)
]
