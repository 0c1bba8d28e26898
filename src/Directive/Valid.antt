-- ===== src/Directive/Valid.antt =====
-- What every accepted header satisfies (src/directive.rs).
use agenttender.Common.{
  ℕ, ◌+◌, ◌*◌, ◌-◌, ◌<◌, Bool, true, false, not, ◌&&◌, List, [], ◌∷◌, Option, none, some, ok, err,
  guard, ◌>>◌, ◌>>=◌, map_err, bytes_eq, is_empty, if◌then◌else◌, ltb, leb, ◌==◌, codes, ◌≡◌, arith,
  inl, inr, Bool-cases, Option-cases, Result-cases,
}
use agenttender.Directive.Text.{
  Text, trim, strip_prefix, is_some, starts_with, split_once, lines, parse_digits, parse_some,
  parse_u64,
}
use agenttender.Directive.Names.{NameError, validate}
use agenttender.Directive.Parser.{
  Directives, no_directives, DirectiveError, invalid_namespace, invalid_session, Parsed,
  set_namespace, set_timeout, set_stdin, set_cwd, set_replace, set_session, set_detach,
  apply_directive, apply_split, process_rest, process_line, scan, parse_lines, parse_directives,
}

abbrev Holds : {A : Type 0} → (A → Type 0) → Option A → Type 0
Holds P none = Unit
Holds P (some a) = P a

-- A valid namespace, a valid session name and a timeout that is a u64, where they are given.
abbrev pub IsValid : Directives → Type 0
IsValid d =
    Holds (λ v. validate v ≡ ok tt) d.namespace
    × Holds (λ v. validate v ≡ ok tt) d.session
    × Holds (λ n. n < 18446744073709551616) d.timeout

-- Directives that are valid, or an error.
abbrev pub IsFine : Parsed → Type 0
IsFine (ok d) = IsValid d
IsFine (err e) = Unit

parse_digits_bound :
    (n : ℕ) (t : Text)
    → n < 18446744073709551616
    → Holds (λ m. m < 18446744073709551616) (parse_digits n t)
unfolding parse_digits
parse_digits_bound n [] h = h
parse_digits_bound n (c ∷ cs) h =
    let next = n * 10 + (c - 48) in
    elim (Bool-cases (leb 48 c && leb c 57)) [
      | inl a ↦ elim (Bool-cases (ltb next 18446744073709551616)) [
        | inl b ↦ rw (a, b) (parse_digits_bound next cs (grind arith))
        | inr b ↦ rw (a, b) tt
      ]
      | inr a ↦ rw a tt
    ]

parse_some_bound : (t : Text) → Holds (λ m. m < 18446744073709551616) (parse_some t)
parse_some_bound [] = tt
parse_some_bound (c ∷ cs) = parse_digits_bound 0 (c ∷ cs) (omega arith)

parse_u64_bound : (t : Text) → Holds (λ m. m < 18446744073709551616) (parse_u64 t)
parse_u64_bound [] = tt
parse_u64_bound (c ∷ cs) = elim (Bool-cases (c == 43)) [
  | inl n ↦ rw n (parse_some_bound cs)
  | inr n ↦ rw n (parse_some_bound (c ∷ cs))
]

held :
    (o : Option ℕ) (m : ℕ)
    → Holds (λ k. k < 18446744073709551616) o
    → o ≡ some m
    → m < 18446744073709551616
held none m h e = absurd (ground arith)
held (some k) m h e = ground arith

guard-IsFine : (b : Bool) (e : DirectiveError) (r : Parsed) → IsFine r → IsFine (guard b e >> r)
guard-IsFine true e r f = f
guard-IsFine false e r f = tt

if_IsFine : (b : Bool) (r s : Parsed) → IsFine r → IsFine s → IsFine (if b then r else s)
if_IsFine true r s f g = f
if_IsFine false r s f g = g

bind-IsFine :
    (r : Parsed) (next : Directives → Parsed)
    → IsFine r
    → ((d : Directives) → IsValid d → IsFine (next d))
    → IsFine (r >>= next)
bind-IsFine (ok d) next f g = g d f
bind-IsFine (err e) next f g = tt

checked-IsFine :
    (wrap : NameError → DirectiveError) (v : Text) (r : Parsed)
    → (validate v ≡ ok tt → IsFine r)
    → IsFine (map_err wrap (validate v) >> r)
checked-IsFine wrap v r f = elim (Result-cases (validate v)) [
  | inl (e, n) ↦ rw n tt
  | inr (u, n) ↦ rw n (f n)
]

set_namespace-IsFine : (v : Text) (d : Directives) → IsValid d → IsFine (set_namespace v d)
unfolding set_namespace
set_namespace-IsFine v d (n, s, t) =
    guard-IsFine (not (is_some d.namespace)) _ _
      (checked-IsFine (invalid_namespace v) v _ (λ o. (o, s, t)))

set_session-IsFine : (v : Text) (d : Directives) → IsValid d → IsFine (set_session v d)
unfolding set_session
set_session-IsFine v d (n, s, t) =
    guard-IsFine (not (is_some d.session)) _ _
      (checked-IsFine (invalid_session v) v _ (λ o. (n, o, t)))

set_timeout-IsFine : (v : Text) (d : Directives) → IsValid d → IsFine (set_timeout v d)
unfolding set_timeout
set_timeout-IsFine v d (n, s, t) =
    let bound = parse_u64_bound v in
    guard-IsFine (not (is_some d.timeout)) _ _ (elim (Option-cases (parse_u64 v)) [
      | inl o ↦ rw o tt
      | inr (m, o) ↦ rw o (n, s, held (parse_u64 v) m bound o)
    ])

apply_directive-IsFine :
    (key v : Text) (d : Directives) → IsValid d → IsFine (apply_directive key v d)
unfolding apply_directive set_stdin set_cwd set_replace set_detach
apply_directive-IsFine key v d h =
    if_IsFine (bytes_eq key (codes "namespace")) _ _ (set_namespace-IsFine v d h) (
      if_IsFine (bytes_eq key (codes "timeout")) _ _ (set_timeout-IsFine v d h) (
        if_IsFine (bytes_eq key (codes "on-exit")) _ _ h (
          if_IsFine (bytes_eq key (codes "stdin")) _ _
            (guard-IsFine (bytes_eq v (codes "pipe")) _ _ (guard-IsFine (not d.stdin_pipe) _ _ h))
            (if_IsFine (bytes_eq key (codes "cwd")) _ _ (guard-IsFine (not (is_some d.cwd)) _ _ h) (
              if_IsFine (bytes_eq key (codes "env")) _ _ h (
                if_IsFine (bytes_eq key (codes "replace")) _ _ (guard-IsFine (not d.replace) _ _ h)
                  (if_IsFine (bytes_eq key (codes "session")) _ _ (set_session-IsFine v d h) (
                    if_IsFine (bytes_eq key (codes "detach")) _ _
                      (guard-IsFine (not d.detach) _ _ h) tt))))))))

apply_split-IsFine :
    (rest : Text) (o : Option (Text × Text)) (d : Directives)
    → IsValid d
    → IsFine (apply_split rest o d)
apply_split-IsFine rest none d h = apply_directive-IsFine rest [] d h
apply_split-IsFine rest (some (key, v)) d h = apply_directive-IsFine (trim key) (trim v) d h

process_rest-IsFine : (o : Option Text) (d : Directives) → IsValid d → IsFine (process_rest o d)
process_rest-IsFine none d h = h
process_rest-IsFine (some rest) d h =
    if_IsFine (is_empty (trim rest)) _ _ h
      (apply_split-IsFine (trim rest) (split_once 61 (trim rest)) d h)

process_line-IsFine : (line : Text) (d : Directives) → IsValid d → IsFine (process_line line d)
unfolding process_line
process_line-IsFine line d h = process_rest-IsFine (strip_prefix (codes "#tendr: ") (trim line)) d h

scan-IsFine : (ls : List Text) (d : Directives) → IsValid d → IsFine (scan ls d)
unfolding scan
scan-IsFine [] d h = h
scan-IsFine (l ∷ ls) d h = if_IsFine (is_empty (trim l)) _ _ (scan-IsFine ls d h) (
    if_IsFine (starts_with (codes "#") (trim l)) _ _
      (bind-IsFine (process_line (trim l) d) _ (process_line-IsFine (trim l) d h)
        (λ d' h'. scan-IsFine ls d' h'))
      h)

parse_lines-IsFine : (ls : List Text) → IsFine (parse_lines ls)
unfolding parse_lines
parse_lines-IsFine [] = (tt, tt, tt)
parse_lines-IsFine (l ∷ ls) =
    if_IsFine (starts_with (codes "#!") l) _ _ (scan-IsFine ls no_directives (tt, tt, tt)) (
      bind-IsFine (process_line l no_directives) _
        (process_line-IsFine l no_directives (tt, tt, tt)) (λ d h. scan-IsFine ls d h))

-- The directives of every script that is accepted name a valid namespace and a valid session, and
-- give a timeout that is a u64, where they name or give one.
pub parse_directives-IsFine : (content : Text) → IsFine (parse_directives content)
unfolding parse_directives
parse_directives-IsFine content = parse_lines-IsFine (lines content)
