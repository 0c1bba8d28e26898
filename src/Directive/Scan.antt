-- ===== src/Directive/Scan.antt =====
-- Where the scan of a script's header ends (src/directive.rs).
use agenttender.Common.{
  ℕ, true, false, ◌&&◌, List, [], ◌∷◌, ◌++◌, ok, err, ◌>>=◌, is_empty, ◌==◌, codes, ◌≡◌, refl, sym,
  ◌∙◌, ap, inl, inr, Bool-cases,
}
use agenttender.Directive.Text.{Text, trim, starts_with, lines, on_first, ends_line}
use agenttender.Directive.Parser.{
  Directives, no_directives, Parsed, process_line, scan, parse_lines, parse_directives,
}

-- Neither blank nor a comment.
abbrev pub IsCode : Text → Type 0
IsCode line = (is_empty (trim line) ≡ false) × (starts_with (codes "#") (trim line) ≡ false)

scan_blank :
    (l : Text) (ls : List Text) (d : Directives)
    → is_empty (trim l) ≡ true
    → scan (l ∷ ls) d ≡ scan ls d
unfolding scan
scan_blank l ls d b = rw (scan, b) refl

scan_comment :
    (l : Text) (ls : List Text) (d : Directives)
    → is_empty (trim l) ≡ false
    → starts_with (codes "#") (trim l) ≡ true
    → scan (l ∷ ls) d ≡ process_line (trim l) d >>= (λ d'. scan ls d')
unfolding scan
scan_comment l ls d b c = rw (scan, b, c) refl

scan_code : (l : Text) (ls : List Text) (d : Directives) → IsCode l → scan (l ∷ ls) d ≡ ok d
unfolding scan
scan_code l ls d (b, c) = rw (scan, b, c) refl

bind_same :
    (r : Parsed) (f g : Directives → Parsed) → ((d : Directives) → f d ≡ g d) → r >>= f ≡ r >>= g
bind_same (ok d) f g h = h d
bind_same (err e) f g h = refl

scan_body :
    (header : List Text) (line : Text) (body : List Text) (d : Directives)
    → IsCode line
    → scan (header ++ (line ∷ body)) d ≡ scan header d
unfolding scan
scan_body [] line body d c = scan_code line body d c
scan_body (l ∷ ls) line body d c = elim (Bool-cases (is_empty (trim l))) [
  | inl b ↦
      scan_blank l (ls ++ (line ∷ body)) d b
      ∙ scan_body ls line body d c
      ∙ sym (scan_blank l ls d b)
  | inr b ↦ elim (Bool-cases (starts_with (codes "#") (trim l))) [
    | inl h ↦
        scan_comment l (ls ++ (line ∷ body)) d b h
        ∙ bind_same (process_line (trim l) d) (λ d'. scan (ls ++ (line ∷ body)) d')
            (λ d'. scan ls d') (λ d'. scan_body ls line body d' c)
        ∙ sym (scan_comment l ls d b h)
    | inr h ↦ scan_code l (ls ++ (line ∷ body)) d (b, h) ∙ sym (scan_code l ls d (b, h))
  ]
]

parse_lines_body :
    (first : Text) (header : List Text) (line : Text) (body : List Text)
    → IsCode line
    → parse_lines (first ∷ (header ++ (line ∷ body))) ≡ parse_lines (first ∷ header)
unfolding parse_lines
parse_lines_body first header line body c = elim (Bool-cases (starts_with (codes "#!") first)) [
  | inl s ↦ rw (parse_lines, s) (scan_body header line body no_directives c)
  | inr s ↦
      rw (parse_lines, s)
        (bind_same (process_line first no_directives) (λ d. scan (header ++ (line ∷ body)) d)
          (λ d. scan header d) (λ d. scan_body header line body d c))
]

-- The lines of a text that ends with a line feed.
abbrev whole : Text → List Text
whole t = lines (t ++ (10 ∷ []))

on_first_append :
    (c : ℕ) (l : Text) (ls ms : List Text) → on_first c ((l ∷ ls) ++ ms) ≡ on_first c (l ∷ ls) ++ ms
on_first_append c l ls ms = refl

ends_line_same : (t rest : Text) → ends_line (t ++ (10 ∷ rest)) ≡ ends_line (t ++ (10 ∷ []))
ends_line_same [] rest = refl
ends_line_same (c ∷ cs) rest = refl

whole_cons : (t : Text) → (first : Text) × (ls : List Text) × (whole t ≡ first ∷ ls)
unfolding lines
whole_cons [] = ([], [], refl)
whole_cons (c ∷ cs) =
    let (first, ls, e) = whole_cons cs in
    elim (Bool-cases (c == 10)) [
      | inl n ↦ ([], whole cs, rw n refl)
      | inr n ↦ elim (Bool-cases ((c == 13) && ends_line (cs ++ (10 ∷ [])))) [
        | inl r ↦ (first, ls, rw (n, r) e)
        | inr r ↦ (c ∷ first, ls, rw (n, r, e) refl)
      ]
    ]

lines_append : (t rest : Text) → lines (t ++ (10 ∷ rest)) ≡ whole t ++ lines rest
unfolding lines
lines_append [] rest = refl
lines_append (c ∷ cs) rest =
    let (first, ls, e) = whole_cons cs in
    let ih = lines_append cs rest in
    elim (Bool-cases (c == 10)) [
      | inl n ↦ rw n (ap (λ x. [] ∷ x) ih)
      | inr n ↦ elim (Bool-cases ((c == 13) && ends_line (cs ++ (10 ∷ [])))) [
        | inl r ↦ rw (n, ends_line_same cs rest, r) ih
        | inr r ↦ rw (n, ends_line_same cs rest, r, ih, e) refl
      ]
    ]

parse_lines-whole :
    (header line : Text) (body : List Text)
    → IsCode line
    → parse_lines (whole header ++ (line ∷ body)) ≡ parse_lines (whole header)
parse_lines-whole header line body c =
    let (first, ls, e) = whole_cons header in rw e (parse_lines_body first ls line body c)

-- The directives of a script are those of its header: from the first line on, behind the first one,
-- that is neither blank nor a comment, nothing of the script matters.
pub parse_directives_header :
    (header line read body : Text)
    → lines (line ++ (10 ∷ [])) ≡ read ∷ []
    → IsCode read
    → parse_directives (header ++ (10 ∷ (line ++ (10 ∷ body))))
      ≡ parse_directives (header ++ (10 ∷ []))
unfolding parse_directives
parse_directives_header header line read body l c =
    ap parse_lines (lines_append header (line ++ (10 ∷ body)))
    ∙ ap (λ x. parse_lines (whole header ++ x))
        (lines_append line body ∙ ap (λ x. x ++ lines body) l)
    ∙ parse_lines-whole header read (lines body) c
