-- ===== src/Directive/Text.antt =====
-- What src/directive.rs asks of a `&str`, which is here the list of its characters.
use agenttender.Common.{
  ℕ, ◌+◌, ◌*◌, ◌-◌, Bool, true, false, ◌&&◌, ◌||◌, List, [], ◌∷◌, Option, none, some, is_empty,
  if◌then◌else◌, ltb, leb, ◌==◌,
}

-- Characters, each as its code point.
abbrev pub Text : Type 0
Text = List ℕ

-- `char::is_whitespace`: the property White_Space of Unicode
abbrev pub is_whitespace : ℕ → Bool
is_whitespace c =
    (leb 9 c && leb c 13)
    || (c == 32)
    || (c == 133)
    || (c == 160)
    || (c == 5760)
    || (leb 8192 c && leb c 8202)
    || (c == 8232)
    || (c == 8233)
    || (c == 8239)
    || (c == 8287)
    || (c == 12288)

unfoldable pub trim_start : (ℕ → Bool) → Text → Text
trim_start p [] = []
trim_start p (c ∷ cs) = let rest = trim_start p cs in if p c then rest else c ∷ cs

unfoldable pub trim_end : Text → Text
trim_end [] = []
trim_end (c ∷ cs) =
    let rest = trim_end cs in if is_empty rest && is_whitespace c then [] else c ∷ rest

-- `str::trim`
abbrev pub trim : Text → Text
trim t = trim_end (trim_start is_whitespace t)

-- `str::strip_prefix`
unfoldable pub strip_prefix : Text → Text → Option Text
strip_prefix [] t = some t
strip_prefix (p ∷ ps) [] = none
strip_prefix (p ∷ ps) (c ∷ cs) = let rest = strip_prefix ps cs in if c == p then rest else none

abbrev pub is_some : {A : Type 0} → Option A → Bool
is_some none = false
is_some (some a) = true

abbrev pub starts_with : Text → Text → Bool
starts_with p t = is_some (strip_prefix p t)

abbrev pub before_too : ℕ → Option (Text × Text) → Option (Text × Text)
before_too c none = none
before_too c (some (key, value)) = some (c ∷ key, value)

-- `str::split_once`
unfoldable pub split_once : ℕ → Text → Option (Text × Text)
split_once at [] = none
split_once at (c ∷ cs) =
    let rest = split_once at cs in if c == at then some ([], cs) else before_too c rest

abbrev pub on_first : ℕ → List Text → List Text
on_first c [] = (c ∷ []) ∷ []
on_first c (l ∷ ls) = (c ∷ l) ∷ ls

abbrev pub ends_line : Text → Bool
ends_line [] = false
ends_line (c ∷ cs) = c == 10

-- `str::lines`: a line ends with a line feed, or with a carriage return and a line feed
unfoldable pub lines : Text → List Text
lines [] = []
lines (c ∷ cs) =
    let rest = lines cs in
    if c == 10 then [] ∷ rest else if (c == 13) && ends_line cs then rest else on_first c rest

-- Whether a test holds of some character.
unfoldable pub any : (ℕ → Bool) → Text → Bool
any p [] = false
any p (c ∷ cs) = p c || any p cs

-- The bytes of a character in UTF-8, and of a text.
abbrev pub width : ℕ → ℕ
width c = if ltb c 128 then 1 else if ltb c 2048 then 2 else if ltb c 65536 then 3 else 4

unfoldable pub byte_len : Text → ℕ
byte_len [] = 0
byte_len (c ∷ cs) = width c + byte_len cs

-- `parse::<u64>` on digits, with what has been read of them
unfoldable pub parse_digits : ℕ → Text → Option ℕ
parse_digits n [] = some n
parse_digits n (c ∷ cs) =
    let next = n * 10 + (c - 48) in
    let rest = parse_digits next cs in
    if leb 48 c && leb c 57 && ltb next 18446744073709551616 then rest else none

abbrev pub parse_some : Text → Option ℕ
parse_some [] = none
parse_some (c ∷ cs) = parse_digits 0 (c ∷ cs)

-- `parse::<u64>`
abbrev pub parse_u64 : Text → Option ℕ
parse_u64 [] = none
parse_u64 (c ∷ cs) = if c == 43 then parse_some cs else parse_some (c ∷ cs)
