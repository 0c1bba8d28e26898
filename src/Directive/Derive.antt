-- ===== src/Directive/Derive.antt =====
-- `derive_session_name` (src/directive.rs), on the file name of the script's path.
use agenttender.Common.{
  ℕ, ◌-◌, Bool, true, false, ◌||◌, [], ◌∷◌, Option, none, some, Result, ok, err, ◌>>◌, map, map_err,
  is_empty, if◌then◌else◌, ltb, leb, ◌==◌, drop,
}
use agenttender.Directive.Text.{Text, trim_start, width, byte_len}
use agenttender.Directive.Names.{NameError, validate}

pub data DeriveError : Type 0 where
  no_file_name : DeriveError
  nothing_left : Text → DeriveError
  invalid : Text → NameError → DeriveError

abbrev pub or_at : Bool → ℕ → Option Text → Option Text
or_at here c (some t) = some (c ∷ t)
or_at true c none = some []
or_at false c none = none

-- What stands in front of the last occurrence, `&s[..s.rfind(at)?]`.
unfoldable pub before_last : ℕ → Text → Option Text
before_last at [] = none
before_last at (c ∷ cs) = or_at (c == at) c (before_last at cs)

abbrev pub or_whole : Text → Option Text → Text
or_whole t none = t
or_whole t (some stem) = stem

abbrev pub stem_at : Text → Option Text → Text
stem_at basename none = basename
stem_at basename (some stem) =
    if is_empty stem then or_whole (drop 1 basename) (before_last 46 (drop 1 basename)) else stem

-- The file name without its last extension.
unfoldable pub stem_of : Text → Text
unfolding before_last
stem_of basename = stem_at basename (before_last 46 basename)

-- `replace('.', "-")`
abbrev pub dash : ℕ → ℕ
dash c = if c == 46 then 45 else c

abbrev pub is_leading : ℕ → Bool
is_leading c = (c == 95) || (c == 45)

-- The longest prefix that has at most so many bytes.
unfoldable pub fit : ℕ → Text → Text
fit n [] = []
fit n (c ∷ cs) = let rest = fit (n - width c) cs in if leb (width c) n then c ∷ rest else []

abbrev pub truncated : Text → Text
truncated name = if ltb 255 (byte_len name) then fit 255 name else name

unfoldable pub kept_name : Text → Text
unfolding stem_of trim_start fit byte_len
kept_name basename = truncated (trim_start is_leading (map dash (stem_of basename)))

abbrev pub checked : Text → Text → Result DeriveError Text
checked basename name =
    if is_empty name
    then err (nothing_left basename)
    else (map_err (invalid name) (validate name) >> ok name)

-- `derive_session_name`
unfoldable pub derive_session_name : Option Text → Result DeriveError Text
unfolding kept_name validate
derive_session_name none = err no_file_name
derive_session_name (some basename) = checked basename (kept_name basename)
