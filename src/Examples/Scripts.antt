-- ===== src/Examples/Scripts.antt =====
-- Headers of scripts, and session names from file names.
use agenttender.Common.{
  true, ◌≡◌, refl, [], ◌∷◌, ◌++◌, some, ok, err, bytes_eq, codes, if◌then◌else◌, is_empty,
}
use agenttender.Directive.Text.{Text, any, lines, is_whitespace, trim_start, trim_end, strip_prefix}
use agenttender.Directive.Parser.{no_directives, parse_directives}
use agenttender.Directive.Names.{contains_whitespace}
use agenttender.Directive.Scan.{parse_directives_header}
use agenttender.Directive.Valid.{IsFine, parse_directives-IsFine}
use agenttender.Directive.Derive.{nothing_left, invalid, derive_session_name}
use agenttender.Directive.Left.{IsLeft}
use agenttender.Directive.Derived.{derive_session_name_lem}

abbrev header : Text
header = codes "#!/bin/sh" ++ (10 ∷ codes "#tendr: timeout=30")

abbrev body : Text
body = codes "#tendr: detach"

parsed_timeout :
    parse_directives (header ++ (10 ∷ [])) ≡ ok (record no_directives { timeout = some 30 })
unfolding parse_directives bytes_eq
parsed_timeout = refl

-- A first line of code does not end the scan.
parsed_behind_code :
    parse_directives (codes "echo" ++ (10 ∷ body)) ≡ ok (record no_directives { detach = true })
unfolding parse_directives bytes_eq
parsed_behind_code = refl

parse_directives_header_example :
    parse_directives (header ++ (10 ∷ (codes "echo" ++ (10 ∷ body))))
    ≡ parse_directives (header ++ (10 ∷ []))
parse_directives_header_example =
    parse_directives_header header (codes "echo") (codes "echo") body (unfold lines in refl)
      (unfold trim_start trim_end in refl, unfold trim_start trim_end strip_prefix in refl)

parse_directives-IsFine_example : IsFine (parse_directives (codes "#tendr: namespace=ci"))
parse_directives-IsFine_example = parse_directives-IsFine (codes "#tendr: namespace=ci")

derive_session_name_lem_example :
    (name : Text) × IsLeft (codes "_my.job.sh") name
    × (derive_session_name (some (codes "_my.job.sh")) ≡ (
        if is_empty name
        then err (nothing_left (codes "_my.job.sh"))
        else if any is_whitespace name
        then err (invalid name contains_whitespace)
        else ok name))
derive_session_name_lem_example = derive_session_name_lem (codes "_my.job.sh") (unfold any in refl)

derived_job : derive_session_name (some (codes "_my.job.sh")) ≡ ok (codes "my-job")
unfolding derive_session_name
derived_job = refl
