-- ===== src/Directive/Parser.antt =====
-- `parse_directives` (src/directive.rs).
use agenttender.Common.{
  ℕ, Bool, true, false, not, List, [], ◌∷◌, ◌++◌, Option, none, some, Result, ok, err, guard, ◌>>◌,
  ◌>>=◌, map_err, ok_or, bytes_eq, is_empty, if◌then◌else◌, ltb, ◌==◌, codes,
}
use agenttender.Directive.Text.{
  Text, trim_start, trim_end, trim, strip_prefix, is_some, starts_with, split_once, lines,
  parse_digits, parse_u64,
}
use agenttender.Directive.Names.{NameError, validate}

-- `env` maps a name to the whole of its `KEY=VALUE`, in the order of the names.
pub record Directives : Type 0 where
  pub namespace : Option Text
  pub timeout : Option ℕ
  pub on_exit : List Text
  pub stdin_pipe : Bool
  pub cwd : Option Text
  pub env : List (Text × Text)
  pub replace : Bool
  pub session : Option Text
  pub detach : Bool

abbrev pub no_directives : Directives
no_directives = record {
  namespace = none;
  timeout = none;
  on_exit = [];
  stdin_pipe = false;
  cwd = none;
  env = [];
  replace = false;
  session = none;
  detach = false;
}

pub data DirectiveError : Type 0 where
  unknown duplicate invalid_timeout invalid_stdin : Text → DirectiveError
  invalid_namespace invalid_session : Text → NameError → DirectiveError

abbrev pub Parsed : Type 0
Parsed = Result DirectiveError Directives

-- The order of the texts by their characters.
unfoldable pub before : Text → Text → Bool
before s [] = false
before [] (d ∷ ds) = true
before (c ∷ cs) (d ∷ ds) = let rest = before cs ds in if c == d then rest else ltb c d

-- `BTreeMap::insert`
unfoldable pub insert : Text → Text → List (Text × Text) → List (Text × Text)
unfolding before
insert k v [] = (k, v) ∷ []
insert k v ((k', v') ∷ rest) =
    let later = insert k v rest in
    if bytes_eq k k'
    then (k, v) ∷ rest
    else if before k k'
    then (k, v) ∷ ((k', v') ∷ rest)
    else (k', v') ∷ later

-- The name in front of `=`, or the whole text.
abbrev pub name_of : Text → Option (Text × Text) → Text
name_of v none = v
name_of v (some (k, rest)) = k

unfoldable pub set_namespace : Text → Directives → Parsed
unfolding validate
set_namespace v d = do
  guard (not (is_some d.namespace)) (duplicate (codes "namespace"))
  map_err (invalid_namespace v) (validate v)
  ok (record d { namespace = some v })

unfoldable pub set_timeout : Text → Directives → Parsed
unfolding parse_digits
set_timeout v d = do
  guard (not (is_some d.timeout)) (duplicate (codes "timeout"))
  n ← ok_or (parse_u64 v) (invalid_timeout v)
  ok (record d { timeout = some n })

unfoldable pub set_stdin : Text → Directives → Parsed
unfolding bytes_eq
set_stdin v d = do
  guard (bytes_eq v (codes "pipe")) (invalid_stdin v)
  guard (not d.stdin_pipe) (duplicate (codes "stdin"))
  ok (record d { stdin_pipe = true })

unfoldable pub set_cwd : Text → Directives → Parsed
set_cwd v d = do
  guard (not (is_some d.cwd)) (duplicate (codes "cwd"))
  ok (record d { cwd = some v })

unfoldable pub set_replace : Directives → Parsed
set_replace d = do
  guard (not d.replace) (duplicate (codes "replace"))
  ok (record d { replace = true })

unfoldable pub set_session : Text → Directives → Parsed
unfolding validate
set_session v d = do
  guard (not (is_some d.session)) (duplicate (codes "session"))
  map_err (invalid_session v) (validate v)
  ok (record d { session = some v })

unfoldable pub set_detach : Directives → Parsed
set_detach d = do guard (not d.detach) (duplicate (codes "detach")); ok (record d { detach = true })

-- `apply_directive`, with the value that an absent one stands for
unfoldable pub apply_directive : Text → Text → Directives → Parsed
unfolding set_namespace set_timeout set_stdin set_cwd set_replace set_session set_detach insert
    split_once bytes_eq
apply_directive key v d =
    if bytes_eq key (codes "namespace")
    then set_namespace v d
    else if bytes_eq key (codes "timeout")
    then set_timeout v d
    else if bytes_eq key (codes "on-exit")
    then ok (record d { on_exit = d.on_exit ++ (v ∷ []) })
    else if bytes_eq key (codes "stdin")
    then set_stdin v d
    else if bytes_eq key (codes "cwd")
    then set_cwd v d
    else if bytes_eq key (codes "env")
    then ok (record d { env = insert (name_of v (split_once 61 v)) v d.env })
    else if bytes_eq key (codes "replace")
    then set_replace d
    else if bytes_eq key (codes "session")
    then set_session v d
    else if bytes_eq key (codes "detach")
    then set_detach d
    else err (unknown key)

abbrev pub apply_split : Text → Option (Text × Text) → Directives → Parsed
apply_split rest none d = apply_directive rest [] d
apply_split rest (some (key, value)) d = apply_directive (trim key) (trim value) d

abbrev pub process_rest : Option Text → Directives → Parsed
process_rest none d = ok d
process_rest (some rest) d =
    if is_empty (trim rest) then ok d else apply_split (trim rest) (split_once 61 (trim rest)) d

-- `process_line`
unfoldable pub process_line : Text → Directives → Parsed
unfolding apply_directive strip_prefix trim_start trim_end split_once
process_line line d = process_rest (strip_prefix (codes "#tendr: ") (trim line)) d

-- The loop over the lines behind the first.
unfoldable pub scan : List Text → Directives → Parsed
unfolding process_line trim_start trim_end strip_prefix
scan [] d = ok d
scan (line ∷ ls) d =
    let rest = scan ls in
    if is_empty (trim line)
    then rest d
    else if starts_with (codes "#") (trim line)
    then process_line (trim line) d >>= (λ d'. rest d')
    else ok d

unfoldable pub parse_lines : List Text → Parsed
unfolding process_line scan strip_prefix
parse_lines [] = ok no_directives
parse_lines (first ∷ ls) =
    if starts_with (codes "#!") first
    then scan ls no_directives
    else process_line first no_directives >>= (λ d. scan ls d)

-- `parse_directives`
unfoldable pub parse_directives : Text → Parsed
unfolding parse_lines lines
parse_directives content = parse_lines (lines content)
