-- ===== src/Directive/Names.antt =====
-- The names of sessions and namespaces (src/model/ids.rs), which follow the same rules.
use agenttender.Common.{not, Result, guard, ◌>>◌, is_empty, ltb, ◌==◌, codes}
use agenttender.Directive.Text.{Text, is_whitespace, starts_with, any, byte_len, strip_prefix}

-- `SessionNameError` and `NamespaceError`
pub data NameError : Type 0 where
  empty contains_slash contains_dot contains_whitespace starts_with_underscore too_long : NameError

-- `SessionName::validate` and `Namespace::validate`
unfoldable pub validate : Text → Result NameError (Unit {0})
unfolding any byte_len strip_prefix
validate name = do
  guard (not (is_empty name)) empty
  guard (not (ltb 255 (byte_len name))) too_long
  guard (not (any (λ c. c == 47) name)) contains_slash
  guard (not (any (λ c. c == 46) name)) contains_dot
  guard (not (any is_whitespace name)) contains_whitespace
  guard (not (starts_with (codes "_") name)) starts_with_underscore
