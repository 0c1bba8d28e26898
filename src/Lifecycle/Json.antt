-- ===== src/Lifecycle/Json.antt =====
-- The part of `serde_json::Value` that the lifecycle events use: texts, integers and objects.
use agenttender.Common.{
  ℕ, zero, suc, List, [], ◌∷◌, Option, none, some, Bytes, bytes_eq, if◌then◌else◌, ltb,
}
use agenttender.Common.Int.{ℤ, pos, negsuc}

-- `other` is any other value, a boundary for one.
pub data Json : Type 0 where
  null : Json
  text : Bytes → Json
  integer : ℤ → Json
  other : ℕ → Json

abbrev pub Fields : Type 0
Fields = List (Bytes × Json)

-- `data[name]`, which is null where the object has no such field
unfoldable pub field : Bytes → Fields → Json
field name [] = null
field name ((key, value) ∷ rest) = if bytes_eq key name then value else field name rest

-- `data[name] = value`
unfoldable pub set_field : Bytes → Json → Fields → Fields
set_field name value [] = (name, value) ∷ []
set_field name value ((key, old) ∷ rest) =
    if bytes_eq key name then (key, value) ∷ rest else (key, old) ∷ set_field name value rest

-- `Value::as_str`, `Value::as_i64` on the integers that it takes
abbrev pub as_str : Json → Option Bytes
as_str (text t) = some t
as_str _ = none

abbrev pub as_i64 : Json → Option ℤ
as_i64 (integer n) = some n
as_i64 _ = none

-- `i32::try_from` and `NonZeroI32::new`
unfoldable pub non_zero_i32 : ℤ → Option ℤ
non_zero_i32 (pos zero) = none
non_zero_i32 (pos (suc n)) = if ltb (suc n) 2147483648 then some (pos (suc n)) else none
non_zero_i32 (negsuc n) = if ltb n 2147483648 then some (negsuc n) else none
