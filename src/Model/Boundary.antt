-- ===== src/Model/Boundary.antt =====
-- src/model/boundary.rs: the declared execution boundary, and its `kind:label` form.
pub mod RoundTrip
use agenttender.Common.{
  ℕ, Bool, List, [], ◌∷◌, ◌++◌, Option, none, some, Result, ok, err, ◌>>=◌, ◌>>◌, guard, not, ok_or,
  map, ◌==◌, codes, if◌then◌else◌, bytes_eq, is_empty, Bytes,
}

pub data BoundaryKind : Type 0 where
  host container vm pod : BoundaryKind

-- `BoundaryKind::as_str`
unfoldable pub as_str : BoundaryKind → Bytes
as_str host = codes "host"
as_str container = codes "container"
as_str vm = codes "vm"
as_str pod = codes "pod"

pub record Boundary : Type 0 where
  pub kind : BoundaryKind
  pub label : Bytes

pub record BoundaryContext : Type 0 where
  pub current : Boundary
  pub parents : List Boundary

pub data BoundaryParseError : Type 0 where
  missing_colon : Bytes → BoundaryParseError
  empty_label : Bytes → BoundaryParseError
  unknown_kind : Bytes → BoundaryParseError

-- `Display` of `Boundary`
unfoldable pub display : Boundary → Bytes
display b = as_str b.kind ++ (b':' ∷ b.label)

-- `BoundaryKind::from_str`
unfoldable pub kind_from_str : Bytes → Result BoundaryParseError BoundaryKind
unfolding bytes_eq
kind_from_str s =
    if bytes_eq s (codes "host")
    then ok host
    else if bytes_eq s (codes "container")
    then ok container
    else if bytes_eq s (codes "vm")
    then ok vm
    else if bytes_eq s (codes "pod")
    then ok pod
    else err (unknown_kind s)

-- `str::split_once(':')`
unfoldable pub split_colon : Bytes → Option (Bytes × Bytes)
split_colon [] = none
split_colon (c ∷ cs) =
    if c == b':'
    then some ([], cs)
    else elim (split_colon cs) [ none ↦ none | some (k, l) ↦ some (c ∷ k, l) ]

-- `Boundary::from_str`
unfoldable pub from_str : Bytes → Result BoundaryParseError Boundary
unfolding split_colon kind_from_str
from_str s = do
  (kind, label) ← ok_or (split_colon s) (missing_colon s)
  guard (not (is_empty label)) (empty_label s)
  k ← kind_from_str kind
  ok (record { kind = k; label = label })
