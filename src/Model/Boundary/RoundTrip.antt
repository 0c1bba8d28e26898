-- ===== src/Model/Boundary/RoundTrip.antt =====
-- Printing and parsing a boundary.
use agenttender.Common.{
  ◌≡◌, refl, ◌≢◌, arith, [], ◌∷◌, ◌++◌, some, ok, codes, bytes_eq, bytes_eq_iff, Bytes, All, ◌==◌,
  false, inl, inr, Option-cases,
}
use agenttender.Model.Boundary.{
  BoundaryKind, host, Boundary, as_str, display, kind_from_str, split_colon, from_str,
}

split_colon-append :
    (k l : Bytes) → All (λ c. (c == b':') ≡ false) k → split_colon (k ++ (b':' ∷ l)) ≡ some (k, l)
unfolding split_colon
split_colon-append [] l h = refl
split_colon-append (c ∷ k) l h = ground (arith, split_colon-append k l h.1)

as_str_no_colon : (k : BoundaryKind) → All (λ c. (c == b':') ≡ false) (as_str k)
unfolding as_str
as_str_no_colon host = ground arith
as_str_no_colon _ = ground arith

kind_from_str-as_str : (k : BoundaryKind) → kind_from_str (as_str k) ≡ ok k
unfolding kind_from_str as_str bytes_eq
kind_from_str-as_str host = refl
kind_from_str-as_str _ = refl

-- A boundary with a label is read back from what `Display` writes for it.
pub from_str-display : (b : Boundary) → b.label ≢ [] → from_str (display b) ≡ ok b
unfolding from_str display
from_str-display b ne =
    rw (split_colon-append (as_str b.kind) b.label (as_str_no_colon b.kind))
      (rw (kind_from_str-as_str b.kind) (ground arith))

split_colon_sound : (s k l : Bytes) → split_colon s ≡ some (k, l) → s ≡ k ++ (b':' ∷ l)
unfolding split_colon
split_colon_sound [] k l h = cc
split_colon_sound (c ∷ cs) k l h = elim (Option-cases (split_colon cs)) [
  | inl e ↦ ground arith
  | inr ((k', l'), e) ↦ ground (arith, split_colon_sound cs k' l' e)
]

kind_from_str_sound : (s : Bytes) (k : BoundaryKind) → kind_from_str s ≡ ok k → s ≡ as_str k
unfolding kind_from_str as_str
kind_from_str_sound s k h = ground (
  arith,
  bytes_eq_iff s (codes "host"),
  bytes_eq_iff s (codes "container"),
  bytes_eq_iff s (codes "vm"),
  bytes_eq_iff s (codes "pod"),
)

-- Whatever text parses as a boundary is the text that `Display` writes for it, and has a label.
pub display-from_str :
    (s : Bytes) (b : Boundary) → from_str s ≡ ok b → (display b ≡ s) × (b.label ≢ [])
unfolding from_str display
display-from_str s b h = elim (Option-cases (split_colon s)) [
  | inl e ↦ ground arith
  | inr ((k, l), e) ↦ ground (arith, split_colon_sound s k l e, kind_from_str_sound k b.kind)
]
