-- ===== src/AttachProto/Outcome/Canonical.antt =====
-- The outcome of a push on the wire: what decodes is consistent, and has one encoding.
use agenttender.Common.{ℕ, ◌≡◌, ap, ◌∙◌, arith, [], ◌∷◌, ◌++◌, ok, Bytes, All}
use mathlib.Core.Path.{ap₂}
use agenttender.Common.Words.{IsU64, be64, word64, IsByte, be32-word32, be64-words, from_be32}
use agenttender.AttachProto.Outcome.{PushOutcome, encode_outcome, decode_outcome, outcome_of}

abbrev pub IsBytes : Bytes → Type 0
IsBytes = All IsByte

be64-word64 :
    (a b c d e f g h : ℕ) (rest : Bytes)
    → IsBytes (a ∷ b ∷ c ∷ d ∷ e ∷ f ∷ g ∷ h ∷ [])
    → be64 (word64 (a ∷ b ∷ c ∷ d ∷ e ∷ f ∷ g ∷ h ∷ rest)) ≡ a ∷ b ∷ c ∷ d ∷ e ∷ f ∷ g ∷ h ∷ []
be64-word64 a b c d e f g h rest (xa, (xb, (xc, (xd, (xe, (xf, (xg, (xh, _)))))))) =
    be64-words (from_be32 a b c d) (from_be32 e f g h) (omega arith)
    ∙ ap₂ ◌++◌ (be32-word32 a b c d xa xb xc xd) (be32-word32 e f g h xe xf xg xh)

word64_range :
    (a b c d e f g h : ℕ) (rest : Bytes)
    → IsBytes (a ∷ b ∷ c ∷ d ∷ e ∷ f ∷ g ∷ h ∷ [])
    → IsU64 (word64 (a ∷ b ∷ c ∷ d ∷ e ∷ f ∷ g ∷ h ∷ rest))
word64_range a b c d e f g h rest x = omega arith

-- What the wire says of a status, and of the two counts.
encode_of_outcome_of :
    (status a r : ℕ) (o : PushOutcome)
    → IsU64 a
    → IsU64 r
    → outcome_of status a r ≡ ok o
    → encode_outcome o ≡ status ∷ (be64 a ++ be64 r)
unfolding outcome_of encode_outcome
encode_of_outcome_of status a r o ha hr e = ground arith

-- A payload of bytes that decodes as a push outcome is the encoding of that outcome: no outcome
-- has two forms on the wire, and an outcome that claims more bytes written than received has none.
pub encode-decode_outcome :
    (payload : Bytes) (o : PushOutcome)
    → IsBytes payload
    → decode_outcome payload ≡ ok o
    → encode_outcome o ≡ payload
unfolding decode_outcome
encode-decode_outcome (s ∷ a ∷ b ∷ c ∷ d ∷ e ∷ f ∷ g ∷ h ∷ i ∷ j ∷ k ∷ l ∷ m ∷ n ∷ p ∷ q ∷ []) o
      (xs, (xa, (xb, (xc, (xd, (xe, (xf, (xg, (xh, x))))))))) eq =
    let left = a ∷ b ∷ c ∷ d ∷ e ∷ f ∷ g ∷ h ∷ [] in
    let right = i ∷ j ∷ k ∷ l ∷ m ∷ n ∷ p ∷ q ∷ [] in
    let is_left : IsBytes left = (xa, (xb, (xc, (xd, (xe, (xf, (xg, (xh, tt)))))))) in
    encode_of_outcome_of s (word64 (left ++ right)) (word64 right) o
      (word64_range a b c d e f g h right is_left) (word64_range i j k l m n p q [] x) eq
    ∙ ap (◌∷◌ s)
        (ap₂ ◌++◌ (be64-word64 a b c d e f g h right is_left) (be64-word64 i j k l m n p q [] x))
encode-decode_outcome _ o x eq = ground arith
