-- ===== src/Recorder/Chunks.antt =====
-- The payloads that `Recorder::output` (src/recorder.rs) makes of its bytes.
use agenttender.Common.{
  ℕ, zero, suc, ◌≤◌, ◌<◌, List, [], ◌∷◌, ◌++◌, Bytes, All, length, take, drop, length-take,
  length-drop, take-append-drop, ◌≡◌, refl, ◌∙◌, ap, arith,
}
use agenttender.Recording.Format.{max_payload}
use agenttender.Recorder.State.{chunks}

abbrev pub join : List Bytes → Bytes
join [] = []
join (bs ∷ rest) = bs ++ join rest

-- A payload that the encoder takes.
abbrev pub IsPayload : Bytes → Type 0
IsPayload bs = (0 < length bs) × (length bs ≤ max_payload)

first-IsPayload : (b : ℕ) (bs : Bytes) → IsPayload (take max_payload (b ∷ bs))
first-IsPayload b bs = (
  omega (arith, length-take max_payload (b ∷ bs)),
  omega (arith, length-take max_payload (b ∷ bs)),
)

-- The chunks of an output are its bytes in order, and each is a payload that the encoder accepts:
-- not empty and at most `max_payload` bytes.
pub chunks-IsPayload :
    (n : ℕ) (bs : Bytes) → length bs ≤ n → (join (chunks n bs) ≡ bs) × All IsPayload (chunks n bs)
unfolding chunks
chunks-IsPayload zero [] l = (refl, tt)
chunks-IsPayload zero (b ∷ bs) l = absurd (omega arith)
chunks-IsPayload (suc n) [] l = (refl, tt)
chunks-IsPayload (suc n) (b ∷ bs) l =
    let rest = drop max_payload (b ∷ bs) in
    let (joined, payloads) =
      chunks-IsPayload n rest (omega (arith, length-drop max_payload (b ∷ bs))) in
    (
      ap (λ r. take max_payload (b ∷ bs) ++ r) joined ∙ take-append-drop max_payload (b ∷ bs),
      (first-IsPayload b bs, payloads),
    )
