-- ===== src/AttachEscape/Progress.antt =====
-- The loop of `feed` (src/attach_escape.rs) ends: every token takes bytes.
use agenttender.Common.{
  ℕ, zero, suc, ◌+◌, ◌-◌, ◌<◌, ◌≤◌, min, Bool, true, false, [], ◌∷◌, ◌++◌, none, some, Bytes,
  length, take, drop, length-drop, length-take, ◌≡◌, refl, arith, Bool-cases, ◌⊎◌, inl, inr, ◌∙◌,
}
use agenttender.AttachEscape.Keys.{Key}
use agenttender.AttachEscape.Tokens.{
  Token, complete, unfinished, token, escape_sequence, csi_sequence, scan, max_sequence,
}
use agenttender.AttachEscape.Parser.{
  since, EscapeParser, Escape, continue, detach, decide, holds_back, feed_loop,
}

scan-bounds :
    (params bs : Bytes) (i n : ℕ) (k : Key)
    → scan params i bs ≡ some (complete n k)
    → 0 < i
    → (0 < n) × (n ≤ i + length bs)
unfolding scan
scan-bounds params [] i n k eq p = absurd (ground arith)
scan-bounds params (b ∷ bs) i n k eq p = ground (arith, scan-bounds params bs (i + 1) n k)

csi_sequence-bounds :
    (params : Bytes) (n : ℕ) (k : Key)
    → csi_sequence params ≡ complete n k
    → (0 < n) × (n ≤ 2 + length params)
unfolding csi_sequence
csi_sequence-bounds params n k eq =
    let shown = take (min (length params + 2) max_sequence - 2) params in
    ground (
      arith,
      length-take (min (length params + 2) max_sequence - 2) params,
      scan-bounds params shown 2 n k,
    )

-- A token has at least one byte, and no more than there are.
pub token-bounds :
    (input : Bytes) (n : ℕ) (k : Key) → token input ≡ complete n k → (0 < n) × (n ≤ length input)
unfolding token escape_sequence
token-bounds [] n k eq = absurd (ground arith)
token-bounds (b ∷ []) n k eq = ground arith
token-bounds (b ∷ c ∷ params) n k eq = ground (arith, csi_sequence-bounds params n k)

-- The result of the loop is a state, the bytes to forward, and the answer.
abbrev pub Fed : Type 0
Fed = EscapeParser × Bytes × Escape

Token-cases : (t : Token) → (t ≡ unfinished) ⊎ ((n : ℕ) × (k : Key) × (t ≡ complete n k))
Token-cases unfinished = inl refl
Token-cases (complete n k) = inr (n, k, refl)

Escape-cases : (e : Escape) → (e ≡ continue) ⊎ (e ≡ detach)
Escape-cases continue = inl refl
Escape-cases detach = inr refl

-- A run of the loop, one constructor for each way that a round goes.
pub data Runs (now : ℕ) : Bool → Bytes → EscapeParser → Bytes → Fed → Type 0 where
  drained :
      (moved : Bool) (p : EscapeParser) (forward : Bytes)
      → Runs now moved [] p forward (record p { partial_since = none }, forward, continue)
  held :
      (moved : Bool) (b : ℕ) (bs : Bytes) (p : EscapeParser) (forward : Bytes)
      → token (b ∷ bs) ≡ unfinished
      → holds_back p (b ∷ bs) ≡ true
      → Runs now moved (b ∷ bs) p forward (
        record p { partial = b ∷ bs; partial_since = since now moved p.partial_since },
        forward,
        continue,
      )
  through :
      (moved : Bool) (b : ℕ) (bs : Bytes) (p : EscapeParser) (forward : Bytes)
      → token (b ∷ bs) ≡ unfinished
      → holds_back p (b ∷ bs) ≡ false
      → Runs now moved
          (b ∷ bs)
          p
          forward
          (record p { partial_since = none }, forward ++ (b ∷ bs), continue)
  detached :
      (moved : Bool) (rest : Bytes) (p : EscapeParser) (forward : Bytes) (n : ℕ) (k : Key)
      → token rest ≡ complete n k
      → (decide (take n rest) k p forward).2 ≡ detach
      → Runs now moved rest p forward (
        record ((decide (take n rest) k p forward).0) { partial_since = none },
        (decide (take n rest) k p forward).1,
        detach,
      )
  decided :
      (moved : Bool) (rest : Bytes) (p : EscapeParser) (forward : Bytes) (n : ℕ) (k : Key) (r : Fed)
      → token rest ≡ complete n k
      → (decide (take n rest) k p forward).2 ≡ continue
      → Runs now true
          (drop n rest)
          (decide (take n rest) k p forward).0
          (decide (take n rest) k p forward).1
          r
      → Runs now moved rest p forward r

module _ (fuel now : ℕ) (moved : Bool) (b : ℕ) (bs : Bytes) (p : EscapeParser)
    (forward : Bytes) where
  feed_loop-held :
      token (b ∷ bs) ≡ unfinished
      → holds_back p (b ∷ bs) ≡ true
      → feed_loop (suc fuel) now moved (b ∷ bs) p forward
        ≡ some (
          record p { partial = b ∷ bs; partial_since = since now moved p.partial_since },
          forward,
          continue,
        )
  unfolding feed_loop
  feed_loop-held q t = rw (feed_loop, q) (rw t refl)

  feed_loop-through :
      token (b ∷ bs) ≡ unfinished
      → holds_back p (b ∷ bs) ≡ false
      → feed_loop (suc fuel) now moved (b ∷ bs) p forward
        ≡ some (record p { partial_since = none }, forward ++ (b ∷ bs), continue)
  unfolding feed_loop
  feed_loop-through q t = rw (feed_loop, q) (rw t refl)

  feed_loop-detached :
      (n : ℕ) (k : Key)
      → token (b ∷ bs) ≡ complete n k
      → (decide (take n (b ∷ bs)) k p forward).2 ≡ detach
      → feed_loop (suc fuel) now moved (b ∷ bs) p forward
        ≡ some (
          record ((decide (take n (b ∷ bs)) k p forward).0) { partial_since = none },
          (decide (take n (b ∷ bs)) k p forward).1,
          detach,
        )
  unfolding feed_loop
  feed_loop-detached n k q t = rw (feed_loop, q) (rw t refl)

  pub feed_loop-decided :
      (n : ℕ) (k : Key)
      → token (b ∷ bs) ≡ complete n k
      → (decide (take n (b ∷ bs)) k p forward).2 ≡ continue
      → feed_loop (suc fuel) now moved (b ∷ bs) p forward
        ≡ feed_loop fuel now true
            (drop n (b ∷ bs))
            (decide (take n (b ∷ bs)) k p forward).0
            (decide (take n (b ∷ bs)) k p forward).1
  unfolding feed_loop
  feed_loop-decided n k q t = rw (feed_loop, q) (rw t refl)

pub feed_loop-drained :
    (fuel now : ℕ) (moved : Bool) (p : EscapeParser) (forward : Bytes)
    → feed_loop (suc fuel) now moved [] p forward
      ≡ some (record p { partial_since = none }, forward, continue)
unfolding feed_loop
feed_loop-drained fuel now moved p forward = refl

-- With more fuel than bytes the loop returns, by a run.
pub feed_loop-Runs :
    (fuel now : ℕ) (moved : Bool) (rest : Bytes) (p : EscapeParser) (forward : Bytes)
    → length rest < fuel
    → (r : Fed) × (feed_loop fuel now moved rest p forward ≡ some r)
      × Runs now moved rest p forward r
feed_loop-Runs zero now moved rest p forward l = absurd (omega arith)
feed_loop-Runs (suc fuel) now moved [] p forward l =
    (_, feed_loop-drained fuel now moved p forward, drained moved p forward)
feed_loop-Runs (suc fuel) now moved (b ∷ bs) p forward l = elim (Token-cases (token (b ∷ bs))) [
  | inl q ↦ elim (Bool-cases (holds_back p (b ∷ bs))) [
    | inl t ↦ (_, feed_loop-held fuel now moved b bs p forward q t, held moved b bs p forward q t)
    | inr t ↦
        (_, feed_loop-through fuel now moved b bs p forward q t, through moved b bs p forward q t)
  ]
  | inr (n, k, q) ↦
      let d = decide (take n (b ∷ bs)) k p forward in
      elim (Escape-cases d.2) [
        | inr e ↦ (
          _,
          feed_loop-detached fuel now moved b bs p forward n k q e,
          detached moved (b ∷ bs) p forward n k q e,
        )
        | inl e ↦
            let (r, f, more) =
              feed_loop-Runs fuel now true (drop n (b ∷ bs)) d.0 d.1
                (omega (arith, token-bounds (b ∷ bs) n k q, length-drop n (b ∷ bs))) in
            (
              r,
              feed_loop-decided fuel now moved b bs p forward n k q e ∙ f,
              decided moved (b ∷ bs) p forward n k r q e more,
            )
      ]
]
