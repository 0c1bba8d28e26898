-- ===== src/AttachEscape/Tokens.antt =====
-- The tokens of the typed bytes (src/attach_escape.rs).
use agenttender.Common.{
  ℕ, suc, ◌+◌, ◌-◌, min, Bool, true, false, not, ◌&&◌, ◌||◌, List, [], ◌∷◌, Option, none, some,
  Bytes, bytes_eq, codes, if◌then◌else◌, ◌==◌, leb, length, take, is_empty,
}
use agenttender.AttachEscape.Keys.{Key, prefix_key, detach_key, other, csi_key, split, all_params}

-- `PREFIX`
abbrev pub prefix_byte : ℕ
prefix_byte = 0x1c

-- `DETACH_KEY`
abbrev pub detach_byte : ℕ
detach_byte = 100

abbrev pub esc : ℕ
esc = 0x1b

abbrev pub max_sequence : ℕ
max_sequence = 64

pub data Token : Type 0 where
  complete : ℕ → Key → Token
  unfinished : Token

-- The loop of `escape_sequence` over the bytes from index `i` on, up to the limit.
unfoldable pub scan : Bytes → ℕ → Bytes → Option Token
unfolding csi_key
scan params i [] = none
scan params i (b ∷ bs) =
    let more = scan params (i + 1) bs in
    if leb 0x20 b && leb b 0x3f
    then more
    else if leb 0x40 b && leb b 0x7e
    then some (complete (i + 1) (csi_key (take (i - 2) params) b))
    else some (complete i other)

-- Input from `ESC [` on; `params` are the bytes behind it.
unfoldable pub csi_sequence : Bytes → Token
unfolding scan
csi_sequence params =
    elim (scan params 2 (take (min (length params + 2) max_sequence - 2) params)) [
      | some t ↦ t
      | none ↦
          if leb max_sequence (length params + 2) then complete max_sequence other else unfinished
    ]

unfoldable pub escape_sequence : Bytes → Token
unfolding csi_sequence
escape_sequence (e ∷ b ∷ params) = if b == 0x5b then csi_sequence params else complete 1 other
escape_sequence _ = unfinished

-- `token`, whose input is not empty
unfoldable pub token : Bytes → Token
unfolding escape_sequence
token [] = unfinished
token (b ∷ bs) =
    if b == prefix_byte
    then complete 1 prefix_key
    else if b == detach_byte
    then complete 1 detach_key
    else if b == esc
    then escape_sequence (b ∷ bs)
    else complete 1 other

-- `word.starts_with(text)`
starts_with : Bytes → Bytes → Bool
starts_with word [] = true
starts_with [] (b ∷ bs) = false
starts_with (w ∷ ws) (b ∷ bs) = (w == b) && starts_with ws bs

count_colons : Bytes → ℕ
count_colons [] = 0
count_colons (b ∷ bs) = let rest = count_colons bs in if b == 58 then suc rest else rest

-- `get(i)` of the fields behind the first, `is_none_or` a test
none_or_first : (Bytes → Bool) → List Bytes → Bool
none_or_first test [] = true
none_or_first test (x ∷ xs) = test x

none_or_second : (Bytes → Bool) → List Bytes → Bool
none_or_second test (x ∷ y ∷ ys) = test y
none_or_second test _ = true

could_be_kitty : Bytes → List Bytes → Bool
unfolding bytes_eq split count_colons starts_with none_or_first
could_be_kitty key rest =
    let code = (split 58 key).0 in
    if is_empty rest && (length code == length key)
    then starts_with (codes "92") code
    else bytes_eq code (codes "92")
      && (leb (length rest) 2 && none_or_first (λ m. leb (count_colons m) 1) rest)

could_be_xterm : Bytes → List Bytes → Bool
unfolding bytes_eq count_colons starts_with none_or_first none_or_second
could_be_xterm key rest =
    if is_empty rest
    then starts_with (codes "27") key
    else bytes_eq key (codes "27")
      && (leb (length rest) 2
          && (none_or_first (λ m. count_colons m == 0) rest
              && none_or_second (starts_with (codes "92")) rest))

could_be_csi : Bytes → Bool
unfolding split all_params could_be_kitty could_be_xterm
could_be_csi params =
    if not (all_params params)
    then false
    else (let (key, rest) = split 59 params in could_be_kitty key rest || could_be_xterm key rest)

unfoldable pub could_become_prefix : Bytes → Bool
unfolding could_be_csi
could_become_prefix [] = false
could_become_prefix (e ∷ []) = e == esc
could_become_prefix (e ∷ b ∷ params) = (e == esc) && ((b == 0x5b) && could_be_csi params)
