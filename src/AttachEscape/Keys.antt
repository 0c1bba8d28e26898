-- ===== src/AttachEscape/Keys.antt =====
-- The classification of a key in the encodings of src/attach_escape.rs.
use Prim.Native.Nat.{bit_and}
use agenttender.Common.{
  ℕ, ◌+◌, ◌-◌, ◌*◌, Bool, true, false, not, ◌&&◌, ◌||◌, List, [], ◌∷◌, Option, none, some, Bytes,
  bytes_eq, codes, if◌then◌else◌, ◌==◌, leb, ltb, length, is_empty,
}

abbrev pub key_backslash : ℕ
key_backslash = 92

abbrev pub key_d : ℕ
key_d = 100

abbrev pub mod_ctrl : ℕ
mod_ctrl = 4

-- `!MOD_LOCKS`, all but 64 and 128
abbrev pub not_locks : ℕ
not_locks = 4294967103

abbrev pub event_press : ℕ
event_press = 1

abbrev pub event_repeat : ℕ
event_repeat = 2

abbrev pub event_release : ℕ
event_release = 3

-- `incidental of_backslash`
pub data Key : Type 0 where
  prefix_key detach_key other : Key
  incidental : Bool → Key

-- `slice::split` on one byte
unfoldable pub split : ℕ → Bytes → Bytes × List Bytes
split sep [] = ([], [])
split sep (b ∷ bs) =
    let (first, rest) = split sep bs in if b == sep then ([], first ∷ rest) else (b ∷ first, rest)

-- `str::parse::<u32>` on the digits that follow
parse_digits : ℕ → Bytes → Option ℕ
parse_digits n [] = some n
parse_digits n (b ∷ bs) =
    let next = parse_digits (n * 10 + (b - 48)) bs in
    if (leb 48 b && leb b 57) && ltb (n * 10 + (b - 48)) 4294967296 then next else none

-- `number`; the standard parser takes a `+` before the digits.
unfoldable pub number : Bytes → Option ℕ
unfolding parse_digits
number [] = none
number (b ∷ bs) =
    if b == 43 then (if is_empty bs then none else parse_digits 0 bs) else parse_digits 0 (b ∷ bs)

unfoldable pub number_or : Option Bytes → ℕ → Option ℕ
unfolding number
number_or none default = some default
number_or (some []) default = some default
number_or (some (b ∷ bs)) default = number (b ∷ bs)

unfoldable pub is_modifier_key : ℕ → Bool
is_modifier_key code = (leb 57358 code && leb code 57360) || (leb 57441 code && leb code 57454)

unfoldable pub key_event : ℕ → ℕ → ℕ → Key
key_event code modifiers event =
    if modifiers == 0
    then other
    else (let held = bit_and (modifiers - 1) not_locks in
        if (code == key_backslash) && ((held == mod_ctrl) && (event == event_press))
        then prefix_key
        else if (code == key_d) && ((held == 0) && (event == event_press))
        then detach_key
        else other)

-- `b.is_ascii_digit() || *b == b':' || *b == b';'`, for all bytes
unfoldable pub all_params : Bytes → Bool
all_params [] = true
all_params (b ∷ bs) = ((leb 48 b && leb b 57) || ((b == 58) || (b == 59))) && all_params bs

-- `b'u' | b'~' | b'A'..=b'F' | b'H' | b'P' | b'Q' | b'S'`
kitty_final : ℕ → Bool
kitty_final b =
    (b == 117)
    || ((b == 126)
        || ((leb 65 b && leb b 70) || ((b == 72) || ((b == 80) || ((b == 81) || (b == 83))))))

head_of : List Bytes → Option Bytes
head_of [] = none
head_of (x ∷ xs) = some x

tail_of : List Bytes → List Bytes
tail_of [] = []
tail_of (x ∷ xs) = xs

-- `fields.get(1).copied().unwrap_or_default()`
field_or_empty : List Bytes → Bytes
field_or_empty [] = []
field_or_empty (x ∷ xs) = x

option_eq : Option ℕ → ℕ → Bool
option_eq none n = false
option_eq (some m) n = m == n

-- What follows the modifiers and the event of a kitty key.
kitty_key : ℕ → Option ℕ → ℕ → ℕ → Option Key
unfolding option_eq is_modifier_key key_event
kitty_key final_byte code modifiers event =
    if event == event_release
    then some (incidental ((final_byte == 117) && option_eq code key_backslash))
    else if not (final_byte == 117) || not ((event == event_press) || (event == event_repeat))
    then none
    else elim code [
      | none ↦ none
      | some c ↦
          if (event == event_repeat) && (c == key_backslash)
          then some (incidental true)
          else if is_modifier_key c
          then some (incidental false)
          else some (key_event c modifiers event)
    ]

-- `CSI 27 ; modifiers ; code ~`
xterm_key : Bytes → Bytes → Option Key
unfolding number key_event
xterm_key modifiers code = elim (number code) [
  | none ↦ none
  | some c ↦ elim (number modifiers) [ none ↦ none | some m ↦ some (key_event c m event_press) ]
]

-- The kitty forms, on the first field and the fields behind it.
kitty_fields : Bytes → List Bytes → ℕ → Option Key
unfolding kitty_key kitty_final number_or number split field_or_empty head_of tail_of
kitty_fields first rest final_byte =
    if not (kitty_final final_byte) || ltb 2 (length rest)
    then none
    else (let (m, more) = split 58 (field_or_empty rest) in
        elim (number_or (some m) 1) [
          | none ↦ none
          | some modifiers ↦ elim (number_or (head_of more) event_press) [
            | none ↦ none
            | some event ↦ elim (tail_of more) [
              | _ ∷ _ ↦ none
              | [] ↦ kitty_key final_byte (number (split 58 first).0) modifiers event
            ]
          ]
        ])

is_xterm : Bytes → List Bytes → ℕ → Bool
unfolding bytes_eq
is_xterm first rest final_byte =
    (final_byte == 126) && ((length rest == 2) && bytes_eq first (codes "27"))

second_of : List Bytes → Bytes
unfolding field_or_empty tail_of
second_of xs = field_or_empty (tail_of xs)

unfoldable pub classify_csi : Bytes → ℕ → Option Key
unfolding all_params split is_xterm xterm_key kitty_fields field_or_empty second_of
classify_csi params final_byte =
    if not (all_params params)
    then none
    else (let (first, rest) = split 59 params in
        if is_xterm first rest final_byte
        then xterm_key (field_or_empty rest) (second_of rest)
        else kitty_fields first rest final_byte)

unfoldable pub csi_key : Bytes → ℕ → Key
unfolding classify_csi
csi_key params final_byte = elim (classify_csi params final_byte) [ none ↦ other | some k ↦ k ]
