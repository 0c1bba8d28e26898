-- ===== src/Common/Words.antt =====
-- Big-endian words of two, four and eight bytes, and their decoders.
use mathlib.Core.List.{[], ◌∷◌, ◌++◌}
use mathlib.Core.Path.{◌≡◌, ap}
use native.Mathlib.Omega.{arith}
use Prim.Native.Nat.{ℕ, ◌+◌, ◌*◌, ◌/◌, ◌%◌, ◌<◌}
use agenttender.Common.Lists.{Bytes}

abbrev pub IsByte : ℕ → Type 0
IsByte b = b < 256

abbrev pub IsU8 : ℕ → Type 0
IsU8 n = n < 256

abbrev pub IsU16 : ℕ → Type 0
IsU16 n = n < 65536

abbrev pub IsU32 : ℕ → Type 0
IsU32 n = n < 4294967296

abbrev pub u64_max : ℕ
u64_max = 18446744073709551615

abbrev pub IsU64 : ℕ → Type 0
IsU64 n = n < 18446744073709551616

-- `u16::to_be_bytes`
abbrev pub be16 : ℕ → Bytes
be16 n = n / 256 % 256 ∷ n % 256 ∷ []

-- `u32::to_be_bytes`
abbrev pub be32 : ℕ → Bytes
be32 n = n / 16777216 % 256 ∷ n / 65536 % 256 ∷ n / 256 % 256 ∷ n % 256 ∷ []

-- `u64::to_be_bytes`
abbrev pub be64 : ℕ → Bytes
be64 n = be32 (n / 4294967296) ++ be32 n

abbrev pub from_be16 : ℕ → ℕ → ℕ
from_be16 a b = a * 256 + b

abbrev pub from_be32 : ℕ → ℕ → ℕ → ℕ → ℕ
from_be32 a b c d = ((a * 256 + b) * 256 + c) * 256 + d

-- `from_be_bytes` on the first bytes of a slice; a slice that is too short has been refused.
abbrev pub word16 : Bytes → ℕ
word16 (a ∷ b ∷ _) = from_be16 a b
word16 _ = 0

abbrev pub word32 : Bytes → ℕ
word32 (a ∷ b ∷ c ∷ d ∷ _) = from_be32 a b c d
word32 _ = 0

abbrev pub word64 : Bytes → ℕ
word64 (a ∷ b ∷ c ∷ d ∷ rest) = from_be32 a b c d * 4294967296 + word32 rest
word64 _ = 0

pub word16-be16 : (n : ℕ) (rest : Bytes) → IsU16 n → word16 (be16 n ++ rest) ≡ n
word16-be16 n rest h = omega arith

from_be32_mod :
    (n : ℕ)
    → from_be32 (n / 16777216 % 256) (n / 65536 % 256) (n / 256 % 256) (n % 256) ≡ n % 4294967296
from_be32_mod n = omega arith

pub word32-be32 : (n : ℕ) (rest : Bytes) → IsU32 n → word32 (be32 n ++ rest) ≡ n
word32-be32 n rest h = omega (arith, from_be32_mod n)

pub word64-be64 : (n : ℕ) (rest : Bytes) → IsU64 n → word64 (be64 n ++ rest) ≡ n
word64-be64 n rest h = omega (arith, from_be32_mod n, from_be32_mod (n / 4294967296))

-- Four bytes are the big-endian form of their word.
pub be32-word32 :
    (a b c d : ℕ)
    → IsByte a
    → IsByte b
    → IsByte c
    → IsByte d
    → be32 (from_be32 a b c d) ≡ a ∷ b ∷ c ∷ d ∷ []
be32-word32 a b c d ha hb hc hd = ground arith

from_be32_bound :
    (a b c d : ℕ) → IsByte a → IsByte b → IsByte c → IsByte d → IsU32 (from_be32 a b c d)
from_be32_bound a b c d ha hb hc hd = omega arith

be32_mod : (n k : ℕ) → be32 (k * 4294967296 + n) ≡ be32 n
be32_mod n k = ground arith

high_word : (h l : ℕ) → IsU32 l → (h * 4294967296 + l) / 4294967296 ≡ h
high_word h l b = omega arith

-- Eight bytes are the big-endian form of their word.
pub be64-words : (h l : ℕ) → IsU32 l → be64 (h * 4294967296 + l) ≡ be32 h ++ be32 l
be64-words h l b = rw (high_word h l b) (ap (◌++◌ (be32 h)) (be32_mod l h))
