-- ===== src/Common/Bytes.antt =====
-- Machine words and bytes as native numbers: the casts and shifts of the Rust sources, and the
-- standard library's big-endian conversions.
use Prim.Native.Nat.{ℕ, ◌+◌, ◌*◌, ◌/◌, ◌%◌, ◌^◌, ◌<◌}
use mathlib.Core.Path.{◌≡◌}
use mathlib.Core.List.{List, [], ◌∷◌}
use native.Mathlib.Omega.{arith}

abbrev pub IsByte : ℕ → Type 0
IsByte b = b < 256

-- `x as u8`
abbrev pub byte : ℕ → ℕ
byte x = x % 256

-- `x >> k`, and `b << k` where the result fits the word (a byte shifted by 24 at most).
abbrev pub shr : ℕ → ℕ → ℕ
shr x k = x / 2 ^ k

abbrev pub shl : ℕ → ℕ → ℕ
shl b k = b * 2 ^ k

-- `u32::to_be_bytes` and `u64::to_be_bytes`
abbrev pub be32 : ℕ → List ℕ
be32 x = byte (x / 2 ^ 24) ∷ byte (x / 2 ^ 16) ∷ byte (x / 2 ^ 8) ∷ byte x ∷ []

abbrev pub be64 : ℕ → List ℕ
be64 x =
    byte (x / 2 ^ 56)
    ∷ byte (x / 2 ^ 48)
    ∷ byte (x / 2 ^ 40)
    ∷ byte (x / 2 ^ 32)
    ∷ byte (x / 2 ^ 24)
    ∷ byte (x / 2 ^ 16)
    ∷ byte (x / 2 ^ 8)
    ∷ byte x
    ∷ []

-- `u32::from_be_bytes` and `u64::from_be_bytes`
abbrev pub from_be32 : ℕ → ℕ → ℕ → ℕ → ℕ
from_be32 a b c d = a * 2 ^ 24 + b * 2 ^ 16 + c * 2 ^ 8 + d

abbrev pub from_be64 : ℕ → ℕ → ℕ → ℕ → ℕ → ℕ → ℕ → ℕ → ℕ
from_be64 a b c d e f g h =
    a * 2 ^ 56 + b * 2 ^ 48 + c * 2 ^ 40 + d * 2 ^ 32 + (e * 2 ^ 24 + f * 2 ^ 16 + g * 2 ^ 8 + h)

pub from_be32-be32 :
    (x : ℕ)
    → x < 2 ^ 32
    → from_be32 (byte (x / 2 ^ 24)) (byte (x / 2 ^ 16)) (byte (x / 2 ^ 8)) (byte x) ≡ x
from_be32-be32 x h = omega arith

pub from_be64-be64 :
    (x : ℕ)
    → x < 2 ^ 64
    → from_be64
        (byte (x / 2 ^ 56))
        (byte (x / 2 ^ 48))
        (byte (x / 2 ^ 40))
        (byte (x / 2 ^ 32))
        (byte (x / 2 ^ 24))
        (byte (x / 2 ^ 16))
        (byte (x / 2 ^ 8))
        (byte x)
      ≡ x
from_be64-be64 x h = omega arith
