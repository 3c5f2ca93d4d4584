-- ===== src/Prelude/Bytes.antt =====
-- Bytes and encoding/binary's big-endian words, as lists of numbers below 256.
use Prim.Native.Nat.{ℕ, ◌+◌, ◌*◌, ◌/◌, ◌%◌, ◌^◌, ◌<◌}
use mathlib.Core.Path.{◌≡◌}
use native.Mathlib.Omega.{arith}

abbrev pub u8 : ℕ → ℕ
u8 n = n % 2 ^ 8

abbrev pub u16 : ℕ → ℕ
u16 n = n % 2 ^ 16

abbrev pub u32 : ℕ → ℕ
u32 n = n % 2 ^ 32

abbrev pub u64 : ℕ → ℕ
u64 n = n % 2 ^ 64

abbrev pub IsByte : ℕ → Type 0
IsByte b = b < 256

abbrev pub IsU16 : ℕ → Type 0
IsU16 n = n < 2 ^ 16

abbrev pub IsU32 : ℕ → Type 0
IsU32 n = n < 2 ^ 32

abbrev pub IsU64 : ℕ → Type 0
IsU64 n = n < 2 ^ 64

abbrev pub be16 : ℕ → ℕ → ℕ
be16 a b = a * 2 ^ 8 + b

abbrev pub be32 : ℕ → ℕ → ℕ → ℕ → ℕ
be32 a b c d = be16 a b * 2 ^ 16 + be16 c d

-- One byte of a word, counted from the low end.
abbrev pub byte_of : ℕ → ℕ → ℕ
byte_of v i = v / 2 ^ (8 * i) % 256

pub be16_bytes : (v : ℕ) → IsU16 v → be16 (byte_of v 1) (byte_of v 0) ≡ v
be16_bytes v h = omega arith

pub be32_bytes :
    (v : ℕ) → IsU32 v → be32 (byte_of v 3) (byte_of v 2) (byte_of v 1) (byte_of v 0) ≡ v
be32_bytes v h = omega arith

-- A 64-bit word is two 32-bit ones.
abbrev pub be64 : ℕ → ℕ → ℕ → ℕ → ℕ → ℕ → ℕ → ℕ → ℕ
be64 a b c d e f g h = be32 a b c d * 2 ^ 32 + be32 e f g h

pub be64_bytes :
    (v : ℕ)
    → IsU64 v
    → be64
        (byte_of v 7)
        (byte_of v 6)
        (byte_of v 5)
        (byte_of v 4)
        (byte_of v 3)
        (byte_of v 2)
        (byte_of v 1)
        (byte_of v 0)
      ≡ v
be64_bytes v h = omega arith
