-- ===== src/Base/Bytes.antt =====
-- Go's encoding/binary on lists of numbers below 256, and the widths of unsigned integers.
use Prim.Native.Nat.{ℕ, ◌+◌, ◌*◌, ◌/◌, ◌%◌, ◌^◌, ◌<◌}
use mathlib.Core.Path.{◌≡◌, refl}
use mathlib.Core.List.{List, [], ◌∷◌, ◌++◌}
use native.Mathlib.Omega.{arith}
use mathlib.Core.Bool.{Bool, true, false, ◌&&◌}
use seestar_remote.Base.Tests.{◌==◌}
use seestar_remote.Base.Lists.{get_or, All}

abbrev pub IsByte : ℕ → Type 0
IsByte b = b < 256

abbrev pub Bytes : Type 0
Bytes = List ℕ

abbrev pub IsBytes : Bytes → Type 0
IsBytes = All IsByte

-- `b[i]`, for an `i` that a test has put in range.
abbrev pub at : Bytes → ℕ → ℕ
at b i = get_or b i 0

-- The conversion `byte(v)`, `uint16(v)`, `uint32(v)` of a larger unsigned integer, and the sum of
-- two `uint64`s.
abbrev pub byte : ℕ → ℕ
byte v = v % 256

abbrev pub uint16 : ℕ → ℕ
uint16 v = v % 2 ^ 16

abbrev pub uint32 : ℕ → ℕ
uint32 v = v % 2 ^ 32

abbrev pub add64 : ℕ → ℕ → ℕ
add64 a b = (a + b) % 2 ^ 64

-- `binary.LittleEndian.PutUint16` and so on.
abbrev pub le16 : ℕ → Bytes
le16 v = byte v ∷ byte (v / 2 ^ 8) ∷ []

abbrev pub le32 : ℕ → Bytes
le32 v = byte v ∷ byte (v / 2 ^ 8) ∷ byte (v / 2 ^ 16) ∷ byte (v / 2 ^ 24) ∷ []

abbrev pub le64 : ℕ → Bytes
le64 v = le32 v ++ le32 (v / 2 ^ 32)

abbrev pub be16 : ℕ → Bytes
be16 v = byte (v / 2 ^ 8) ∷ byte v ∷ []

-- `binary.LittleEndian.Uint16(b[i:i+2])` and so on.
abbrev pub get_le16 : Bytes → ℕ → ℕ
get_le16 b i = at b i + at b (i + 1) * 2 ^ 8

abbrev pub get_le32 : Bytes → ℕ → ℕ
get_le32 b i = at b i + at b (i + 1) * 2 ^ 8 + at b (i + 2) * 2 ^ 16 + at b (i + 3) * 2 ^ 24

abbrev pub get_le64 : Bytes → ℕ → ℕ
get_le64 b i = get_le32 b i + get_le32 b (i + 4) * 2 ^ 32

abbrev pub get_be16 : Bytes → ℕ → ℕ
get_be16 b i = at b i * 2 ^ 8 + at b (i + 1)

-- The low eight bytes of a number make it up again.
pub le64_digits :
    (v : ℕ)
    → v < 2 ^ 64
    → byte v
        + byte (v / 2 ^ 8) * 2 ^ 8
        + byte (v / 2 ^ 16) * 2 ^ 16
        + byte (v / 2 ^ 24) * 2 ^ 24
        + (byte (v / 2 ^ 32)
            + byte (v / 2 ^ 32 / 2 ^ 8) * 2 ^ 8
            + byte (v / 2 ^ 32 / 2 ^ 16) * 2 ^ 16
            + byte (v / 2 ^ 32 / 2 ^ 24) * 2 ^ 24)
          * 2 ^ 32
      ≡ v
le64_digits v h = omega arith

-- Equality of strings and byte slices.
unfoldable pub same_bytes : Bytes → Bytes → Bool
same_bytes [] [] = true
same_bytes [] (b ∷ bs) = false
same_bytes (a ∷ bs') [] = false
same_bytes (a ∷ bs') (b ∷ bs) = a == b && same_bytes bs' bs

pub same_bytes_refl : (a : Bytes) → same_bytes a a ≡ true
unfolding same_bytes
same_bytes_refl [] = refl
same_bytes_refl (b ∷ a) = ground (arith, same_bytes_refl a)

pub same_bytes→≡ : (a b : Bytes) → same_bytes a b ≡ true → a ≡ b
unfolding same_bytes
same_bytes→≡ [] [] e = refl
same_bytes→≡ [] (c ∷ b) e = cc
same_bytes→≡ (c ∷ a) [] e = cc
same_bytes→≡ (c ∷ a) (d ∷ b) e = ground (arith, same_bytes→≡ a b)
