-- ===== src/Prelude/Words.antt =====
-- Machine words as native numbers, and their byte orders.
use Prim.Native.Nat.{ℕ, ◌+◌, ◌*◌, ◌/◌, ◌%◌, ◌^◌, ◌<◌}
use mathlib.Core.Path.{◌≡◌}
use mathlib.Core.List.{List, [], ◌∷◌}
use native.Mathlib.Omega.{arith}
use poholos.Prelude.Lists.{All}

abbrev pub IsByte : ℕ → Type 0
IsByte b = b < 256

abbrev pub IsU16 : ℕ → Type 0
IsU16 x = x < 2 ^ 16

abbrev pub IsU32 : ℕ → Type 0
IsU32 x = x < 2 ^ 32

abbrev pub IsU64 : ℕ → Type 0
IsU64 x = x < 2 ^ 64

-- `u16::to_be_bytes`, `u32::to_be_bytes` and their inverses.
abbrev pub u16_to_be_bytes : ℕ → List ℕ
u16_to_be_bytes x = (x / 256 % 256) ∷ (x % 256) ∷ []

abbrev pub u32_to_be_bytes : ℕ → List ℕ
u32_to_be_bytes x = (x / 16777216 % 256) ∷ (x / 65536 % 256) ∷ (x / 256 % 256) ∷ (x % 256) ∷ []

abbrev pub u16_from_be_bytes : ℕ → ℕ → ℕ
u16_from_be_bytes a b = a * 256 + b

abbrev pub u32_from_be_bytes : ℕ → ℕ → ℕ → ℕ → ℕ
u32_from_be_bytes a b c d = a * 16777216 + b * 65536 + c * 256 + d

-- `u16::from_le_bytes`.
abbrev pub u16_from_le_bytes : ℕ → ℕ → ℕ
u16_from_le_bytes a b = a + b * 256

pub u16_be_round : (x : ℕ) → IsU16 x → u16_from_be_bytes (x / 256 % 256) (x % 256) ≡ x
u16_be_round x h = omega arith

pub u32_be_round :
    (x : ℕ)
    → IsU32 x
    → u32_from_be_bytes (x / 16777216 % 256) (x / 65536 % 256) (x / 256 % 256) (x % 256) ≡ x
u32_be_round x h = omega arith

pub u32_to_be_bytes-IsByte : (x : ℕ) → All IsByte (u32_to_be_bytes x)
u32_to_be_bytes-IsByte x = omega arith

pub IsU16-split :
    (a b : ℕ)
    → IsByte a
    → IsByte b
    → IsU16 (u16_from_be_bytes a b)
      × (u16_from_be_bytes a b / 256 % 256 ≡ a)
      × (u16_from_be_bytes a b % 256 ≡ b)
IsU16-split a b ha hb = omega arith

pub IsU32-split :
    (a b c d : ℕ)
    → IsByte a
    → IsByte b
    → IsByte c
    → IsByte d
    → IsU32 (u32_from_be_bytes a b c d)
      × (u32_from_be_bytes a b c d / 16777216 % 256 ≡ a)
      × (u32_from_be_bytes a b c d / 65536 % 256 ≡ b)
      × (u32_from_be_bytes a b c d / 256 % 256 ≡ c)
      × (u32_from_be_bytes a b c d % 256 ≡ d)
IsU32-split a b c d ha hb hc hd = omega arith
