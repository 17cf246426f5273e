-- ===== src/Prelude/Bits.antt =====
-- Masks on one byte as arithmetic, checked over all values by evaluation.
use Prim.Native.Nat.{ℕ, zero, suc, ◌+◌, ◌*◌, ◌/◌, ◌%◌, ◌<◌, bit_and, bit_or}
use mathlib.Core.Path.{◌≡◌, refl, sym, ap, ◌∙◌}
use mathlib.Core.Bool.{Bool, true, false}
use native.Mathlib.Omega.{arith}
use poholos.Prelude.Tests.{if◌then◌else◌, ◌==◌}

-- Whether two functions agree on the `count` numbers from `start` on.
same_table : (ℕ → ℕ) → (ℕ → ℕ) → ℕ → ℕ → Bool
same_table f g start zero = true
same_table f g start (suc count) =
    if f start == g start then same_table f g (start + 1) count else false

same_at :
    (f g : ℕ → ℕ) (start count i : ℕ)
    → same_table f g start count ≡ true
    → i < count
    → f (start + i) ≡ g (start + i)
unfolding same_table
same_at f g start zero i table h = absurd (omega arith)
same_at f g start (suc count) zero table h =
    let here : start + 0 ≡ start = omega arith in rw here (ground (arith, table))
same_at f g start (suc count) (suc i) table h =
    let next : start + suc i ≡ start + 1 + i = omega arith in
    rw next (same_at f g (start + 1) count i (ground (arith, table)) (omega arith))

agree : (f g : ℕ → ℕ) (n : ℕ) → same_table f g 0 n ≡ true → (x : ℕ) → x < n → f x ≡ g x
agree f g n table x h =
    let same : 0 + x ≡ x = omega arith in ap f (sym same) ∙ same_at f g 0 n x table h ∙ ap g same

pub bit_and-0x1f : (b : ℕ) → b < 256 → bit_and b 0x1f ≡ b % 32
unfolding same_table
bit_and-0x1f = agree _ _ 256 refl

pub bit_and-0x20 : (b : ℕ) → b < 256 → bit_and b 0x20 ≡ b / 32 % 2 * 32
unfolding same_table
bit_and-0x20 = agree _ _ 256 refl

-- The first byte of a frame, for each version and shape.
pub flags_00 : (t : ℕ) → t < 32 → bit_or (bit_or 0 0) (bit_and t 0x1f) ≡ t
unfolding same_table
flags_00 = agree _ _ 32 refl

pub flags_01 : (t : ℕ) → t < 32 → bit_or (bit_or 0 0x20) (bit_and t 0x1f) ≡ 32 + t
unfolding same_table
flags_01 = agree _ _ 32 refl

pub flags_10 : (t : ℕ) → t < 32 → bit_or (bit_or 64 0) (bit_and t 0x1f) ≡ 64 + t
unfolding same_table
flags_10 = agree _ _ 32 refl

pub flags_11 : (t : ℕ) → t < 32 → bit_or (bit_or 64 0x20) (bit_and t 0x1f) ≡ 96 + t
unfolding same_table
flags_11 = agree _ _ 32 refl

-- A tag in the high half of a byte and a number in the low half.
pub bit_and-0xf0 : (b : ℕ) → b < 256 → bit_and b 0xF0 ≡ b / 16 * 16
unfolding same_table
bit_and-0xf0 = agree _ _ 256 refl

pub bit_and-0x0f : (b : ℕ) → b < 256 → bit_and b 0x0F ≡ b % 16
unfolding same_table
bit_and-0x0f = agree _ _ 256 refl

pub bit_or-0xf0 : (n : ℕ) → n < 16 → bit_or 0xF0 n ≡ 240 + n
unfolding same_table
bit_or-0xf0 = agree _ _ 16 refl

-- The two top bits of a byte set.
pub bit_or-0xc0 : (b : ℕ) → b < 256 → bit_or b 0xC0 ≡ 192 + b % 64
unfolding same_table
bit_or-0xc0 = agree _ _ 256 refl
