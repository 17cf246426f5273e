-- ===== src/Fnv.antt =====
-- The FNV-1a hash of crates/poholos/src/seen.rs, which derives packet keys and wire ids.
pub mod Reference
use poholos.Prelude.{ℕ, ◌*◌, ◌%◌, ◌^◌, bit_xor, ◌≡◌, refl, List, [], ◌∷◌, ◌++◌, arith}
use poholos.Prelude.Words.{IsU64}

abbrev pub fnv_offset_basis : ℕ
fnv_offset_basis = 0xcbf2_9ce4_8422_2325

abbrev pub fnv_prime : ℕ
fnv_prime = 0x0000_0100_0000_01b3

-- One round of the loop: `hash ^= u64::from(b)`, then the wrapping product.
unfoldable pub fnv_round : ℕ → ℕ → ℕ
fnv_round hash b = bit_xor hash b * fnv_prime % 2 ^ 64

unfoldable pub fnv64_update : ℕ → List ℕ → ℕ
fnv64_update hash [] = hash
fnv64_update hash (b ∷ bytes) = fnv64_update (fnv_round hash b) bytes

unfoldable pub fnv64 : List ℕ → ℕ
fnv64 bytes = fnv64_update fnv_offset_basis bytes

-- Folding two pieces one after the other is folding their concatenation.
pub fnv64_update-append :
    (hash : ℕ) (xs ys : List ℕ)
    → fnv64_update hash (xs ++ ys) ≡ fnv64_update (fnv64_update hash xs) ys
unfolding fnv64_update
fnv64_update-append hash [] ys = refl
fnv64_update-append hash (x ∷ xs) ys = fnv64_update-append (fnv_round hash x) xs ys

pub fnv64_update-IsU64 : (hash : ℕ) (xs : List ℕ) → IsU64 hash → IsU64 (fnv64_update hash xs)
unfolding fnv64_update fnv_round
fnv64_update-IsU64 hash [] h = h
fnv64_update-IsU64 hash (x ∷ xs) h = fnv64_update-IsU64 (fnv_round hash x) xs (omega arith)

-- The hash is always a u64.
pub fnv64-IsU64 : (xs : List ℕ) → IsU64 (fnv64 xs)
unfolding fnv64
fnv64-IsU64 xs = fnv64_update-IsU64 fnv_offset_basis xs (omega arith)
