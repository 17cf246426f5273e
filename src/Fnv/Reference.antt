-- ===== src/Fnv/Reference.antt =====
-- The reference of the FNV-1a hash of crates/poholos/src/seen.rs: the recurrence and the constants of
-- draft-eastlake-fnv, which the code's documentation names.
use poholos.Prelude.{List, [], ap, arith, bit_xor, refl, ℕ, ◌%◌, ◌*◌, ◌+◌, ◌^◌, ◌∙◌, ◌∷◌, ◌≡◌}
use poholos.Fnv.{fnv64, fnv64_update, fnv_offset_basis, fnv_round}

-- The product with the 64-bit prime, which is 2^40 + 2^8 + 0xb3.
abbrev pub times_prime : ℕ → ℕ
times_prime h = (h * 2 ^ 40 + h * 2 ^ 8 + h * 0xb3) % 2 ^ 64

-- The FNV-0 hash of the bytes before a last one, and of none: multiply, then mix the byte in. The
-- bytes are given from the last on.
unfoldable fnv0_back : List ℕ → ℕ
fnv0_back [] = 0
fnv0_back (last ∷ before) = bit_xor (times_prime (fnv0_back before)) last

unfoldable reverse : List ℕ → List ℕ → List ℕ
reverse done [] = done
reverse done (b ∷ bytes) = reverse (b ∷ done) bytes

-- `chongo <Landon Curt Noll> /\../\`, of which the offset basis is the FNV-0 hash.
abbrev chongo : List ℕ
chongo =
    99 ∷ 104 ∷ 111 ∷ 110 ∷ 103 ∷ 111 ∷ 32 ∷ 60 ∷ 76 ∷ 97 ∷ 110 ∷ 100 ∷ 111 ∷ 110 ∷ 32 ∷ 67 ∷ 117
    ∷ 114 ∷ 116 ∷ 32 ∷ 78 ∷ 111 ∷ 108 ∷ 108 ∷ 62 ∷ 32 ∷ 47 ∷ 92 ∷ 46 ∷ 46 ∷ 47 ∷ 92 ∷ []

-- The FNV-1a hash: mix the last byte into the hash of those before it, then multiply.
unfoldable fnv1a_back : List ℕ → ℕ
fnv1a_back [] = fnv0_back (reverse [] chongo)
fnv1a_back (last ∷ before) = times_prime (bit_xor (fnv1a_back before) last)

pub fnv1a : List ℕ → ℕ
fnv1a bytes = fnv1a_back (reverse [] bytes)

basis_lem : fnv_offset_basis ≡ fnv1a_back []
unfolding fnv1a_back fnv0_back reverse
basis_lem = refl

fnv_round_lem : (hash b : ℕ) → fnv_round hash b ≡ times_prime (bit_xor hash b)
unfolding fnv_round
fnv_round_lem hash b = omega arith

fnv64_update-back :
    (done bytes : List ℕ) → fnv64_update (fnv1a_back done) bytes ≡ fnv1a_back (reverse done bytes)
unfolding fnv64_update reverse fnv1a_back
fnv64_update-back done [] = refl
fnv64_update-back done (b ∷ bytes) =
    ap (λ h. fnv64_update h bytes) (fnv_round_lem (fnv1a_back done) b)
    ∙ fnv64_update-back (b ∷ done) bytes

-- The hash is the reference's.
pub fnv64-eq-fnv1a : (bytes : List ℕ) → fnv64 bytes ≡ fnv1a bytes
unfolding fnv64 fnv1a
fnv64-eq-fnv1a bytes = ap (λ h. fnv64_update h bytes) basis_lem ∙ fnv64_update-back [] bytes
