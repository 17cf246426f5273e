-- ===== src/Wire/Accept.antt =====
-- `decode` of crates/poholos/src/wire.rs on any received bytes.
use poholos.Prelude.{
  All, Bool, Bool-cases, List, Outcome, arith, drop, err, get_or, if◌then◌else◌, inl, inr, leb,
  length, ltb, ltb-false→le, none, ok, slice_from, some, suc, true, ℕ, ◌%◌, ◌&&◌, ◌+◌, ◌/◌, ◌<◌,
  ◌==◌, ◌∷◌, ◌≡◌, ◌≤◌,
}
use poholos.Prelude.Words.{IsByte, u16_from_be_bytes, u32_from_be_bytes}
use poholos.Prelude.Bits.{bit_and-0x1f, bit_and-0x20}
use poholos.Packet.{Packet}
use poholos.Packet.Valid.{IsCap, constructed, hearsay_with_lem, packet_of, telegram_with_lem}
use poholos.Wire.{WireError, oversized, truncated, unsupported_version, zero_ttl}
use poholos.Wire.Decode.{decode}

abbrev pub first_byte : List ℕ → ℕ
first_byte bytes = get_or bytes 0 0

abbrev word16 : List ℕ → ℕ → ℕ
word16 bytes i = u16_from_be_bytes (get_or bytes i 0) (get_or bytes (suc i) 0)

abbrev word32 : List ℕ → ℕ → ℕ
word32 bytes i =
    u32_from_be_bytes (get_or bytes i 0) (get_or bytes (suc i) 0) (get_or bytes (suc (suc i)) 0)
      (get_or bytes (suc (suc (suc i))) 0)

abbrev pub is_telegram_frame : List ℕ → Bool
is_telegram_frame bytes = first_byte bytes / 32 % 2 == 1

-- The packet that a well-formed frame stands for.
abbrev pub meaning : ℕ → List ℕ → Packet
meaning cap bytes =
    if is_telegram_frame bytes
    then packet_of cap (word32 bytes 3) (some (word32 bytes 7)) (word16 bytes 1) (drop 11 bytes)
        (first_byte bytes % 32)
    else packet_of cap (word32 bytes 3) none (word16 bytes 1) (drop 7 bytes) (first_byte bytes % 32)

-- The reference for `decode`: arithmetic on the bytes, no masks, no constructors, no panics.
unfoldable pub verdict : ℕ → List ℕ → Outcome WireError Packet
verdict cap bytes =
    if ltb cap (length bytes)
    then err (oversized (length bytes))
    else if ltb (length bytes) 7
    then err (truncated (length bytes))
    else if leb 128 (first_byte bytes)
    then err (unsupported_version (first_byte bytes / 64))
    else if first_byte bytes % 32 == 0
    then err zero_ttl
    else if is_telegram_frame bytes && ltb (length bytes) 11
    then err (truncated (length bytes))
    else ok (meaning cap bytes)

-- `decode` on bytes that fit and hold at least the short header.
hearsay_read :
    (cap b0 b1 b2 b3 b4 b5 b6 : ℕ) (rest : List ℕ)
    → IsCap cap
    → IsByte b0
    → b0 / 32 % 2 ≡ 0
    → 7 + length rest ≤ cap
    → decode cap (b0 ∷ b1 ∷ b2 ∷ b3 ∷ b4 ∷ b5 ∷ b6 ∷ rest) ≡ (
        if ltb b0 128
        then (if b0 % 32 == 0
            then err zero_ttl
            else ok (
                packet_of cap
                  (u32_from_be_bytes b3 b4 b5 b6)
                  none
                  (u16_from_be_bytes b1 b2)
                  rest
                  (b0 % 32)))
        else err (unsupported_version (b0 / 64)))
unfolding decode slice_from constructed
hearsay_read cap b0 b1 b2 b3 b4 b5 b6 rest hc h hs hr = ground (
  arith,
  bit_and-0x1f b0 h,
  bit_and-0x20 b0 h,
  hearsay_with_lem cap (u32_from_be_bytes b3 b4 b5 b6) (u16_from_be_bytes b1 b2) rest (b0 % 32) hc,
)

telegram_read :
    (cap b0 b1 b2 b3 b4 b5 b6 b7 b8 b9 b10 : ℕ) (rest : List ℕ)
    → IsCap cap
    → IsByte b0
    → b0 / 32 % 2 ≡ 1
    → 11 + length rest ≤ cap
    → decode cap (b0 ∷ b1 ∷ b2 ∷ b3 ∷ b4 ∷ b5 ∷ b6 ∷ b7 ∷ b8 ∷ b9 ∷ b10 ∷ rest) ≡ (
        if ltb b0 128
        then (if b0 % 32 == 0
            then err zero_ttl
            else ok (
                packet_of cap
                  (u32_from_be_bytes b3 b4 b5 b6)
                  (some (u32_from_be_bytes b7 b8 b9 b10))
                  (u16_from_be_bytes b1 b2)
                  rest
                  (b0 % 32)))
        else err (unsupported_version (b0 / 64)))
unfolding decode slice_from constructed
telegram_read cap b0 b1 b2 b3 b4 b5 b6 b7 b8 b9 b10 rest hc h hs hr = ground (
  arith,
  bit_and-0x1f b0 h,
  bit_and-0x20 b0 h,
  telegram_with_lem cap (u32_from_be_bytes b3 b4 b5 b6) (u32_from_be_bytes b7 b8 b9 b10)
      (u16_from_be_bytes b1 b2) rest (b0 % 32) hc,
)

-- A telegram header that is cut short.
telegram_cut :
    (cap b0 b1 b2 b3 b4 b5 b6 : ℕ) (rest : List ℕ)
    → IsByte b0
    → b0 / 32 % 2 ≡ 1
    → length rest < 4
    → 7 + length rest ≤ cap
    → decode cap (b0 ∷ b1 ∷ b2 ∷ b3 ∷ b4 ∷ b5 ∷ b6 ∷ rest) ≡ (
        if ltb b0 128
        then (if b0 % 32 == 0 then err zero_ttl else err (truncated (7 + length rest)))
        else err (unsupported_version (b0 / 64)))
unfolding decode
telegram_cut cap b0 b1 b2 b3 b4 b5 b6 rest h hs hl hr =
    ground (arith, bit_and-0x1f b0 h, bit_and-0x20 b0 h)

long_read :
    (cap b0 b1 b2 b3 b4 b5 b6 : ℕ) (rest : List ℕ)
    → IsCap cap
    → IsByte b0
    → 7 + length rest ≤ cap
    → decode cap (b0 ∷ b1 ∷ b2 ∷ b3 ∷ b4 ∷ b5 ∷ b6 ∷ rest)
      ≡ verdict cap (b0 ∷ b1 ∷ b2 ∷ b3 ∷ b4 ∷ b5 ∷ b6 ∷ rest)
unfolding verdict
long_read cap b0 b1 b2 b3 b4 b5 b6 rest hc h hr = elim (Bool-cases (b0 / 32 % 2 == 1)) [
  | inl yes_ ↦ telegram b0 rest h hr yes_
  | inr no_ ↦ ground (arith, hearsay_read cap b0 b1 b2 b3 b4 b5 b6 rest hc h)
]
  where
    telegram :
        (b0 : ℕ) (rest : List ℕ)
        → IsByte b0
        → 7 + length rest ≤ cap
        → (b0 / 32 % 2 == 1) ≡ true
        → decode cap (b0 ∷ b1 ∷ b2 ∷ b3 ∷ b4 ∷ b5 ∷ b6 ∷ rest)
          ≡ verdict cap (b0 ∷ b1 ∷ b2 ∷ b3 ∷ b4 ∷ b5 ∷ b6 ∷ rest)
    telegram b0 (b7 ∷ b8 ∷ b9 ∷ b10 ∷ rest) h hr e =
        ground (arith, telegram_read cap b0 b1 b2 b3 b4 b5 b6 b7 b8 b9 b10 rest hc h)
    telegram b0 rest h hr e = ground (arith, telegram_cut cap b0 b1 b2 b3 b4 b5 b6 rest h)

-- On any bytes, at every capacity from 11 to 255, `decode` answers as the reference `verdict`,
-- which has no panic.
pub decode_lem :
    (cap : ℕ) (bytes : List ℕ) → IsCap cap → All IsByte bytes → decode cap bytes ≡ verdict cap bytes
decode_lem cap bytes hc hb = elim (Bool-cases (ltb cap (length bytes))) [
  | inl big ↦ unfold decode verdict in rw big
  | inr fits ↦ split bytes hb (ltb-false→le cap (length bytes) fits)
]
  where
    split :
        (bytes : List ℕ)
        → All IsByte bytes
        → length bytes ≤ cap
        → decode cap bytes ≡ verdict cap bytes
    split (b0 ∷ b1 ∷ b2 ∷ b3 ∷ b4 ∷ b5 ∷ b6 ∷ rest) hb h =
        long_read cap b0 b1 b2 b3 b4 b5 b6 rest hc hb.0 (omega arith)
    split bytes hb h = unfold decode verdict in ground arith
