-- ===== src/Wire/Read.antt =====
-- What a frame that `decode` of crates/poholos/src/wire.rs accepts, or refuses, says of its bytes.
use poholos.Prelude.{
  All, Bool-cases, List, [], arith, drop, err, false, if◌then◌else◌, inl, inr, length, none, ok,
  some, sym, true, ℕ, ◌%◌, ◌/◌, ◌<◌, ◌==◌, ◌∙◌, ◌∷◌, ◌≡◌, ◌≤◌,
}
use poholos.Prelude.Words.{IsByte, u16_from_be_bytes, IsU16-split, u32_from_be_bytes, IsU32-split}
use poholos.Packet.{Packet}
use poholos.Packet.Valid.{IsCap, IsPacket, as_slice-payload_of, packet_of, packet_of-IsPacket}
use poholos.Wire.{WireError, oversized, truncated, unsupported_version, zero_ttl}
use poholos.Wire.Decode.{decode}
use poholos.Wire.Layout.{wire_bytes}
use poholos.Wire.Accept.{decode_lem, first_byte, is_telegram_frame, meaning, verdict}

-- The situation that each error reports.
abbrev pub Fault : ℕ → List ℕ → WireError → Type 0
Fault cap bytes (truncated n) =
    (n ≡ length bytes) × (n ≤ cap) × (n < (if is_telegram_frame bytes then 11 else 7))
Fault cap bytes (oversized n) = (n ≡ length bytes) × (cap < n)
Fault cap bytes (unsupported_version v) = (v ≡ first_byte bytes / 64) × (2 ≤ v) × (v ≤ 3)
Fault cap bytes zero_ttl = first_byte bytes % 32 ≡ 0

first_byte-IsByte : (bytes : List ℕ) → All IsByte bytes → IsByte (first_byte bytes)
first_byte-IsByte [] h = omega arith
first_byte-IsByte (b ∷ bytes) h = h.0

verdict_err :
    (cap : ℕ) (bytes : List ℕ) (e : WireError)
    → All IsByte bytes
    → verdict cap bytes ≡ err e
    → Fault cap bytes e
unfolding verdict
verdict_err cap bytes (truncated n) hb h = ground arith
verdict_err cap bytes (oversized n) hb h = ground arith
verdict_err cap bytes (unsupported_version v) hb h = ground (arith, first_byte-IsByte bytes hb)
verdict_err cap bytes zero_ttl hb h = ground arith

-- At every capacity from 11 to 255, an error of `decode` on any bytes names a fault that they
-- have: their length, below the header of their shape or above the capacity; their version, 2 or
-- 3; or a hop count of zero.
pub decode-Fault :
    (cap : ℕ) (bytes : List ℕ) (e : WireError)
    → IsCap cap
    → All IsByte bytes
    → decode cap bytes ≡ err e
    → Fault cap bytes e
decode-Fault cap bytes e hc hb h = verdict_err cap bytes e hb (sym (decode_lem cap bytes hc hb) ∙ h)

-- What a packet that was read says of the bytes: all but the version bits are those that `encode`
-- writes for it.
pub record Reads (cap : ℕ) (bytes : List ℕ) (p : Packet) : Type 0 where
  pub valid : IsPacket cap p
  pub behind : drop 1 bytes ≡ drop 1 (wire_bytes p)
  pub first : first_byte bytes % 64 ≡ first_byte (wire_bytes p) % 64
  pub version : first_byte bytes < 128
  pub same_length : length bytes ≡ length (wire_bytes p)

-- The frame is well formed as a telegram or as hearsay.
record IsFrame (cap : ℕ) (bytes : List ℕ) : Type 0 where
  fits : length bytes ≤ cap
  known : first_byte bytes < 128
  alive : 1 ≤ first_byte bytes % 32
  header : (if is_telegram_frame bytes then 11 else 7) ≤ length bytes

verdict_ok :
    (cap : ℕ) (bytes : List ℕ) (p : Packet)
    → verdict cap bytes ≡ ok p
    → IsFrame cap bytes × (p ≡ meaning cap bytes)
unfolding verdict
verdict_ok cap bytes p h = ground arith

-- The packet read from bytes in the short header's places.
hearsay-Reads :
    (cap b0 b1 b2 b3 b4 b5 b6 : ℕ) (rest : List ℕ)
    → let bytes = b0 ∷ b1 ∷ b2 ∷ b3 ∷ b4 ∷ b5 ∷ b6 ∷ rest in
      All IsByte bytes
      → IsFrame cap bytes
      → is_telegram_frame bytes ≡ false
      → Reads cap bytes (
          packet_of cap
            (u32_from_be_bytes b3 b4 b5 b6)
            none
            (u16_from_be_bytes b1 b2)
            rest
            (b0 % 32))
unfolding wire_bytes
hearsay-Reads cap b0 b1 b2 b3 b4 b5 b6 rest (h0, (h1, (h2, (h3, (h4, (h5, (h6, hb))))))) hf ht =
    let (q, q1, q2) = IsU16-split b1 b2 h1 h2 in
    let (s, s3, s4, s5, s6) = IsU32-split b3 b4 b5 b6 h3 h4 h5 h6 in
    record {
      valid = packet_of-IsPacket cap _ none _ rest (b0 % 32) s tt q hb (omega arith) (omega arith);
      behind = rw (as_slice-payload_of cap rest, q1, q2, s3, s4, s5, s6);
      first = rw (as_slice-payload_of cap rest) (ground arith);
      version = hf.known;
      same_length = rw (as_slice-payload_of cap rest);
    }

telegram-Reads :
    (cap b0 b1 b2 b3 b4 b5 b6 b7 b8 b9 b10 : ℕ) (rest : List ℕ)
    → let bytes = b0 ∷ b1 ∷ b2 ∷ b3 ∷ b4 ∷ b5 ∷ b6 ∷ b7 ∷ b8 ∷ b9 ∷ b10 ∷ rest in
      All IsByte bytes
      → IsFrame cap bytes
      → is_telegram_frame bytes ≡ true
      → Reads cap bytes (
          packet_of cap
            (u32_from_be_bytes b3 b4 b5 b6)
            (some (u32_from_be_bytes b7 b8 b9 b10))
            (u16_from_be_bytes b1 b2)
            rest
            (b0 % 32))
unfolding wire_bytes
telegram-Reads cap b0 b1 b2 b3 b4 b5 b6 b7 b8 b9 b10 rest
      (h0, (h1, (h2, (h3, (h4, (h5, (h6, (h7, (h8, (h9, (h10, hb))))))))))) hf ht =
    let (q, q1, q2) = IsU16-split b1 b2 h1 h2 in
    let (s, s3, s4, s5, s6) = IsU32-split b3 b4 b5 b6 h3 h4 h5 h6 in
    let (d, d7, d8, d9, d10) = IsU32-split b7 b8 b9 b10 h7 h8 h9 h10 in
    record {
      valid =
          packet_of-IsPacket cap _ (some _) _ rest (b0 % 32) s d q hb (omega arith) (omega arith);
      behind = rw (as_slice-payload_of cap rest, q1, q2, s3, s4, s5, s6, d7, d8, d9, d10);
      first = rw (as_slice-payload_of cap rest) (ground arith);
      version = hf.known;
      same_length = rw (as_slice-payload_of cap rest);
    }

meaning-Reads :
    (cap : ℕ) (bytes : List ℕ)
    → All IsByte bytes
    → IsFrame cap bytes
    → Reads cap bytes (meaning cap bytes)
meaning-Reads cap (b0 ∷ b1 ∷ b2 ∷ b3 ∷ b4 ∷ b5 ∷ b6 ∷ rest) hb hf =
    elim (Bool-cases (b0 / 32 % 2 == 1)) [
      | inl e ↦ telegram rest hb hf e
      | inr e ↦ rw e (hearsay-Reads cap b0 b1 b2 b3 b4 b5 b6 rest hb hf e)
    ]
  where
    telegram :
        (rest : List ℕ)
        → let bytes = b0 ∷ b1 ∷ b2 ∷ b3 ∷ b4 ∷ b5 ∷ b6 ∷ rest in
          All IsByte bytes
          → IsFrame cap bytes
          → is_telegram_frame bytes ≡ true
          → Reads cap bytes (meaning cap bytes)
    telegram (b7 ∷ b8 ∷ b9 ∷ b10 ∷ rest) hb hf e =
        rw e (telegram-Reads cap b0 b1 b2 b3 b4 b5 b6 b7 b8 b9 b10 rest hb hf e)
    telegram rest hb hf e = absurd (let h = hf.header in ground arith)
meaning-Reads cap bytes hb hf = absurd (let h = hf.header in ground arith)

-- At every capacity from 11 to 255, a packet that `decode` returns is well formed, and the bytes
-- are its wire form in length, in all bytes behind the first and in the first but for the version,
-- which was 0 or 1.
pub decode-Reads :
    (cap : ℕ) (bytes : List ℕ) (p : Packet)
    → IsCap cap
    → All IsByte bytes
    → decode cap bytes ≡ ok p
    → Reads cap bytes p
decode-Reads cap bytes p hc hb h =
    let (hf, same) = verdict_ok cap bytes p (sym (decode_lem cap bytes hc hb) ∙ h) in
    rw same (meaning-Reads cap bytes hb hf)
