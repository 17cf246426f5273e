-- ===== src/Wire/Encode.antt =====
-- `encode` of crates/poholos/src/wire.rs.
use mathlib.Core.Option
use poholos.Prelude.{
  Bool, leb, ◌&&◌, true, false, List, Option, [], bit_and, bit_or, copy_at, if◌then◌else◌, is_some,
  length, ltb, none, replicate, some, ℕ, ◌%◌, ◌*◌, ◌+◌, ◌^◌, ◌∷◌,
}
use poholos.Prelude.Words.{u16_to_be_bytes, u32_to_be_bytes}
use poholos.Prelude.Panics.{◌>>=◌}
use poholos.Packet.{
  Packet, WireId, as_slice, header_len_hearsay, header_len_telegram, max_frame_len,
}
use poholos.Wire.{Frame, has_dest_bit, ttl_mask, version_shift, wire_version, wire_version_ext}

-- The `let version` of `encode`: frames within the legacy budget stay version 0.
unfoldable pub version_for : ℕ → ℕ
version_for len = if ltb max_frame_len len then wire_version_ext else wire_version

-- The first byte that `encode` writes; the shift is one of a byte.
unfoldable pub flags_byte : ℕ → Packet → ℕ
flags_byte version p =
    bit_or (bit_or (version * 2 ^ version_shift % 256) (if is_some p.dest then has_dest_bit else 0))
      (bit_and p.ttl ttl_mask)

-- The destination field and the position behind it.
unfoldable pub put_dest : Option WireId → ℕ → List ℕ → Option (ℕ × List ℕ)
put_dest none n buf = some (n, buf)
put_dest (some dest) n buf = Option.map (λ b. (n + 4, b)) (copy_at n (u32_to_be_bytes dest) buf)

-- `debug_assert!`, as a build with debug assertions has it.
abbrev pub debug_assert : Bool → Option (Unit {0})
debug_assert true = some tt
debug_assert false = none

-- `encode`. `none` is the panic of the assertion or of a slice out of range; the length is cast to
-- a byte.
unfoldable pub encode : ℕ → Packet → Option Frame
unfolding put_dest
encode cap p = do
  asserted ← debug_assert (leb 1 p.ttl && leb p.ttl ttl_mask)
  let payload = as_slice p.payload
  let header_len = if is_some p.dest then header_len_telegram else header_len_hearsay
  let version = version_for (header_len + length payload)
  b0 ← copy_at 0 (flags_byte version p ∷ []) (replicate cap 0)
  b1 ← copy_at 1 (u16_to_be_bytes p.seq) b0
  b2 ← copy_at 3 (u32_to_be_bytes p.src) b1
  (n, b3) ← put_dest p.dest 7 b2
  b4 ← copy_at n payload b3
  some (record { len = (n + length payload) % 256; buf = b4 })
