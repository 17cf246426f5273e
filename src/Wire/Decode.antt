-- ===== src/Wire/Decode.antt =====
-- `decode` of crates/poholos/src/wire.rs.
use poholos.Prelude.{
  Bool, List, Outcome, bit_and, err, expect, get_elem?, if◌then◌else◌, length, ltb, not, ok,
  or_panic, slice_from, ℕ, ◌&&◌, ◌+◌, ◌/◌, ◌==◌, ◌>>=◌, ◌>>◌, ◌^◌,
}
use poholos.Prelude.Words.{u16_from_be_bytes, u32_from_be_bytes}
use poholos.Packet.{Packet, header_len_hearsay, header_len_telegram, hearsay_with, telegram_with}
use poholos.Wire.{
  WireError, has_dest_bit, oversized, truncated, ttl_mask, unsupported_version, version_shift,
  wire_version, wire_version_ext, zero_ttl,
}

-- `bytes[at]`, and big-endian fields read from there.
abbrev pub byte_at : List ℕ → ℕ → Outcome WireError ℕ
byte_at bytes at = or_panic (get_elem? bytes at)

unfoldable pub u16_at : List ℕ → ℕ → Outcome WireError ℕ
u16_at bytes at = do a ← byte_at bytes at; b ← byte_at bytes (at + 1); ok (u16_from_be_bytes a b)

unfoldable pub u32_at : List ℕ → ℕ → Outcome WireError ℕ
u32_at bytes at = do
  a ← byte_at bytes at
  b ← byte_at bytes (at + 1)
  c ← byte_at bytes (at + 2)
  d ← byte_at bytes (at + 3)
  ok (u32_from_be_bytes a b c d)

abbrev pub guard : Bool → WireError → Outcome WireError (Unit {0})
guard fails e = if fails then err e else ok tt

-- The `let packet` of `decode`, with its `expect`.
unfoldable pub parse_fields : ℕ → List ℕ → Bool → ℕ → Outcome WireError Packet
parse_fields cap bytes has_dest ttl =
    let header_len = if has_dest then header_len_telegram else header_len_hearsay in
    do
      guard (ltb (length bytes) header_len) (truncated (length bytes))
      seq ← u16_at bytes 1
      src ← u32_at bytes 3
      payload ← or_panic (slice_from header_len bytes)
      if has_dest
          then (do dest ← u32_at bytes 7; expect (telegram_with cap src dest seq payload ttl))
          else expect (hearsay_with cap src seq payload ttl)

unfoldable pub decode : ℕ → List ℕ → Outcome WireError Packet
unfolding parse_fields u16_at u32_at
decode cap bytes = do
  guard (ltb cap (length bytes)) (oversized (length bytes))
  guard (ltb (length bytes) header_len_hearsay) (truncated (length bytes))
  flags ← byte_at bytes 0
  let version = flags / 2 ^ version_shift
  guard (not (version == wire_version) && not (version == wire_version_ext))
      (unsupported_version version)
  let has_dest = not (bit_and flags has_dest_bit == 0)
  let ttl = bit_and flags ttl_mask
  guard (ttl == 0) zero_ttl
  parse_fields cap bytes has_dest ttl
