-- ===== src/Errors/Told.antt =====
-- What the predicates of `WireError` in crates/poholos/src/error.rs say of the bytes that `decode` refused.
use poholos.Prelude.{
  All, Bool, List, arith, err, leb, length, ltb, not, sym, ℕ, ◌%◌, ◌&&◌, ◌==◌, ◌||◌, ◌∙◌, ◌≡◌,
}
use poholos.Prelude.Words.{IsByte}
use poholos.Packet.Valid.{IsCap}
use poholos.Wire.{WireError, oversized, truncated, unsupported_version, zero_ttl}
use poholos.Wire.Decode.{decode}
use poholos.Wire.Accept.{decode_lem, first_byte, verdict}
use poholos.Wire.Read.{Fault, decode-Fault}
use poholos.Errors.Messages.{read_wire, read-wire_message}
use poholos.Errors.{wire_message, is_truncated, is_oversized, is_unsupported_version, is_zero_ttl}

-- The faults in the order in which they are looked for, as arithmetic on the bytes.
abbrev pub too_big : ℕ → List ℕ → Bool
too_big cap bytes = ltb cap (length bytes)

abbrev pub too_small : List ℕ → Bool
too_small bytes = ltb (length bytes) 7

abbrev pub unknown_version : List ℕ → Bool
unknown_version bytes = leb 128 (first_byte bytes)

abbrev pub no_hops : List ℕ → Bool
no_hops bytes = first_byte bytes % 32 == 0

verdict_told :
    (cap : ℕ) (bytes : List ℕ) (e : WireError)
    → verdict cap bytes ≡ err e
    → (is_oversized e ≡ too_big cap bytes)
      × (is_unsupported_version e
          ≡ (not (too_big cap bytes) && (not (too_small bytes) && unknown_version bytes)))
      × (is_zero_ttl e ≡ (
          not (too_big cap bytes)
          && (not (too_small bytes) && (not (unknown_version bytes) && no_hops bytes))))
      × (is_truncated e ≡ not (is_oversized e || (is_unsupported_version e || is_zero_ttl e)))
unfolding verdict is_oversized is_unsupported_version is_zero_ttl is_truncated
verdict_told cap bytes (truncated n) h = ground arith
verdict_told cap bytes (oversized n) h = ground arith
verdict_told cap bytes (unsupported_version v) h = ground arith
verdict_told cap bytes zero_ttl h = ground arith

-- At every capacity from 11 to 255, an error of `decode` on any bytes names a fault that they
-- have, with its number, and its message is read back as the error. It is `is_oversized` exactly
-- for more bytes than the capacity; else `is_unsupported_version` exactly for 7 bytes or more
-- whose first is 128 or above; else `is_zero_ttl` exactly for 7 bytes or more with a hop count of
-- zero; and else `is_truncated`.
pub decode_told :
    (cap : ℕ) (bytes : List ℕ) (e : WireError)
    → IsCap cap
    → All IsByte bytes
    → decode cap bytes ≡ err e
    → Fault cap bytes e
      × (read_wire (wire_message e) ≡ e)
      × (is_oversized e ≡ too_big cap bytes)
      × (is_unsupported_version e
          ≡ (not (too_big cap bytes) && (not (too_small bytes) && unknown_version bytes)))
      × (is_zero_ttl e ≡ (
          not (too_big cap bytes)
          && (not (too_small bytes) && (not (unknown_version bytes) && no_hops bytes))))
      × (is_truncated e ≡ not (is_oversized e || (is_unsupported_version e || is_zero_ttl e)))
decode_told cap bytes e hc hb h =
    let (big, version, hops, short) =
      verdict_told cap bytes e (sym (decode_lem cap bytes hc hb) ∙ h) in
    (decode-Fault cap bytes e hc hb h, read-wire_message e, big, version, hops, short)
