-- ===== src/Wire/RoundTrip.antt =====
-- `encode` and `decode` of crates/poholos/src/wire.rs are inverse.
use poholos.Prelude.{
  List, Option, ap, arith, length, none, ok, slice_from, some, ℕ, ◌*◌, ◌+◌, ◌<◌, ◌∙◌, ◌≡◌, ◌≤◌,
}
use poholos.Prelude.Words.{IsU16, IsU32, u16_be_round, u32_be_round}
use poholos.Prelude.Bits.{bit_and-0x1f, bit_and-0x20}
use poholos.Packet.{Packet, Payload, WireId, as_slice}
use poholos.Packet.Valid.{
  IsCap, IsDest, IsPacket, constructed, header_len, hearsay_with_lem, length-as_slice, packet_of,
  payload_of, payload_of-as_slice, telegram_with_lem,
}
use poholos.Wire.{Frame, as_bytes}
use poholos.Wire.Encode.{encode}
use poholos.Wire.Layout.{documented_version}
use poholos.Wire.Decode.{decode}
use poholos.Wire.Layout.{as_bytes-frame_of, encode_lem, frame_of, layout, version-le, wire_bytes}

decode_fields :
    (cap ttl seq : ℕ) (src : WireId) (dest : Option WireId) (bs : List ℕ)
    → IsCap cap
    → (1 ≤ ttl) × (ttl ≤ 31)
    → IsU16 seq
    → IsU32 src
    → IsDest dest
    → header_len dest + length bs ≤ cap
    → decode cap (layout ttl seq src dest bs) ≡ ok (packet_of cap src dest seq bs ttl)
unfolding decode constructed slice_from
decode_fields cap ttl seq src none bs hc ht hq hs hd hr =
    let f : ℕ = documented_version (7 + length bs) * 64 + (0 * 32 + ttl) in
    let small : f < 256 = omega (arith, version-le (7 + length bs)) in
    ground (
      arith,
      version-le (7 + length bs),
      bit_and-0x1f f small,
      bit_and-0x20 f small,
      u16_be_round seq hq,
      u32_be_round src hs,
      hearsay_with_lem cap src seq bs ttl hc,
    )
decode_fields cap ttl seq src (some dest) bs hc ht hq hs hd hr =
    let f : ℕ = documented_version (11 + length bs) * 64 + (1 * 32 + ttl) in
    let small : f < 256 = omega (arith, version-le (11 + length bs)) in
    ground (
      arith,
      version-le (11 + length bs),
      bit_and-0x1f f small,
      bit_and-0x20 f small,
      u16_be_round seq hq,
      u32_be_round src hs,
      u32_be_round dest hd,
      telegram_with_lem cap src dest seq bs ttl hc,
    )

-- `decode` reads the layout of a well-formed packet back as that packet.
pub decode-wire_bytes :
    {cap : ℕ} {p : Packet} → IsCap cap → IsPacket cap p → decode cap (wire_bytes p) ≡ ok p
unfolding wire_bytes
decode-wire_bytes {cap} {p} hc v =
    let room : header_len p.dest + length (as_slice p.payload) ≤ cap =
      rw (length-as_slice v.payload_fits) v.room in
    let whole : decode cap (wire_bytes p)
        ≡ ok (record p { payload = payload_of cap (as_slice p.payload) }) =
      decode_fields cap p.ttl p.seq p.src p.dest (as_slice p.payload) hc (v.ttl_pos, v.ttl_max)
        v.seq_fits v.src_fits v.dest_fits room in
    whole
    ∙ ap (λ (pl : Payload). ok (record p { payload = pl })) (payload_of-as_slice v.payload_fits)

-- At every capacity from 11 to 255, `encode` of a well-formed packet returns a frame, and `decode`
-- of its bytes returns the same packet.
pub decode-encode :
    {cap : ℕ} {p : Packet}
    → IsCap cap
    → IsPacket cap p
    → (f : Frame) × (encode cap p ≡ some f) × (decode cap (as_bytes f) ≡ ok p)
decode-encode {cap} {p} hc v = (
  frame_of cap (wire_bytes p),
  encode_lem hc.1 v,
  rw (as_bytes-frame_of cap (wire_bytes p)) (decode-wire_bytes hc v),
)
