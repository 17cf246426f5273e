-- ===== src/Wire/Bytes.antt =====
-- The bytes that `encode` of crates/poholos/src/wire.rs writes: their number and their range.
use poholos.Prelude.{
  All, All-append, Option, arith, length, length-append, none, refl, some, ℕ, ◌++◌, ◌+◌, ◌≡◌, ◌≤◌,
}
use poholos.Prelude.Words.{IsByte}
use poholos.Packet.{Packet, WireId, as_slice}
use poholos.Packet.Valid.{IsPacket, header_len, length-as_slice}
use poholos.Wire.Encode.{}
use poholos.Wire.Layout.{dest_field, shape_bit, version-le, wire_bytes}

dest_field-IsByte : (dest : Option WireId) → All IsByte (dest_field dest)
dest_field-IsByte none = tt
dest_field-IsByte (some dest) = (omega arith, (omega arith, (omega arith, (omega arith, tt))))

shape_bit-le : (dest : Option WireId) → shape_bit dest ≤ 1
shape_bit-le none = omega arith
shape_bit-le (some dest) = omega arith

-- The wire form of a well-formed packet is made of bytes.
pub wire_bytes-IsByte : {cap : ℕ} {p : Packet} → IsPacket cap p → All IsByte (wire_bytes p)
unfolding wire_bytes
wire_bytes-IsByte {cap} {p} v =
    let rest : All IsByte (dest_field p.dest ++ as_slice p.payload) =
      All-append IsByte (dest_field p.dest) (as_slice p.payload) (dest_field-IsByte p.dest)
        v.payload_fits.bytes in
    let n : ℕ = header_len p.dest + length (as_slice p.payload) in
    (
      omega (arith, version-le n, shape_bit-le p.dest, v.ttl_max),
      (
        omega arith,
        (omega arith, (omega arith, (omega arith, (omega arith, (omega arith, rest))))),
      ),
    )

length-dest_field : (dest : Option WireId) → 7 + length (dest_field dest) ≡ header_len dest
length-dest_field none = refl
length-dest_field (some dest) = refl

-- It fits the capacity.
pub length-wire_bytes : {cap : ℕ} {p : Packet} → IsPacket cap p → length (wire_bytes p) ≤ cap
unfolding wire_bytes
length-wire_bytes {cap} {p} v = omega (
  arith,
  length-append (dest_field p.dest) (as_slice p.payload),
  length-dest_field p.dest,
  length-as_slice v.payload_fits,
  v.room,
)
