-- ===== src/Wire/Layout.antt =====
-- The documented frame format of crates/poholos/src/wire.rs, and that `encode` writes exactly it.
use poholos.Prelude.{
  List, Option, Option-cases, [], arith, copy_at-fill, if◌then◌else◌, inl, inr, leb, length,
  length-append, le→leb, none, refl, replicate, some, take-length_append, ℕ, ◌%◌, ◌*◌, ◌++◌, ◌+◌,
  ◌-◌, ◌∷◌, ◌≡◌, ◌≤◌,
}
use poholos.Prelude.Words.{u16_to_be_bytes, u32_to_be_bytes}
use poholos.Prelude.Bits.{flags_00, flags_01, flags_10, flags_11}
use poholos.Packet.{Packet, Payload, WireId, as_slice}
use poholos.Packet.Valid.{IsPacket, header_len, length-as_slice}
use poholos.Wire.{Frame, as_bytes}
use poholos.Wire.Encode.{encode, flags_byte, version_for}

abbrev pub shape_bit : Option WireId → ℕ
shape_bit none = 0
shape_bit (some dest) = 1

abbrev pub dest_field : Option WireId → List ℕ
dest_field none = []
dest_field (some dest) = u32_to_be_bytes dest

-- The version of a frame of this many bytes, as the module's documentation has it: 0 for what fits
-- the 22 bytes of a legacy frame, 1 for a longer one.
unfoldable pub documented_version : ℕ → ℕ
documented_version n = if leb n 22 then 0 else 1

-- `encode` chooses the documented version.
version_for_lem : (n : ℕ) → version_for n ≡ documented_version n
unfolding version_for documented_version
version_for_lem n = ground arith

-- The format: version (2 bits), shape (1 bit), hop count (5 bits); sequence number; source;
-- destination of a telegram; payload.
abbrev pub layout : ℕ → ℕ → WireId → Option WireId → List ℕ → List ℕ
layout ttl seq src dest bs =
    (documented_version (header_len dest + length bs) * 64 + (shape_bit dest * 32 + ttl))
    ∷ (u16_to_be_bytes seq ++ (u32_to_be_bytes src ++ (dest_field dest ++ bs)))

unfoldable pub wire_bytes : Packet → List ℕ
wire_bytes p = layout p.ttl p.seq p.src p.dest (as_slice p.payload)

-- The frame that holds exactly these bytes, padded with zeros.
unfoldable pub frame_of : ℕ → List ℕ → Frame
frame_of cap bs = record { len = length bs; buf = bs ++ replicate (cap - length bs) 0 }

pub as_bytes-frame_of : (cap : ℕ) (bs : List ℕ) → as_bytes (frame_of cap bs) ≡ bs
unfolding frame_of
as_bytes-frame_of cap bs = take-length_append bs (replicate (cap - length bs) 0)

pub version-le : (n : ℕ) → (documented_version n ≤ 1)
unfolding documented_version
version-le n = ground arith

flags_byte-documented :
    (n : ℕ) (p : Packet)
    → p.ttl ≤ 31
    → flags_byte (documented_version n) p
      ≡ documented_version n * 64 + (shape_bit p.dest * 32 + p.ttl)
unfolding flags_byte documented_version
flags_byte-documented n p h = elim (Option-cases p.dest) [
  | inl e ↦ ground (arith, flags_00 p.ttl, flags_10 p.ttl)
  | inr (d, e) ↦ ground (arith, flags_01 p.ttl, flags_11 p.ttl)
]

flags_byte_lem :
    (n : ℕ) (p : Packet)
    → p.ttl ≤ 31
    → flags_byte (version_for n) p ≡ documented_version n * 64 + (shape_bit p.dest * 32 + p.ttl)
flags_byte_lem n p h = rw (version_for_lem n) (flags_byte-documented n p h)

-- The last step of `encode`, with its cast of the length.
written :
    (cap k : ℕ) (front bs : List ℕ)
    → cap ≤ 255
    → k ≡ cap - length front
    → length front + length bs ≤ cap
    → ◌≡◌ {A = Option Frame}
        (some (record {
          len = (length front + length bs) % 256;
          buf = front ++ bs ++ replicate (k - length bs) 0;
        }))
        (some (frame_of cap (front ++ bs)))
unfolding frame_of
written cap k front bs hc hk hr =
    let e : (length front + length bs) % 256 ≡ length (front ++ bs) =
      omega (arith, length-append front bs) in
    let z : k - length bs ≡ cap - length (front ++ bs) = omega (arith, length-append front bs) in
    rw (z, e) refl

-- `encode` at a packet given by its fields.
pub encode_fields :
    (cap ttl seq : ℕ) (src : WireId) (dest : Option WireId) (pl : Payload)
    → cap ≤ 255
    → 1 ≤ ttl
    → ttl ≤ 31
    → header_len dest + length (as_slice pl) ≤ cap
    → encode cap (record { ttl = ttl; seq = seq; src = src; dest = dest; payload = pl })
      ≡ some (frame_of cap (layout ttl seq src dest (as_slice pl)))
unfolding encode frame_of
encode_fields cap ttl seq src none pl hc hp ht hr =
    let p : Packet = record { ttl = ttl; seq = seq; src = src; dest = none; payload = pl } in
    let bs : List ℕ = as_slice pl in
    let f : ℕ = documented_version (7 + length bs) * 64 + (0 * 32 + ttl) in
    let front : List ℕ = f ∷ (u16_to_be_bytes seq ++ u32_to_be_bytes src) in
    rw
      (
        le→leb 1 ttl hp,
        le→leb ttl 31 ht,
        flags_byte_lem (7 + length bs) p ht,
        copy_at-fill [] (f ∷ []) cap 0 (omega arith),
        copy_at-fill (f ∷ []) (u16_to_be_bytes seq) (cap - 1) 0 (omega arith),
        copy_at-fill (f ∷ u16_to_be_bytes seq) (u32_to_be_bytes src) (cap - 1 - 2) 0 (omega arith),
        copy_at-fill front bs (cap - 1 - 2 - 4) 0 (omega arith),
      )
      (written cap (cap - 1 - 2 - 4) front bs hc (omega arith) (omega arith))
encode_fields cap ttl seq src (some dest) pl hc hp ht hr =
    let p : Packet = record { ttl = ttl; seq = seq; src = src; dest = some dest; payload = pl } in
    let bs : List ℕ = as_slice pl in
    let f : ℕ = documented_version (11 + length bs) * 64 + (1 * 32 + ttl) in
    let front : List ℕ = f ∷ (u16_to_be_bytes seq ++ u32_to_be_bytes src) in
    rw
      (
        le→leb 1 ttl hp,
        le→leb ttl 31 ht,
        flags_byte_lem (11 + length bs) p ht,
        copy_at-fill [] (f ∷ []) cap 0 (omega arith),
        copy_at-fill (f ∷ []) (u16_to_be_bytes seq) (cap - 1) 0 (omega arith),
        copy_at-fill (f ∷ u16_to_be_bytes seq) (u32_to_be_bytes src) (cap - 1 - 2) 0 (omega arith),
        copy_at-fill front (u32_to_be_bytes dest) (cap - 1 - 2 - 4) 0 (omega arith),
        copy_at-fill (front ++ u32_to_be_bytes dest) bs (cap - 1 - 2 - 4 - 4) 0 (omega arith),
      )
      (written cap (cap - 1 - 2 - 4 - 4) (front ++ u32_to_be_bytes dest) bs hc (omega arith)
        (omega arith))

-- At every capacity up to 255, `encode` of a well-formed packet returns the frame that holds the
-- documented layout, padded with zeros to the capacity: version 0 for at most 22 bytes and 1 for
-- more, the shape and the hop count in the first byte, then the sequence number, the source, the
-- destination of a telegram, and the payload.
pub encode_lem :
    {cap : ℕ} {p : Packet}
    → cap ≤ 255
    → IsPacket cap p
    → encode cap p ≡ some (frame_of cap (wire_bytes p))
unfolding wire_bytes
encode_lem {cap} {p} hc v =
    encode_fields cap p.ttl p.seq p.src p.dest p.payload hc v.ttl_pos v.ttl_max
      (rw (length-as_slice v.payload_fits) v.room)
