-- ===== src/Serde/Packets.antt =====
-- Packets through serde: what comes back of a packet that was written, and what `encode` makes of
-- whatever fields are read.
use poholos.Prelude.{
  Bool, Bool-cases, List, Option, [], ap, arith, copy_at, copy_at-fill, false, if◌then◌else◌, inl,
  inr, leb, leb-eq-false, leb→le, length, length-append, length-replicate, ltb, ltb-eq-false, map,
  none, ok, refl, replicate, some, true, ℕ, ◌&&◌, ◌++◌, ◌+◌, ◌-◌, ◌<◌, ◌∙◌, ◌∷◌, ◌≡◌, ◌≤◌,
}
use poholos.Packet.{Packet, Payload, WireId, as_slice}
use poholos.Packet.Valid.{
  IsCap, IsPacket, header_len, length-as_slice, packet_of, payload_of, payload_of-as_slice,
  as_slice-payload_of, payload_copy_from_lem,
}
use poholos.Prelude.Words.{u16_to_be_bytes, u32_to_be_bytes}
use poholos.Wire.Encode.{encode, flags_byte, version_for}
use poholos.Wire.Layout.{frame_of, layout, encode_fields}
use poholos.Serde.{
  Fields, byte_string, sequence, payload_visit, deserialize, serialize, Postcard, IsPostcard,
  to_postcard_slice, from_postcard,
}
use poholos.Serde.Visits.{payload_visit-sequence}

-- The fields of a packet, with its payload as a format without byte strings writes it.
abbrev pub as_sequence : Fields → List ℕ → Fields
as_sequence fields bytes = record fields { payload = sequence (map some bytes) }

payload_visit-as_slice :
    {cap : ℕ} {p : Packet}
    → IsCap cap
    → IsPacket cap p
    → payload_visit cap (byte_string (as_slice p.payload)) ≡ ok p.payload
unfolding payload_visit
payload_visit-as_slice {cap} {p} hc v =
    let short : ltb cap (length (as_slice p.payload)) ≡ false =
      ltb-eq-false cap (length (as_slice p.payload))
        (omega (arith, length-as_slice v.payload_fits, v.payload_fits.fits)) in
    rw
      (
        payload_copy_from_lem cap cap (as_slice p.payload) (omega arith) hc.1,
        short,
        payload_of-as_slice v.payload_fits,
      )
      refl

-- At every capacity from 11 to 255, a well-formed packet that is serialized is deserialized as the
-- same packet, and so it is by a format that hands its payload over as a sequence of bytes.
pub deserialize-serialize :
    {cap : ℕ} {p : Packet}
    → IsCap cap
    → IsPacket cap p
    → (deserialize cap (serialize p) ≡ ok p)
      × (deserialize cap (as_sequence (serialize p) (as_slice p.payload)) ≡ ok p)
unfolding deserialize
deserialize-serialize {cap} {p} hc v =
    let short : ltb cap (length (as_slice p.payload)) ≡ false =
      ltb-eq-false cap (length (as_slice p.payload))
        (omega (arith, length-as_slice v.payload_fits, v.payload_fits.fits)) in
    (
      rw (payload_visit-as_slice hc v) refl,
      rw (payload_visit-sequence cap (as_slice p.payload), short, payload_visit-as_slice hc v) refl,
    )

pub from-to_postcard :
    (postcard : Postcard) (p : Packet) (room : ℕ) (bytes : List ℕ)
    → IsPostcard postcard
    → IsPacket 22 p
    → to_postcard_slice postcard p room ≡ some bytes
    → from_postcard postcard bytes ≡ ok p
unfolding from_postcard to_postcard_slice
from-to_postcard postcard p room bytes law v e =
    rw (law (serialize p) room bytes e, from_postcard)
      (deserialize-serialize {cap = 22} (omega arith, omega arith) v).0

copy_at_out : (at : ℕ) (src buf : List ℕ) → length buf < at + length src → copy_at at src buf ≡ none
unfolding copy_at
copy_at_out at src buf h = rw (leb-eq-false (at + length src) (length buf) h) refl

-- A packet whose header and payload do not fit, in a build where the assertion holds or is not there.
encode_overflow :
    (cap ttl seq : ℕ) (src : WireId) (dest : Option WireId) (pl : Payload)
    → 11 ≤ cap
    → cap < header_len dest + length (as_slice pl)
    → (leb 1 ttl && leb ttl 31) ≡ true
    → encode cap (record { ttl = ttl; seq = seq; src = src; dest = dest; payload = pl }) ≡ none
unfolding encode
encode_overflow cap ttl seq src none pl hc h valid =
    let p : Packet = record { ttl = ttl; seq = seq; src = src; dest = none; payload = pl } in
    let bs : List ℕ = as_slice pl in
    let f : ℕ = flags_byte (version_for (7 + length bs)) p in
    let front : List ℕ = f ∷ (u16_to_be_bytes seq ++ u32_to_be_bytes src) in
    let rest : List ℕ = replicate (cap - 1 - 2 - 4) 0 in
    rw
      (
        valid,
        copy_at-fill [] (f ∷ []) cap 0 (omega arith),
        copy_at-fill (f ∷ []) (u16_to_be_bytes seq) (cap - 1) 0 (omega arith),
        copy_at-fill (f ∷ u16_to_be_bytes seq) (u32_to_be_bytes src) (cap - 1 - 2) 0 (omega arith),
        copy_at_out 7 bs (front ++ rest)
            (omega (arith, length-append front rest, length-replicate {A = ℕ} (cap - 1 - 2 - 4) 0)),
      )
      refl
encode_overflow cap ttl seq src (some dest) pl hc h valid =
    let p : Packet = record { ttl = ttl; seq = seq; src = src; dest = some dest; payload = pl } in
    let bs : List ℕ = as_slice pl in
    let f : ℕ = flags_byte (version_for (11 + length bs)) p in
    let front : List ℕ = f ∷ (u16_to_be_bytes seq ++ u32_to_be_bytes src) in
    let all : List ℕ = front ++ u32_to_be_bytes dest in
    let rest : List ℕ = replicate (cap - 1 - 2 - 4 - 4) 0 in
    rw
      (
        valid,
        copy_at-fill [] (f ∷ []) cap 0 (omega arith),
        copy_at-fill (f ∷ []) (u16_to_be_bytes seq) (cap - 1) 0 (omega arith),
        copy_at-fill (f ∷ u16_to_be_bytes seq) (u32_to_be_bytes src) (cap - 1 - 2) 0 (omega arith),
        copy_at-fill front (u32_to_be_bytes dest) (cap - 1 - 2 - 4) 0 (omega arith),
        copy_at_out 11 bs (all ++ rest) (
            omega
              (arith, length-append all rest, length-replicate {A = ℕ} (cap - 1 - 2 - 4 - 4) 0)),
      )
      refl

encode_invalid :
    (cap ttl seq : ℕ) (src : WireId) (dest : Option WireId) (pl : Payload)
    → (leb 1 ttl && leb ttl 31) ≡ false
    → encode cap (record { ttl = ttl; seq = seq; src = src; dest = dest; payload = pl }) ≡ none
unfolding encode
encode_invalid cap ttl seq src dest pl invalid = rw invalid refl

-- What a packet has to be for `encode`: a hop count of 1 to 31, and room for header and payload.
abbrev pub encodable : ℕ → ℕ → Option WireId → List ℕ → Bool
encodable cap ttl dest bytes = (leb 1 ttl && leb ttl 31) && leb (header_len dest + length bytes) cap

encode-packet_of :
    (cap ttl seq : ℕ) (src : WireId) (dest : Option WireId) (bytes : List ℕ)
    → IsCap cap
    → encode cap (packet_of cap src dest seq bytes ttl) ≡ (
        if encodable cap ttl dest bytes
        then some (frame_of cap (layout ttl seq src dest bytes))
        else none)
encode-packet_of cap ttl seq src dest bytes hc =
    let pl = payload_of cap bytes in
    let same = as_slice-payload_of cap bytes in
    elim (Bool-cases (leb 1 ttl && leb ttl 31)) [
      | inr invalid ↦ rw invalid (encode_invalid cap ttl seq src dest pl invalid)
      | inl valid ↦ elim (Bool-cases (leb (header_len dest + length bytes) cap)) [
        | inl room ↦
            rw (valid, room)
              (encode_fields cap ttl seq src dest pl hc.1 (ground (arith, valid))
                  (ground (arith, valid))
                  (rw same (leb→le (header_len dest + length bytes) cap room))
                ∙ rw same refl)
        | inr full ↦
            rw (valid, full)
              (encode_overflow cap ttl seq src dest pl hc.0 (rw same (ground (arith, full))) valid)
      ]
    ]

-- At every capacity from 11 to 255, fields whose payload is a byte string of at most that length
-- are deserialized as a packet, whatever else they hold. `encode` of this packet is the frame with
-- its layout if its hop count is 1 to 31 and its header and payload fit the capacity, and panics
-- if not.
pub encode-deserialize :
    (cap : ℕ) (fields : Fields) (bytes : List ℕ)
    → IsCap cap
    → fields.payload ≡ byte_string bytes
    → length bytes ≤ cap
    → (p : Packet) × (deserialize cap fields ≡ ok p)
      × (encode cap p ≡ (
          if encodable cap fields.ttl fields.dest bytes
          then some (frame_of cap (layout fields.ttl fields.seq fields.src fields.dest bytes))
          else none))
unfolding deserialize
encode-deserialize cap fields bytes hc e h =
    let short : ltb cap (length bytes) ≡ false = ltb-eq-false cap (length bytes) h in
    let visited : payload_visit cap (byte_string bytes) ≡ ok (payload_of cap bytes) =
      (unfold payload_visit in
        rw (payload_copy_from_lem cap cap bytes (omega arith) hc.1, short) refl) in
    (
      packet_of cap fields.src fields.dest fields.seq bytes fields.ttl,
      rw (ap (payload_visit cap) e ∙ visited) refl,
      encode-packet_of cap fields.ttl fields.seq fields.src fields.dest bytes hc,
    )
