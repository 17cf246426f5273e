-- ===== src/Serde.antt =====
-- The serde implementations of crates/poholos/src/packet.rs and crates/poholos/src/wire.rs, and the
-- adapter of crates/poholos/src/codec.rs.
pub mod Visits
pub mod Packets
use poholos.Prelude.{
  List, Option, Outcome, [], copy_at, err, if◌then◌else◌, leb, length, none, ok, or_panic, panic,
  replicate, some, take, ℕ, ◌+◌, ◌>>=◌, ◌>>◌, ◌∷◌, ◌≡◌,
}
use poholos.Packet.{
  Packet, PacketError, Payload, WireId, as_slice, max_frame_len, payload_copy_from,
}
use poholos.Wire.{Frame, WireError, as_bytes, copy_from}

-- What a deserializer hands to a visitor: a byte string, or a sequence, in which `none` is an element
-- that is no byte.
pub data Content : Type 0 where
  byte_string : List ℕ → Content
  sequence : List (Option ℕ) → Content

pub data SerdeError : Type 0 where
  format_error : SerdeError
  invalid_length : ℕ → SerdeError
  custom_packet : PacketError → SerdeError
  custom_wire : WireError → SerdeError

-- `Result::map_err`.
abbrev pub map_err {ℓ κ μ} :
    {D : Type ℓ} {E : Type κ} {A : Type μ} → (D → E) → Outcome D A → Outcome E A
map_err f (ok a) = ok a
map_err f (err e) = err (f e)
map_err f panic = panic

-- `&buf[..n]`.
unfoldable pub slice_to : ℕ → List ℕ → Option (List ℕ)
slice_to n buf = if leb n (length buf) then some (take n buf) else none

-- The loop of `visit_seq`, with its buffer and count, up to the slice behind it. The write of one byte
-- panics where it is out of range.
unfoldable pub visit_elements : ℕ → List ℕ → ℕ → List (Option ℕ) → Outcome SerdeError (List ℕ)
visit_elements cap buf n [] = or_panic (slice_to n buf)
visit_elements cap buf n (none ∷ elements) = err format_error
visit_elements cap buf n (some b ∷ elements) =
    if leb cap n
    then err (invalid_length (n + 1))
    else do buf' ← or_panic (copy_at n (b ∷ []) buf); visit_elements cap buf' (n + 1) elements

unfoldable pub payload_visit : ℕ → Content → Outcome SerdeError Payload
payload_visit cap (byte_string v) = map_err custom_packet (payload_copy_from cap v cap)
payload_visit cap (sequence elements) = do
  v ← visit_elements cap (replicate cap 0) 0 elements
  map_err custom_packet (payload_copy_from cap v cap)

unfoldable pub frame_visit : ℕ → Content → Outcome SerdeError Frame
frame_visit cap (byte_string v) = map_err custom_wire (copy_from cap v)
frame_visit cap (sequence elements) = do
  v ← visit_elements cap (replicate cap 0) 0 elements
  map_err custom_wire (copy_from cap v)

abbrev pub payload_serialize : Payload → Content
payload_serialize p = byte_string (as_slice p)

abbrev pub frame_serialize : Frame → Content
frame_serialize f = byte_string (as_bytes f)

-- What the derived implementations of `PacketN` read and write, field by field.
pub record Fields : Type 0 where
  pub ttl : ℕ
  pub seq : ℕ
  pub src : WireId
  pub dest : Option WireId
  pub payload : Content

abbrev pub serialize : Packet → Fields
serialize p = record {
  ttl = p.ttl;
  seq = p.seq;
  src = p.src;
  dest = p.dest;
  payload = payload_serialize p.payload;
}

unfoldable pub deserialize : ℕ → Fields → Outcome SerdeError Packet
deserialize cap f = do
  payload ← payload_visit cap f.payload
  ok (record { ttl = f.ttl; seq = f.seq; src = f.src; dest = f.dest; payload = payload })

-- The `postcard` crate: it writes the fields within the room given, and reads them back.
pub record Postcard : Type 0 where
  pub to_slice : Fields → ℕ → Option (List ℕ)
  pub from_bytes : List ℕ → Option Fields

unfoldable pub to_postcard_slice : Postcard → Packet → ℕ → Option (List ℕ)
to_postcard_slice postcard packet room = postcard.to_slice (serialize packet) room

unfoldable pub from_postcard : Postcard → List ℕ → Outcome SerdeError Packet
from_postcard postcard bytes = elim (postcard.from_bytes bytes) [
  | none ↦ err format_error
  | some fields ↦ deserialize max_frame_len fields
]

-- What its documentation says of the two.
abbrev pub IsPostcard : Postcard → Type 0
IsPostcard postcard =
    (fields : Fields) (room : ℕ) (bytes : List ℕ)
    → postcard.to_slice fields room ≡ some bytes
    → postcard.from_bytes bytes ≡ some fields
