-- ===== src/Packet/Valid.antt =====
-- Packets of packet.rs that are well formed at a capacity, and what the constructors accept.
use poholos.Prelude.{
  All, Bool-cases, List, Option, Outcome, [], arith, copy_at-fill, drop, drop-length_append, err,
  if◌then◌else◌, inl, inr, length, length-append, length-replicate, length-take, ltb, ltb-eq-false,
  ltb-false→le, none, ok, refl, replicate, some, take-append-drop, take-length_append, ℕ, ◌%◌, ◌++◌,
  ◌+◌, ◌-◌, ◌==◌, ◌||◌, ◌≡◌, ◌≤◌,
}
use poholos.Prelude.Words.{IsByte, IsU16, IsU32}
use poholos.Packet.{
  Packet, PacketError, Payload, WireId, as_slice, header_len_hearsay, header_len_telegram,
  hearsay_with, max_ttl, payload_copy_from, payload_too_long, telegram_with, ttl_out_of_range,
  validate_ttl,
}

-- The capacities for which both constants `MAX_HEARSAY` and `MAX_TELEGRAM` exist and a length fits
-- a byte.
abbrev pub IsCap : ℕ → Type 0
IsCap cap = (11 ≤ cap) × (cap ≤ 255)

pub record IsPayload (cap : ℕ) (p : Payload) : Type 0 where
  pub fits : p.len ≤ cap
  pub size : length p.buf ≡ cap
  pub padded : drop p.len p.buf ≡ replicate (cap - p.len) 0
  pub bytes : All IsByte (as_slice p)

-- The bytes before the payload: flags, sequence number, source, and a telegram's destination.
abbrev pub header_len : Option WireId → ℕ
header_len none = 1 + 2 + 4
header_len (some dest) = 1 + 2 + 4 + 4

abbrev pub IsDest : Option WireId → Type 0
IsDest none = Unit {0}
IsDest (some dest) = IsU32 dest

pub record IsPacket (cap : ℕ) (p : Packet) : Type 0 where
  pub ttl_pos : 1 ≤ p.ttl
  pub ttl_max : p.ttl ≤ 31
  pub seq_fits : IsU16 p.seq
  pub src_fits : IsU32 p.src
  pub dest_fits : IsDest p.dest
  pub payload_fits : IsPayload cap p.payload
  pub room : header_len p.dest + p.payload.len ≤ cap

-- The payload that holds exactly these bytes, padded with zeros.
unfoldable pub payload_of : ℕ → List ℕ → Payload
payload_of cap bs = record { len = length bs; buf = bs ++ replicate (cap - length bs) 0 }

pub as_slice-payload_of : (cap : ℕ) (bs : List ℕ) → as_slice (payload_of cap bs) ≡ bs
unfolding payload_of
as_slice-payload_of cap bs = take-length_append bs (replicate (cap - length bs) 0)

pub payload_of-IsPayload :
    (cap : ℕ) (bs : List ℕ) → length bs ≤ cap → All IsByte bs → IsPayload cap (payload_of cap bs)
unfolding payload_of
payload_of-IsPayload cap bs h hb = record {
  fits = h;
  size = rw (length-append, length-replicate) (omega arith);
  padded = drop-length_append bs (replicate (cap - length bs) 0);
  bytes = rw (take-length_append bs (replicate (cap - length bs) 0)) hb;
}

pub length-as_slice : {cap : ℕ} {p : Payload} → IsPayload cap p → length (as_slice p) ≡ p.len
length-as_slice {p = p} v =
    let room : p.len ≤ length p.buf = rw v.size v.fits in omega (arith, length-take p.len p.buf)

-- A well-formed payload is the one that holds its own bytes.
pub payload_of-as_slice :
    {cap : ℕ} {p : Payload} → IsPayload cap p → payload_of cap (as_slice p) ≡ p
unfolding payload_of
payload_of-as_slice {cap} {p} v =
    let whole : as_slice p ++ replicate (cap - p.len) 0 ≡ p.buf =
      rw (← v.padded) (take-append-drop p.len p.buf) in
    rw (length-as_slice v) (λ i. record { len = p.len; buf = whole i })

pub payload_copy_from_fits :
    (cap limit : ℕ) (bs : List ℕ)
    → length bs ≤ limit
    → limit ≤ cap
    → cap ≤ 255
    → payload_copy_from cap bs limit ≡ ok (payload_of cap bs)
unfolding payload_copy_from payload_of
payload_copy_from_fits cap limit bs h hl hc =
    let small : length bs % 256 ≡ length bs = omega arith in
    rw (ltb-eq-false limit (length bs) h, copy_at-fill [] bs cap 0 (omega arith), small) refl

-- What a constructor given the shape `dest` makes of its arguments.
abbrev pub packet_of : ℕ → WireId → Option WireId → ℕ → List ℕ → ℕ → Packet
packet_of cap src dest seq bs ttl = record {
  ttl = ttl;
  seq = seq;
  src = src;
  dest = dest;
  payload = payload_of cap bs;
}

-- What the constructors answer, shape by shape.
unfoldable pub constructed :
    ℕ → WireId → Option WireId → ℕ → List ℕ → ℕ → Outcome PacketError Packet
constructed cap src dest seq bs ttl =
    if ttl == 0 || ltb max_ttl ttl
    then err (ttl_out_of_range ttl)
    else if ltb (cap - header_len dest) (length bs)
    then err (payload_too_long (length bs) (cap - header_len dest))
    else ok (packet_of cap src dest seq bs ttl)

pub payload_copy_from_lem :
    (cap limit : ℕ) (bs : List ℕ)
    → limit ≤ cap
    → cap ≤ 255
    → payload_copy_from cap bs limit ≡ (
        if ltb limit (length bs)
        then err (payload_too_long (length bs) limit)
        else ok (payload_of cap bs))
payload_copy_from_lem cap limit bs hl hc = elim (Bool-cases (ltb limit (length bs))) [
  | inl big ↦ rw big (unfold payload_copy_from in rw big)
  | inr small ↦ rw small (payload_copy_from_fits cap limit bs (ltb-false→le _ _ small) hl hc)
]

-- At every capacity from 11 to 255, `hearsay_with` refuses a hop count out of range first, then a
-- payload too long for the shape, and else returns the packet with exactly these bytes; it has no
-- panic.
pub hearsay_with_lem :
    (cap : ℕ) (src : WireId) (seq : ℕ) (bs : List ℕ) (ttl : ℕ)
    → IsCap cap
    → hearsay_with cap src seq bs ttl ≡ constructed cap src none seq bs ttl
unfolding hearsay_with validate_ttl constructed
hearsay_with_lem cap src seq bs ttl h =
    ground (arith, payload_copy_from_lem cap (cap - header_len_hearsay) bs)

-- At every capacity from 11 to 255, `telegram_with` refuses a hop count out of range first, then a
-- payload too long for the shape, and else returns the packet with exactly these bytes; it has no
-- panic.
pub telegram_with_lem :
    (cap : ℕ) (src dest : WireId) (seq : ℕ) (bs : List ℕ) (ttl : ℕ)
    → IsCap cap
    → telegram_with cap src dest seq bs ttl ≡ constructed cap src (some dest) seq bs ttl
unfolding telegram_with validate_ttl constructed
telegram_with_lem cap src dest seq bs ttl h =
    ground (arith, payload_copy_from_lem cap (cap - header_len_telegram) bs)

pub header_len-le : (dest : Option WireId) → header_len dest ≤ 11
header_len-le none = omega arith
header_len-le (some dest) = omega arith

pub header_len-ge : (dest : Option WireId) → 7 ≤ header_len dest
header_len-ge none = omega arith
header_len-ge (some dest) = omega arith

pub packet_of-IsPacket :
    (cap : ℕ) (src : WireId) (dest : Option WireId) (seq : ℕ) (bs : List ℕ) (ttl : ℕ)
    → IsU32 src
    → IsDest dest
    → IsU16 seq
    → All IsByte bs
    → (1 ≤ ttl) × (ttl ≤ 31)
    → header_len dest + length bs ≤ cap
    → IsPacket cap (packet_of cap src dest seq bs ttl)
packet_of-IsPacket cap src dest seq bs ttl hs hd hq hb ht hr = record {
  ttl_pos = ht.0;
  ttl_max = ht.1;
  seq_fits = hq;
  src_fits = hs;
  dest_fits = hd;
  payload_fits = payload_of-IsPayload cap bs (omega arith) hb;
  room = unfold payload_of in hr;
}

pub constructed_ok :
    (cap : ℕ) (src : WireId) (dest : Option WireId) (seq : ℕ) (bs : List ℕ) (ttl : ℕ) {p : Packet}
    → IsCap cap
    → constructed cap src dest seq bs ttl ≡ ok p
    → (p ≡ packet_of cap src dest seq bs ttl)
      × (1 ≤ ttl)
      × (ttl ≤ 31)
      × (header_len dest + length bs ≤ cap)
unfolding constructed
constructed_ok cap src dest seq bs ttl hc e =
    let h : header_len dest ≤ 11 = header_len-le dest in ground arith

-- Whatever the constructors return is well formed at the capacity and holds exactly the arguments,
-- whichever shape is asked for.
pub constructed-IsPacket :
    (cap : ℕ) (src : WireId) (dest : Option WireId) (seq : ℕ) (bs : List ℕ) (ttl : ℕ) {p : Packet}
    → IsCap cap
    → IsU32 src
    → IsDest dest
    → IsU16 seq
    → All IsByte bs
    → constructed cap src dest seq bs ttl ≡ ok p
    → IsPacket cap p × (p ≡ packet_of cap src dest seq bs ttl)
constructed-IsPacket cap src dest seq bs ttl hc hs hd hq hb e =
    let (same, lo, hi, room) = constructed_ok cap src dest seq bs ttl hc e in
    (rw same (packet_of-IsPacket cap src dest seq bs ttl hs hd hq hb (lo, hi) room), same)

-- The constructors accept what fits.
pub constructed_fits :
    (src : WireId) (dest : Option WireId) (seq : ℕ) (bytes : List ℕ)
    → header_len dest + length bytes ≤ 211
    → constructed 211 src dest seq bytes 16 ≡ ok (packet_of 211 src dest seq bytes 16)
unfolding constructed
constructed_fits src dest seq bytes h = ground (arith, header_len-le dest)
