-- ===== src/Packet.antt =====
-- crates/poholos/src/packet.rs and the packet part of error.rs: construction of packets at a frame
-- capacity `cap` (the const `CAP`), hop counts and the key for duplicate suppression.
pub mod Valid
pub mod Hop
pub mod Key
use poholos.Prelude.{
  Bool, List, Option, Outcome, [], copy_at, err, false, if◌then◌else◌, is_some, leb, length, ltb,
  max, none, ok, or_panic, replicate, some, take, true, ℕ, ◌%◌, ◌+◌, ◌-◌, ◌==◌, ◌>>=◌, ◌>>◌, ◌||◌,
  ◌∷◌,
}
use poholos.Prelude.Words.{u16_to_be_bytes, u32_to_be_bytes}
use poholos.Fnv.{fnv64_update, fnv_offset_basis}

-- `WireId` wraps one u32.
abbrev pub WireId : Type 0
WireId = ℕ

-- crates/poholos/src/wire.rs: header and frame lengths.
abbrev pub header_len_hearsay : ℕ
header_len_hearsay = 1 + 2 + 4

abbrev pub header_len_telegram : ℕ
header_len_telegram = header_len_hearsay + 4

abbrev pub max_frame_len : ℕ
max_frame_len = 22

abbrev pub max_ext_frame_len : ℕ
max_ext_frame_len = header_len_telegram + 200

abbrev pub default_ttl : ℕ
default_ttl = 16

abbrev pub max_ttl : ℕ
max_ttl = 31

pub data PacketError : Type 0 where
  payload_too_long : ℕ → ℕ → PacketError
  ttl_out_of_range : ℕ → PacketError

unfoldable pub is_payload_too_long : PacketError → Bool
is_payload_too_long (payload_too_long len max) = true
is_payload_too_long (ttl_out_of_range ttl) = false

unfoldable pub is_ttl_out_of_range : PacketError → Bool
is_ttl_out_of_range (payload_too_long len max) = false
is_ttl_out_of_range (ttl_out_of_range ttl) = true

-- `PayloadN<CAP>`: a length byte and a buffer of `cap` bytes.
pub record Payload : Type 0 where
  pub len : ℕ
  pub buf : List ℕ

-- `PayloadN::copy_from`; the length is cast to a byte.
unfoldable pub payload_copy_from : ℕ → List ℕ → ℕ → Outcome PacketError Payload
payload_copy_from cap bytes limit =
    if ltb limit (length bytes) then err (payload_too_long (length bytes) limit) else do
      buf ← or_panic (copy_at 0 bytes (replicate cap 0))
      ok (record { len = length bytes % 256; buf = buf })

abbrev pub as_slice : Payload → List ℕ
as_slice p = take p.len p.buf

-- `PacketN<CAP>`.
pub record Packet : Type 0 where
  pub ttl : ℕ
  pub seq : ℕ
  pub src : WireId
  pub dest : Option WireId
  pub payload : Payload

unfoldable pub validate_ttl : ℕ → Outcome PacketError (Unit {0})
validate_ttl ttl = if ttl == 0 || ltb max_ttl ttl then err (ttl_out_of_range ttl) else ok tt

unfoldable pub hearsay_with : ℕ → WireId → ℕ → List ℕ → ℕ → Outcome PacketError Packet
hearsay_with cap src seq bytes ttl = do
  validate_ttl ttl
  payload ← payload_copy_from cap bytes (cap - header_len_hearsay)
  ok (record { ttl = ttl; seq = seq; src = src; dest = none; payload = payload })

unfoldable pub hearsay : ℕ → WireId → ℕ → List ℕ → Outcome PacketError Packet
hearsay cap src seq bytes = hearsay_with cap src seq bytes default_ttl

unfoldable pub telegram_with : ℕ → WireId → WireId → ℕ → List ℕ → ℕ → Outcome PacketError Packet
telegram_with cap src dest seq bytes ttl = do
  validate_ttl ttl
  payload ← payload_copy_from cap bytes (cap - header_len_telegram)
  ok (record { ttl = ttl; seq = seq; src = src; dest = some dest; payload = payload })

unfoldable pub telegram : ℕ → WireId → WireId → ℕ → List ℕ → Outcome PacketError Packet
telegram cap src dest seq bytes = telegram_with cap src dest seq bytes default_ttl

-- `hop(&mut self) -> bool`: the result and the packet after the call.
unfoldable pub hop : Packet → Bool × Packet
hop p = if leb p.ttl 1 then (false, p) else (true, record p { ttl = p.ttl - 1 })

abbrev pub bool_byte : Bool → ℕ
bool_byte true = 1
bool_byte false = 0

-- The optional destination field folded into the hash.
unfoldable pub fold_dest : ℕ → Option WireId → ℕ
fold_dest hash none = hash
fold_dest hash (some dest) = fnv64_update hash (u32_to_be_bytes dest)

unfoldable pub dedup_key : Packet → ℕ
unfolding fold_dest
dedup_key p =
    let h0 = fnv64_update fnv_offset_basis (bool_byte (is_some p.dest) ∷ []) in
    let h1 = fnv64_update h0 (u32_to_be_bytes p.src) in
    let h2 = fnv64_update h1 (u16_to_be_bytes p.seq) in
    let h3 = fold_dest h2 p.dest in fnv64_update h3 (as_slice p.payload)
