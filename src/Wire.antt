-- ===== src/Wire.antt =====
-- crates/poholos/src/wire.rs and the wire part of error.rs: frames, `encode`, `decode` and
-- `manufacturer_frame`.
pub mod Encode
pub mod Decode
pub mod Layout
pub mod Bytes
pub mod Frames
pub mod RoundTrip
pub mod Accept
pub mod Read
pub mod Ad
use poholos.Prelude.{
  List, Outcome, copy_at, err, if◌then◌else◌, length, ltb, ok, or_panic, replicate, take, ℕ, ◌%◌,
  ◌>>=◌, ◌>>◌,
}
use poholos.Packet.{}

abbrev pub company_id : ℕ
company_id = 0xF10C

abbrev pub wire_version : ℕ
wire_version = 0

abbrev pub wire_version_ext : ℕ
wire_version_ext = 1

abbrev pub version_shift : ℕ
version_shift = 6

abbrev pub has_dest_bit : ℕ
has_dest_bit = 0b0010_0000

abbrev pub ttl_mask : ℕ
ttl_mask = 0b0001_1111

pub data WireError : Type 0 where
  truncated : ℕ → WireError
  oversized : ℕ → WireError
  unsupported_version : ℕ → WireError
  zero_ttl : WireError

-- `FrameN<CAP>`: a length byte and a buffer of `cap` bytes.
pub record Frame : Type 0 where
  pub len : ℕ
  pub buf : List ℕ

abbrev pub empty_frame : ℕ → Frame
empty_frame cap = record { len = 0; buf = replicate cap 0 }

-- `FrameN::copy_from`; the length is cast to a byte.
unfoldable pub copy_from : ℕ → List ℕ → Outcome WireError Frame
copy_from cap bytes = if ltb cap (length bytes) then err (oversized (length bytes)) else do
  buf ← or_panic (copy_at 0 bytes (replicate cap 0))
  ok (record { len = length bytes % 256; buf = buf })

abbrev pub as_bytes : Frame → List ℕ
as_bytes f = take f.len f.buf
