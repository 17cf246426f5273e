-- ===== src/Wire/Frames.antt =====
-- `FrameN::copy_from` of crates/poholos/src/wire.rs: what a received byte string is stored as.
use poholos.Prelude.{
  Bool-cases, List, [], arith, copy_at-fill, err, if◌then◌else◌, inl, inr, length, ltb,
  ltb-false→le, ok, ℕ, ◌%◌, ◌≡◌, ◌≤◌,
}
use poholos.Packet.Valid.{}
use poholos.Packet.{max_ext_frame_len}
use poholos.Wire.{Frame, as_bytes, copy_from, oversized}
use poholos.Wire.Layout.{frame_of}

-- At every capacity up to 255, `copy_from` refuses more bytes than the capacity with their length,
-- and else returns the frame with exactly these bytes; it has no panic.
pub copy_from_lem :
    (cap : ℕ) (bytes : List ℕ)
    → cap ≤ 255
    → copy_from cap bytes
      ≡ (if ltb cap (length bytes) then err (oversized (length bytes)) else ok (frame_of cap bytes))
unfolding copy_from frame_of
copy_from_lem cap bytes h = elim (Bool-cases (ltb cap (length bytes))) [
  | inl big ↦ rw big
  | inr small ↦
      let fits : length bytes ≤ cap = ltb-false→le cap (length bytes) small in
      let cast : length bytes % 256 ≡ length bytes = omega arith in
      rw (small, copy_at-fill [] bytes cap 0 fits, cast)
]

-- An `ExtFrame`: its length is that of its bytes, and within its capacity.
abbrev pub IsExtFrame : Frame → Type 0
IsExtFrame frame = (length (as_bytes frame) ≡ frame.len) × (frame.len ≤ max_ext_frame_len)
