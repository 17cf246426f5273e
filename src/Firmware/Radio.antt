-- ===== src/Firmware/Radio.antt =====
-- How the advertiser of crates/poholos-microbit/src/radio.rs puts a frame into advertising data, over
-- the encoder of `trouble_host`, and what the scan handler of another board makes of it.
use poholos.Prelude.{
  Bool-cases, List, Option, [], ap, append-nil, arith, false, if◌then◌else◌, inl, inr, leb, leb→le,
  length, ltb, ltb-eq-false, refl, some, sym, ℕ, ◌+◌, ◌∙◌, ◌≡◌, ◌≤◌,
}
use poholos.Prelude.Panics.{◌>>=◌}
use poholos.Packet.{max_frame_len, max_ext_frame_len}
use poholos.Wire.{Frame, as_bytes}
use poholos.Wire.Frames.{copy_from_lem}
use poholos.Wire.Layout.{frame_of}
use poholos.Wire.Ad.{structure, frame_entry, manufacturer_frame, manufacturer_frame_finds}
use poholos.Wire.Ad
use poholos.Firmware.{send_shedding}
use poholos.Firmware.Scan.{on_report, on_found, on_copied, rx_queue}

-- The length of a legacy advertisement, and of the buffer of an extended one.
abbrev pub legacy_adv_data_len : ℕ
legacy_adv_data_len = 31

abbrev pub ext_adv_data_len : ℕ
ext_adv_data_len = max_ext_frame_len + 8

-- The variants of `Advertisement` that are used.
pub data Advertisement : Type 0 where
  nonconnectable : List ℕ → Advertisement
  ext_nonconnectable : List ℕ → Advertisement

abbrev pub adv_data : Advertisement → List ℕ
adv_data (nonconnectable bytes) = bytes
adv_data (ext_nonconnectable bytes) = bytes

-- `AdStructure::encode_slice` of one manufacturer structure of the company: the room, the payload, and
-- the bytes written, unless they do not fit.
abbrev pub Encoder : Type 0
Encoder = ℕ → List ℕ → Option (List ℕ)

-- Its format: length, type, company, payload.
abbrev pub IsEncoder : Encoder → Type 0
IsEncoder encode_slice =
    (room : ℕ) (payload : List ℕ)
    → length payload + 4 ≤ room
    → room ≤ 256
    → encode_slice room payload ≡ some (structure (frame_entry payload))

-- The advertisement for a frame; `none` is the panic of `unwrap`.
unfoldable pub advertisement : Encoder → Frame → Option Advertisement
advertisement encode_slice frame =
    if leb frame.len max_frame_len
    then (do bytes ← encode_slice legacy_adv_data_len (as_bytes frame); some (nonconnectable bytes))
    else (do
      bytes ← encode_slice ext_adv_data_len (as_bytes frame)
      some (ext_nonconnectable bytes))

-- For an encoder that writes a manufacturer structure wherever it fits, a frame of at most 211
-- bytes always gets an advertisement, whose data has at most 31 bytes for a frame of at most 22,
-- and from a report of this data the scan handler queues a frame of the same bytes.
pub on_report-advertisement :
    (encode_slice : Encoder) (frame : Frame) (rx : List Frame)
    → IsEncoder encode_slice
    → length (as_bytes frame) ≡ frame.len
    → frame.len ≤ max_ext_frame_len
    → (ad : Advertisement) × (advertisement encode_slice frame ≡ some ad)
      × (length (adv_data ad)
          ≤ (if leb frame.len max_frame_len then legacy_adv_data_len else ext_adv_data_len))
      × (on_report rx (adv_data ad)
          ≡ some (send_shedding rx_queue rx (frame_of max_ext_frame_len (as_bytes frame))))
unfolding advertisement on_report on_found on_copied
on_report-advertisement encode_slice frame rx law whole fits =
    let bytes : List ℕ = as_bytes frame in
    let heard : manufacturer_frame (structure (frame_entry bytes)) ≡ Ad.frame bytes =
      ap manufacturer_frame (sym (append-nil (structure (frame_entry bytes))))
      ∙ manufacturer_frame_finds [] bytes [] tt in
    let kept : ltb max_ext_frame_len (length bytes) ≡ false =
      ltb-eq-false max_ext_frame_len (length bytes) (omega (arith, whole, fits)) in
    let queued : on_report rx (structure (frame_entry bytes))
        ≡ some (send_shedding rx_queue rx (frame_of max_ext_frame_len bytes)) =
      rw (heard, copy_from_lem max_ext_frame_len bytes (omega arith), kept) refl in
    elim (Bool-cases (leb frame.len max_frame_len)) [
      | inl short ↦
          let small = leb→le frame.len max_frame_len short in
          let written = law legacy_adv_data_len bytes (omega (arith, whole, small)) (omega arith) in
          rw (short, written)
            (
              nonconnectable (structure (frame_entry bytes)),
              refl,
              omega (arith, whole, small),
              queued,
            )
      | inr long ↦
          let written = law ext_adv_data_len bytes (omega (arith, whole, fits)) (omega arith) in
          rw (long, written)
            (
              ext_nonconnectable (structure (frame_entry bytes)),
              refl,
              omega (arith, whole, fits),
              queued,
            )
    ]
