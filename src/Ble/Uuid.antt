-- ===== src/Ble/Uuid.antt =====
-- crates/poholos-cli/src/transport/ble/scan.rs: a frame packed into the 16 bytes of a service UUID,
-- and frames in manufacturer data. The outer `none` is a panic.
use poholos.Prelude.{
  Bool-cases, List, Option, Outcome, [], ap, arith, bit_and, bit_or, copy_at, copy_at-fill, drop,
  err, get_or, if◌then◌else◌, inl, inr, leb, leb-eq-false, length, length-append, length-replicate,
  length-take, le→leb, ltb, ltb-eq-false, none, not, ok, panic, refl, replicate, some, take,
  take-length_append, ℕ, ◌%◌, ◌&&◌, ◌++◌, ◌+◌, ◌-◌, ◌<◌, ◌==◌, ◌∙◌, ◌∷◌, ◌≡◌, ◌≤◌,
}
use poholos.Prelude.Panics.{◌>>=◌}
use poholos.Prelude.Words.{IsByte}
use poholos.Prelude.Bits.{bit_and-0x0f, bit_and-0xf0, bit_or-0xf0}
use poholos.Packet.{max_ext_frame_len}
use poholos.Wire.{Frame, as_bytes, company_id, copy_from}
use poholos.Wire.Encode.{debug_assert}
use poholos.Wire.Layout.{frame_of}
use poholos.Wire.Frames.{copy_from_lem}

abbrev pub uuid_tag : ℕ
uuid_tag = 0xF0

abbrev pub max_uuid_frame : ℕ
max_uuid_frame = 15

abbrev pub min_frame : ℕ
min_frame = 7

-- `Result::ok`.
unfoldable pub to_option {ℓ κ} : {E : Type ℓ} {A : Type κ} → Outcome E A → Option (Option A)
to_option (ok a) = some (some a)
to_option (err e) = some none
to_option panic = none

-- `BTreeMap::get`.
unfoldable pub by_company : List (ℕ × List ℕ) → ℕ → Option (List ℕ)
by_company [] company = none
by_company ((key, bytes) ∷ entries) company =
    if key == company then some bytes else by_company entries company

-- The map from company ids to data, as a lookup.
unfoldable pub frame_from_manufacturer : (ℕ → Option (List ℕ)) → Option (Option Frame)
frame_from_manufacturer get = elim (get company_id) [
  | none ↦ some none
  | some bytes ↦ to_option (copy_from max_ext_frame_len bytes)
]

unfoldable pub frame_to_service_uuid : Frame → Option (List ℕ)
frame_to_service_uuid frame = do
  let bytes = as_bytes frame
  asserted ← debug_assert (leb (length bytes) max_uuid_frame)
  raw ← copy_at 0 (bit_or uuid_tag (length bytes % 256) ∷ []) (replicate 16 0)
  copy_at 1 bytes raw

-- The indices are in range: `raw` has 16 bytes, and the length is at most 15.
unfoldable pub frame_from_service_uuid : List ℕ → Option (Option Frame)
frame_from_service_uuid raw =
    let first = get_or raw 0 0 in
    let len = bit_and first 0x0F in
    if not (bit_and first 0xF0 == uuid_tag)
    then some none
    else if not (leb min_frame len && leb len max_uuid_frame)
    then some none
    else to_option (copy_from max_ext_frame_len (take len (drop 1 raw)))

pub copied_frame :
    (bs : List ℕ) → length bs ≤ 211 → to_option (copy_from 211 bs) ≡ some (some (frame_of 211 bs))
unfolding to_option
copied_frame bs h = rw (copy_from_lem 211 bs (omega arith), ltb-eq-false 211 (length bs) h) refl

tagged :
    (n : ℕ) (rest : List ℕ)
    → n < 16
    → frame_from_service_uuid ((240 + n) ∷ rest)
      ≡ (if leb 7 n && leb n 15 then to_option (copy_from 211 (take n rest)) else some none)
unfolding frame_from_service_uuid
tagged n rest h = ground (arith, bit_and-0xf0 (240 + n), bit_and-0x0f (240 + n))

-- A frame of 7 to 15 bytes is packed into 16 bytes, out of which the same bytes are read as a
-- frame.
pub frame_from-frame_to :
    (frame : Frame)
    → 7 ≤ length (as_bytes frame)
    → length (as_bytes frame) ≤ 15
    → (raw : List ℕ) × (frame_to_service_uuid frame ≡ some raw)
      × (length raw ≡ 16)
      × (frame_from_service_uuid raw ≡ some (some (frame_of 211 (as_bytes frame))))
unfolding frame_to_service_uuid
frame_from-frame_to frame lo hi =
    let bs : List ℕ = as_bytes frame in
    let n : ℕ = length bs in
    let small : n % 256 ≡ n = omega arith in
    let rest : List ℕ = bs ++ replicate (15 - n) 0 in
    (
      (240 + n) ∷ rest,
      rw
          (
            le→leb n 15 hi,
            small,
            bit_or-0xf0 n (omega arith),
            copy_at-fill [] ((240 + n) ∷ []) 16 0 (omega arith),
            copy_at-fill ((240 + n) ∷ []) bs 15 0 hi,
          )
          refl,
      omega (arith, length-append bs (replicate (15 - n) 0), length-replicate {A = ℕ} (15 - n) 0),
      tagged n rest (omega arith)
          ∙ rw (le→leb 7 n lo, le→leb n 15 hi, take-length_append bs (replicate (15 - n) 0))
              (copied_frame bs (omega arith)),
    )

untagged :
    (b : ℕ) (rest : List ℕ) → IsByte b → b < 240 → frame_from_service_uuid (b ∷ rest) ≡ some none
unfolding frame_from_service_uuid
untagged b rest h low = ground (arith, bit_and-0xf0 b h)

-- Whatever stands behind its first byte, a service UUID is read as a frame exactly when that byte
-- is above 246, and the frame is the bytes that its low nibble counts.
pub frame_from_service_uuid_lem :
    (b : ℕ) (rest : List ℕ)
    → IsByte b
    → frame_from_service_uuid (b ∷ rest)
      ≡ some (if ltb 246 b then some (frame_of 211 (take (b - 240) rest)) else none)
frame_from_service_uuid_lem b rest h = elim (Bool-cases (ltb 246 b)) [
  | inl long ↦
      let n : ℕ = b - 240 in
      let same : b ≡ 240 + n = ground (arith, long) in
      let room : length (take n rest) ≤ 211 = omega (arith, length-take n rest, h) in
      rw long (
        ap (λ x. frame_from_service_uuid (x ∷ rest)) same
        ∙ tagged n rest (omega (arith, h))
        ∙ rw (le→leb 7 n (ground (arith, long)), le→leb n 15 (omega (arith, h)))
            (copied_frame (take n rest) room))
  | inr short ↦ rw short (elim (Bool-cases (leb 240 b)) [
    | inl marked ↦
        let n : ℕ = b - 240 in
        let same : b ≡ 240 + n = ground (arith, marked) in
        ap (λ x. frame_from_service_uuid (x ∷ rest)) same
        ∙ tagged n rest (omega (arith, h))
        ∙ rw (leb-eq-false 7 n (ground (arith, short))) refl
    | inr foreign ↦ untagged b rest h (ground (arith, foreign))
  ])
]
