-- ===== src/Firmware/Scan.antt =====
-- `on_ext_adv_reports` of crates/poholos-microbit/src/radio.rs: which frames of the scan reports wait
-- for the router.
use poholos.Prelude.{
  All, All-append_back, All-append_front, Bool-cases, List, Option, Outcome, [], arith, err, inl,
  inr, length, ltb, none, ok, panic, refl, some, subst, ℕ, ◌++◌, ◌∷◌, ◌≡◌, ◌≤◌,
}
use poholos.Prelude.Words.{IsByte}
use poholos.Prelude.Panics.{◌>>=◌}
use poholos.Wire.{Frame, WireError, as_bytes, copy_from}
use poholos.Wire.Ad.Ends.{manufacturer_frame-Carries}
use poholos.Wire.Ad.{
  Found, frame, absent, stuck, manufacturer_frame, manufacturer_frame-ne-stuck, Carries, structure,
  frame_entry,
}
use poholos.Wire.Frames.{copy_from_lem}
use poholos.Wire.Layout.{frame_of, as_bytes-frame_of}
use poholos.Firmware.{send_shedding}
use poholos.Firmware.Channels.{All-send_shedding, send_shedding_lem}

abbrev pub rx_queue : ℕ
rx_queue = 8

-- `none` is a panic.
unfoldable pub on_copied : List Frame → Outcome WireError Frame → Option (List Frame)
on_copied rx (ok f) = some (send_shedding rx_queue rx f)
on_copied rx (err e) = some rx
on_copied rx panic = none

unfoldable pub on_found : List Frame → Found → Option (List Frame)
on_found rx (frame bytes) = on_copied rx (copy_from 211 bytes)
on_found rx absent = some rx
on_found rx stuck = none

unfoldable pub on_report : List Frame → List ℕ → Option (List Frame)
on_report rx ad = on_found rx (manufacturer_frame ad)

-- A report that cannot be read ends the reports.
unfoldable pub on_ext_adv_reports : List Frame → List (Option (List ℕ)) → Option (List Frame)
on_ext_adv_reports rx [] = some rx
on_ext_adv_reports rx (none ∷ reports) = some rx
on_ext_adv_reports rx (some ad ∷ reports) = do rx' ← on_report rx ad; on_ext_adv_reports rx' reports

-- A frame and a report made of bytes.
abbrev pub IsHeard : Frame → Type 0
IsHeard f = All IsByte (as_bytes f)

unfoldable pub IsReport : Option (List ℕ) → Type 0
IsReport none = Unit {0}
IsReport (some ad) = All IsByte ad

-- The frames that wait: at most eight, all made of bytes.
abbrev pub IsRx : List Frame → Type 0
IsRx rx = (length rx ≤ rx_queue) × All IsHeard rx

carried-IsByte : (ad bytes : List ℕ) → All IsByte ad → Carries ad bytes → All IsByte bytes
carried-IsByte ad bytes hb (front, back, e) =
    let whole : All IsByte (structure (frame_entry bytes) ++ back) =
      All-append_back IsByte front (structure (frame_entry bytes) ++ back)
        (subst (All IsByte) e hb) in
    (All-append_front IsByte (structure (frame_entry bytes)) back whole).1.1.1.1

Rests : Option (List Frame) → Type 0
Rests o = (after : List Frame) × (o ≡ some after) × IsRx after

on_copied-Rests :
    (rx : List Frame) (bytes : List ℕ)
    → IsRx rx
    → All IsByte bytes
    → Rests (on_copied rx (copy_from 211 bytes))
unfolding on_copied Rests
on_copied-Rests rx bytes v hb = elim (Bool-cases (ltb 211 (length bytes))) [
  | inl big ↦ rw (copy_from_lem 211 bytes (omega arith), big) (rx, refl, v)
  | inr fits ↦
      let f : Frame = frame_of 211 bytes in
      rw (copy_from_lem 211 bytes (omega arith), fits)
        (
          send_shedding rx_queue rx f,
          refl,
          (
            (send_shedding_lem rx_queue rx f (omega arith) v.0).1,
            All-send_shedding IsHeard rx_queue rx f (omega arith) v.0 v.1
                (rw (as_bytes-frame_of 211 bytes) hb),
          ),
        )
]

on_found-Rests :
    (rx : List Frame) (ad : List ℕ) (found : Found)
    → IsRx rx
    → All IsByte ad
    → manufacturer_frame ad ≡ found
    → Rests (on_found rx found)
unfolding on_found
on_found-Rests rx ad (frame bytes) v hb e =
    on_copied-Rests rx bytes v
      (carried-IsByte ad bytes hb (manufacturer_frame-Carries ad bytes hb e))
on_found-Rests rx ad absent v hb e = unfold Rests in (rx, refl, v)
on_found-Rests rx ad stuck v hb e = absurd (manufacturer_frame-ne-stuck ad e)

-- From at most eight waiting frames made of bytes, any reports of bytes leave at most eight such
-- frames, without a panic.
pub on_ext_adv_reports_lem :
    (rx : List Frame) (reports : List (Option (List ℕ)))
    → IsRx rx
    → All IsReport reports
    → (after : List Frame) × (on_ext_adv_reports rx reports ≡ some after) × IsRx after
unfolding on_ext_adv_reports on_report IsReport Rests
on_ext_adv_reports_lem rx [] v h = (rx, refl, v)
on_ext_adv_reports_lem rx (none ∷ reports) v h = (rx, refl, v)
on_ext_adv_reports_lem rx (some ad ∷ reports) v (h, hs) =
    let (rx', e, v') = on_found-Rests rx ad (manufacturer_frame ad) v h refl in
    let (after, e', w) = on_ext_adv_reports_lem rx' reports v' hs in (after, rw e e', w)
