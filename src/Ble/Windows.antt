-- ===== src/Ble/Windows.antt =====
-- `Advertiser` of crates/poholos-cli/src/transport/ble/windows.rs.
use poholos.Prelude.{
  Bool, Bool-cases, List, Option, [], ap, arith, false, if◌then◌else◌, inl, inr, ltb, none, refl,
  some, true, ℕ, ◌&&◌, ◌++◌, ◌∷◌, ◌≡◌, ◌⊎◌,
}
use poholos.Prelude.Panics.{◌>>=◌}
use poholos.Packet.{max_frame_len}
use poholos.Wire.{Frame, as_bytes, company_id}
use poholos.Wire.Frames.{IsExtFrame}
use poholos.Wire.Layout.{frame_of}
use poholos.Ble.Advertise.{Platform}
use poholos.Ble.Uuid.{by_company, copied_frame, frame_from_manufacturer}

abbrev pub max_frame : ℕ
max_frame = 156

pub data Phy : Type 0 where
  uncoded_phy coded_phy : Phy

-- `BluetoothLEAdvertisementPublisher`: the properties that are set, and its manufacturer data.
pub record Publisher : Type 0 where
  pub use_extended_advertisement : Bool
  pub primary_phy : Phy
  pub secondary_phy : Phy
  pub manufacturer_data : List (ℕ × List ℕ)

abbrev pub new_publisher : Publisher
new_publisher = record {
  use_extended_advertisement = false;
  primary_phy = uncoded_phy;
  secondary_phy = uncoded_phy;
  manufacturer_data = [];
}

-- Whether the calls succeed, in their order.
pub record Answers : Type 0 where
  pub stop : Bool
  pub new : Bool
  pub set_use_extended_advertisement : Bool
  pub set_primary_phy : Bool
  pub set_secondary_phy : Bool
  pub advertisement : Bool
  pub manufacturer_data : Bool
  pub new_writer : Bool
  pub write_bytes : Bool
  pub detach_buffer : Bool
  pub create : Bool
  pub append : Bool
  pub start : Bool

-- The publishers whose `Stop` failed after they were taken out of `current` go on.
pub record Advertiser : Type 0 where
  pub current : Option Publisher
  pub coded : Bool
  pub lingering : List Publisher

-- A call with `?`: `none` is its error.
abbrev pub attempt {ℓ} : {A : Type ℓ} → Bool → A → Option A
attempt succeeds a = if succeeds then some a else none

unfoldable pub select_phys : Publisher → Answers → Bool → Option Publisher
select_phys p answers wanted =
    if wanted
    then (do
      p' ← attempt answers.set_primary_phy (record p { primary_phy = coded_phy })
      attempt answers.set_secondary_phy (record p' { secondary_phy = coded_phy }))
    else some p

unfoldable pub append_section : Publisher → Frame → Answers → Option Publisher
append_section p frame answers = do
  advertisement ← attempt answers.advertisement p
  sections ← attempt answers.manufacturer_data advertisement.manufacturer_data
  writer ← attempt answers.new_writer []
  written ← attempt answers.write_bytes (writer ++ as_bytes frame)
  buffer ← attempt answers.detach_buffer written
  section ← attempt answers.create (company_id, buffer)
  attempt answers.append (record p { manufacturer_data = sections ++ (section ∷ []) })

-- The publisher for a frame, not started yet.
unfoldable pub publisher_for : Bool → Frame → Answers → Option Publisher
publisher_for coded frame answers = do
  let extended = ltb max_frame_len frame.len
  created ← attempt answers.new new_publisher
  p ←
      attempt answers.set_use_extended_advertisement
        (record created { use_extended_advertisement = extended })
  p' ← select_phys p answers (extended && coded)
  append_section p' frame answers

-- The state once the old publisher is taken and stopped, and whether that succeeded. The short time
-- for which a stopped publisher is still heard is left out.
unfoldable pub retire : Advertiser → Bool → Advertiser × Bool
retire a stopped = elim a.current [
  | none ↦ (a, true)
  | some old ↦
      if stopped
      then (record a { current = none }, true)
      else (record a { current = none; lingering = old ∷ a.lingering }, false)
]

unfoldable pub start : Advertiser → Option Publisher → Bool → Advertiser × Bool
start a none started = (a, false)
start a (some p) started = if started then (record a { current = some p }, true) else (a, false)

unfoldable pub set_frame : Advertiser → Frame → Answers → Option (Advertiser × Bool)
set_frame a frame answers =
    let (retired, stopped) = retire a answers.stop in
    some (
      if stopped
      then start retired (publisher_for retired.coded frame answers) answers.start
      else (retired, false))

abbrev pub windows : Platform
windows = record { State = Advertiser; Answers = Answers; set_frame = set_frame }

-- The publisher that is meant for a frame: legacy up to 22 bytes, and else extended, on the coded PHY
-- where the adapter has it.
abbrev pub meant : Bool → Frame → Publisher
meant coded frame =
    let extended = ltb max_frame_len frame.len in
    let phy = if extended && coded then coded_phy else uncoded_phy in
    record {
      use_extended_advertisement = extended;
      primary_phy = phy;
      secondary_phy = phy;
      manufacturer_data = (company_id, as_bytes frame) ∷ [];
    }

-- What another node's scanner makes of a publisher's data.
abbrev pub scanned : Publisher → Option (Option Frame)
scanned p = frame_from_manufacturer (by_company p.manufacturer_data)

-- The publisher held is the one that is meant for this frame, and is heard as it; or none is held.
abbrev pub OnAir : Advertiser → Option Frame → Type 0
OnAir a none = a.current ≡ none
OnAir a (some frame) =
    (a.current ≡ some (meant a.coded frame))
    × (scanned (meant a.coded frame) ≡ some (some (frame_of 211 (as_bytes frame))))

publisher_for-meant :
    (coded : Bool) (frame : Frame) (answers : Answers)
    → (publisher_for coded frame answers ≡ none)
      ⊎ (publisher_for coded frame answers ≡ some (meant coded frame))
unfolding publisher_for select_phys append_section
publisher_for-meant coded frame answers = ground arith

start_lem :
    (a : Advertiser) (frame : Frame) (answers : Answers)
    → a.current ≡ none
    → scanned (meant a.coded frame) ≡ some (some (frame_of 211 (as_bytes frame)))
    → (after : Advertiser) × (registered : Bool) × (start a
          (publisher_for a.coded frame answers)
          answers.start
        ≡ (after, registered))
      × OnAir after (if registered then some frame else none)
unfolding start
start_lem a frame answers idle heard = elim (publisher_for-meant a.coded frame answers) [
  | inl failed ↦ (a, false, rw failed refl, idle)
  | inr made ↦ elim (Bool-cases answers.start) [
    | inl begun ↦ (
      record a { current = some (meant a.coded frame) },
      true,
      rw (made, begun) refl,
      (refl, heard),
    )
    | inr failed ↦ (a, false, rw (made, failed) refl, idle)
  ]
]

-- How `set_frame` ends.
abbrev Ends : Option (Advertiser × Bool) → Frame → Type 0
Ends o frame =
    (after : Advertiser) × (registered : Bool) × (o ≡ some (after, registered))
    × OnAir after (if registered then some frame else none)

set_frame_fields :
    (current : Option Publisher) (coded : Bool) (lingering : List Publisher) (frame : Frame)
    (answers : Answers)
    → IsExtFrame frame
    → Ends
        (set_frame
          (record { current = current; coded = coded; lingering = lingering })
          frame
          answers)
        frame
unfolding set_frame retire frame_from_manufacturer by_company
set_frame_fields none coded lingering frame answers h =
    let a : Advertiser = record { current = none; coded = coded; lingering = lingering } in
    let heard = copied_frame (as_bytes frame) (omega (arith, h.0, h.1)) in
    let (after, done, e, k) = start_lem a frame answers refl heard in (after, done, ap some e, k)
set_frame_fields (some old) coded lingering frame answers h =
    let a : Advertiser = record { current = none; coded = coded; lingering = lingering } in
    let heard = copied_frame (as_bytes frame) (omega (arith, h.0, h.1)) in
    let (after, done, e, k) = start_lem a frame answers refl heard in
    elim (Bool-cases answers.stop) [
      | inl retired ↦ (after, done, simp retired (ap some e), k)
      | inr failed ↦ (record a { lingering = old ∷ lingering }, false, rw failed refl, refl)
    ]

-- `set_frame` on Windows with a frame of at most 211 bytes does not panic. If it returns `Ok`, the
-- publisher held is the one meant for the frame: legacy up to 22 bytes, else extended, and then on
-- the coded PHY exactly where the adapter has it; and a scanner reads a frame of the same bytes
-- from its data. If not, no publisher is held.
pub windows-IsAdvertiser :
    (a : Advertiser) (frame : Frame) (answers : Answers)
    → IsExtFrame frame
    → (after : Advertiser) × (registered : Bool) × (set_frame a frame answers
        ≡ some (after, registered))
      × OnAir after (if registered then some frame else none)
windows-IsAdvertiser a frame answers h =
    set_frame_fields a.current a.coded a.lingering frame answers h
