-- ===== src/Ble/Linux.antt =====
-- `Advertiser` of crates/poholos-cli/src/transport/ble/linux.rs.
use poholos.Prelude.{
  Bool, List, Option, [], arith, false, if◌then◌else◌, none, refl, some, true, ℕ, ◌∷◌, ◌≡◌,
}
use poholos.Packet.{max_frame_len}
use poholos.Wire.{Frame, as_bytes, company_id}
use poholos.Wire.Frames.{IsExtFrame}
use poholos.Wire.Layout.{frame_of}
use poholos.Ble.Advertise.{Platform}
use poholos.Ble.Uuid.{by_company, copied_frame, frame_from_manufacturer}

abbrev pub max_frame : ℕ
max_frame = max_frame_len

-- `advertisement_type`, of which one variant is used.
pub data AdvertisementType : Type 0 where
  peripheral : AdvertisementType

pub record Advertisement : Type 0 where
  pub advertisement_type : AdvertisementType
  pub manufacturer_data : List (ℕ × List ℕ)

-- The handle keeps its advertisement registered, and dropping it unregisters it.
pub record Advertiser : Type 0 where
  pub current : Option Advertisement

-- The Boolean that goes in is whether `advertise` succeeds.
unfoldable pub set_frame : Advertiser → Frame → Bool → Option (Advertiser × Bool)
set_frame a frame accepted =
    let cleared = record a { current = none } in
    let ad : Advertisement = record {
      advertisement_type = peripheral;
      manufacturer_data = (company_id, as_bytes frame) ∷ [];
    } in
    some (if accepted then (record cleared { current = some ad }, true) else (cleared, false))

abbrev pub linux : Platform
linux = record { State = Advertiser; Answers = Bool; set_frame = set_frame }

-- What another node's scanner makes of an advertisement.
abbrev pub scanned : Advertisement → Option (Option Frame)
scanned ad = frame_from_manufacturer (by_company ad.manufacturer_data)

-- What is on the air is an advertisement that is heard as this frame, or nothing.
abbrev pub OnAir : Advertiser → Option Frame → Type 0
OnAir a none = a.current ≡ none
OnAir a (some frame) =
    (ad : Advertisement) × (a.current ≡ some ad)
    × (scanned ad ≡ some (some (frame_of 211 (as_bytes frame))))

-- `set_frame` on Linux with a frame of at most 211 bytes does not panic. If it returns `Ok`, the
-- advertisement registered is one from which a scanner reads a frame of the same bytes; if not,
-- none is registered.
pub linux-IsAdvertiser :
    (a : Advertiser) (frame : Frame) (accepted : Bool)
    → IsExtFrame frame
    → (after : Advertiser) × (registered : Bool) × (set_frame a frame accepted
        ≡ some (after, registered))
      × OnAir after (if registered then some frame else none)
unfolding set_frame frame_from_manufacturer by_company
linux-IsAdvertiser a frame true h = (
  record {
    current = some (record {
      advertisement_type = peripheral;
      manufacturer_data = (company_id, as_bytes frame) ∷ [];
    });
  },
  true,
  refl,
  (_, refl, copied_frame (as_bytes frame) (omega (arith, h.0, h.1))),
)
linux-IsAdvertiser a frame false h = (record { current = none }, false, refl, refl)
