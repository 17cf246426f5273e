-- ===== src/Ble/Scan.antt =====
-- `scan_loop` of crates/poholos-cli/src/transport/ble/scan.rs: which frames of the scan events reach the
-- chat loop. The outer `none` is a panic.
pub mod Heard
use poholos.Prelude.{
  Bool, List, Option, [], false, if◌then◌else◌, none, some, true, ℕ, ◌++◌, ◌-◌, ◌==◌, ◌∷◌,
}
use poholos.Prelude.Panics.{◌>>=◌}
use poholos.Wire.{Frame}
use poholos.Ble.Uuid.{by_company, frame_from_manufacturer, frame_from_service_uuid}

abbrev pub Entries : Type 0
Entries = List (ℕ × List ℕ)

-- The properties of a peripheral that are read.
pub record Properties : Type 0 where
  pub manufacturer_data : Entries
  pub services : List (List ℕ)

-- The events of the central that are told apart. A device's event comes with what the adapter then
-- answers: no peripheral or no properties, or the properties.
pub data CentralEvent : Type 0 where
  manufacturer_data_advertisement : Entries → CentralEvent
  services_advertisement : List (List ℕ) → CentralEvent
  device : Option Properties → CentralEvent
  other_event : CentralEvent

-- The channel to the chat loop: what was sent, and how many more frames its receiver takes before it is
-- dropped; the channel's bound only makes the sender wait.
pub record Sender : Type 0 where
  pub sent : List Frame
  pub takes : ℕ

-- `tx.send(frame)`; the Boolean is false for the error.
unfoldable pub send : Sender → Frame → Sender × Bool
send tx frame =
    if tx.takes == 0
    then (tx, false)
    else (record { sent = tx.sent ++ (frame ∷ []); takes = tx.takes - 1 }, true)

-- The Boolean tells whether the loop goes on.
unfoldable pub send_found : Sender → Option Frame → Sender × Bool
send_found tx none = (tx, true)
send_found tx (some frame) = send tx frame

unfoldable pub on_manufacturer_data : Sender → Entries → Option (Sender × Bool)
on_manufacturer_data tx entries = do
  found ← frame_from_manufacturer (by_company entries)
  some (send_found tx found)

unfoldable pub on_services : Sender → List (List ℕ) → Option (Sender × Bool)
on_services tx [] = some (tx, true)
on_services tx (uuid ∷ uuids) = do
  found ← frame_from_service_uuid uuid
  let (tx', goes_on) = send_found tx found
  let rest = on_services tx' uuids
  if goes_on then rest else some (tx', false)

unfoldable pub on_event : Sender → CentralEvent → Option (Sender × Bool)
on_event tx (manufacturer_data_advertisement entries) = on_manufacturer_data tx entries
on_event tx (services_advertisement uuids) = on_services tx uuids
on_event tx (device none) = some (tx, true)
on_event tx (device (some props)) = do
  (tx', goes_on) ← on_manufacturer_data tx props.manufacturer_data
  if goes_on then on_services tx' props.services else some (tx', false)
on_event tx other_event = some (tx, true)

unfoldable pub scan_loop : Sender → List CentralEvent → Option (Sender × Bool)
scan_loop tx [] = some (tx, true)
scan_loop tx (event ∷ events) = do
  (tx', goes_on) ← on_event tx event
  let rest = scan_loop tx' events
  if goes_on then rest else some (tx', false)
