-- ===== src/Tests/Radios.antt =====
-- Runs of the theorems on the advertising loops, the platforms and the scanner.
use poholos.Prelude.{
  All, Bool, List, [], arith, false, if◌then◌else◌, leb, length, none, refl, some, take, true, ◌++◌,
  ◌-◌, ◌∷◌, ◌≡◌,
}
use poholos.Wire.Frames.{IsExtFrame}
use poholos.Wire.Layout.{frame_of}
use poholos.Rotation.Holds.{Rotates}
use poholos.Ble.Advertise.{Loop, Input, Pass, advertise_loop}
use poholos.Ble.Advertise
use poholos.Ble.Belief.{IsLoop, IsInput, IsSound, advertise_loop_lem}
use poholos.Ble.Linux.{linux, linux-IsAdvertiser}
use poholos.Ble.Linux
use poholos.Ble.Macos.{set_frame-Ends, Ends}
use poholos.Ble.Macos
use poholos.Ble.Windows.{windows-IsAdvertiser}
use poholos.Ble.Windows
use poholos.Ble.Scan.{
  Sender, CentralEvent, manufacturer_data_advertisement, services_advertisement, device,
  other_event, scan_loop,
}
use poholos.Ble.Scan.Heard.{scan_loop_lem, frames_of_all}
use poholos.Firmware.Node
use poholos.Firmware.Slot.{Slot, Turn, Aired, advertise}
use poholos.Firmware.Slot.Heard.{IsSlot, IsTurn, IsHeard, advertise_lem}
use poholos.Tests.Data.{ping_bytes}
use poholos.Tests.Rotations.{mine, theirs, busy, busy-IsRotation}
use poholos.Tests.Boards.{encode_slice, encode_slice-IsEncoder}

mine-IsExtFrame : IsExtFrame mine
unfolding frame_of
mine-IsExtFrame = (refl, omega arith)

theirs-IsExtFrame : IsExtFrame theirs
unfolding frame_of
theirs-IsExtFrame = (refl, omega arith)

busy-Rotates : Rotates IsExtFrame busy
unfolding poholos.Rotation.Queue.frames_from
busy-Rotates = record {
  well_formed = busy-IsRotation;
  holds = record {
    own_holds = mine-IsExtFrame;
    waiting_holds = (theirs-IsExtFrame, (theirs-IsExtFrame, tt));
  };
}

-- The loop with nothing on the air yet, a pass whose registration fails, and one that succeeds.
abbrev idle_radio : Loop linux
idle_radio = record { rotation = busy; on_air = none; advertiser = record { current = none } }

abbrev failing : Input linux
failing = record {
  woken = none;
  answers = false;
  arrivals = Advertise.own mine ∷ [];
  closes = false;
}

abbrev closing : Input linux
closing = record { woken = none; answers = true; arrivals = []; closes = true }

idle_radio-IsLoop : IsLoop linux IsExtFrame Linux.OnAir idle_radio
idle_radio-IsLoop = record { rotates = busy-Rotates; belief = refl }

failing-IsInput : IsInput linux IsExtFrame Linux.OnAir failing
failing-IsInput = record { wakes = tt; arrives = (mine-IsExtFrame, tt) }

closing-IsInput : IsInput linux IsExtFrame Linux.OnAir closing
closing-IsInput = record { wakes = tt; arrives = tt }

advertise_loop_lem_example :
    (after : Loop linux) × (passes : List (Pass linux)) × (advertise_loop linux idle_radio
        (failing ∷ closing ∷ [])
      ≡ some (after, passes))
    × IsLoop linux IsExtFrame Linux.OnAir after
    × All (IsSound linux IsExtFrame Linux.OnAir) passes
advertise_loop_lem_example =
    advertise_loop_lem linux IsExtFrame Linux.OnAir idle_radio (failing ∷ closing ∷ [])
      linux-IsAdvertiser idle_radio-IsLoop (failing-IsInput, (closing-IsInput, tt))

linux-IsAdvertiser_example :
    (after : Linux.Advertiser) × (registered : Bool) × (Linux.set_frame
        (record { current = none })
        mine
        true
      ≡ some (after, registered))
    × Linux.OnAir after (if registered then some mine else none)
linux-IsAdvertiser_example =
    linux-IsAdvertiser (record { current = none }) mine true mine-IsExtFrame

abbrev publishing : Windows.Advertiser
publishing = record { current = some Windows.new_publisher; coded = true; lingering = [] }

-- The old publisher stops and the new one does not start.
abbrev no_start : Windows.Answers
no_start = record {
  stop = true;
  new = true;
  set_use_extended_advertisement = true;
  set_primary_phy = true;
  set_secondary_phy = true;
  advertisement = true;
  manufacturer_data = true;
  new_writer = true;
  write_bytes = true;
  detach_buffer = true;
  create = true;
  append = true;
  start = false;
}

windows-IsAdvertiser_example :
    (after : Windows.Advertiser) × (registered : Bool) × (Windows.set_frame publishing mine no_start
      ≡ some (after, registered))
    × Windows.OnAir after (if registered then some mine else none)
windows-IsAdvertiser_example = windows-IsAdvertiser publishing mine no_start mine-IsExtFrame

abbrev serving : Macos.Advertiser
serving = record { advertising = true; service = some [] }

abbrev no_stop : Macos.Answers
no_stop = record { stop = false; start = true }

set_frame-Ends_example :
    (after : Macos.Advertiser) × (done : Bool) × (Macos.set_frame serving theirs no_stop
      ≡ some (after, done))
    × Macos.IsAdvertiser after
    × Ends serving theirs no_stop after done
unfolding frame_of
set_frame-Ends_example = set_frame-Ends serving theirs no_stop refl (omega arith, theirs-IsExtFrame)

abbrev events : List CentralEvent
events =
    other_event
    ∷ manufacturer_data_advertisement ((0xF10C, ping_bytes) ∷ [])
    ∷ device none
    ∷ services_advertisement ((249 ∷ ping_bytes) ∷ [])
    ∷ []

abbrev sender : Sender
sender = record { sent = []; takes = 1 }

scan_loop_lem_example :
    scan_loop sender events
    ≡ some (
      record {
        sent = [] ++ take 1 (frames_of_all events);
        takes = 1 - length (frames_of_all events);
      },
      leb (length (frames_of_all events)) 1,
    )
scan_loop_lem_example = scan_loop_lem sender events (tt, (tt, (tt, ((omega arith, tt), tt))))

abbrev slot : Slot
slot = record { rotation = busy; on_air = none; handle = none }

abbrev refused : Turn
refused = record { woken = Node.own mine; accepted = false; arrivals = Node.relay theirs ∷ [] }

slot-IsSlot : IsSlot encode_slice slot
slot-IsSlot = record { rotates = busy-Rotates; belief = refl }

refused-IsTurn : IsTurn refused
refused-IsTurn = record { wakes = mine-IsExtFrame; arrives = (theirs-IsExtFrame, tt) }

advertise_lem_example :
    (after : Slot) × (airs : List Aired) × (advertise encode_slice slot (refused ∷ refused ∷ [])
      ≡ some (after, airs))
    × IsSlot encode_slice after
    × All (IsHeard []) airs
advertise_lem_example =
    advertise_lem encode_slice [] slot (refused ∷ refused ∷ []) encode_slice-IsEncoder slot-IsSlot
      (refused-IsTurn, (refused-IsTurn, tt))
