-- ===== src/Firmware/Slot.antt =====
-- The advertiser of `run` in crates/poholos-microbit-morse/src/radio.rs, which is the same file as
-- crates/poholos-microbit/src/radio.rs: the loop around the advertisements of Firmware/Radio. `none`
-- is a panic.
pub mod Heard
use poholos.Prelude.{Bool, List, Option, [], if◌then◌else◌, none, some, ◌∷◌}
use poholos.Prelude.Panics.{◌>>=◌}
use poholos.Wire.{Frame}
use poholos.Rotation.{Rotation, enqueue_own, enqueue_relay, next_frame}
use poholos.Ble.Advertise.{is_on_air}
use poholos.Firmware.Node.{Outgoing, own, relay}
use poholos.Firmware.Radio.{Advertisement, Encoder, advertisement}

unfoldable pub enqueue : Rotation → Outgoing → Option Rotation
enqueue rotation (own frame) = some (enqueue_own rotation frame)
enqueue rotation (relay frame) = enqueue_relay rotation frame

unfoldable pub enqueue_all : Rotation → List Outgoing → Option Rotation
enqueue_all rotation [] = some rotation
enqueue_all rotation (out ∷ outs) = do rotation' ← enqueue rotation out; enqueue_all rotation' outs

-- The loop's variables. The advertisement of a handle is on the air for as long as it is held.
pub record Slot : Type 0 where
  pub rotation : Rotation
  pub on_air : Option Frame
  pub handle : Option Advertisement

-- What one pass meets: the frame that wakes it when it sleeps, whether `advertise_ext` takes the
-- advertisement, and the frames queued during the dwell.
pub record Turn : Type 0 where
  pub woken : Outgoing
  pub accepted : Bool
  pub arrivals : List Outgoing

pub data Aired : Type 0 where
  slept : Aired
  aired : Frame → Bool → Option Advertisement → Aired

-- The old advertisement is dropped before the new one starts.
unfoldable pub install : Encoder → Slot → Frame → Bool → Option Slot
install encode_slice s frame accepted = do
  ad ← advertisement encode_slice frame
  some (record s {
    on_air = if accepted then some frame else none;
    handle = if accepted then some ad else none;
  })

unfoldable pub hold : Encoder → Slot → Frame → Turn → Option (Slot × Aired)
hold encode_slice s frame turn = do
  s' ← if is_on_air s.on_air frame then some s else install encode_slice s frame turn.accepted
  rotation ← enqueue_all s'.rotation turn.arrivals
  some (record s' { rotation = rotation }, aired frame turn.accepted s'.handle)

unfoldable pub sleep : Slot → Outgoing → Option (Slot × Aired)
sleep s out = do rotation ← enqueue s.rotation out; some (record s { rotation = rotation }, slept)

unfoldable pub take_turn : Encoder → Slot → Turn → Option (Slot × Aired)
take_turn encode_slice s turn = do
  (rotation, frame) ← next_frame s.rotation
  elim frame [
    | none ↦ sleep (record s { rotation = rotation }) turn.woken
    | some f ↦ hold encode_slice (record s { rotation = rotation }) f turn
  ]

-- The loop over the turns so far; it never returns.
unfoldable pub advertise : Encoder → Slot → List Turn → Option (Slot × List Aired)
advertise encode_slice s [] = some (s, [])
advertise encode_slice s (turn ∷ turns) = do
  (s', a) ← take_turn encode_slice s turn
  (last, later) ← advertise encode_slice s' turns
  some (last, a ∷ later)
