-- ===== src/Rotation.antt =====
-- crates/poholos/src/rotation.rs: who holds the advertising slot next. `none` is a panic: an index
-- out of range, or `dwells_left` below zero.
pub mod Schedule
pub mod Queue
pub mod Refine
pub mod Holds
pub mod Fair
pub mod Drain
use poholos.Prelude.{
  Bool, List, Option, false, get_elem?, if◌then◌else◌, is_some, length, ltb, none, not, replicate,
  set, some, true, ℕ, ◌%◌, ◌&&◌, ◌+◌, ◌-◌, ◌==◌, ◌||◌,
}
use poholos.Prelude.Panics.{◌>>=◌}
use poholos.Wire.{Frame, empty_frame}

abbrev pub own_dwells : ℕ
own_dwells = 20

abbrev pub relay_queue : ℕ
relay_queue = 8

-- `RelayRing<CAP>`; `head` is the slot of the oldest pending relay.
pub record RelayRing : Type 0 where
  pub slots : List Frame
  pub head : ℕ
  pub len : ℕ

pub record Own : Type 0 where
  pub frame : Frame
  pub dwells_left : ℕ

-- `RotationN<CAP>`.
pub record Rotation : Type 0 where
  pub own : Option Own
  pub relays : RelayRing
  pub last_was_own : Bool

abbrev pub empty_ring : ℕ → RelayRing
empty_ring cap = record { slots = replicate relay_queue (empty_frame cap); head = 0; len = 0 }

abbrev pub is_empty : RelayRing → Bool
is_empty ring = ring.len == 0

-- The write at the end of `push_back`.
unfoldable pub put : RelayRing → Frame → Option RelayRing
put ring frame =
    let at = (ring.head + ring.len) % relay_queue in
    if ltb at (length ring.slots)
    then some (record ring { slots = set ring.slots at frame; len = ring.len + 1 })
    else none

unfoldable pub push_back : RelayRing → Frame → Option RelayRing
push_back ring frame =
    if ring.len == relay_queue
    then put (record ring { head = (ring.head + 1) % relay_queue; len = ring.len - 1 }) frame
    else put ring frame

unfoldable pub pop_front : RelayRing → Option (RelayRing × Option Frame)
pop_front ring = if ring.len == 0 then some (ring, none) else (do
  frame ← get_elem? ring.slots ring.head
  some (record ring { head = (ring.head + 1) % relay_queue; len = ring.len - 1 }, some frame))

unfoldable pub new : ℕ → Rotation
new cap = record { own = none; relays = empty_ring cap; last_was_own = false }

unfoldable pub enqueue_own : Rotation → Frame → Rotation
enqueue_own r frame = record r { own = some (record { frame = frame; dwells_left = own_dwells }) }

unfoldable pub enqueue_relay : Rotation → Frame → Option Rotation
enqueue_relay r frame = do relays ← push_back r.relays frame; some (record r { relays = relays })

-- The own message after one more of its turns.
unfoldable pub spend : Own → Option (Option Own)
spend own =
    if own.dwells_left == 0
    then none
    else if own.dwells_left - 1 == 0
    then some none
    else some (some (record own { dwells_left = own.dwells_left - 1 }))

-- The own turn of `next_frame`.
unfoldable pub own_turn : Rotation → Option Own → Option (Rotation × Option Frame)
own_turn r none = some (r, none)
own_turn r (some own) = do
  own' ← spend own
  some (record r { own = own'; last_was_own = true }, some own.frame)

unfoldable pub next_frame : Rotation → Option (Rotation × Option Frame)
next_frame r =
    if not (is_empty r.relays) && (r.last_was_own || not (is_some r.own))
    then (do
      (relays, frame) ← pop_front r.relays
      some (record r { relays = relays; last_was_own = false }, frame))
    else own_turn r r.own
