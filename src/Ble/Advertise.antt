-- ===== src/Ble/Advertise.antt =====
-- crates/poholos-cli/src/transport/ble/mod.rs: what is queued for the radio, and the loop that puts
-- it on the air. `none` is a panic.
use poholos.Prelude.{
  Bool, List, Option, Outcome, [], err, false, if◌then◌else◌, leb, ltb, none, ok, some, true, ℕ,
  ◌++◌, ◌∷◌,
}
use poholos.Prelude.Panics.{◌>>=◌}
use poholos.Wire.{Frame}
use poholos.Rotation.{Rotation, enqueue_own, enqueue_relay, next_frame}
use poholos.Rotation.Fair.{same_frame}

pub data Outgoing : Type 0 where
  own : Frame → Outgoing
  relay : Frame → Outgoing

-- How the sends of the transports fail; the last is that of UDP.
pub data SendError : Type 0 where
  too_long stopped socket_failed : SendError

-- `BleTransport`: the queue to the advertiser task, and whether the task still takes from it. The
-- channel's bound only makes a sender wait.
pub record BleTransport : Type 0 where
  pub out : List Outgoing
  pub alive : Bool

unfoldable pub send : BleTransport → Outgoing → BleTransport × Outcome SendError (Unit {0})
send t outgoing =
    if t.alive then (record t { out = t.out ++ (outgoing ∷ []) }, ok tt) else (t, err stopped)

-- `max_frame` is the platform's `MAX_FRAME`.
unfoldable pub send_own : ℕ → BleTransport → Frame → BleTransport × Outcome SendError (Unit {0})
send_own max_frame t frame =
    if leb frame.len max_frame then send t (own frame) else (t, err too_long)

unfoldable pub send_relay : ℕ → BleTransport → Frame → BleTransport × Outcome SendError (Unit {0})
send_relay max_frame t frame = if ltb max_frame frame.len then (t, ok tt) else send t (relay frame)

unfoldable pub enqueue : Rotation → Outgoing → Option Rotation
enqueue rotation (own frame) = some (enqueue_own rotation frame)
enqueue rotation (relay frame) = enqueue_relay rotation frame

unfoldable pub enqueue_all : Rotation → List Outgoing → Option Rotation
enqueue_all rotation [] = some rotation
enqueue_all rotation (out ∷ outs) = do rotation' ← enqueue rotation out; enqueue_all rotation' outs

unfoldable pub record_on_air : Option Frame → Frame → Bool → Option Frame
record_on_air on_air frame registered = if registered then some frame else none

-- `on_air != Some(frame)`.
unfoldable pub is_on_air : Option Frame → Frame → Bool
is_on_air none frame = false
is_on_air (some g) frame = same_frame frame g

-- A platform's `Advertiser`: its state, what the platform's Bluetooth stack answers to the calls of
-- one `set_frame`, and `set_frame`, whose Boolean is `Ok`.
pub record Platform : Type 1 where
  pub State : Type 0
  pub Answers : Type 0
  pub set_frame : State → Frame → Answers → Option (State × Bool)

module _ (p : Platform) where
  -- The loop's variables.
  pub record Loop : Type 0 where
    pub rotation : Rotation
    pub on_air : Option Frame
    pub advertiser : p.State

  -- What one pass meets: the frame that wakes it when it sleeps, what the stack answers, and the
  -- frames queued during the dwell, which the end of the queue cuts short.
  pub record Input : Type 0 where
    pub woken : Option Outgoing
    pub answers : p.Answers
    pub arrivals : List Outgoing
    pub closes : Bool

  -- A turn with its frame, the end of its `set_frame` if there was one, and the advertiser then.
  pub data Pass : Type 0 where
    slept : Pass
    dropped : Pass
    aired : Frame → Option Bool → p.State → Pass

  -- A pass in which the rotation hands out nothing.
  unfoldable pub sleep : Loop → Option Outgoing → Option (Loop × Pass)
  sleep l none = some (l, dropped)
  sleep l (some out) = do
    rotation ← enqueue l.rotation out
    some (record l { rotation = rotation }, slept)

  -- The frame is registered, unless it is believed to be on the air.
  unfoldable pub register : Loop → Frame → p.Answers → Option (Loop × Option Bool)
  register l frame answers = if is_on_air l.on_air frame then some (l, none) else (do
    (advertiser, registered) ← p.set_frame l.advertiser frame answers
    some (
      record l { on_air = record_on_air l.on_air frame registered; advertiser = advertiser },
      some registered,
    ))

  -- A pass that gives `frame` its dwell.
  unfoldable pub air : Loop → Frame → Input → Option (Loop × Pass)
  air l frame input = do
    (l', registered) ← register l frame input.answers
    rotation ← enqueue_all l'.rotation input.arrivals
    some (record l' { rotation = rotation }, aired frame registered l'.advertiser)

  unfoldable pub pass : Loop → Input → Option (Loop × Pass)
  pass l input = do
    (rotation, frame) ← next_frame l.rotation
    elim frame [
      | none ↦ sleep (record l { rotation = rotation }) input.woken
      | some f ↦ air (record l { rotation = rotation }) f input
    ]

  -- The loop returns when the transport is dropped.
  unfoldable pub returns : Input → Pass → Bool
  returns input slept = false
  returns input dropped = true
  returns input (aired frame registered advertiser) = input.closes

  unfoldable pub advertise_loop : Loop → List Input → Option (Loop × List Pass)
  advertise_loop l [] = some (l, [])
  advertise_loop l (input ∷ inputs) = do
    (l', done) ← pass l input
    if returns input done
        then some (l', done ∷ [])
        else (do (last, passes) ← advertise_loop l' inputs; some (last, done ∷ passes))
