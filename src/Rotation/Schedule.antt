-- ===== src/Rotation/Schedule.antt =====
-- What the rotation of crates/poholos/src/rotation.rs promises: turns that alternate between the
-- own message and a queue of relays, as plain lists.
use poholos.Prelude.{
  Bool, List, Option, [], drop, false, if◌then◌else◌, length, ltb, none, some, true, ◌++◌, ◌-◌, ◌∷◌,
}
use poholos.Wire.{Frame}
use poholos.Rotation.{Own, own_dwells, relay_queue}

pub record Schedule : Type 0 where
  pub own : Option Own
  pub waiting : List Frame
  pub last_was_own : Bool

-- Of the waiting relays the eight newest are kept.
unfoldable pub shed : List Frame → List Frame
shed xs = drop (length xs - relay_queue) xs

unfoldable pub own_after : Own → Option Own
own_after own =
    if ltb 1 own.dwells_left then some (record own { dwells_left = own.dwells_left - 1 }) else none

-- The next turn: by what the own message, the queue and the previous turn are.
unfoldable pub turn : Option Own → List Frame → Bool → Schedule × Option Frame
turn none [] last = (record { own = none; waiting = []; last_was_own = last }, none)
turn none (x ∷ xs) last = (record { own = none; waiting = xs; last_was_own = false }, some x)
turn (some own) [] last =
    (record { own = own_after own; waiting = []; last_was_own = true }, some own.frame)
turn (some own) (x ∷ xs) true =
    (record { own = some own; waiting = xs; last_was_own = false }, some x)
turn (some own) (x ∷ xs) false =
    (record { own = own_after own; waiting = x ∷ xs; last_was_own = true }, some own.frame)

abbrev pub next : Schedule → Schedule × Option Frame
next s = turn s.own s.waiting s.last_was_own

-- The calls of a driver.
pub data Call : Type 0 where
  submit_own : Frame → Call
  submit_relay : Frame → Call
  dwell : Call

-- The frames handed out by a sequence of calls, and the state after it.
unfoldable pub plan : Schedule → List Call → Schedule × List (Option Frame)
plan s [] = (s, [])
plan s (submit_own frame ∷ calls) =
    plan (record s { own = some (record { frame = frame; dwells_left = own_dwells }) }) calls
plan s (submit_relay frame ∷ calls) =
    plan (record s { waiting = shed (s.waiting ++ (frame ∷ [])) }) calls
plan s (dwell ∷ calls) =
    let (s', frame) = next s in let (last, frames) = plan s' calls in (last, frame ∷ frames)
