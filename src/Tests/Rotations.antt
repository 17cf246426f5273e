-- ===== src/Tests/Rotations.antt =====
-- Runs of the theorems on a rotation.
use poholos.Prelude.{List, Option, [], arith, min, refl, replicate, some, true, ◌/◌, ◌∷◌, ◌≡◌, ◌≤◌}
use poholos.Wire.{Frame}
use poholos.Wire.Layout.{frame_of}
use poholos.Rotation.{RelayRing, Rotation, enqueue_own, own_dwells}
use poholos.Rotation.Schedule.{Call, dwell, plan, submit_relay}
use poholos.Rotation.Queue.{IsQueue}
use poholos.Rotation.Refine.{IsOwn, IsRotation, run, run_lem, schedule}
use poholos.Rotation.Fair.{IsQuiet, airtime, dwells, enqueue_own-airtime}
use poholos.Tests.Data.{hi, ping_bytes}

abbrev pub mine : Frame
mine = frame_of 22 hi

abbrev pub theirs : Frame
theirs = frame_of 22 ping_bytes

abbrev turns : List Call
turns = submit_relay theirs ∷ submit_relay theirs ∷ dwell ∷ dwell ∷ dwell ∷ dwell ∷ dwell ∷ []

turns-IsQuiet : IsQuiet turns
unfolding IsQuiet
turns-IsQuiet = tt

-- A queue whose frames go round the end of the slots.
abbrev pub round_ring : RelayRing
round_ring = record { slots = replicate 8 theirs; head = 7; len = 2 }

round_ring-IsQueue : IsQueue round_ring
round_ring-IsQueue = record { size = refl; head_in = omega arith; len_in = omega arith }

abbrev pub busy : Rotation
busy = record {
  own = some (record { frame = mine; dwells_left = 3 });
  relays = round_ring;
  last_was_own = true;
}

pub busy-IsRotation : IsRotation busy
unfolding IsOwn
busy-IsRotation = record { queue = round_ring-IsQueue; own_fits = (omega arith, omega arith) }

run_lem_example :
    (after : Rotation) × (run busy turns ≡ some (after, (plan (schedule busy) turns).1))
    × (schedule after ≡ (plan (schedule busy) turns).0)
    × IsRotation after
run_lem_example = run_lem busy turns busy-IsRotation

enqueue_own-airtime_example :
    (after : Rotation) × (out : List (Option Frame)) × (run (enqueue_own busy mine) turns
      ≡ some (after, out))
    × (min own_dwells (dwells turns / 2) ≤ airtime mine out)
enqueue_own-airtime_example = enqueue_own-airtime busy mine turns busy-IsRotation turns-IsQuiet
