-- ===== src/Rotation/Fair.antt =====
-- How `RotationN` of crates/poholos/src/rotation.rs shares the airtime.
use poholos.Prelude.{
  ==_refl, Bool, Bool-cases, List, Option, [], ap₂, arith, false, if◌then◌else◌, inl, inr, ltb,
  ltb-false→le, min, none, refl, some, suc, true, ℕ, ◌&&◌, ◌++◌, ◌+◌, ◌-◌, ◌/◌, ◌==◌, ◌∷◌, ◌≡◌, ◌≤◌,
}
use poholos.Wire.{Frame}
use poholos.Rotation.{Own, Rotation, enqueue_own, own_dwells}
use poholos.Rotation.Schedule.{
  Call, Schedule, dwell, own_after, plan, shed, submit_own, submit_relay, turn,
}
use poholos.Rotation.Queue.{pending}
use poholos.Rotation.Refine.{IsRotation, enqueue_own-IsRotation, run, run_lem, schedule}

-- The derived equality of `FrameN`.
unfoldable pub same_bytes : List ℕ → List ℕ → Bool
same_bytes [] [] = true
same_bytes [] (y ∷ ys) = false
same_bytes (x ∷ xs) [] = false
same_bytes (x ∷ xs) (y ∷ ys) = (x == y) && same_bytes xs ys

unfoldable pub same_frame : Frame → Frame → Bool
same_frame f g = same_bytes f.buf g.buf && (f.len == g.len)

-- How often a frame was handed out.
unfoldable pub airtime : Frame → List (Option Frame) → ℕ
airtime f [] = 0
airtime f (none ∷ out) = airtime f out
airtime f (some g ∷ out) = if same_frame f g then suc (airtime f out) else airtime f out

-- Calls of `next_frame` and `enqueue_relay` alone, and how many are of `next_frame`.
unfoldable pub IsQuiet : List Call → Type 0
IsQuiet [] = Unit {0}
IsQuiet (submit_own f ∷ calls) = ⊥
IsQuiet (submit_relay f ∷ calls) = IsQuiet calls
IsQuiet (dwell ∷ calls) = IsQuiet calls

unfoldable pub dwells : List Call → ℕ
dwells [] = 0
dwells (dwell ∷ calls) = suc (dwells calls)
dwells (submit_own f ∷ calls) = dwells calls
dwells (submit_relay f ∷ calls) = dwells calls

same_frame_refl : (f : Frame) → same_frame f f ≡ true
unfolding same_frame same_bytes
same_frame_refl f = rw (same f.buf) (==_refl f.len)
  where
    same : (xs : List ℕ) → same_bytes xs xs ≡ true
    same [] = refl
    same (x ∷ xs) = rw (==_refl x) (same xs)

same_bytes_sound : (xs ys : List ℕ) → same_bytes xs ys ≡ true → xs ≡ ys
unfolding same_bytes
same_bytes_sound [] [] h = refl
same_bytes_sound [] (y ∷ ys) h = ground (arith, h)
same_bytes_sound (x ∷ xs) [] h = ground (arith, h)
same_bytes_sound (x ∷ xs) (y ∷ ys) h =
    ap₂ ◌∷◌ (ground (arith, h)) (same_bytes_sound xs ys (ground (arith, h)))

pub same_frame_sound : (f g : Frame) → same_frame f g ≡ true → f ≡ g
unfolding same_frame
same_frame_sound f g h =
    let buf = same_bytes_sound f.buf g.buf (ground (arith, h)) in
    let len : f.len ≡ g.len = ground (arith, h) in ap₂ (λ n b. record { len = n; buf = b }) len buf

airtime_self :
    (f : Frame) (out : List (Option Frame)) → airtime f (some f ∷ out) ≡ suc (airtime f out)
unfolding airtime
airtime_self f out = rw (same_frame_refl f) refl

airtime-le : (f g : Frame) (out : List (Option Frame)) → airtime f out ≤ airtime f (some g ∷ out)
unfolding airtime
airtime-le f g out = ground arith

abbrev turn_bonus : Bool → ℕ
turn_bonus true = 0
turn_bonus false = 1

abbrev after_own : Option Own → List Frame → Schedule
after_own own waiting = record { own = own; waiting = waiting; last_was_own = true }

abbrev one_less : Own → Own
one_less own = record own { dwells_left = own.dwells_left - 1 }

own_turn_served :
    (own : Own) (waiting : List Frame) (calls : List Call) (b : ℕ)
    → b ≤ 1
    → 1 ≤ own.dwells_left
    → (1 ≤ own.dwells_left - 1
        → min (own.dwells_left - 1) ((dwells calls + 0) / 2)
          ≤ airtime own.frame (plan (after_own (some (one_less own)) waiting) calls).1)
    → min own.dwells_left ((suc (dwells calls) + b) / 2)
      ≤ airtime own.frame (some own.frame ∷ (plan (after_own (own_after own) waiting) calls).1)
unfolding own_after
own_turn_served own waiting calls b hb h ih = elim (Bool-cases (ltb 1 own.dwells_left)) [
  | inl more ↦
      let left : 1 ≤ own.dwells_left - 1 = ground (arith, more) in
      rw more (
        omega (
          arith,
          ih left,
          airtime_self own.frame (plan (after_own (some (one_less own)) waiting) calls).1,
        ))
  | inr last ↦
      let one : own.dwells_left ≤ 1 = ltb-false→le 1 own.dwells_left last in
      rw last (omega (arith, one, airtime_self own.frame (plan (after_own none waiting) calls).1))
]

own_served :
    (own : Own) (waiting : List Frame) (last : Bool) (calls : List Call)
    → IsQuiet calls
    → 1 ≤ own.dwells_left
    → min own.dwells_left ((dwells calls + turn_bonus last) / 2)
      ≤ airtime own.frame
          (plan (record { own = some own; waiting = waiting; last_was_own = last }) calls).1
unfolding IsQuiet dwells plan turn airtime
own_served own waiting true [] q h = omega arith
own_served own waiting false [] q h = omega arith
own_served own waiting last (submit_own f ∷ calls) q h = absurd q
own_served own waiting last (submit_relay f ∷ calls) q h =
    own_served own (shed (waiting ++ (f ∷ []))) last calls q h
own_served own (x ∷ xs) true (dwell ∷ calls) q h =
    let rest = own_served own xs false calls q h in
    let out = (plan (record { own = some own; waiting = xs; last_was_own = false }) calls).1 in
    omega (arith, rest, airtime-le own.frame x out)
own_served own (x ∷ xs) false (dwell ∷ calls) q h =
    own_turn_served own (x ∷ xs) calls 1 (omega arith) h
      (λ left. own_served (one_less own) (x ∷ xs) true calls q left)
own_served own [] true (dwell ∷ calls) q h =
    own_turn_served own [] calls 0 (omega arith) h
      (λ left. own_served (one_less own) [] true calls q left)
own_served own [] false (dwell ∷ calls) q h =
    own_turn_served own [] calls 1 (omega arith) h
      (λ left. own_served (one_less own) [] true calls q left)

-- After `enqueue_own` on a well-formed rotation, any calls of `next_frame` and `enqueue_relay` run
-- without a panic, and the own frame is handed out in half of the turns at least, rounded down, or
-- twenty times.
pub enqueue_own-airtime :
    (r : Rotation) (f : Frame) (calls : List Call)
    → IsRotation r
    → IsQuiet calls
    → (after : Rotation) × (out : List (Option Frame)) × (run (enqueue_own r f) calls
        ≡ some (after, out))
      × (min own_dwells (dwells calls / 2) ≤ airtime f out)
unfolding enqueue_own
enqueue_own-airtime r f calls v q =
    let (after, e, k, w) = run_lem (enqueue_own r f) calls (enqueue_own-IsRotation r f v) in
    let mine : Own = record { frame = f; dwells_left = own_dwells } in
    let served = own_served mine (pending r.relays) r.last_was_own calls q (omega arith) in
    (
      after,
      (plan (schedule (enqueue_own r f)) calls).1,
      e,
      omega (arith, half (dwells calls) r.last_was_own, served),
    )
  where
    half : (n : ℕ) (last : Bool) → n / 2 ≤ (n + turn_bonus last) / 2
    half n true = omega arith
    half n false = omega arith
