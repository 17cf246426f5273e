-- ===== src/Rotation/Holds.antt =====
-- What all frames of the rotation of crates/poholos/src/rotation.rs have in common, call by call.
use poholos.Prelude.{
  All, All-append, All-drop, Bool, Bool-cases, List, Option, [], false, inl, inr, length, ltb, none,
  some, subst, sym, true, ◌++◌, ◌-◌, ◌∷◌, ◌≡◌,
}
use poholos.Wire.{Frame}
use poholos.Rotation.{Own, Rotation, enqueue_own, enqueue_relay, next_frame}
use poholos.Rotation.Schedule.{Schedule, next, own_after, shed, turn}
use poholos.Rotation.Refine.{
  IsRotation, enqueue_own-IsRotation, enqueue_relay_lem, next_frame_lem, schedule,
}

abbrev pub AllOwn {κ} : (Frame → Type κ) → Option Own → Type κ
AllOwn P none = Unit {κ}
AllOwn P (some own) = P own.frame

abbrev pub AllFrame {κ} : (Frame → Type κ) → Option Frame → Type κ
AllFrame P none = Unit {κ}
AllFrame P (some frame) = P frame

-- Every frame of the schedule is `P`.
pub record Holds {κ} (P : Frame → Type κ) (s : Schedule) : Type κ where
  pub own_holds : AllOwn P s.own
  pub waiting_holds : All P s.waiting

-- A well-formed rotation of such frames.
pub record Rotates {κ} (P : Frame → Type κ) (r : Rotation) : Type κ where
  pub well_formed : IsRotation r
  pub holds : Holds P (schedule r)

module _ {κ} (P : Frame → Type κ) where
  own_after-AllOwn : (own : Own) → P own.frame → AllOwn P (own_after own)
  unfolding own_after
  own_after-AllOwn own h = elim (Bool-cases (ltb 1 own.dwells_left)) [
    | inl e ↦ rw e h
    | inr e ↦ rw e tt
  ]

  turn-Holds :
      (own : Option Own) (waiting : List Frame) (last : Bool)
      → AllOwn P own
      → All P waiting
      → Holds P (turn own waiting last).0 × AllFrame P (turn own waiting last).1
  unfolding turn
  turn-Holds none [] last h hs = (record { own_holds = tt; waiting_holds = tt }, tt)
  turn-Holds none (x ∷ xs) last h hs = (record { own_holds = tt; waiting_holds = hs.1 }, hs.0)
  turn-Holds (some own) [] last h hs =
      (record { own_holds = own_after-AllOwn own h; waiting_holds = tt }, h)
  turn-Holds (some own) (x ∷ xs) true h hs = (record { own_holds = h; waiting_holds = hs.1 }, hs.0)
  turn-Holds (some own) (x ∷ xs) false h hs =
      (record { own_holds = own_after-AllOwn own h; waiting_holds = hs }, h)

  pub next_frame-Rotates :
      (r : Rotation)
      → Rotates P r
      → (after : Rotation) × (frame : Option Frame) × (next_frame r ≡ some (after, frame))
        × Rotates P after
        × AllFrame P frame
  next_frame-Rotates r v =
      let (after, e, k, w) = next_frame_lem r v.well_formed in
      let (h, hf) =
        turn-Holds r.own (schedule r).waiting r.last_was_own v.holds.own_holds
          v.holds.waiting_holds in
      (
        after,
        (next (schedule r)).1,
        e,
        record { well_formed = w; holds = subst (Holds P) (sym k) h },
        hf,
      )

  pub enqueue_own-Rotates :
      (r : Rotation) (frame : Frame) → Rotates P r → P frame → Rotates P (enqueue_own r frame)
  unfolding enqueue_own
  enqueue_own-Rotates r frame v h = record {
    well_formed = enqueue_own-IsRotation r frame v.well_formed;
    holds = record { own_holds = h; waiting_holds = v.holds.waiting_holds };
  }

  pub enqueue_relay-Rotates :
      (r : Rotation) (frame : Frame)
      → Rotates P r
      → P frame
      → (after : Rotation) × (enqueue_relay r frame ≡ some after) × Rotates P after
  unfolding shed
  enqueue_relay-Rotates r frame v h =
      let (after, e, k, w) = enqueue_relay_lem r frame v.well_formed in
      let waiting = (schedule r).waiting ++ (frame ∷ []) in
      let kept : Holds P (record (schedule r) { waiting = shed waiting }) = record {
        own_holds = v.holds.own_holds;
        waiting_holds =
            All-drop P (length waiting - 8) waiting
              (All-append P (schedule r).waiting (frame ∷ []) v.holds.waiting_holds (h, tt));
      } in
      (after, e, record { well_formed = w; holds = subst (Holds P) (sym k) kept })
