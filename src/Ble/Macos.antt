-- ===== src/Ble/Macos.antt =====
-- `Advertiser` of crates/poholos-cli/src/transport/ble/macos.rs. `none` is a panic.
use poholos.Prelude.{
  Bool, Bool-cases, List, Option, arith, false, if◌then◌else◌, inl, inr, is_some, ltb, ltb-false→le,
  ltb→lt, none, refl, some, true, ℕ, ◌<◌, ◌≡◌, ◌≤◌, ◌⊎◌,
}
use poholos.Prelude.Panics.{◌>>=◌}
use poholos.Wire.{Frame, as_bytes}
use poholos.Wire.Frames.{IsExtFrame}
use poholos.Wire.Layout.{frame_of}
use poholos.Ble.Advertise.{Platform}
use poholos.Ble.Uuid.{
  frame_from-frame_to, frame_from_service_uuid, frame_to_service_uuid, max_uuid_frame, min_frame,
}

abbrev pub max_frame : ℕ
max_frame = max_uuid_frame

-- The flag, and the service UUID that CoreBluetooth advertises.
pub record Advertiser : Type 0 where
  pub advertising : Bool
  pub service : Option (List ℕ)

-- Whether the calls succeed.
pub record Answers : Type 0 where
  pub stop : Bool
  pub start : Bool

unfoldable pub start_advertising : Advertiser → List ℕ → Bool → Advertiser × Bool
start_advertising a uuid started =
    if started then (record a { advertising = true; service = some uuid }, true) else (a, false)

unfoldable pub replace : Advertiser → List ℕ → Answers → Advertiser × Bool
replace a uuid answers =
    if a.advertising
    then (if answers.stop
        then start_advertising (record { advertising = false; service = none }) uuid answers.start
        else (a, false))
    else start_advertising a uuid answers.start

unfoldable pub set_frame : Advertiser → Frame → Answers → Option (Advertiser × Bool)
set_frame a frame answers =
    if ltb max_frame frame.len
    then some (a, false)
    else (do uuid ← frame_to_service_uuid frame; some (replace a uuid answers))

abbrev pub macos : Platform
macos = record { State = Advertiser; Answers = Answers; set_frame = set_frame }

-- The flag is true exactly when something is advertised.
abbrev pub IsAdvertiser : Advertiser → Type 0
IsAdvertiser a = a.advertising ≡ is_some a.service

-- A frame long enough to be one.
abbrev pub Fits : Frame → Type 0
Fits frame = (min_frame ≤ frame.len) × IsExtFrame frame

-- How `replace` can end: the new UUID is advertised, the old one could not be stopped and still is, or
-- nothing is.
abbrev pub Replaces : Advertiser → List ℕ → Answers → Advertiser × Bool → Type 0
Replaces a uuid answers (after, done) =
    ((done ≡ true) × (after.service ≡ some uuid))
    ⊎ ((done ≡ false) × (is_some a.service ≡ true) × (answers.stop ≡ false) × (after ≡ a))
    ⊎ ((done ≡ false) × (answers.start ≡ false) × (after.service ≡ none))

replace_lem :
    (advertising : Bool) (service : Option (List ℕ)) (stop start : Bool) (uuid : List ℕ)
    → advertising ≡ is_some service
    → let a : Advertiser = record { advertising = advertising; service = service } in
      let answers : Answers = record { stop = stop; start = start } in
      IsAdvertiser (replace a uuid answers).0 × Replaces a uuid answers (replace a uuid answers)
unfolding replace start_advertising
replace_lem true none stop start uuid h = cc
replace_lem false (some old) stop start uuid h = cc
replace_lem true (some old) false start uuid h = (refl, inr (inl (refl, refl, refl, refl)))
replace_lem true (some old) true true uuid h = (refl, inl (refl, refl))
replace_lem true (some old) true false uuid h = (refl, inr (inr (refl, refl, refl)))
replace_lem false none stop true uuid h = (refl, inl (refl, refl))
replace_lem false none stop false uuid h = (refl, inr (inr (refl, refl, refl)))

-- The same of `set_frame`, which leaves all as it is for a frame that is too long.
abbrev pub Ends : Advertiser → Frame → Answers → Advertiser → Bool → Type 0
Ends a frame answers after done =
    ((done ≡ false) × (max_frame < frame.len) × (after ≡ a))
    ⊎ ((frame.len ≤ max_frame)
        × (uuid : List ℕ) × (frame_from_service_uuid uuid
            ≡ some (some (frame_of 211 (as_bytes frame))))
        × Replaces a uuid answers (after, done))

-- On macOS, from a state whose flag tells whether a service is advertised, `set_frame` with a
-- frame of 7 to 211 bytes does not panic and leaves such a state. It fails and changes nothing for
-- a frame above 15 bytes. For another it succeeds, and the service advertised is a UUID that a
-- scanner reads as a frame of the same bytes; or it fails and changes nothing, because a service
-- was advertised and could not be stopped; or it fails because the start failed, and nothing is
-- advertised.
pub set_frame-Ends :
    (a : Advertiser) (frame : Frame) (answers : Answers)
    → IsAdvertiser a
    → Fits frame
    → (after : Advertiser) × (done : Bool) × (set_frame a frame answers ≡ some (after, done))
      × IsAdvertiser after
      × Ends a frame answers after done
unfolding set_frame
set_frame-Ends a frame answers v h = elim (Bool-cases (ltb max_frame frame.len)) [
  | inl long ↦ (a, false, rw long refl, v, inl (refl, ltb→lt max_frame frame.len long, refl))
  | inr short ↦
      let fits : frame.len ≤ 15 = ltb-false→le max_frame frame.len short in
      let (uuid, e, sized, back) =
        frame_from-frame_to frame (omega (arith, h.0, h.1.0)) (omega (arith, fits, h.1.0)) in
      let (w, k) = replace_lem a.advertising a.service answers.stop answers.start uuid v in
      (
        (replace a uuid answers).0,
        (replace a uuid answers).1,
        rw (short, e) refl,
        w,
        inr (fits, uuid, back, k),
      )
]
