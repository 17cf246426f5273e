-- ===== src/Rotation/Refine.antt =====
-- `RotationN` of crates/poholos/src/rotation.rs implements the schedule, call by call.
use poholos.Prelude.{
  Bool, Bool-cases, List, Option, [], ap, arith, false, inl, inr, is_some, length, none, not, refl,
  some, suc, sym, true, ℕ, ◌&&◌, ◌++◌, ◌==◌, ◌||◌, ◌∙◌, ◌∷◌, ◌≡◌, ◌≤◌,
}
use poholos.Prelude.Panics.{◌>>=◌}
use poholos.Wire.{Frame}
use poholos.Rotation.{
  Own, RelayRing, Rotation, enqueue_own, enqueue_relay, is_empty, new, next_frame, own_turn, spend,
}
use poholos.Rotation.Schedule.{
  Call, Schedule, dwell, next, own_after, plan, shed, submit_own, submit_relay, turn,
}
use poholos.Rotation.Queue.{IsQueue, length-frames_from, pending, pop_front_lem, push_back_lem}

-- An own message in rotation has between one and twenty turns left.
unfoldable pub IsOwn : Option Own → Type 0
IsOwn none = Unit {0}
IsOwn (some own) = (1 ≤ own.dwells_left) × (own.dwells_left ≤ 20)

pub record IsRotation (r : Rotation) : Type 0 where
  pub queue : IsQueue r.relays
  pub own_fits : IsOwn r.own

abbrev pub schedule : Rotation → Schedule
schedule r = record { own = r.own; waiting = pending r.relays; last_was_own = r.last_was_own }

pub new-IsRotation : (cap : ℕ) → IsRotation (new cap)
unfolding new IsOwn
new-IsRotation cap = record {
  queue = record { size = refl; head_in = omega arith; len_in = omega arith };
  own_fits = tt;
}

spend_lem :
    (own : Own) → IsOwn (some own) → (spend own ≡ some (own_after own)) × IsOwn (own_after own)
unfolding spend own_after IsOwn
spend_lem own v = ground (arith, v)

-- What a call of `next_frame` has to do.
abbrev Advances : Rotation → Schedule → Option Frame → Type 0
Advances r s frame =
    (after : Rotation) × (next_frame r ≡ some (after, frame))
    × (schedule after ≡ s)
    × IsRotation after

empty_lem : (ring : RelayRing) → pending ring ≡ [] → (ring.len == 0) ≡ true
empty_lem ring e =
    let zero_len : ring.len ≡ 0 =
      sym (length-frames_from ring.slots ring.head ring.len) ∙ ap length e in
    ground arith

cons_head : {x y : Frame} {xs ys : List Frame} → x ∷ xs ≡ y ∷ ys → x ≡ y
cons_head e = cc

cons_tail : {x y : Frame} {xs ys : List Frame} → x ∷ xs ≡ y ∷ ys → xs ≡ ys
cons_tail e = cc

relay_turn :
    (r : Rotation) (x : Frame) (xs : List Frame)
    → IsRotation r
    → pending r.relays ≡ x ∷ xs
    → (r.last_was_own || not (is_some r.own)) ≡ true
    → Advances r (record { own = r.own; waiting = xs; last_was_own = false }) (some x)
unfolding next_frame
relay_turn r x xs v h his_turn =
    let long : suc (length xs) ≡ r.relays.len =
      sym (ap length h) ∙ length-frames_from r.relays.slots r.relays.head r.relays.len in
    let some_left : (r.relays.len == 0) ≡ false = ground arith in
    let (relays, y, e, vq, k) = pop_front_lem r.relays v.queue (omega arith) in
    let same : y ∷ pending relays ≡ x ∷ xs = sym k ∙ h in
    (
      record r { relays = relays; last_was_own = false },
      rw (some_left, his_turn, e)
          (ap (λ z. some (record r { relays = relays; last_was_own = false }, some z))
            (cons_head same)),
      ap (λ zs. record { own = r.own; waiting = zs; last_was_own = false }) (cons_tail same),
      record { queue = vq; own_fits = v.own_fits },
    )

own-Advances :
    (r : Rotation) (own : Own)
    → IsRotation r
    → IsOwn (some own)
    → r.own ≡ some own
    → (not (is_empty r.relays) && (r.last_was_own || not (is_some r.own))) ≡ false
    → Advances r
        (record { own = own_after own; waiting = pending r.relays; last_was_own = true })
        (some own.frame)
unfolding next_frame own_turn
own-Advances r own v vo e his_turn =
    let (s, w) = spend_lem own vo in
    (
      record r { own = own_after own; last_was_own = true },
      rw his_turn (ap (own_turn r) e ∙ rw s refl),
      refl,
      record { queue = v.queue; own_fits = w },
    )

advance :
    (own : Option Own) (relays : RelayRing) (last : Bool) (waiting : List Frame)
    → IsQueue relays
    → IsOwn own
    → pending relays ≡ waiting
    → Advances
        (record { own = own; relays = relays; last_was_own = last })
        (turn own waiting last).0
        (turn own waiting last).1
unfolding turn
advance none relays true (x ∷ xs) vq vo h =
    relay_turn (record { own = none; relays = relays; last_was_own = true }) x xs
      (record { queue = vq; own_fits = vo }) h refl
advance none relays false (x ∷ xs) vq vo h =
    relay_turn (record { own = none; relays = relays; last_was_own = false }) x xs
      (record { queue = vq; own_fits = vo }) h refl
advance (some own) relays true (x ∷ xs) vq vo h =
    relay_turn (record { own = some own; relays = relays; last_was_own = true }) x xs
      (record { queue = vq; own_fits = vo }) h refl
advance (some own) relays false (x ∷ xs) vq vo h =
    let r : Rotation = record { own = some own; relays = relays; last_was_own = false } in
    rw (← h) (
      own-Advances r own (record { queue = vq; own_fits = vo }) vo refl
        (elim (Bool-cases (is_empty relays)) [ inl e ↦ rw e refl | inr e ↦ rw e refl ]))
advance (some own) relays last [] vq vo h =
    let r : Rotation = record { own = some own; relays = relays; last_was_own = last } in
    rw (← h) (
      own-Advances r own (record { queue = vq; own_fits = vo }) vo refl
        (rw (empty_lem relays h) refl))
advance none relays last [] vq vo h =
    let r : Rotation = record { own = none; relays = relays; last_was_own = last } in
    (
      r,
      (unfold next_frame own_turn in rw (empty_lem relays h) refl),
      ap (λ xs. record { own = none; waiting = xs; last_was_own = last }) h,
      record { queue = vq; own_fits = vo },
    )

-- `next_frame` on a well-formed rotation does not panic, hands out the frame of the schedule's
-- next turn, and leaves a well-formed rotation that stands where the schedule does.
pub next_frame_lem :
    (r : Rotation)
    → IsRotation r
    → (after : Rotation) × (next_frame r ≡ some (after, (next (schedule r)).1))
      × (schedule after ≡ (next (schedule r)).0)
      × IsRotation after
next_frame_lem r v =
    advance r.own r.relays r.last_was_own (pending r.relays) v.queue v.own_fits refl

pub enqueue_own-IsRotation :
    (r : Rotation) (frame : Frame) → IsRotation r → IsRotation (enqueue_own r frame)
unfolding enqueue_own IsOwn
enqueue_own-IsRotation r frame v = record { queue = v.queue; own_fits = (omega arith, omega arith) }

pub enqueue_relay_lem :
    (r : Rotation) (frame : Frame)
    → IsRotation r
    → (after : Rotation) × (enqueue_relay r frame ≡ some after)
      × (schedule after ≡ record (schedule r) { waiting = shed (pending r.relays ++ (frame ∷ [])) })
      × IsRotation after
unfolding enqueue_relay
enqueue_relay_lem r frame v =
    let (relays, e, vq, k) = push_back_lem r.relays frame v.queue in
    (
      record r { relays = relays },
      rw e refl,
      ap (λ xs. record (schedule r) { waiting = xs }) k,
      record { queue = vq; own_fits = v.own_fits },
    )

-- The calls of a driver on the rotation: the frames handed out, and the state after them.
unfoldable pub run : Rotation → List Call → Option (Rotation × List (Option Frame))
run r [] = some (r, [])
run r (submit_own frame ∷ calls) = run (enqueue_own r frame) calls
run r (submit_relay frame ∷ calls) = do r' ← enqueue_relay r frame; run r' calls
run r (dwell ∷ calls) = do
  (r', frame) ← next_frame r
  (last, frames) ← run r' calls
  some (last, frame ∷ frames)

-- From a well-formed rotation any sequence of calls runs without a panic, hands out the frames
-- that the schedule plans, and leaves a well-formed rotation that stands where the schedule does.
pub run_lem :
    (r : Rotation) (calls : List Call)
    → IsRotation r
    → (after : Rotation) × (run r calls ≡ some (after, (plan (schedule r) calls).1))
      × (schedule after ≡ (plan (schedule r) calls).0)
      × IsRotation after
unfolding run plan enqueue_own
run_lem r [] v = (r, refl, refl, v)
run_lem r (submit_own frame ∷ calls) v =
    run_lem (enqueue_own r frame) calls (enqueue_own-IsRotation r frame v)
run_lem r (submit_relay frame ∷ calls) v =
    let (r', e, k, v') = enqueue_relay_lem r frame v in
    let (after, d, t, w) = run_lem r' calls v' in
    (
      after,
      rw e (d ∙ ap (λ s. some (after, (plan s calls).1)) k),
      t ∙ ap (λ s. (plan s calls).0) k,
      w,
    )
run_lem r (dwell ∷ calls) v =
    let (r', e, k, v') = next_frame_lem r v in
    let (after, d, t, w) = run_lem r' calls v' in
    (
      after,
      rw (e, d) (ap (λ s. some (after, (next (schedule r)).1 ∷ (plan s calls).1)) k),
      t ∙ ap (λ s. (plan s calls).0) k,
      w,
    )
