-- ===== src/Ble/Belief.antt =====
-- The belief of the advertising loop of crates/poholos-cli/src/transport/ble/mod.rs about what is on
-- the air, over any platform.
use poholos.Prelude.{
  All, Bool, Bool-cases, List, Option, Option-cases, [], ap, arith, false, if◌then◌else◌, inl, inr,
  none, refl, some, subst, sym, true, ◌∷◌, ◌≡◌, ◌⊎◌,
}
use poholos.Wire.{Frame}
use poholos.Rotation.{Rotation, enqueue_own}
use poholos.Rotation.Holds.{
  AllFrame, Rotates, enqueue_own-Rotates, enqueue_relay-Rotates, next_frame-Rotates,
}
use poholos.Rotation.Fair.{same_frame_sound}
use poholos.Ble.Advertise.{
  Input, Loop, Outgoing, Pass, Platform, advertise_loop, air, aired, dropped, enqueue, enqueue_all,
  is_on_air, own, pass, record_on_air, register, relay, returns, sleep, slept,
}

pub is_on_air_sound :
    (on_air : Option Frame) (frame : Frame) → is_on_air on_air frame ≡ true → on_air ≡ some frame
unfolding is_on_air
is_on_air_sound none frame h = ground (arith, h)
is_on_air_sound (some g) frame h = ap some (sym (same_frame_sound frame g h))

-- `OnAir a b` says of an advertiser what the belief `b` promises, and `Fits` which frames it is for.
module _ (p : Platform) (Fits : Frame → Type 0) (OnAir : p.State → Option Frame → Type 0) where
  -- What the loop relies on: `set_frame` does not panic, and the belief that the loop records after it
  -- is true.
  abbrev pub IsAdvertiser : Type 0
  IsAdvertiser =
      (a : p.State) (frame : Frame) (answers : p.Answers)
      → Fits frame
      → (after : p.State) × (registered : Bool) × (p.set_frame a frame answers
          ≡ some (after, registered))
        × OnAir after (if registered then some frame else none)

  abbrev pub Carries : Outgoing → Type 0
  Carries (own frame) = Fits frame
  Carries (relay frame) = Fits frame

  abbrev pub CarriesSome : Option Outgoing → Type 0
  CarriesSome none = Unit {0}
  CarriesSome (some out) = Carries out

  -- The frames that a pass meets.
  pub record IsInput (input : Input p) : Type 0 where
    pub wakes : CarriesSome input.woken
    pub arrives : All Carries input.arrivals

  pub record IsLoop (l : Loop p) : Type 0 where
    pub rotates : Rotates Fits l.rotation
    pub belief : OnAir l.advertiser l.on_air

  -- In a turn the frame is on the air, or its `set_frame` failed.
  unfoldable pub IsSound : Pass p → Type 0
  IsSound slept = Unit {0}
  IsSound dropped = Unit {0}
  IsSound (aired frame registered a) =
      OnAir a (some frame) ⊎ ((registered ≡ some false) × OnAir a none)

  enqueue_lem :
      (r : Rotation) (out : Outgoing)
      → Rotates Fits r
      → Carries out
      → (after : Rotation) × (enqueue r out ≡ some after) × Rotates Fits after
  unfolding enqueue
  enqueue_lem r (own frame) v h = (enqueue_own r frame, refl, enqueue_own-Rotates Fits r frame v h)
  enqueue_lem r (relay frame) v h = enqueue_relay-Rotates Fits r frame v h

  enqueue_all_lem :
      (r : Rotation) (outs : List Outgoing)
      → Rotates Fits r
      → All Carries outs
      → (after : Rotation) × (enqueue_all r outs ≡ some after) × Rotates Fits after
  unfolding enqueue_all
  enqueue_all_lem r [] v h = (r, refl, v)
  enqueue_all_lem r (out ∷ outs) v (h, hs) =
      let (r', e, v') = enqueue_lem r out v h in
      let (after, d, w) = enqueue_all_lem r' outs v' hs in (after, rw e d, w)

  -- What a pass leaves.
  abbrev Passes : Option (Loop p × Pass p) → Type 0
  Passes o =
      (after : Loop p) × (done : Pass p) × (o ≡ some (after, done)) × IsLoop after × IsSound done

  sleep-Passes :
      (l : Loop p) (woken : Option Outgoing)
      → IsLoop l
      → CarriesSome woken
      → Passes (sleep p l woken)
  unfolding sleep IsSound
  sleep-Passes l none v h = (l, dropped, refl, v, tt)
  sleep-Passes l (some out) v h =
      let (r, e, w) = enqueue_lem l.rotation out v.rotates h in
      (record l { rotation = r }, slept, rw e refl, record { rotates = w; belief = v.belief }, tt)

  -- What registering leaves, in a turn for `frame`.
  abbrev Registers : Frame → Loop p → Option (Loop p × Option Bool) → Type 0
  Registers frame l o =
      (after : Loop p) × (done : Option Bool) × (o ≡ some (after, done))
      × (after.rotation ≡ l.rotation)
      × OnAir after.advertiser after.on_air
      × IsSound (aired frame done after.advertiser)

  register-Registers :
      (law : IsAdvertiser) (l : Loop p) (frame : Frame) (answers : p.Answers)
      → IsLoop l
      → Fits frame
      → Registers frame l (register p l frame answers)
  unfolding register record_on_air IsSound
  register-Registers law l frame answers v h = elim (Bool-cases (is_on_air l.on_air frame)) [
    | inl already ↦ (
      l,
      none,
      rw already refl,
      refl,
      v.belief,
      inl (subst (OnAir l.advertiser) (is_on_air_sound l.on_air frame already) v.belief),
    )
    | inr changed ↦
        let (a, registered, e, b) = law l.advertiser frame answers h in
        (
          record l { on_air = if registered then some frame else none; advertiser = a },
          some registered,
          rw (changed, e) refl,
          refl,
          b,
          elim (Bool-cases registered) [
            | inl good ↦ inl (subst (λ t. OnAir a (if t then some frame else none)) good b)
            | inr bad ↦
                inr (ap some bad, subst (λ t. OnAir a (if t then some frame else none)) bad b)
          ],
        )
  ]

  air-Passes :
      (law : IsAdvertiser) (l : Loop p) (frame : Frame) (input : Input p)
      → IsLoop l
      → Fits frame
      → IsInput input
      → Passes (air p l frame input)
  unfolding air
  air-Passes law l frame input v h hi =
      let (l', done, e, k, b, s) = register-Registers law l frame input.answers v h in
      let (r, d, w) =
        enqueue_all_lem l'.rotation input.arrivals (subst (Rotates Fits) (sym k) v.rotates)
          hi.arrives in
      (
        record l' { rotation = r },
        aired frame done l'.advertiser,
        rw (e, d) refl,
        record { rotates = w; belief = b },
        s,
      )

  pass-Passes :
      (law : IsAdvertiser) (l : Loop p) (input : Input p)
      → IsLoop l
      → IsInput input
      → Passes (pass p l input)
  unfolding pass
  pass-Passes law l input v hi =
      let (r, frame, e, w, h) = next_frame-Rotates Fits l.rotation v.rotates in
      let l' : Loop p = record l { rotation = r } in
      let v' : IsLoop l' = record { rotates = w; belief = v.belief } in
      elim (Option-cases frame) [
        | inl idle ↦ rw (e, idle) (sleep-Passes l' input.woken v' hi.wakes)
        | inr (f, picked) ↦
            rw (e, picked) (air-Passes law l' f input v' (subst (AllFrame Fits) picked h) hi)
      ]

  -- Over a platform whose `set_frame` does not panic on the frames it is for and leaves on the air
  -- what the belief recorded after it promises, from a well-formed rotation of such frames and a
  -- true belief, `advertise_loop` does not panic over any inputs with such frames. It ends with a
  -- well-formed rotation and a true belief, and in each turn the frame is on the air, or its
  -- `set_frame` failed and what the platform promises then holds.
  pub advertise_loop_lem :
      (l : Loop p) (inputs : List (Input p))
      → IsAdvertiser
      → IsLoop l
      → All IsInput inputs
      → (after : Loop p) × (passes : List (Pass p)) × (advertise_loop p l inputs
          ≡ some (after, passes))
        × IsLoop after
        × All IsSound passes
  unfolding advertise_loop
  advertise_loop_lem l [] law v h = (l, [], refl, v, tt)
  advertise_loop_lem l (input ∷ inputs) law v (h, hs) =
      let (l', done, e, v', s) = pass-Passes law l input v h in
      let (after, passes, d, w, ss) = advertise_loop_lem l' inputs law v' hs in
      elim (Bool-cases (returns p input done)) [
        | inl ends ↦ (l', done ∷ [], rw (e, ends) refl, v', (s, tt))
        | inr more ↦ (after, done ∷ passes, rw (e, more, d) refl, w, (s, ss))
      ]
