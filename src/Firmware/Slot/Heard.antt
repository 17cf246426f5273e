-- ===== src/Firmware/Slot/Heard.antt =====
-- What the boards' advertising loop has on the air, and what the scan handler of another board hears.
use poholos.Prelude.{
  All, Bool-cases, List, Option, Option-cases, [], false, inl, inr, none, refl, some, subst, sym,
  true, ◌∙◌, ◌∷◌, ◌≡◌, ◌⊎◌,
}
use poholos.Prelude.Panics.{◌>>=◌}
use poholos.Packet.{max_ext_frame_len}
use poholos.Wire.{Frame, as_bytes}
use poholos.Wire.Frames.{IsExtFrame}
use poholos.Wire.Layout.{frame_of}
use poholos.Rotation.{Rotation, enqueue_own}
use poholos.Rotation.Holds.{
  AllFrame, Rotates, enqueue_own-Rotates, enqueue_relay-Rotates, next_frame-Rotates,
}
use poholos.Ble.Advertise.{is_on_air}
use poholos.Ble.Belief.{is_on_air_sound}
use poholos.Firmware.{send_shedding}
use poholos.Firmware.Node.{Outgoing, own, relay}
use poholos.Firmware.Scan.{on_report, rx_queue}
use poholos.Firmware.Radio.{
  Advertisement, Encoder, IsEncoder, adv_data, advertisement, on_report-advertisement,
}
use poholos.Firmware.Slot.{
  Slot, Turn, Aired, slept, aired, enqueue, enqueue_all, install, hold, sleep, take_turn, advertise,
}

abbrev pub IsOutgoing : Outgoing → Type 0
IsOutgoing (own frame) = IsExtFrame frame
IsOutgoing (relay frame) = IsExtFrame frame

-- The frames that a turn meets.
pub record IsTurn (turn : Turn) : Type 0 where
  pub wakes : IsOutgoing turn.woken
  pub arrives : All IsOutgoing turn.arrivals

-- The advertisement on the air is that of the frame believed to be there.
pub record IsSlot (encode_slice : Encoder) (s : Slot) : Type 0 where
  pub rotates : Rotates IsExtFrame s.rotation
  pub belief : s.handle ≡ (s.on_air >>= advertisement encode_slice)

-- In a turn for `frame` its advertisement is on the air, from which a board with the frames `rx`
-- waiting queues the same bytes; or the radio refused it, and nothing is on the air.
unfoldable pub IsHeard : List Frame → Aired → Type 0
IsHeard rx slept = Unit {0}
IsHeard rx (aired frame accepted handle) =
    ((ad : Advertisement) × (handle ≡ some ad)
      × (on_report rx (adv_data ad)
          ≡ some (send_shedding rx_queue rx (frame_of max_ext_frame_len (as_bytes frame)))))
    ⊎ ((accepted ≡ false) × (handle ≡ none))

enqueue_lem :
    (r : Rotation) (out : Outgoing)
    → Rotates IsExtFrame r
    → IsOutgoing out
    → (after : Rotation) × (enqueue r out ≡ some after) × Rotates IsExtFrame after
unfolding enqueue
enqueue_lem r (own frame) v h =
    (enqueue_own r frame, refl, enqueue_own-Rotates IsExtFrame r frame v h)
enqueue_lem r (relay frame) v h = enqueue_relay-Rotates IsExtFrame r frame v h

enqueue_all_lem :
    (r : Rotation) (outs : List Outgoing)
    → Rotates IsExtFrame r
    → All IsOutgoing outs
    → (after : Rotation) × (enqueue_all r outs ≡ some after) × Rotates IsExtFrame after
unfolding enqueue_all
enqueue_all_lem r [] v h = (r, refl, v)
enqueue_all_lem r (out ∷ outs) v (h, hs) =
    let (r', e, v') = enqueue_lem r out v h in
    let (after, d, w) = enqueue_all_lem r' outs v' hs in (after, rw e d, w)

-- What a turn leaves.
abbrev Leaves : Encoder → List Frame → Option (Slot × Aired) → Type 0
Leaves encode_slice rx o =
    (after : Slot) × (a : Aired) × (o ≡ some (after, a)) × IsSlot encode_slice after × IsHeard rx a

module _ (encode_slice : Encoder) (law : IsEncoder encode_slice) (rx : List Frame) where
  sleep-Leaves :
      (s : Slot) (out : Outgoing)
      → IsSlot encode_slice s
      → IsOutgoing out
      → Leaves encode_slice rx (sleep s out)
  unfolding sleep IsHeard
  sleep-Leaves s out v h =
      let (r, e, w) = enqueue_lem s.rotation out v.rotates h in
      (record s { rotation = r }, slept, rw e refl, record { rotates = w; belief = v.belief }, tt)

  -- A turn for a frame that is on the air already.
  hold-kept :
      (s : Slot) (frame : Frame) (turn : Turn)
      → IsSlot encode_slice s
      → IsExtFrame frame
      → IsTurn turn
      → is_on_air s.on_air frame ≡ true
      → Leaves encode_slice rx (hold encode_slice s frame turn)
  unfolding hold IsHeard
  hold-kept s frame turn v h ht already =
      let (r, e, w) = enqueue_all_lem s.rotation turn.arrivals v.rotates ht.arrives in
      let (ad, made, small, heard) = on_report-advertisement encode_slice frame rx law h.0 h.1 in
      let there = is_on_air_sound s.on_air frame already in
      (
        record s { rotation = r },
        aired frame turn.accepted s.handle,
        rw (already, e) refl,
        record { rotates = w; belief = v.belief },
        inl (ad, v.belief ∙ rw there made, heard),
      )

  -- A turn that replaces the advertisement.
  hold-installed :
      (s : Slot) (frame : Frame) (turn : Turn)
      → IsSlot encode_slice s
      → IsExtFrame frame
      → IsTurn turn
      → is_on_air s.on_air frame ≡ false
      → Leaves encode_slice rx (hold encode_slice s frame turn)
  unfolding hold install IsHeard
  hold-installed s frame turn v h ht changed =
      let (r, e, w) = enqueue_all_lem s.rotation turn.arrivals v.rotates ht.arrives in
      let (ad, made, small, heard) = on_report-advertisement encode_slice frame rx law h.0 h.1 in
      elim (Bool-cases turn.accepted) [
        | inl done ↦ (
          record { rotation = r; on_air = some frame; handle = some ad },
          aired frame turn.accepted (some ad),
          rw (changed, made, done, e) refl,
          record { rotates = w; belief = sym made },
          inl (ad, refl, heard),
        )
        | inr failed ↦ (
          record { rotation = r; on_air = none; handle = none },
          aired frame turn.accepted none,
          rw (changed, made, failed, e) refl,
          record { rotates = w; belief = refl },
          inr (failed, refl),
        )
      ]

  take_turn-Leaves :
      (s : Slot) (turn : Turn)
      → IsSlot encode_slice s
      → IsTurn turn
      → Leaves encode_slice rx (take_turn encode_slice s turn)
  unfolding take_turn
  take_turn-Leaves s turn v ht =
      let (r, frame, e, w, h) = next_frame-Rotates IsExtFrame s.rotation v.rotates in
      let s' : Slot = record s { rotation = r } in
      let v' : IsSlot encode_slice s' = record { rotates = w; belief = v.belief } in
      elim (Option-cases frame) [
        | inl idle ↦ rw (e, idle) (sleep-Leaves s' turn.woken v' ht.wakes)
        | inr (f, picked) ↦
            let hf = subst (AllFrame IsExtFrame) picked h in
            elim (Bool-cases (is_on_air s.on_air f)) [
              | inl already ↦ rw (e, picked) (hold-kept s' f turn v' hf ht already)
              | inr changed ↦ rw (e, picked) (hold-installed s' f turn v' hf ht changed)
            ]
      ]

-- For an encoder that writes a manufacturer structure wherever it fits, from a well-formed
-- rotation of frames of at most 211 bytes and the advertisement on the air that the belief names,
-- the loop does not panic over any turns with such frames, and this holds again behind it. In each
-- turn for a frame an advertisement is on the air from which a board, whatever frames wait there,
-- queues a frame of the same bytes; or the radio refused the frame, and nothing is on the air.
pub advertise_lem :
    (encode_slice : Encoder) (rx : List Frame) (s : Slot) (turns : List Turn)
    → IsEncoder encode_slice
    → IsSlot encode_slice s
    → All IsTurn turns
    → (after : Slot) × (airs : List Aired) × (advertise encode_slice s turns ≡ some (after, airs))
      × IsSlot encode_slice after
      × All (IsHeard rx) airs
unfolding advertise
advertise_lem encode_slice rx s [] law v h = (s, [], refl, v, tt)
advertise_lem encode_slice rx s (turn ∷ turns) law v (h, hs) =
    let (s', a, e, v', heard) = take_turn-Leaves encode_slice law rx s turn v h in
    let (after, airs, d, w, more) = advertise_lem encode_slice rx s' turns law v' hs in
    (after, a ∷ airs, rw (e, d) refl, w, (heard, more))
