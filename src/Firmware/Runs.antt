-- ===== src/Firmware/Runs.antt =====
-- The router tasks of the boards' main.rs over any events.
use poholos.Prelude.{
  All, List, Option, [], and_true, ap, arith, length, ltb, ltb→lt, none, ok, refl, some, sym, true,
  ℕ, ◌%◌, ◌++◌, ◌+◌, ◌^◌, ◌∙◌, ◌∷◌, ◌≡◌, ◌≤◌,
}
use poholos.Prelude.Words.{IsByte, IsU16, IsU32}
use poholos.NodeId.{all}
use poholos.Packet.{Packet, WireId, hearsay, telegram}
use poholos.Packet.Valid.{
  IsPacket, constructed_fits, hearsay_with_lem, packet_of, packet_of-IsPacket, telegram_with_lem,
}
use poholos.Wire.{Frame, as_bytes}
use poholos.Seen.Cache.{SeenCache}
use poholos.Wire.Decode.{decode}
use poholos.Firmware.Channels.{newest, send_shedding_lem}
use poholos.Firmware.Keyed.{IsText}
use poholos.Firmware.Node.{
  ButtonEvent, Event, Node, button_a, button_b, microbit_task, display_len, display_queue, echo_of,
  enqueue_display, heard, local, morse_task, next_seq, ok_message, on_button, on_composed, own,
  packet_for, router_task, scroll, send_echoed, sos_message,
}
use poholos.Firmware.Airs.{
  IsNode, next_seq-IsU16, on_composed_lem, send_packet_lem, stepped, stepped-IsNode,
}
use poholos.Firmware.Shows.{enqueue_display-IsNode}
use poholos.Firmware.Tasks.{IsEvent, on_frame-Obeys}

bytes_ok : (xs : List ℕ) → all (λ x. ltb x 256) xs ≡ true → All IsByte xs
unfolding all
bytes_ok [] h = tt
bytes_ok (x ∷ xs) h =
    let (small, rest) = and_true (ltb x 256) (all (λ y. ltb y 256) xs) h in
    (ltb→lt x 256 small, bytes_ok xs rest)

module _ {size : ℕ} (c : SeenCache size) where
  -- What a step leaves: no panic, and a well-formed board with the same id.
  abbrev Lasts : Node c → Option (Node c) → Type 0
  Lasts node o =
      (after : Node c) × (o ≡ some after)
      × IsNode c after
      × (after.router.local ≡ node.router.local)

  router_task-Lasts :
      {E : Type 0} (P : E → Type 0) (on_local : Node c → E → ℕ → Option (Node c))
      → ((node : Node c) (e : E) (ticks : ℕ)
          → IsNode c node
          → P e
          → Lasts node (on_local node e ticks))
      → (node : Node c) (events : List (Event E)) → IsNode c node
      → All (IsEvent P) events
      → Lasts node (router_task on_local node events)
  unfolding router_task IsEvent
  router_task-Lasts P on_local step node [] v hs = (node, refl, v, refl)
  router_task-Lasts P on_local step node (heard frame ∷ events) v (h, hs) =
      let (next, e, w, obeys) = on_frame-Obeys c node frame v h in
      let (after, d, x, same) = router_task-Lasts P on_local step next events w hs in
      (after, rw e d, x, same ∙ obeys.same_local)
  router_task-Lasts P on_local step node (local e ticks ∷ events) v (h, hs) =
      let (next, d, w, kept) = step node e ticks v h in
      let (after, d', x, same) = router_task-Lasts P on_local step next events w hs in
      (after, rw d d', x, same ∙ kept)

  -- Over any frames of bytes and any texts of the compose task the Morse board's task does not panic,
  -- and leaves a well-formed board with the same id.
  pub morse_task_lem :
      (node : Node c) (events : List (Event (List ℕ)))
      → IsNode c node
      → All (IsEvent IsText) events
      → (after : Node c) × (morse_task c node events ≡ some after)
        × IsNode c after
        × (after.router.local ≡ node.router.local)
  unfolding morse_task
  morse_task_lem = router_task-Lasts IsText (on_composed c) (λ node text ticks v tv.
      let (after, e, w, airs) = on_composed_lem c node text ticks v tv in (after, e, w, airs.same))

  -- The packet of a press.
  unfoldable pub pressed : WireId → WireId → ℕ → ButtonEvent → Packet
  pressed id buddy next button_a = packet_of 211 id (some buddy) next ok_message 16
  pressed id buddy next button_b = packet_of 211 id none next sos_message 16

  packet_for_lem :
      (id buddy : WireId) (next : ℕ) (button : ButtonEvent)
      → IsU32 id
      → IsU32 buddy
      → IsU16 next
      → (packet_for id buddy next button ≡ ok (pressed id buddy next button))
        × IsPacket 211 (pressed id buddy next button)
        × ((pressed id buddy next button).seq ≡ next)
  unfolding packet_for pressed hearsay telegram
  packet_for_lem id buddy next button_a hi hb hn = (
    telegram_with_lem 211 id buddy next ok_message 16 (omega arith, omega arith)
        ∙ constructed_fits id (some buddy) next ok_message (omega arith),
    packet_of-IsPacket 211 id (some buddy) next ok_message 16 hi hb hn
        (bytes_ok ok_message (unfold all in refl)) (omega arith, omega arith) (omega arith),
    refl,
  )
  packet_for_lem id buddy next button_b hi hb hn = (
    hearsay_with_lem 211 id next sos_message 16 (omega arith, omega arith)
        ∙ constructed_fits id none next sos_message (omega arith),
    packet_of-IsPacket 211 id none next sos_message 16 hi tt hn
        (bytes_ok sos_message (unfold all in refl)) (omega arith, omega arith) (omega arith),
    refl,
  )

  -- What a press leaves: the frame of its packet queued, and its echo on the display.
  pub record Presses (buddy : WireId) (node after : Node c) (button : ButtonEvent) (next : ℕ)
      : Type 0 where
    pub frame : Frame
    pub queued : after.outgoing ≡ node.outgoing ++ (own frame ∷ [])
    pub read : decode 211 (as_bytes frame) ≡ ok (pressed node.router.local buddy next button)
    pub counted : after.seq ≡ some ((next + 1) % 2 ^ 16)
    pub echo : after.display ≡ newest display_queue node.display (echo_of button)
    pub same : after.router.local ≡ node.router.local

  echo_short : (button : ButtonEvent) → length (echo_of button) ≤ display_len
  unfolding echo_of
  echo_short button_a = omega arith
  echo_short button_b = omega arith

  -- On a well-formed board a press queues one own frame, which decodes to the packet of the button
  -- with the next sequence number; the number is counted, and the echo of the button is the newest
  -- text on the display. There is no panic, and the board stays well formed.
  pub on_button-Presses :
      (buddy : WireId) (node : Node c) (button : ButtonEvent) (ticks : ℕ)
      → IsU32 buddy
      → IsNode c node
      → (after : Node c) × (on_button c buddy node button ticks ≡ some after)
        × IsNode c after
        × Presses buddy node after button (next_seq c node.seq ticks)
  unfolding on_button send_echoed scroll enqueue_display stepped
  on_button-Presses buddy node button ticks hb v =
      let next = next_seq c node.seq ticks in
      let id = node.router.local in
      let (made, pv, counted) =
        packet_for_lem id buddy next button v.local_fits hb (next_seq-IsU16 c node ticks v) in
      let p = pressed id buddy next button in
      let (mid, e, w, airs) =
        send_packet_lem c (stepped c node ticks) p (stepped-IsNode c node ticks v) pv
          (ap (λ n. some ((n + 1) % 2 ^ 16)) (sym counted)) in
      (
        enqueue_display c mid (echo_of button),
        rw (made, e) refl,
        enqueue_display-IsNode c mid (echo_of button) w (echo_short button),
        record {
          frame = airs.frame;
          queued = airs.queued;
          read = airs.read;
          counted = airs.next ∙ ap (λ n. some ((n + 1) % 2 ^ 16)) counted;
          echo =
              (send_shedding_lem display_queue mid.display (echo_of button) (omega arith) w.shows).0
              ∙ ap (λ q. newest display_queue q (echo_of button)) airs.display;
          same = airs.same;
        },
      )

  -- Over any frames of bytes and any presses the other board's task does not panic, and leaves a
  -- well-formed board with the same id.
  pub microbit_task_lem :
      (buddy : WireId) (node : Node c) (events : List (Event ButtonEvent))
      → IsU32 buddy
      → IsNode c node
      → All (IsEvent (λ button. Unit {0})) events
      → (after : Node c) × (microbit_task c buddy node events ≡ some after)
        × IsNode c after
        × (after.router.local ≡ node.router.local)
  unfolding microbit_task
  microbit_task_lem buddy node events hb v hs =
      router_task-Lasts (λ button. Unit {0}) (on_button c buddy)
        (λ board button ticks w u.
          let (after, e, x, presses) = on_button-Presses buddy board button ticks hb w in
          (after, e, x, presses.same))
        node events v hs
