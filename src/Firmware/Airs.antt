-- ===== src/Firmware/Airs.antt =====
-- What the router tasks of the boards put on the air and on the display.
use poholos.Prelude.{
  All, All-weaken, List, Option, [], arith, length, none, ok, refl, some, subst, ℕ, ◌%◌, ◌++◌, ◌+◌,
  ◌^◌, ◌∙◌, ◌∷◌, ◌≡◌, ◌≤◌,
}
use poholos.Prelude.Words.{IsU16, IsU32}
use poholos.Packet.{Packet, hearsay}
use poholos.Packet.Valid.{
  IsCap, IsPacket, constructed_fits, hearsay_with_lem, packet_of, packet_of-IsPacket,
}
use poholos.Wire.{Frame, as_bytes}
use poholos.Wire.Decode.{decode}
use poholos.Wire.Layout.{frame_of, wire_bytes, as_bytes-frame_of}
use poholos.Wire.RoundTrip.{decode-wire_bytes}
use poholos.Seen.Cache.{SeenCache}
use poholos.Router.Decision.{IsRouter}
use poholos.Router.History.{originate_lem}
use poholos.Firmware.Keyed.{IsText}
use poholos.Firmware.Node.{
  Node, chime_queue, display_len, display_queue, next_seq, on_composed, own, send_packet,
}

-- A board's state: a well-formed router, words in range, and bounded channels.
pub record IsNode {size : ℕ} (c : SeenCache size) (node : Node c) : Type 0 where
  pub routes : IsRouter c node.router
  pub local_fits : IsU32 node.router.local
  pub seq_fits : (n : ℕ) → node.seq ≡ some n → IsU16 n
  pub shows : length node.display ≤ display_queue
  pub lines_fit : All (λ msg. length msg ≤ display_len) node.display
  pub chime_few : length node.chimes ≤ chime_queue

module _ {size : ℕ} (c : SeenCache size) where
  -- The frame that a board sends for a packet of its own.
  pub record Airs (node after : Node c) (p : Packet) : Type 0 where
    pub frame : Frame
    pub queued : after.outgoing ≡ node.outgoing ++ (own frame ∷ [])
    pub read : decode 211 (as_bytes frame) ≡ ok p
    pub next : after.seq ≡ some ((p.seq + 1) % 2 ^ 16)
    pub same : after.router.local ≡ node.router.local
    pub display : after.display ≡ node.display

  pub send_packet_lem :
      (node : Node c) (p : Packet)
      → IsNode c node
      → IsPacket 211 p
      → node.seq ≡ some ((p.seq + 1) % 2 ^ 16)
      → (after : Node c) × (send_packet c node (ok p) ≡ some after)
        × IsNode c after
        × Airs node after p
  unfolding send_packet
  send_packet_lem node p v pv e =
      let hc : IsCap 211 = (omega arith, omega arith) in
      let (r, made, keys, rv, same) = originate_lem c 211 node.router p hc pv v.routes in
      let f = frame_of 211 (wire_bytes p) in
      (
        record node { router = r; outgoing = node.outgoing ++ (own f ∷ []) },
        rw made refl,
        record {
          routes = rv;
          local_fits = rw same v.local_fits;
          seq_fits = v.seq_fits;
          shows = v.shows;
          lines_fit = v.lines_fit;
          chime_few = v.chime_few;
        },
        record {
          frame = f;
          queued = refl;
          read = rw (as_bytes-frame_of 211 (wire_bytes p)) (decode-wire_bytes hc pv);
          next = e;
          same = same;
          display = refl;
        },
      )

  pub next_seq-IsU16 :
      (node : Node c) (ticks : ℕ) → IsNode c node → IsU16 (next_seq c node.seq ticks)
  unfolding next_seq
  next_seq-IsU16 node ticks v = fits node.seq v.seq_fits
    where
      fits : (s : Option ℕ) → ((n : ℕ) → s ≡ some n → IsU16 n) → IsU16 (next_seq c s ticks)
      fits none h = omega arith
      fits (some n) h = h n refl

  -- The board with the next sequence number counted.
  unfoldable pub stepped : Node c → ℕ → Node c
  stepped node ticks = record node { seq = some ((next_seq c node.seq ticks + 1) % 2 ^ 16) }

  pub stepped-IsNode : (node : Node c) (ticks : ℕ) → IsNode c node → IsNode c (stepped node ticks)
  unfolding stepped
  stepped-IsNode node ticks v = record {
    routes = v.routes;
    local_fits = v.local_fits;
    seq_fits =
        λ n e. subst IsU16 (some-inv ((next_seq c node.seq ticks + 1) % 2 ^ 16) n e) (omega arith);
    shows = v.shows;
    lines_fit = v.lines_fit;
    chime_few = v.chime_few;
  }
    where
      some-inv : (m n : ℕ) → some m ≡ some n → m ≡ n
      some-inv m n e = ground (arith, e)

  pub on_composed_lem :
      (node : Node c) (text : List ℕ) (ticks : ℕ)
      → IsNode c node
      → IsText text
      → (after : Node c) × (on_composed c node text ticks ≡ some after)
        × IsNode c after
        × Airs node after (packet_of 211 node.router.local none (next_seq c node.seq ticks) text 16)
  unfolding on_composed hearsay stepped
  on_composed_lem node text ticks v tv =
      let next = next_seq c node.seq ticks in
      let made =
        hearsay_with_lem 211 node.router.local next text 16 (omega arith, omega arith)
        ∙ constructed_fits node.router.local none next text (omega (arith, tv.fits)) in
      let p = packet_of 211 node.router.local none next text 16 in
      let pv =
        packet_of-IsPacket 211 node.router.local none next text 16 v.local_fits tt
          (next_seq-IsU16 node ticks v) (All-weaken (λ x h. omega (arith, h)) text tv.ascii)
          (omega arith, omega arith) (omega (arith, tv.fits)) in
      let (after, e, w, airs) =
        send_packet_lem (stepped node ticks) p (stepped-IsNode node ticks v) pv refl in
      (
        after,
        rw made e,
        w,
        record {
          frame = airs.frame;
          queued = airs.queued;
          read = airs.read;
          next = airs.next;
          same = airs.same;
          display = airs.display;
        },
      )
