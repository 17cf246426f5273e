-- ===== src/Firmware/Tasks.antt =====
-- The router tasks of the boards' main.rs over any events.
use poholos.Prelude.{
  All, List, Option, Outcome, [], ap, append-nil, arith, err, none, ok, panic, refl, some, sym, ℕ,
  ◌++◌, ◌∙◌, ◌∷◌, ◌≡◌, ◌≢◌,
}
use poholos.Prelude.Words.{IsByte, u32_be_round}
use poholos.Packet.{Packet, as_slice}
use poholos.Packet.Valid.{IsCap, IsPacket}
use poholos.Wire.{Frame, WireError, as_bytes}
use poholos.Wire.Accept.{decode_lem, verdict}
use poholos.Wire.Decode.{decode}
use poholos.Wire.Read.{decode-Reads}
use poholos.Wire.Layout.{frame_of, wire_bytes, as_bytes-frame_of}
use poholos.Seen.Cache.{SeenCache}
use poholos.Router.{Router, RouteAction, ingest, deliver_and_forward, forward, ignore}
use poholos.Router
use poholos.Router.Decision.{IsRouter, answer_to}
use poholos.Router.Policy.{ingest_lem, response, verdict-total}
use poholos.Router.Actions.{IsAction, IsRelay, answer_to-IsAction}
use poholos.Router.Relay.{delivered, forwarded}
use poholos.Firmware.Channels.{newest}
use poholos.Firmware.Node.{
  Event, Node, Outgoing, deliver, display_queue, frame_src, frame_src_of, heard, local, obey,
  on_frame, relay, send_relay, text_of,
}
use poholos.Firmware.Airs.{IsNode}
use poholos.Firmware.Shows.{deliver_lem, mark_of}

-- The source of a frame, as it is logged, is that of its packet.
frame_src_lem : (p : Packet) → IsPacket 211 p → frame_src (frame_of 211 (wire_bytes p)) ≡ some p.src
unfolding frame_src frame_src_of wire_bytes
frame_src_lem p v =
    rw (as_bytes-frame_of 211 (wire_bytes p)) (ap some (u32_be_round p.src v.src_fits))

unfoldable pub relays : Option Frame → List Outgoing
relays none = []
relays (some f) = relay f ∷ []

module _ {size : ℕ} (c : SeenCache size) where
  unfoldable pub texts : Node c → Option Packet → List (List ℕ)
  texts node none = node.display
  texts node (some p) =
      newest display_queue node.display (mark_of c node p ++ text_of (as_slice p.payload))

  -- A board after a frame: what the router hands up is on the display, what it sends on is queued.
  pub record Obeys (node after : Node c) (answer : Outcome WireError RouteAction) : Type 0 where
    pub shown : after.display ≡ texts node (delivered answer)
    pub queued : after.outgoing ≡ node.outgoing ++ relays (forwarded answer)
    pub same_local : after.router.local ≡ node.router.local
    pub same_seq : after.seq ≡ node.seq

  send_relay_lem :
      (node : Node c) (f : Frame) (p : Packet)
      → IsRelay f p
      → send_relay c node f ≡ some (record node { outgoing = node.outgoing ++ (relay f ∷ []) })
  unfolding send_relay
  send_relay_lem node f p (pv, e) = rw (ap frame_src e ∙ frame_src_lem p pv) refl

  queued-IsNode :
      (node : Node c) (out : List Outgoing)
      → IsNode c node
      → IsNode c (record node { outgoing = out })
  queued-IsNode node out v = record {
    routes = v.routes;
    local_fits = v.local_fits;
    seq_fits = v.seq_fits;
    shows = v.shows;
    lines_fit = v.lines_fit;
    chime_few = v.chime_few;
  }

  obey_lem :
      (node : Node c) (a : RouteAction)
      → IsNode c node
      → IsAction a
      → (after : Node c) × (obey c node (ok a) ≡ some after)
        × IsNode c after
        × Obeys node after (ok a)
  unfolding obey IsAction delivered forwarded texts relays
  obey_lem node (Router.deliver p) v pv =
      let (w, s) = deliver_lem c node p v pv in
      (
        deliver c node p,
        refl,
        w,
        record {
          shown = s.newest_text;
          queued = s.same_outgoing ∙ sym (append-nil node.outgoing);
          same_local = ap (λ (r : Router c). r.local) s.same_router;
          same_seq = s.same_seq;
        },
      )
  obey_lem node (deliver_and_forward p f) v (pv, (q, h)) =
      let (w, s) = deliver_lem c node p v pv in
      let d = deliver c node p in
      (
        record d { outgoing = d.outgoing ++ (relay f ∷ []) },
        send_relay_lem d f q h,
        queued-IsNode d (d.outgoing ++ (relay f ∷ [])) w,
        record {
          shown = s.newest_text;
          queued = ap (λ out. out ++ (relay f ∷ [])) s.same_outgoing;
          same_local = ap (λ (r : Router c). r.local) s.same_router;
          same_seq = s.same_seq;
        },
      )
  obey_lem node (forward f) v (q, h) = (
    record node { outgoing = node.outgoing ++ (relay f ∷ []) },
    send_relay_lem node f q h,
    queued-IsNode node (node.outgoing ++ (relay f ∷ [])) v,
    record { shown = refl; queued = refl; same_local = refl; same_seq = refl },
  )
  obey_lem node (ignore r) v h = (
    node,
    refl,
    v,
    record {
      shown = refl;
      queued = sym (append-nil node.outgoing);
      same_local = refl;
      same_seq = refl;
    },
  )

  obey-response :
      (node : Node c) (r : Router c) (bytes : List ℕ) (o : Outcome WireError Packet)
      → IsNode c node
      → All IsByte bytes
      → decode 211 bytes ≡ o
      → o ≢ panic
      → (after : Node c) × (obey c node (response c 211 r o) ≡ some after)
        × IsNode c after
        × Obeys node after (response c 211 r o)
  unfolding response
  obey-response node r bytes (ok p) v hb e np =
      obey_lem node (answer_to c 211 r p) v
        (answer_to-IsAction c r p (decode-Reads 211 bytes p (omega arith, omega arith) hb e).valid)
  obey-response node r bytes (err x) v hb e np =
      unfold obey delivered forwarded texts relays in
      (
        node,
        refl,
        v,
        record {
          shown = refl;
          queued = sym (append-nil node.outgoing);
          same_local = refl;
          same_seq = refl;
        },
      )
  obey-response node r bytes panic v hb e np = absurd (np refl)

  routed : Node c → Router c → Node c
  routed node r = record node { router = r }

  texts-routed :
      (node : Node c) (r : Router c) (p : Option Packet)
      → r.local ≡ node.router.local
      → texts (routed node r) p ≡ texts node p
  unfolding texts mark_of routed
  texts-routed node r none e = refl
  texts-routed node r (some p) e = rw e refl

  routed-IsNode :
      (node : Node c) (r : Router c)
      → IsNode c node
      → IsRouter c r
      → r.local ≡ node.router.local
      → IsNode c (routed node r)
  unfolding routed
  routed-IsNode node r v rv e = record {
    routes = rv;
    local_fits = rw e v.local_fits;
    seq_fits = v.seq_fits;
    shows = v.shows;
    lines_fit = v.lines_fit;
    chime_few = v.chime_few;
  }

  -- On a well-formed board and a frame of bytes, `router_task` does not panic. The display then
  -- holds the packet that `ingest` hands up, if any, as its newest text; the frame that `ingest`
  -- sends on, if any, is queued as a relay; the node's id and sequence number are kept, and the
  -- board stays well formed.
  pub on_frame-Obeys :
      (node : Node c) (frame : Frame)
      → IsNode c node
      → All IsByte (as_bytes frame)
      → (after : Node c) × (on_frame c node frame ≡ some after)
        × IsNode c after
        × Obeys node after (ingest c 211 node.router (as_bytes frame)).1
  unfolding on_frame routed
  on_frame-Obeys node frame v hb =
      let hc : IsCap 211 = (omega arith, omega arith) in
      let bytes = as_bytes frame in
      let o = verdict 211 bytes in
      let (told, sound, keys, rv, same) = ingest_lem c 211 node.router bytes hc hb v.routes in
      let r = (ingest c 211 node.router bytes).0 in
      let (after, e, w, obeys) =
        obey-response (routed node r) node.router bytes o (routed-IsNode node r v rv same) hb
          (decode_lem 211 bytes hc hb) (verdict-total c 211 bytes) in
      rw told (
        after,
        e,
        w,
        record {
          shown = obeys.shown ∙ texts-routed node r (delivered (response c 211 node.router o)) same;
          queued = obeys.queued;
          same_local = obeys.same_local ∙ same;
          same_seq = obeys.same_seq;
        },
      )

-- Words and frames that reach a board.
unfoldable pub IsEvent : {E : Type 0} → (E → Type 0) → Event E → Type 0
IsEvent P (heard f) = All IsByte (as_bytes f)
IsEvent P (local e ticks) = P e
