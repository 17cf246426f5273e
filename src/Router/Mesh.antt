-- ===== src/Router/Mesh.antt =====
-- Two nodes: `originate` on one and `ingest` on another of crates/poholos/src/router.rs.
use poholos.Prelude.{ltb, refl, some, true, ℕ, ◌&&◌, ◌∙◌, ◌≡◌}
use poholos.Packet.{Packet}
use poholos.Packet.Valid.{IsCap, IsPacket}
use poholos.Wire.{Frame, as_bytes}
use poholos.Wire.Layout.{as_bytes-frame_of, frame_of, wire_bytes}
use poholos.Wire.Bytes.{wire_bytes-IsByte}
use poholos.Wire.RoundTrip.{decode-wire_bytes}
use poholos.Seen.Cache.{SeenCache}
use poholos.Router.{Router, ingest, originate}
use poholos.Router.Decision.{IsRouter, is_for_me, is_for_others, relayed}
use poholos.Router.Relay.{delivered, forwarded, ingest_decisions, is_news, when}
use poholos.Router.History.{originate_lem}

module _ {size size' : ℕ} (c : SeenCache size) (d : SeenCache size') where
  -- What a well-formed router puts on the air for a well-formed packet, another well-formed router
  -- to which it is news hands up as that packet exactly when it is for that node, and sends on,
  -- with one hop less, exactly when it is for others and has more than one hop left.
  pub ingest-originate_new :
      (cap : ℕ) (r : Router c) (s : Router d) (p : Packet)
      → IsCap cap
      → IsPacket cap p
      → IsRouter c r
      → IsRouter d s
      → is_news d s p ≡ true
      → (r' : Router c) × (f : Frame) × (originate c cap r p ≡ some (r', f))
        × (delivered (ingest d cap s (as_bytes f)).1 ≡ when (is_for_me s.local p.dest) p)
        × (forwarded (ingest d cap s (as_bytes f)).1
            ≡ when (is_for_others s.local p.dest && ltb 1 p.ttl) (relayed cap p))
  ingest-originate_new cap r s p hc v hr hs unheard =
      let (r', e, k, w, l) = originate_lem c cap r p hc v hr in
      let (up, on) =
        ingest_decisions d cap s (wire_bytes p) p hc (wire_bytes-IsByte v) hs
          (decode-wire_bytes hc v) in
      (
        r',
        frame_of cap (wire_bytes p),
        e,
        rw (as_bytes-frame_of cap (wire_bytes p)) (up ∙ rw unheard refl),
        rw (as_bytes-frame_of cap (wire_bytes p)) (on ∙ rw unheard refl),
      )
