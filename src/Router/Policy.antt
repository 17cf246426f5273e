-- ===== src/Router/Policy.antt =====
-- `ingest` of crates/poholos/src/router.rs on any bytes.
use poholos.Prelude.{All, List, Outcome, arith, err, ok, panic, refl, ℕ, ◌≡◌, ◌≢◌}
use poholos.Prelude.Words.{IsByte}
use poholos.Packet.{Packet}
use poholos.Packet.Valid.{IsCap}
use poholos.Wire.{WireError}
use poholos.Wire.Decode.{decode}
use poholos.Wire.Accept.{decode_lem, verdict}
use poholos.Wire.Read.{decode-Reads}
use poholos.Seen.Cache.{SeenCache}
use poholos.Router.{RouteAction, Router, ingest}
use poholos.Router.Decision.{IsRouter, answer_to, ingest_packet_lem, known, known_after}

module _ {size : ℕ} (c : SeenCache size) where
  -- What `ingest` answers, and the keys it knows afterwards.
  unfoldable pub response : ℕ → Router c → Outcome WireError Packet → Outcome WireError RouteAction
  response cap r (ok p) = ok (answer_to c cap r p)
  response cap r (err e) = err e
  response cap r panic = panic

  unfoldable pub heard : Router c → Outcome WireError Packet → List ℕ
  heard r (ok p) = known_after c r p
  heard r (err e) = known c r
  heard r panic = known c r

  pub ingest_decoded :
      (cap : ℕ) (r : Router c) (bytes : List ℕ) (o : Outcome WireError Packet)
      → IsCap cap
      → All IsByte bytes
      → IsRouter c r
      → decode cap bytes ≡ o
      → ((ingest c cap r bytes).1 ≡ response cap r o)
        × (known c (ingest c cap r bytes).0 ≡ heard r o)
        × IsRouter c (ingest c cap r bytes).0
        × ((ingest c cap r bytes).0.local ≡ r.local)
  unfolding ingest response heard
  ingest_decoded cap r bytes (ok p) hc hb hr e =
      rw (ingest, e) (ingest_packet_lem c r p hc (decode-Reads cap bytes p hc hb e).valid hr)
  ingest_decoded cap r bytes (err x) hc hb hr e = rw (ingest, e) (refl, refl, hr, refl)
  ingest_decoded cap r bytes panic hc hb hr e = rw (ingest, e) (refl, refl, hr, refl)

  pub verdict-total : (cap : ℕ) (bytes : List ℕ) → verdict cap bytes ≢ panic
  unfolding verdict
  verdict-total cap bytes h = ground (arith, h)

  response-total :
      (cap : ℕ) (r : Router c) (o : Outcome WireError Packet) → o ≢ panic → response cap r o ≢ panic
  unfolding response
  response-total cap r (ok p) h e = cc
  response-total cap r (err x) h e = cc
  response-total cap r panic h e = h refl

  -- On any bytes, at every capacity from 11 to 255, a well-formed router answers by the verdict on
  -- the bytes and the policy for their packet, and does not panic. The keys known afterwards are
  -- those known before and, for a packet of another node, its key as the newest. The router stays
  -- well formed and keeps its id.
  pub ingest_lem :
      (cap : ℕ) (r : Router c) (bytes : List ℕ)
      → IsCap cap
      → All IsByte bytes
      → IsRouter c r
      → ((ingest c cap r bytes).1 ≡ response cap r (verdict cap bytes))
        × ((ingest c cap r bytes).1 ≢ panic)
        × (known c (ingest c cap r bytes).0 ≡ heard r (verdict cap bytes))
        × IsRouter c (ingest c cap r bytes).0
        × ((ingest c cap r bytes).0.local ≡ r.local)
  ingest_lem cap r bytes hc hb hr =
      let (a, k, v, l) =
        ingest_decoded cap r bytes (verdict cap bytes) hc hb hr (decode_lem cap bytes hc hb) in
      (a, rw a (response-total cap r (verdict cap bytes) (verdict-total cap bytes)), k, v, l)
