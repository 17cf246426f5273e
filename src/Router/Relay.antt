-- ===== src/Router/Relay.antt =====
-- Which packets `ingest` of crates/poholos/src/router.rs hands up and which it sends on, and what
-- the frames that it sends on hold.
use poholos.Prelude.{
  All, Bool, Bool-cases, List, Option, Outcome, ap, arith, err, false, if◌then◌else◌, inl, inr, ltb,
  ltb→lt, none, not, ok, panic, refl, some, sym, true, ℕ, ◌&&◌, ◌-◌, ◌<◌, ◌==◌, ◌∙◌, ◌≡◌,
}
use poholos.Prelude.Words.{IsByte}
use poholos.Packet.Key.{dedup_key-ttl}
use poholos.Router.Policy.{ingest_decoded, response}
use poholos.Wire.Read.{decode-Reads}
use poholos.Packet.{Packet, dedup_key}
use poholos.Packet.Valid.{IsCap, IsPacket}
use poholos.Wire.{Frame, WireError, as_bytes}
use poholos.Wire.Decode.{decode}
use poholos.Wire.Layout.{as_bytes-frame_of, wire_bytes}
use poholos.Wire.RoundTrip.{decode-wire_bytes}
use poholos.Seen.Recency.{member}
use poholos.Seen.Cache.{SeenCache}
use poholos.Router.{RouteAction, Router, deliver, deliver_and_forward, forward, ignore, ingest, new}
use poholos.Router.Decision.{
  IsRouter, action, answer_to, hopped-IsPacket, is_for_me, is_for_others, known, policy_to, relayed,
}

-- The packet handed to the application, and the frame to send.
unfoldable pub delivered : Outcome WireError RouteAction → Option Packet
delivered (ok (deliver p)) = some p
delivered (ok (deliver_and_forward p f)) = some p
delivered (ok (forward f)) = none
delivered (ok (ignore r)) = none
delivered (err e) = none
delivered panic = none

unfoldable pub forwarded : Outcome WireError RouteAction → Option Frame
forwarded (ok (deliver p)) = none
forwarded (ok (deliver_and_forward p f)) = some f
forwarded (ok (forward f)) = some f
forwarded (ok (ignore r)) = none
forwarded (err e) = none
forwarded panic = none

abbrev pub when {ℓ} : {A : Type ℓ} → Bool → A → Option A
when b a = if b then some a else none

delivered-action :
    (p : Packet) (f : Frame) (d s : Bool) → delivered (ok (action p f d s)) ≡ when d p
unfolding action delivered
delivered-action p f true true = refl
delivered-action p f true false = refl
delivered-action p f false true = refl
delivered-action p f false false = refl

forwarded-action :
    (p : Packet) (f : Frame) (d s : Bool) → forwarded (ok (action p f d s)) ≡ when s f
unfolding action forwarded
forwarded-action p f true true = refl
forwarded-action p f true false = refl
forwarded-action p f false true = refl
forwarded-action p f false false = refl

pub relayed_lem :
    {cap : ℕ} (p : Packet)
    → IsCap cap
    → IsPacket cap p
    → 1 < p.ttl
    → decode cap (as_bytes (relayed cap p)) ≡ ok (record p { ttl = p.ttl - 1 })
relayed_lem {cap} p hc v h =
    rw (as_bytes-frame_of cap (wire_bytes (record p { ttl = p.ttl - 1 })))
      (decode-wire_bytes hc (hopped-IsPacket p v h))

module _ {size : ℕ} (c : SeenCache size) where
  -- A packet of another node that is heard for the first time.
  unfoldable pub is_news : Router c → Packet → Bool
  is_news r p = not (p.src == r.local) && not (member (dedup_key p) (known c r))

  answered :
      (cap : ℕ) (r : Router c) (p : Packet)
      → (delivered (ok (answer_to c cap r p)) ≡ when (is_news r p && is_for_me r.local p.dest) p)
        × (forwarded (ok (answer_to c cap r p))
            ≡ when (is_news r p && (is_for_others r.local p.dest && ltb 1 p.ttl)) (relayed cap p))
  unfolding answer_to is_news policy_to
  answered cap r p = elim (Bool-cases (p.src == r.local)) [
    | inl mine ↦ rw mine (unfold delivered forwarded in (refl, refl))
    | inr other ↦ elim (Bool-cases (member (dedup_key p) (known c r))) [
      | inl old ↦ rw (other, old) (unfold delivered forwarded in (refl, refl))
      | inr new ↦
          let d = is_for_me r.local p.dest in
          let s = is_for_others r.local p.dest && ltb 1 p.ttl in
          rw (other, new)
            (delivered-action p (relayed cap p) d s, forwarded-action p (relayed cap p) d s)
    ]
  ]

  -- When the bytes decode to a packet, `ingest` of a well-formed router hands that packet up
  -- exactly when it is news and for this node, and sends the packet with one hop less on exactly
  -- when it is news, for others, and has more than one hop left.
  pub ingest_decisions :
      (cap : ℕ) (r : Router c) (bytes : List ℕ) (p : Packet)
      → IsCap cap
      → All IsByte bytes
      → IsRouter c r
      → decode cap bytes ≡ ok p
      → (delivered (ingest c cap r bytes).1 ≡ when (is_news r p && is_for_me r.local p.dest) p)
        × (forwarded (ingest c cap r bytes).1
            ≡ when (is_news r p && (is_for_others r.local p.dest && ltb 1 p.ttl)) (relayed cap p))
  unfolding response
  ingest_decisions cap r bytes p hc hb hr e =
      rw (ingest_decoded c cap r bytes (ok p) hc hb hr e).0 (answered cap r p)

  -- What a router sends on.
  pub record Sends (cap : ℕ) (r : Router c) (bytes : List ℕ) (f : Frame) (p : Packet) : Type 0 where
    pub read : decode cap bytes ≡ ok p
    pub hop_left : 1 < p.ttl
    pub news : is_news r p ≡ true
    pub for_others : is_for_others r.local p.dest ≡ true
    pub next : decode cap (as_bytes f) ≡ ok (record p { ttl = p.ttl - 1 })
    pub same_key : dedup_key (record p { ttl = p.ttl - 1 }) ≡ dedup_key p

  when-some : {A : Type 0} (b : Bool) (x y : A) → when b x ≡ some y → (b ≡ true) × (x ≡ y)
  when-some true x y h = ground (arith, h)
  when-some false x y h = ground (arith, h)

  both : (a b : Bool) → (a && b) ≡ true → (a ≡ true) × (b ≡ true)
  both true b h = (refl, h)
  both false b h = ground (arith, h)

  sends :
      (cap : ℕ) (r : Router c) (bytes : List ℕ) (f : Frame) (o : Outcome WireError Packet)
      → IsCap cap
      → All IsByte bytes
      → decode cap bytes ≡ o
      → forwarded (response c cap r o) ≡ some f
      → (p : Packet) × Sends cap r bytes f p
  unfolding forwarded response
  sends cap r bytes f (ok p) hc hb e h =
      let (pass, frame) =
        when-some (is_news r p && (is_for_others r.local p.dest && ltb 1 p.ttl)) (relayed cap p) f
          (sym (answered cap r p).1 ∙ h) in
      let (news, rest) = both (is_news r p) (is_for_others r.local p.dest && ltb 1 p.ttl) pass in
      let (others, more) = both (is_for_others r.local p.dest) (ltb 1 p.ttl) rest in
      (
        p,
        record {
          read = e;
          hop_left = ltb→lt 1 p.ttl more;
          news = news;
          for_others = others;
          next =
              rw (← frame)
                (relayed_lem p hc (decode-Reads cap bytes p hc hb e).valid (ltb→lt 1 p.ttl more));
          same_key = dedup_key-ttl p (p.ttl - 1);
        },
      )
  sends cap r bytes f (err x) hc hb e h = ground (arith, h)
  sends cap r bytes f panic hc hb e h = ground (arith, h)

  -- If `ingest` of a well-formed router sends a frame on, the bytes decode to a packet that was
  -- news, was not addressed to this node and had more than one hop left, and the frame decodes to
  -- that packet with one hop less, which has the same key.
  pub ingest-Sends :
      (cap : ℕ) (r : Router c) (bytes : List ℕ) (f : Frame)
      → IsCap cap
      → All IsByte bytes
      → IsRouter c r
      → forwarded (ingest c cap r bytes).1 ≡ some f
      → (p : Packet) × Sends cap r bytes f p
  ingest-Sends cap r bytes f hc hb hr h =
      let o = decode cap bytes in
      sends cap r bytes f o hc hb refl
        (sym (ap forwarded (ingest_decoded c cap r bytes o hc hb hr refl).0) ∙ h)
