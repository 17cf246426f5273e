-- ===== src/Router/Decision.antt =====
-- What `ingest` of crates/poholos/src/router.rs answers for each packet, without panics.
use poholos.Prelude.{
  Bool, Bool-cases, List, Option, [], arith, false, if◌then◌else◌, inl, inr, ltb, none, not, ok,
  refl, some, true, ℕ, ◌&&◌, ◌-◌, ◌<◌, ◌==◌, ◌∙◌, ◌≡◌,
}
use poholos.Packet.{Packet, WireId, dedup_key, hop}
use poholos.Packet.Valid.{IsCap, IsPacket}
use poholos.Wire.{Frame}
use poholos.Wire.Encode.{encode}
use poholos.Wire.Layout.{encode_lem, frame_of, wire_bytes}
use poholos.Seen.Recency.{IsRecency, hear, hear-IsRecency, hear_new, member, nil-IsRecency}
use poholos.Seen.Cache.{SeenCache}
use poholos.Router.{
  RouteAction, Router, deliver, deliver_and_forward, duplicate, expired_ttl, flood, forward, ignore,
  ingest_packet, new, own, relay, route,
}

-- The frame that carries a packet one hop further.
abbrev pub relayed : ℕ → Packet → Frame
relayed cap p = frame_of cap (wire_bytes (record p { ttl = p.ttl - 1 }))

-- A packet without destination is for everyone.
unfoldable pub is_for_me : WireId → Option WireId → Bool
is_for_me local none = true
is_for_me local (some dest) = dest == local

-- One with a destination travels no further once it is there.
unfoldable pub is_for_others : WireId → Option WireId → Bool
is_for_others local none = true
is_for_others local (some dest) = not (dest == local)

unfoldable pub action : Packet → Frame → Bool → Bool → RouteAction
action p frame true true = deliver_and_forward p frame
action p frame true false = deliver p
action p frame false true = forward frame
action p frame false false = ignore expired_ttl

-- The policy for a packet of another node that is heard for the first time: it is delivered when it
-- is for this node, and relayed when it is for others and has a hop left.
unfoldable pub policy_to : ℕ → WireId → Packet → Option WireId → RouteAction
policy_to cap local p dest =
    action p (relayed cap p) (is_for_me local dest) (is_for_others local dest && ltb 1 p.ttl)

abbrev pub policy : ℕ → WireId → Packet → RouteAction
policy cap local p = policy_to cap local p p.dest

pub hopped-IsPacket :
    {cap : ℕ} (p : Packet)
    → IsPacket cap p
    → 1 < p.ttl
    → IsPacket cap (record p { ttl = p.ttl - 1 })
hopped-IsPacket {cap} p v h = record {
  ttl_pos = omega arith;
  ttl_max = omega (arith, v.ttl_max);
  seq_fits = v.seq_fits;
  src_fits = v.src_fits;
  dest_fits = v.dest_fits;
  payload_fits = v.payload_fits;
  room = v.room;
}

encode_hopped :
    {cap : ℕ} (p : Packet)
    → IsCap cap
    → IsPacket cap p
    → 1 < p.ttl
    → encode cap (record p { ttl = p.ttl - 1 }) ≡ some (relayed cap p)
encode_hopped p hc v h = encode_lem hc.1 (hopped-IsPacket p v h)

flood-policy :
    {cap : ℕ} (p : Packet)
    → IsCap cap
    → IsPacket cap p
    → flood cap p ≡ ok (if ltb 1 p.ttl then deliver_and_forward p (relayed cap p) else deliver p)
unfolding flood hop
flood-policy {cap} p hc v = ground (arith, encode_hopped p hc v)

relay-policy :
    {cap : ℕ} (p : Packet)
    → IsCap cap
    → IsPacket cap p
    → relay cap p ≡ ok (if ltb 1 p.ttl then forward (relayed cap p) else ignore expired_ttl)
unfolding relay hop
relay-policy {cap} p hc v = ground (arith, encode_hopped p hc v)

-- On a well-formed packet the final `match` follows the policy and never panics.
pub route-policy :
    {cap : ℕ} (local : WireId) (p : Packet) (dest : Option WireId)
    → IsCap cap
    → IsPacket cap p
    → route cap local p dest ≡ ok (policy_to cap local p dest)
unfolding route policy_to is_for_me is_for_others action
route-policy {cap} local p none hc v =
    rw (flood-policy p hc v)
      (elim (Bool-cases (ltb 1 p.ttl)) [ inl more ↦ rw more refl | inr last ↦ rw last refl ])
route-policy {cap} local p (some dest) hc v = elim (Bool-cases (dest == local)) [
  | inl here ↦ rw here refl
  | inr away ↦
      rw (away, relay-policy p hc v)
        (elim (Bool-cases (ltb 1 p.ttl)) [ inl more ↦ rw more refl | inr last ↦ rw last refl ])
]

module _ {size : ℕ} (c : SeenCache size) where
  -- The keys a router knows, stalest first.
  abbrev pub known : Router c → List ℕ
  known r = c.view r.seen

  -- A router whose cache is well formed.
  abbrev pub IsRouter : Router c → Type 0
  IsRouter r = c.IsValid r.seen × IsRecency size (known r)

  pub new-IsRouter : (local : WireId) → IsRouter (new c local) × (known (new c local) ≡ [])
  unfolding new
  new-IsRouter local = ((c.new-IsValid, rw c.view-new (nil-IsRecency size)), c.view-new)

  pub insert-IsRouter :
      (r : Router c) (key : ℕ) → IsRouter r → IsRouter (record r { seen = (c.insert r.seen key).0 })
  insert-IsRouter r key (v, d) = (
    c.insert-IsValid r.seen key v,
    rw (c.view-insert r.seen key v) (hear-IsRecency size (known r) key d),
  )

  -- What `ingest` answers for a packet.
  unfoldable pub answer_to : ℕ → Router c → Packet → RouteAction
  answer_to cap r p =
      if p.src == r.local
      then ignore own
      else if member (dedup_key p) (known r)
      then ignore duplicate
      else policy cap r.local p

  -- The keys it knows afterwards.
  unfoldable pub known_after : Router c → Packet → List ℕ
  known_after r p = if p.src == r.local then known r else (hear size (known r) (dedup_key p)).0

  -- On a well-formed packet `ingest` never panics. It ignores its own and known packets and applies
  -- the policy to others; every packet of another node is heard by the cache, no other key is.
  pub ingest_packet_lem :
      {cap : ℕ} (r : Router c) (p : Packet)
      → IsCap cap
      → IsPacket cap p
      → IsRouter r
      → ((ingest_packet c cap r p).1 ≡ ok (answer_to cap r p))
        × (known (ingest_packet c cap r p).0 ≡ known_after r p)
        × IsRouter (ingest_packet c cap r p).0
        × ((ingest_packet c cap r p).0.local ≡ r.local)
  unfolding ingest_packet answer_to known_after
  ingest_packet_lem {cap} r p hc v hr = elim (Bool-cases (p.src == r.local)) [
    | inl mine ↦ rw mine (refl, refl, hr, refl)
    | inr other ↦
        let key : ℕ = dedup_key p in
        let told : (c.insert r.seen key).1 ≡ not (member key (known r)) =
          c.insert_new r.seen key hr.0 ∙ hear_new size (known r) key in
        let after = c.view-insert r.seen key hr.0 in
        let valid = insert-IsRouter r key hr in
        elim (Bool-cases (member key (known r))) [
          | inl old ↦ rw (other, told, old) (refl, after, valid, refl)
          | inr fresh ↦
              rw (other, told, fresh) (route-policy r.local p p.dest hc v, after, valid, refl)
        ]
  ]
