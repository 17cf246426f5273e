-- ===== src/Router/Actions.antt =====
-- What `ingest` of crates/poholos/src/router.rs can answer: well-formed packets, and frames of
-- well-formed packets.
use poholos.Prelude.{
  Bool, Bool-cases, false, inl, inr, ltb, ltb→lt, refl, true, ℕ, ◌&&◌, ◌-◌, ◌==◌, ◌≡◌,
}
use poholos.Packet.{Packet, dedup_key}
use poholos.Packet.Valid.{IsPacket}
use poholos.Wire.{Frame}
use poholos.Wire.Layout.{frame_of, wire_bytes}
use poholos.Seen.Recency.{member}
use poholos.Seen.Cache.{SeenCache}
use poholos.Router.{RouteAction, Router, deliver, deliver_and_forward, forward, ignore, new}
use poholos.Router.Decision.{
  action, answer_to, hopped-IsPacket, is_for_me, is_for_others, known, policy_to, relayed,
}

-- An action that the router can answer: a well-formed packet, and the frame of a well-formed one.
abbrev pub IsRelay : Frame → Packet → Type 0
IsRelay f p = IsPacket 211 p × (f ≡ frame_of 211 (wire_bytes p))

unfoldable pub IsAction : RouteAction → Type 0
IsAction (deliver p) = IsPacket 211 p
IsAction (deliver_and_forward p f) = IsPacket 211 p × ((q : Packet) × IsRelay f q)
IsAction (forward f) = (q : Packet) × IsRelay f q
IsAction (ignore r) = Unit {0}

action-IsAction :
    (p : Packet) (d others : Bool)
    → IsPacket 211 p
    → IsAction (action p (relayed 211 p) d (others && ltb 1 p.ttl))
unfolding action IsAction
action-IsAction p true false v = v
action-IsAction p false false v = tt
action-IsAction p d true v = elim (Bool-cases (ltb 1 p.ttl)) [
  | inl more ↦
      let next : Packet = record p { ttl = p.ttl - 1 } in
      let w = hopped-IsPacket p v (ltb→lt 1 p.ttl more) in rw more (relay_case d w)
  | inr last ↦ rw last (last_case d)
]
  where
    relay_case :
        (b : Bool)
        → IsPacket 211 (record p { ttl = p.ttl - 1 })
        → IsAction (action p (relayed 211 p) b true)
    relay_case true w = (v, (record p { ttl = p.ttl - 1 }, (w, refl)))
    relay_case false w = (record p { ttl = p.ttl - 1 }, (w, refl))

    last_case : (b : Bool) → IsAction (action p (relayed 211 p) b false)
    last_case true = v
    last_case false = tt

module _ {size : ℕ} (c : SeenCache size) where
  pub answer_to-IsAction :
      (r : Router c) (p : Packet) → IsPacket 211 p → IsAction (answer_to c 211 r p)
  unfolding answer_to policy_to IsAction
  answer_to-IsAction r p v = elim (Bool-cases (p.src == r.local)) [
    | inl mine ↦ rw mine tt
    | inr other ↦ elim (Bool-cases (member (dedup_key p) (known c r))) [
      | inl old ↦ rw (other, old) tt
      | inr new ↦
          rw (other, new)
            (action-IsAction p (is_for_me r.local p.dest) (is_for_others r.local p.dest) v)
    ]
  ]
