-- ===== src/Router/Line.antt =====
-- A message along a line of nodes, each of which hears only the one before it: `ingest` of
-- crates/poholos/src/router.rs, as in crates/poholos/tests/mesh.rs.
use poholos.Prelude.{
  All, All-weaken, Bool-cases, List, Option, Outcome, [], ap, arith, inl, inr, length, ltb,
  ltb-false→le, ltb→lt, map, min, none, ok, refl, some, suc, true, zero, ℕ, ◌-◌, ◌<◌, ◌∙◌, ◌∷◌, ◌≡◌,
  ◌≤◌,
}
use poholos.Prelude.Words.{IsByte}
use poholos.Packet.{Packet}
use poholos.Packet.Key.{dedup_key-ttl}
use poholos.Packet.Valid.{IsCap, IsPacket}
use poholos.Wire.{Frame, WireError, as_bytes}
use poholos.Wire.Decode.{decode}
use poholos.Wire.Read.{decode-Reads}
use poholos.Wire.Layout.{as_bytes-frame_of, frame_of, wire_bytes}
use poholos.Wire.Bytes.{wire_bytes-IsByte}
use poholos.Seen.Cache.{SeenCache}
use poholos.Router.{Router, RouteAction, ingest, originate}
use poholos.Wire.RoundTrip.{decode-wire_bytes}
use poholos.Router.History.{originate_lem}
use poholos.Router.Decision.{IsRouter, hopped-IsPacket, is_for_me, is_for_others, relayed}
use poholos.Router.Relay.{delivered, forwarded, ingest_decisions, is_news, relayed_lem, when}

-- The copies of a packet that `n` nodes hand up, each with one hop less than the one before.
unfoldable pub copies : ℕ → Packet → List (Option Packet)
copies zero p = []
copies (suc n) p = some p ∷ copies n (record p { ttl = p.ttl - 1 })

-- A frame that is sent on is what the next node hears.
unfoldable pub passed_on {ℓ} : {A : Type ℓ} → Option Frame → (Frame → List A) → List A
passed_on none next = []
passed_on (some f) next = next f

module _ {size : ℕ} (c : SeenCache size) where
  -- What each node of the line answers, as far as the message gets.
  unfoldable pub along : ℕ → List (Router c) → List ℕ → List (Outcome WireError RouteAction)
  along cap [] bytes = []
  along cap (r ∷ rs) bytes =
      let answer = (ingest c cap r bytes).1 in
      answer ∷ passed_on (forwarded answer) (λ f. along cap rs (as_bytes f))

  -- A well-formed node to which a packet is news.
  abbrev pub IsFresh : Packet → Router c → Type 0
  IsFresh p r = IsRouter c r × (is_news c r p ≡ true)

  is_news-ttl :
      (r : Router c) (p : Packet) (t : ℕ) → is_news c r (record p { ttl = t }) ≡ is_news c r p
  unfolding is_news
  is_news-ttl r p t = rw (dedup_key-ttl p t) refl

  IsFresh-ttl :
      (rs : List (Router c)) (p : Packet) (t : ℕ)
      → All (IsFresh p) rs
      → All (IsFresh (record p { ttl = t })) rs
  IsFresh-ttl rs p t h = All-weaken (λ r (v, new). (v, is_news-ttl r p t ∙ new)) rs h

  min_last : (t n : ℕ) → 1 ≤ t → t ≤ 1 → min t (suc n) ≡ 1
  min_last t n h k = omega arith

  min_more : (t n : ℕ) → 1 < t → min t (suc n) ≡ suc (min (t - 1) n)
  min_more t n h = omega arith

  -- Hearsay that comes to a line of well-formed nodes to which it is news is handed up by as many
  -- of them as it has hops, or by all, each copy with one hop less than the one before.
  pub along-copies :
      (cap : ℕ) (rs : List (Router c)) (bytes : List ℕ) (p : Packet)
      → IsCap cap
      → All IsByte bytes
      → decode cap bytes ≡ ok p
      → p.dest ≡ none
      → All (IsFresh p) rs
      → map delivered (along cap rs bytes) ≡ copies (min p.ttl (length rs)) p
  unfolding along copies is_for_me is_for_others passed_on
  along-copies cap [] bytes p hc hb e all hs =
      let zero_hops : min p.ttl 0 ≡ 0 = omega arith in rw zero_hops refl
  along-copies cap (r ∷ rs) bytes p hc hb e all (h, hs) =
      let v = (decode-Reads cap bytes p hc hb e).valid in
      let (up, on) = ingest_decisions c cap r bytes p hc hb h.0 e in
      let answer = (ingest c cap r bytes).1 in
      let here : delivered answer ≡ some p = up ∙ rw (h.1, all) refl in
      let rest : forwarded answer ≡ when (ltb 1 p.ttl) (relayed cap p) = on ∙ rw (h.1, all) refl in
      elim (Bool-cases (ltb 1 p.ttl)) [
        | inl more ↦
            let lt : 1 < p.ttl = ltb→lt 1 p.ttl more in
            let next : Packet = record p { ttl = p.ttl - 1 } in
            let heard_bytes : All IsByte (as_bytes (relayed cap p)) =
              rw (as_bytes-frame_of cap (wire_bytes next))
                (wire_bytes-IsByte (hopped-IsPacket p v lt)) in
            rw (here, rest, more, min_more p.ttl (length rs) lt)
              (ap (◌∷◌ (some p)) (
                along-copies cap rs (as_bytes (relayed cap p)) next hc heard_bytes
                  (relayed_lem p hc v lt) all (IsFresh-ttl rs p (p.ttl - 1) hs)))
        | inr last ↦
            rw (here, rest, last, min_last p.ttl (length rs) v.ttl_pos (ltb-false→le 1 p.ttl last))
              refl
      ]

  -- Hearsay that a well-formed router originates, and that comes to a line of well-formed routers
  -- to which it is news, each of which hears only the one before it, is handed up by as many of
  -- them as it has hops, or by all, each copy with one hop less than the one before.
  pub originate-copies :
      (cap : ℕ) (source : Router c) (rs : List (Router c)) (p : Packet)
      → IsCap cap
      → IsPacket cap p
      → p.dest ≡ none
      → IsRouter c source
      → All (IsFresh p) rs
      → (s : Router c) × (f : Frame) × (originate c cap source p ≡ some (s, f))
        × (map delivered (along cap rs (as_bytes f)) ≡ copies (min p.ttl (length rs)) p)
  originate-copies cap source rs p hc v all hr hs =
      let (s, e, keys, w, same) = originate_lem c cap source p hc v hr in
      let f : Frame = frame_of cap (wire_bytes p) in
      let bytes = as_bytes-frame_of cap (wire_bytes p) in
      (
        s,
        f,
        e,
        along-copies cap rs (as_bytes f) p hc (rw bytes (wire_bytes-IsByte v))
            (rw bytes (decode-wire_bytes hc v)) all hs,
      )
