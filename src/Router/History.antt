-- ===== src/Router/History.antt =====
-- Routers over time: `originate` and sequences of `ingest` of crates/poholos/src/router.rs.
use poholos.Prelude.{
  All, Bool-cases, List, Outcome, [], ap, arith, err, if◌then◌else◌, inl, inr, length, ok, panic,
  refl, some, true, ℕ, ◌<◌, ◌==◌, ◌∙◌, ◌∷◌, ◌≡◌, ◌≤◌, ◌⊎◌,
}
use poholos.Wire.RoundTrip.{decode-wire_bytes}
use poholos.Seen.Recency.Survival.{hear_all, hear_all-hear}
use poholos.Prelude.Words.{IsByte}
use poholos.Packet.{Packet, dedup_key}
use poholos.Packet.Valid.{IsCap, IsPacket}
use poholos.Wire.{Frame, WireError, as_bytes}
use poholos.Wire.Decode.{decode}
use poholos.Wire.Layout.{as_bytes-frame_of, encode_lem, frame_of, wire_bytes}
use poholos.Seen.Recency.{hear, member}
use poholos.Seen.Cache.{SeenCache}
use poholos.Router.{RouteAction, Router, duplicate, ignore, ingest, originate, own}
use poholos.Router.Decision.{IsRouter, answer_to, insert-IsRouter, known, known_after}
use poholos.Router.Policy.{heard, ingest_decoded, response}

-- `p` with another hop count, as it comes back from a neighbour.
abbrev pub echo : Packet → ℕ → Packet
echo p t = record p { ttl = t }

module _ {size : ℕ} (c : SeenCache size) where
  -- The received byte strings one after the other.
  unfoldable pub ingest_all : ℕ → Router c → List (List ℕ) → Router c
  ingest_all cap r [] = r
  ingest_all cap r (bytes ∷ rest) = ingest_all cap (ingest c cap r bytes).0 rest

  -- The reason for which a known packet is ignored.
  unfoldable pub stale : Router c → Packet → Outcome WireError RouteAction
  stale r p = ok (ignore (if p.src == r.local then own else duplicate))

  known-stale :
      (cap : ℕ) (r : Router c) (p : Packet)
      → ((p.src == r.local) ≡ true) ⊎ (member (dedup_key p) (known c r) ≡ true)
      → ok (answer_to c cap r p) ≡ stale r p
  unfolding answer_to stale
  known-stale cap r p (inl mine) = rw mine refl
  known-stale cap r p (inr h) =
      rw h (elim (Bool-cases (p.src == r.local)) [
        | inl mine ↦ rw mine refl
        | inr other ↦ rw other refl
      ])

  stale-same : (r s : Router c) (p : Packet) → s.local ≡ r.local → stale s p ≡ stale r p
  unfolding stale
  stale-same r s p e = ap (λ local. ok (ignore (if p.src == local then own else duplicate))) e

  ingest_known :
      (cap : ℕ) (r : Router c) (bytes : List ℕ) (p : Packet) (t : ℕ)
      → IsCap cap
      → All IsByte bytes
      → IsRouter c r
      → decode cap bytes ≡ ok (echo p t)
      → ((p.src == r.local) ≡ true) ⊎ (member (dedup_key p) (known c r) ≡ true)
      → (ingest c cap r bytes).1 ≡ stale r p
  unfolding response dedup_key stale
  ingest_known cap r bytes p t hc hb hr e h =
      (ingest_decoded c cap r bytes (ok (echo p t)) hc hb hr e).0 ∙ known-stale cap r (echo p t) h

  -- A node that originates a packet records it, puts its encoding on the air and stays well formed.
  pub originate_lem :
      (cap : ℕ) (r : Router c) (p : Packet)
      → IsCap cap
      → IsPacket cap p
      → IsRouter c r
      → (s : Router c) × (originate c cap r p ≡ some (s, frame_of cap (wire_bytes p)))
        × (known c s ≡ (hear size (known c r) (dedup_key p)).0)
        × IsRouter c s
        × (s.local ≡ r.local)
  unfolding originate
  originate_lem cap r p hc v hr = (
    record r { seen = (c.insert r.seen (dedup_key p)).0 },
    rw (encode_lem hc.1 v) refl,
    c.view-insert r.seen (dedup_key p) hr.0,
    insert-IsRouter c r (dedup_key p) hr,
    refl,
  )

  -- `originate` of a well-formed packet on a well-formed router returns a frame that decodes to
  -- the packet, and bytes that decode to the packet with any hop count are then ignored, as own or
  -- as a duplicate.
  pub ingest-originate :
      (cap : ℕ) (r : Router c) (p : Packet) (t : ℕ) (bytes : List ℕ)
      → IsCap cap
      → IsPacket cap p
      → IsRouter c r
      → 0 < size
      → All IsByte bytes
      → decode cap bytes ≡ ok (echo p t)
      → (s : Router c) × (f : Frame) × (originate c cap r p ≡ some (s, f))
        × (decode cap (as_bytes f) ≡ ok p)
        × ((ingest c cap s bytes).1 ≡ stale r p)
  unfolding hear_all
  ingest-originate cap r p t bytes hc v hr hs hb d =
      let (s, e, k, vs, l) = originate_lem cap r p hc v hr in
      let kept : member (dedup_key p) (known c s) ≡ true =
        rw k (hear_all-hear size (dedup_key p) [] (known c r) hr.1 hs) in
      (
        s,
        frame_of cap (wire_bytes p),
        e,
        rw (as_bytes-frame_of cap (wire_bytes p)) (decode-wire_bytes hc v),
        ingest_known cap s bytes p t hc hb vs d (inr kept) ∙ stale-same r s p l,
      )

  heard-keys :
      (r : Router c) (o : Outcome WireError Packet)
      → (heard c r o ≡ known c r) ⊎ ((k : ℕ) × (heard c r o ≡ (hear size (known c r) k).0))
  unfolding heard known_after
  heard-keys r (err e) = inl refl
  heard-keys r panic = inl refl
  heard-keys r (ok p) = elim (Bool-cases (p.src == r.local)) [
    | inl mine ↦ inl (rw mine refl)
    | inr other ↦ inr (dedup_key p, rw other refl)
  ]

  -- After any byte strings the known keys are those known before and at most one more for each.
  record Since (r s : Router c) (n : ℕ) : Type 0 where
    pub keys : List ℕ
    pub few : length keys ≤ n
    pub heard_keys : known c s ≡ hear_all size (known c r) keys
    pub valid : IsRouter c s
    pub same_local : s.local ≡ r.local

  since :
      (cap : ℕ) (r : Router c) (bs : List (List ℕ))
      → IsCap cap
      → All (All IsByte) bs
      → IsRouter c r
      → Since r (ingest_all cap r bs) (length bs)
  unfolding ingest_all hear_all
  since cap r [] hc hb hr = record {
    keys = [];
    few = omega arith;
    heard_keys = refl;
    valid = hr;
    same_local = refl;
  }
  since cap r (bytes ∷ rest) hc hb hr =
      let o = decode cap bytes in
      let (a, k, v, l) = ingest_decoded c cap r bytes o hc hb.0 hr refl in
      let next = since cap (ingest c cap r bytes).0 rest hc hb.1 v in
      elim (heard-keys r o) [
        | inl same ↦ record {
          keys = next.keys;
          few = omega (arith, next.few);
          heard_keys = next.heard_keys ∙ ap (λ xs. hear_all size xs next.keys) (k ∙ same);
          valid = next.valid;
          same_local = next.same_local ∙ l;
        }
        | inr (key, more) ↦ record {
          keys = key ∷ next.keys;
          few = omega (arith, next.few);
          heard_keys = next.heard_keys ∙ ap (λ xs. hear_all size xs next.keys) (k ∙ more);
          valid = next.valid;
          same_local = next.same_local ∙ l;
        }
      ]

  -- A packet that a well-formed router has ingested is ignored, as own or as a duplicate, when it
  -- is ingested again with any hop count after fewer than `size` other byte strings.
  pub ingest_once :
      (cap : ℕ) (r : Router c) (first : List ℕ) (between : List (List ℕ)) (again : List ℕ)
      (p : Packet) (t : ℕ)
      → IsCap cap
      → IsRouter c r
      → All IsByte first
      → All (All IsByte) between
      → All IsByte again
      → decode cap first ≡ ok p
      → decode cap again ≡ ok (echo p t)
      → length between < size
      → (ingest c cap (ingest_all cap r (first ∷ between)) again).1 ≡ stale r p
  unfolding ingest_all heard known_after
  ingest_once cap r first between again p t hc hr hf hb ha d e few =
      let (a, k, v, l) = ingest_decoded c cap r first (ok p) hc hf hr d in
      let later = since cap (ingest c cap r first).0 between hc hb v in
      let last : Router c = ingest_all cap r (first ∷ between) in
      let same : last.local ≡ r.local = later.same_local ∙ l in
      let old : ((p.src == last.local) ≡ true) ⊎ (member (dedup_key p) (known c last) ≡ true) =
        elim (Bool-cases (p.src == r.local)) [
          | inl mine ↦ inl (rw same mine)
          | inr other ↦
              let start : known c (ingest c cap r first).0
                  ≡ (hear size (known c r) (dedup_key p)).0 =
                k ∙ rw other refl in
              inr (
                rw (later.heard_keys, start)
                  (hear_all-hear size (dedup_key p) later.keys (known c r) hr.1
                    (omega (arith, later.few, few))))
        ] in
      ingest_known cap last again p t hc ha later.valid e old ∙ stale-same r last p same
