-- ===== src/Router.antt =====
-- crates/poholos/src/router.rs: the routing decision for each received frame, over any backend of
-- the seen cache.
pub mod Decision
pub mod Policy
pub mod Relay
pub mod History
pub mod Mesh
pub mod Actions
pub mod Line
use poholos.Prelude.{
  List, Option, Outcome, err, if◌then◌else◌, map, none, not, ok, or_panic, panic, some, ℕ, ◌==◌,
  ◌>>=◌, ◌>>◌,
}
use poholos.Packet.{Packet, WireId, dedup_key, hop}
use poholos.Wire.{Frame, WireError}
use poholos.Wire.Encode.{encode}
use poholos.Wire.Decode.{decode}
use poholos.Seen.Cache.{SeenCache, size}
use mathlib.Core.Option

pub data IgnoreReason : Type 0 where
  own : IgnoreReason
  duplicate : IgnoreReason
  expired_ttl : IgnoreReason

-- `RouteActionN<CAP>`.
pub data RouteAction : Type 0 where
  deliver : Packet → RouteAction
  deliver_and_forward : Packet → Frame → RouteAction
  forward : Frame → RouteAction
  ignore : IgnoreReason → RouteAction

pub record Router {size : ℕ} (c : SeenCache size) : Type 0 where
  pub local : WireId
  pub seen : c.State

-- The arms of the final `match` of `ingest`: hearsay, a telegram for this node, one for another.
unfoldable pub flood : ℕ → Packet → Outcome WireError RouteAction
flood cap packet =
    let (may, hopped) = hop packet in
    if may
    then (do relay ← or_panic (encode cap hopped); ok (deliver_and_forward packet relay))
    else ok (deliver packet)

unfoldable pub relay : ℕ → Packet → Outcome WireError RouteAction
relay cap packet =
    let (may, hopped) = hop packet in
    if may
    then (do frame ← or_panic (encode cap hopped); ok (forward frame))
    else ok (ignore expired_ttl)

unfoldable pub route : ℕ → WireId → Packet → Option WireId → Outcome WireError RouteAction
route cap local packet none = flood cap packet
route cap local packet (some dest) = if dest == local then ok (deliver packet) else relay cap packet

module _ {size : ℕ} (c : SeenCache size) where
  unfoldable pub new : WireId → Router c
  new local = record { local = local; seen = c.new }

  -- `originate(&mut self, packet)`; `none` is a panic.
  unfoldable pub originate : ℕ → Router c → Packet → Option (Router c × Frame)
  originate cap r packet =
      let (seen, newly_seen) = c.insert r.seen (dedup_key packet) in
      Option.map (λ frame. (record r { seen = seen }, frame)) (encode cap packet)

  -- `ingest` once the bytes are decoded.
  unfoldable pub ingest_packet : ℕ → Router c → Packet → Router c × Outcome WireError RouteAction
  ingest_packet cap r packet =
      if packet.src == r.local
      then (r, ok (ignore own))
      else let (seen, new) = c.insert r.seen (dedup_key packet) in
        let r' = record r { seen = seen } in
        if not new then (r', ok (ignore duplicate)) else (r', route cap r.local packet packet.dest)

  -- `ingest(&mut self, bytes)`: the state after the call and its result.
  unfoldable pub ingest : ℕ → Router c → List ℕ → Router c × Outcome WireError RouteAction
  ingest cap r bytes = elim (decode cap bytes) [
    | ok packet ↦ ingest_packet cap r packet
    | err e ↦ (r, err e)
    | panic ↦ (r, panic)
  ]
