-- ===== src/Tests/Routers.antt =====
-- Runs of the theorems on a router whose cache is the ring.
use poholos.Prelude.{
  All, [], arith, length, ltb, map, min, ok, panic, refl, some, true, ◌&&◌, ◌<◌, ◌∷◌, ◌≡◌, ◌≢◌,
}
use poholos.Prelude.Words.{}
use poholos.Packet.{Packet}
use poholos.Wire.{Frame, as_bytes}
use poholos.Wire.Decode.{decode}
use poholos.Wire.Accept.{verdict}
use poholos.Seen.Cache.{SeenCache, ring_cache}
use poholos.Router.{Router, ingest, new, originate}
use poholos.Router.Decision.{IsRouter, is_for_me, is_for_others, known, new-IsRouter, relayed}
use poholos.Router.Policy.{heard, ingest_lem, response}
use poholos.Router.Relay.{
  Sends, delivered, forwarded, ingest-Sends, ingest_decisions, is_news, when,
}
use poholos.Router.Line.{IsFresh, along, copies, originate-copies}
use poholos.Router.History.{ingest-originate, ingest_all, ingest_once, stale}
use poholos.Tests.Data.{
  hi, hi-IsByte, legacy-IsCap, ping, ping-IsPacket, ping_bytes, ping_bytes-IsByte, ping_read,
  pong_bytes, pong_bytes-IsByte, pong_read,
}

pub four : 0 < 4
four = omega arith

abbrev pub cache : SeenCache 4
cache = ring_cache 4 four

-- A node that is not the source of the packet, and its source.
abbrev pub node : Router cache
node = new cache 9

abbrev source : Router cache
source = new cache 7

pub node-IsRouter : IsRouter cache node
node-IsRouter = (new-IsRouter cache 9).0

source-IsRouter : IsRouter cache source
source-IsRouter = (new-IsRouter cache 7).0

ingest_lem_example :
    ((ingest cache 22 node ping_bytes).1 ≡ response cache 22 node (verdict 22 ping_bytes))
    × ((ingest cache 22 node ping_bytes).1 ≢ panic)
    × (known cache (ingest cache 22 node ping_bytes).0 ≡ heard cache node (verdict 22 ping_bytes))
    × IsRouter cache (ingest cache 22 node ping_bytes).0
    × ((ingest cache 22 node ping_bytes).0.local ≡ node.local)
ingest_lem_example =
    ingest_lem cache 22 node ping_bytes legacy-IsCap ping_bytes-IsByte node-IsRouter

ingest_once_example :
    (ingest cache 22 (ingest_all cache 22 node (ping_bytes ∷ hi ∷ [])) pong_bytes).1
    ≡ stale cache node ping
ingest_once_example =
    ingest_once cache 22 node ping_bytes (hi ∷ []) pong_bytes ping 4 legacy-IsCap node-IsRouter
      ping_bytes-IsByte (hi-IsByte, tt) pong_bytes-IsByte ping_read pong_read (omega arith)

ingest-originate_example :
    (s : Router cache) × (f : Frame) × (originate cache 22 source ping ≡ some (s, f))
    × (decode 22 (as_bytes f) ≡ ok ping)
    × ((ingest cache 22 s pong_bytes).1 ≡ stale cache source ping)
ingest-originate_example =
    ingest-originate cache 22 source ping 4 pong_bytes legacy-IsCap ping-IsPacket source-IsRouter
      four pong_bytes-IsByte pong_read

ingest_decisions_example :
    (delivered (ingest cache 22 node ping_bytes).1
      ≡ when (is_news cache node ping && is_for_me node.local ping.dest) ping)
    × (forwarded (ingest cache 22 node ping_bytes).1
        ≡ when
            (is_news cache node ping && (is_for_others node.local ping.dest && ltb 1 ping.ttl))
            (relayed 22 ping))
ingest_decisions_example =
    ingest_decisions cache 22 node ping_bytes ping legacy-IsCap ping_bytes-IsByte node-IsRouter
      ping_read

ping_sent : forwarded (ingest cache 22 node ping_bytes).1 ≡ some (relayed 22 ping)
unfolding is_news is_for_others new poholos.Seen.Recency.member poholos.Seen.Ring.new
ping_sent =
    (ingest_decisions cache 22 node ping_bytes ping legacy-IsCap ping_bytes-IsByte node-IsRouter
      ping_read).1

ingest-Sends_example : (p : Packet) × Sends cache 22 node ping_bytes (relayed 22 ping) p
ingest-Sends_example =
    ingest-Sends cache 22 node ping_bytes (relayed 22 ping) legacy-IsCap ping_bytes-IsByte
      node-IsRouter ping_sent

ping_news : is_news cache node ping ≡ true
unfolding is_news new poholos.Seen.Recency.member poholos.Seen.Ring.new
ping_news = refl

line-IsFresh : All (IsFresh cache ping) (node ∷ node ∷ [])
line-IsFresh = ((node-IsRouter, ping_news), ((node-IsRouter, ping_news), tt))

originate-copies_example :
    (s : Router cache) × (f : Frame) × (originate cache 22 source ping ≡ some (s, f))
    × (map delivered (along cache 22 (node ∷ node ∷ []) (as_bytes f))
        ≡ copies (min ping.ttl (length (node ∷ node ∷ []))) ping)
originate-copies_example =
    originate-copies cache 22 source (node ∷ node ∷ []) ping legacy-IsCap ping-IsPacket refl
      source-IsRouter line-IsFresh
