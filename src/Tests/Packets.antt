-- ===== src/Tests/Packets.antt =====
-- Runs of the theorems on packets and their keys.
use poholos.Prelude.{[], max, min, refl, ◌-◌, ◌↔◌, ◌∷◌, ◌≡◌, ◌≤◌}
use poholos.Fnv.{fnv64, fnv64_update, fnv_round}
use poholos.Fnv.Reference.{fnv1a}
use poholos.Packet.{dedup_key}
use poholos.Packet.Hop.{hops, hops_lem}
use poholos.Packet.Key.{dedup_key_lem, identity_bytes}
use poholos.Tests.Data.{pong-IsPacket, ping, ping-IsPacket, pong}

dedup_key_lem_example :
    (dedup_key ping ≡ fnv1a (identity_bytes ping))
    × ((identity_bytes ping ≡ identity_bytes pong) ↔ (ping ≡ record pong { ttl = ping.ttl }))
dedup_key_lem_example = dedup_key_lem ping-IsPacket pong-IsPacket

-- Vectors of draft-eastlake-fnv: the empty string, `a` and `foobar`.
fnv64_vectors :
    (fnv64 [] ≡ 0xcbf29ce484222325)
    × (fnv64 (97 ∷ []) ≡ 0xaf63dc4c8601ec8c)
    × (fnv64 (102 ∷ 111 ∷ 111 ∷ 98 ∷ 97 ∷ 114 ∷ []) ≡ 0x85944171f73967e8)
unfolding fnv64 fnv64_update fnv_round
fnv64_vectors = (refl, refl, refl)

hops_lem_example :
    ((hops 9 ping).0 ≡ min 9 (ping.ttl - 1))
    × ((hops 9 ping).1 ≡ record ping { ttl = max 1 (ping.ttl - 9) })
    × ((hops 9 ping).0 ≤ 30)
hops_lem_example = hops_lem 9 {cap = 22} {p = ping} ping-IsPacket
