-- ===== src/Packet/Hop.antt =====
-- `Packet::hop` of packet.rs: the hop count falls to one and stops there.
use poholos.Prelude.{arith, if◌then◌else◌, ltb, max, min, suc, zero, ℕ, ◌-◌, ◌≡◌, ◌≤◌}
use poholos.Packet.{Packet, hop}
use poholos.Packet.Valid.{IsPacket}

-- A packet after `n` calls of `hop`, and how many of them allowed forwarding.
unfoldable pub hops : ℕ → Packet → ℕ × Packet
hops zero p = (0, p)
hops (suc n) p =
    let (may, p') = hop p in
    let (count, last) = hops n p' in (if may then suc count else count, last)

-- `hop` keeps a packet well formed, answers whether more than one hop was left, and takes one hop
-- if so.
pub hop-IsPacket :
    {cap : ℕ} {p : Packet}
    → IsPacket cap p
    → IsPacket cap (hop p).1
      × ((hop p).0 ≡ ltb 1 p.ttl)
      × ((hop p).1 ≡ record p { ttl = max 1 (p.ttl - 1) })
unfolding hop
hop-IsPacket {cap} {p} v = ground arith

-- Of `n` calls of `hop` on a well-formed packet exactly the first `ttl - 1` answer that it may be
-- forwarded, at most thirty of them; each takes one hop, and the count stays at one from there.
pub hops_lem :
    (n : ℕ) {cap : ℕ} {p : Packet}
    → IsPacket cap p
    → ((hops n p).0 ≡ min n (p.ttl - 1))
      × ((hops n p).1 ≡ record p { ttl = max 1 (p.ttl - n) })
      × ((hops n p).0 ≤ 30)
unfolding hops
hops_lem zero {p = p} v = ground arith
hops_lem (suc n) {p = p} v = ground (arith, hop-IsPacket v, hops_lem n (hop-IsPacket v).0)
