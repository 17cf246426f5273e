-- ===== src/Tests/Data.antt =====
-- A hearsay packet, its frame on the air, and the one a neighbour sends on.
use poholos.Prelude.{All, List, [], arith, none, ok, ℕ, ◌∷◌, ◌≡◌}
use poholos.Prelude.Words.{IsByte}
use poholos.Packet.{Packet}
use poholos.Packet.Valid.{IsCap, IsPacket, packet_of, packet_of-IsPacket, payload_of}
use poholos.Wire.Decode.{decode}
use poholos.Wire.Layout.{documented_version}
use poholos.Wire.Layout.{wire_bytes}
use poholos.Wire.RoundTrip.{decode-wire_bytes}

abbrev pub hi : List ℕ
hi = 104 ∷ 105 ∷ []

abbrev pub ping : Packet
ping = packet_of 22 7 none 1 hi 5

-- The same packet one hop later.
abbrev pub pong : Packet
pong = packet_of 22 7 none 1 hi 4

abbrev pub ping_bytes : List ℕ
ping_bytes = 5 ∷ 0 ∷ 1 ∷ 0 ∷ 0 ∷ 0 ∷ 7 ∷ hi

abbrev pub pong_bytes : List ℕ
pong_bytes = 4 ∷ 0 ∷ 1 ∷ 0 ∷ 0 ∷ 0 ∷ 7 ∷ hi

pub legacy-IsCap : IsCap 22
legacy-IsCap = (omega arith, omega arith)

pub hi-IsByte : All IsByte hi
hi-IsByte = (omega arith, (omega arith, tt))

pub ping-IsPacket : IsPacket 22 ping
ping-IsPacket =
    packet_of-IsPacket 22 7 none 1 hi 5 (omega arith) tt (omega arith) hi-IsByte
      (omega arith, omega arith) (omega arith)

pub pong-IsPacket : IsPacket 22 pong
pong-IsPacket =
    packet_of-IsPacket 22 7 none 1 hi 4 (omega arith) tt (omega arith) hi-IsByte
      (omega arith, omega arith) (omega arith)

pub ping_bytes-IsByte : All IsByte ping_bytes
ping_bytes-IsByte = (
  omega arith,
  (
    omega arith,
    (omega arith, (omega arith, (omega arith, (omega arith, (omega arith, hi-IsByte))))),
  ),
)

pub pong_bytes-IsByte : All IsByte pong_bytes
pong_bytes-IsByte = (
  omega arith,
  (
    omega arith,
    (omega arith, (omega arith, (omega arith, (omega arith, (omega arith, hi-IsByte))))),
  ),
)

pub ping_read : decode 22 ping_bytes ≡ ok ping
unfolding wire_bytes payload_of documented_version
ping_read = decode-wire_bytes legacy-IsCap ping-IsPacket

pub pong_read : decode 22 pong_bytes ≡ ok pong
unfolding wire_bytes payload_of documented_version
pong_read = decode-wire_bytes legacy-IsCap pong-IsPacket
