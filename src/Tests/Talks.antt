-- ===== src/Tests/Talks.antt =====
-- Runs of the theorems on two chats, and on packets through serde.
use poholos.Prelude.{
  All, List, [], arith, copy_at, false, if◌then◌else◌, none, ok, refl, replicate, some, true, ℕ,
  ◌∷◌, ◌≡◌, ◌≤◌,
}
use poholos.Prelude.{copy_at}
use poholos.Text.{
  IsChar, is_nil, is_whitespace, strip_prefix, trim, trim_end, trim_start, utf8, utf8_char,
}
use poholos.Packet.{Packet, as_slice, hearsay, hearsay_with, payload_copy_from, validate_ttl}
use poholos.Packet.Valid.{packet_of, payload_of}
use poholos.Wire.{Frame, as_bytes}
use poholos.Wire.Layout.{frame_of, layout, wire_bytes}
use poholos.Wire.Encode.{encode}
use poholos.Router.{new}
use poholos.Router.Decision.{is_for_me, new-IsRouter}
use poholos.Router.Relay.{is_news}
use poholos.Rotation.Fair.{same_bytes}
use poholos.Transports.{Hands, ble}
use poholos.Serde.{Fields, byte_string, serialize, deserialize}
use poholos.Serde.Packets.{as_sequence, deserialize-serialize, encodable, encode-deserialize}
use poholos.Cli.{hearsay_line, packet_of_line, parse_outgoing}
use poholos.Cli
use poholos.Seen.Recency.{member}
use poholos.Cli.Lines.{Carries}
use poholos.Cli.Chat.{Chat, Shown, delivery, on_frame, on_line, quit_line}
use poholos.Cli.Apt.{IsChat}
use poholos.Cli.Heard.{said-heard}
use poholos.Tests.Data.{hi, ping, ping-IsPacket, legacy-IsCap}
use poholos.Tests.Routers.{cache}
use poholos.Tests.Hosts.{chat, chat-IsChat, hi-IsChar}

deserialize-serialize_example :
    (deserialize 22 (serialize ping) ≡ ok ping)
    × (deserialize 22 (as_sequence (serialize ping) (as_slice ping.payload)) ≡ ok ping)
deserialize-serialize_example = deserialize-serialize legacy-IsCap ping-IsPacket

-- Hearsay of 16 bytes, one more than fits.
abbrev too_many : List ℕ
too_many = replicate 16 65

abbrev read_fields : Fields
read_fields = record { ttl = 5; seq = 1; src = 7; dest = none; payload = byte_string too_many }

encode-deserialize_example :
    (p : Packet) × (deserialize 22 read_fields ≡ ok p)
    × (encode 22 p ≡ (
        if encodable 22 5 none too_many
        then some (frame_of 22 (layout 5 1 7 none too_many))
        else none))
encode-deserialize_example =
    encode-deserialize 22 read_fields too_many legacy-IsCap refl (omega arith)

abbrev said : Packet
said = packet_of 211 9 none 65535 hi 16

abbrev neighbour : Chat cache
neighbour = record {
  router = new cache 7;
  seq = 0;
  transport = ble (record { out = []; alive = true });
}

neighbour-IsChat : IsChat cache neighbour
unfolding new
neighbour-IsChat = record {
  routes = (new-IsRouter cache 7).0;
  seq_fits = omega arith;
  local_fits = omega arith;
}

hi_trimmed : trim hi ≡ hi
unfolding trim_end trim_start is_whitespace
hi_trimmed = refl

trimmed-IsChar : All IsChar (trim hi)
trimmed-IsChar = rw hi_trimmed hi-IsChar

hi_full : (is_nil (trim hi) ≡ false) × (same_bytes (trim hi) quit_line ≡ false)
unfolding same_bytes
hi_full = rw hi_trimmed (refl, refl)

hi_parsed : parse_outgoing 65535 9 (trim hi) ≡ (0, ok said)
unfolding parse_outgoing packet_of_line strip_prefix hearsay_line utf8 utf8_char hearsay
    hearsay_with validate_ttl payload_copy_from copy_at payload_of Cli.map_err Cli.advance
hi_parsed = rw hi_trimmed refl

said_taken : (true ≡ true) × ((frame_of 211 (wire_bytes said)).len ≤ 22)
unfolding wire_bytes payload_of frame_of
said_taken = (refl, omega arith)

said_news :
    (is_news cache neighbour.router said ≡ true)
    × (is_for_me neighbour.router.local said.dest ≡ true)
unfolding is_news is_for_me new member poholos.Seen.Ring.new
said_news = (refl, refl)

said-heard_example :
    (after : Chat cache) × (frame : Frame) × (on_line cache 22 chat hi ≡ some (after, [], false))
    × Hands (ble (record { out = []; alive = true })) after.transport frame
    × (heard : Chat cache) × (others : List Shown) × (on_frame cache 22 neighbour
          (frame_of 211 (as_bytes frame))
        ≡ some (heard, delivery said false ∷ others))
    × Carries (trim hi) none (as_slice said.payload)
unfolding new
said-heard_example =
    said-heard cache 22 chat neighbour hi 0 said chat-IsChat neighbour-IsChat trimmed-IsChar
      hi_full.0 hi_full.1 hi_parsed said_taken said_news.0 said_news.1
