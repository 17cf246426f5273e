-- ===== src/Firmware/Letters.antt =====
-- A telegram typed for a board by its name: crates/poholos-cli/src/app.rs and the boards' main.rs.
pub mod Shown
use poholos.Prelude.{
  ==-eq-false, ==_refl, All, All-weaken, List, [], ap, arith, bit_and, false, length, ltb-eq-false,
  lt→ltb, ok, refl, some, true, ℕ, ◌%◌, ◌++◌, ◌+◌, ◌/◌, ◌<◌, ◌^◌, ◌∙◌, ◌∷◌, ◌≡◌, ◌≢◌, ◌≤◌,
}
use poholos.Prelude.Words.{IsU16, IsU32}
use poholos.Text.{
  IsChar, is_nil, split_before, split_once, strip_prefix, trim, utf8, utf8-IsByte, utf8_char,
}
use poholos.Text.Split.{split_once-append}
use poholos.Text.Utf8.{utf8_plain, IsScalar, utf8-is_utf8}
use poholos.Packet.{Packet, WireId, as_slice, telegram}
use poholos.Packet.Valid.{
  IsCap, IsPacket, as_slice-payload_of, constructed_fits, packet_of, packet_of-IsPacket,
  telegram_with_lem,
}
use poholos.Wire.{Frame}
use poholos.Wire.Layout.{as_bytes-frame_of, frame_of, wire_bytes}
use poholos.Wire.RoundTrip.{decode-wire_bytes}
use poholos.Wire.Bytes.{wire_bytes-IsByte}
use poholos.NodeId.{hex4, hex_digit, of_name}
use poholos.Seen.Cache.{SeenCache}
use poholos.Router.{ingest}
use poholos.Router.Decision.{is_for_me}
use poholos.Router.Relay.{delivered, ingest_decisions, is_news}
use poholos.Rotation.Fair.{same_bytes}
use poholos.Transports.{Hands, Takes}
use poholos.Cli.{advance, at_sign, map_err, packet_of_line, parse_outgoing, space, telegram_line}
use poholos.Cli.Chat.{Chat, is_dest, on_line, quit_line}
use poholos.Cli.Apt.{IsChat}
use poholos.Cli.Heard.{on_line-Sends}
use poholos.Firmware.Channels.{newest}
use poholos.Firmware.Node.{Node, display_queue, node_name, on_frame, telegram_mark, text_of}
use poholos.Firmware.Airs.{IsNode}
use poholos.Firmware.Shows.{mark_of}
use poholos.Firmware.Tasks.{on_frame-Obeys, texts}

hex_digit_range : (n : ℕ) → n < 16 → (48 ≤ hex_digit n) × (hex_digit n < 128)
unfolding hex_digit
hex_digit_range n h = ground arith

hex4-All : (x : ℕ) → All (λ b. (48 ≤ b) × (b < 128)) (hex4 x)
unfolding hex4
hex4-All x = (
  hex_digit_range (x / 4096 % 16) (omega arith),
  (
    hex_digit_range (x / 256 % 16) (omega arith),
    (hex_digit_range (x / 16 % 16) (omega arith), (hex_digit_range (x % 16) (omega arith), tt)),
  ),
)

node_name_lem :
    (deviceid : ℕ)
    → All (λ x. x ≢ space) (node_name deviceid) × All (λ x. x < 128) (node_name deviceid)
unfolding node_name
node_name_lem deviceid =
    let digits = hex4-All (bit_and deviceid 0xFFFF) in
    (
      (
        omega arith,
        (omega arith, (omega arith, All-weaken (λ b (l, h). omega (arith, l)) _ digits)),
      ),
      (omega arith, (omega arith, (omega arith, All-weaken (λ b (l, h). h) _ digits))),
    )

-- The line that sends a message to a board.
abbrev pub line_for : ℕ → List ℕ → List ℕ
line_for deviceid message = at_sign ∷ (node_name deviceid ++ (space ∷ message))

-- The packet of that line.
abbrev pub letter : ℕ → WireId → WireId → List ℕ → Packet
letter seq src dest message = packet_of 211 src (some dest) seq (utf8 (trim message)) 16

telegram_line-letter :
    (seq : ℕ) (src : WireId) (name message : List ℕ)
    → All (λ x. x < 128) name
    → is_nil (trim message) ≡ false
    → length (utf8 (trim message)) ≤ 200
    → telegram_line seq src name message ≡ ok (letter seq src (of_name name) message)
unfolding telegram_line map_err telegram
telegram_line-letter seq src name message plain full few =
    let bytes = utf8 (trim message) in
    let same =
      telegram_with_lem 211 src (of_name name) seq bytes 16 (omega arith, omega arith)
      ∙ constructed_fits src (some (of_name name)) seq bytes (omega (arith, few)) in
    rw (full, ltb-eq-false 200 (length bytes) few, utf8_plain name plain, same) refl

packet_of_line-line_for :
    (seq : ℕ) (src : WireId) (deviceid : ℕ) (message : List ℕ)
    → is_nil (trim message) ≡ false
    → length (utf8 (trim message)) ≤ 200
    → packet_of_line seq src (line_for deviceid message)
      ≡ ok (letter seq src (of_name (node_name deviceid)) message)
unfolding packet_of_line
packet_of_line-line_for seq src deviceid message full few =
    let (apart, plain) = node_name_lem deviceid in
    let marked : strip_prefix at_sign (line_for deviceid message)
        ≡ some (node_name deviceid ++ (space ∷ message)) =
      unfold strip_prefix in refl in
    rw (packet_of_line, marked, split_once-append space (node_name deviceid) message apart)
      (telegram_line-letter seq src (node_name deviceid) message plain full few)

pub parse_outgoing-line_for :
    (seq : ℕ) (src : WireId) (deviceid : ℕ) (message : List ℕ)
    → is_nil (trim message) ≡ false
    → length (utf8 (trim message)) ≤ 200
    → parse_outgoing seq src (line_for deviceid message)
      ≡ ((seq + 1) % 2 ^ 16, ok (letter seq src (of_name (node_name deviceid)) message))
unfolding parse_outgoing advance
parse_outgoing-line_for seq src deviceid message full few =
    ap (advance seq) (packet_of_line-line_for seq src deviceid message full few)

pub letter-IsPacket :
    (seq : ℕ) (src dest : WireId) (message : List ℕ)
    → IsU16 seq
    → IsU32 src
    → IsU32 dest
    → All IsScalar (trim message)
    → length (utf8 (trim message)) ≤ 200
    → IsPacket 211 (letter seq src dest message)
letter-IsPacket seq src dest message hq hs hd scalars few =
    let chars : All IsChar (trim message) =
      All-weaken (λ x h. omega (arith, h)) (trim message) scalars in
    packet_of-IsPacket 211 src (some dest) seq (utf8 (trim message)) 16 hs hd hq
      (utf8-IsByte (trim message) chars) (omega arith, omega arith) (omega (arith, few))

pub line_for_plain :
    (deviceid : ℕ) (message : List ℕ)
    → (is_nil (line_for deviceid message) ≡ false)
      × (same_bytes (line_for deviceid message) quit_line ≡ false)
unfolding same_bytes
line_for_plain deviceid message = (refl, refl)
