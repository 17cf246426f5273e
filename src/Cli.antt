-- ===== src/Cli.antt =====
-- crates/poholos-cli/src/app.rs: typed lines, and the chat loop over the advertising transport.
pub mod Lines
pub mod Chat
pub mod Apt
pub mod Session
pub mod Heard
pub mod Main
use poholos.Prelude.{
  List, Outcome, err, if◌then◌else◌, length, ltb, none, ok, panic, some, ℕ, ◌%◌, ◌+◌, ◌-◌, ◌^◌,
}
use poholos.Text.{is_nil, split_once, strip_prefix, trim, utf8}
use poholos.Packet.{
  Packet, PacketError, WireId, header_len_hearsay, header_len_telegram, hearsay, max_ext_frame_len,
  telegram,
}
use poholos.Wire.{}
use poholos.Wire.Encode.{}
use poholos.NodeId.{of_name}
use poholos.Seen.Cache.{SeenCache}
use poholos.Router.{
  Router, RouteAction, deliver, deliver_and_forward, forward, ignore, ingest, originate,
}

-- The code points of `@` and of the space.
abbrev pub at_sign : ℕ
at_sign = 64

abbrev pub space : ℕ
space = 32

abbrev pub max_ext_payload_hearsay : ℕ
max_ext_payload_hearsay = max_ext_frame_len - header_len_hearsay

abbrev pub max_ext_payload_telegram : ℕ
max_ext_payload_telegram = max_ext_frame_len - header_len_telegram

-- The messages of `parse_outgoing`.
pub data LineError : Type 0 where
  syntax : LineError
  telegram_too_long : ℕ → LineError
  hearsay_too_long : ℕ → LineError
  refused : PacketError → LineError

unfoldable pub map_err : Outcome PacketError Packet → Outcome LineError Packet
map_err (ok p) = ok p
map_err (err e) = err (refused e)
map_err panic = panic

-- The telegram arm, once the line is split.
unfoldable pub telegram_line : ℕ → WireId → List ℕ → List ℕ → Outcome LineError Packet
telegram_line seq src dest_name rest =
    let message = trim rest in
    if is_nil message
    then err syntax
    else if ltb max_ext_payload_telegram (length (utf8 message))
    then err (telegram_too_long (length (utf8 message)))
    else map_err (telegram max_ext_frame_len src (of_name (utf8 dest_name)) seq (utf8 message))

unfoldable pub hearsay_line : ℕ → WireId → List ℕ → Outcome LineError Packet
hearsay_line seq src line =
    if ltb max_ext_payload_hearsay (length (utf8 line))
    then err (hearsay_too_long (length (utf8 line)))
    else map_err (hearsay max_ext_frame_len src seq (utf8 line))

-- The `let packet` of `parse_outgoing`.
unfoldable pub packet_of_line : ℕ → WireId → List ℕ → Outcome LineError Packet
packet_of_line seq src line = elim (strip_prefix at_sign line) [
  | none ↦ hearsay_line seq src line
  | some rest ↦ elim (split_once space rest) [
    | none ↦ err syntax
    | some (dest_name, message) ↦ telegram_line seq src dest_name message
  ]
]

-- The sequence number moves on when there is a packet.
unfoldable pub advance : ℕ → Outcome LineError Packet → ℕ × Outcome LineError Packet
advance seq (ok packet) = ((seq + 1) % 2 ^ 16, ok packet)
advance seq (err e) = (seq, err e)
advance seq panic = (seq, panic)

unfoldable pub parse_outgoing : ℕ → WireId → List ℕ → ℕ × Outcome LineError Packet
parse_outgoing seq src line = advance seq (packet_of_line seq src line)
