-- ===== src/Tests/Letters.antt =====
-- Runs of the theorems on telegrams from a chat to a board.
use poholos.Prelude.{
  All, List, [], arith, false, inl, length, none, refl, some, true, ℕ, ◌++◌, ◌∷◌, ◌≡◌, ◌≤◌,
}
use poholos.Text.{is_nil, is_whitespace, trim, trim_end, trim_start, utf8, utf8_char}
use poholos.Text.Utf8.{IsScalar}
use poholos.Packet.{Packet}
use poholos.Wire.{Frame}
use poholos.Wire.Layout.{frame_of, wire_bytes}
use poholos.NodeId.{hex4, hex_digit, of_name, of_name-IsU32}
use poholos.Router.Decision.{new-IsRouter}
use poholos.Router.Relay.{is_news}
use poholos.Transports.{Hands, ble}
use poholos.Cli.Chat.{Chat, on_line}
use poholos.Firmware.Channels.{newest}
use poholos.Firmware.Node.{Node, display_queue, node_name, on_frame, telegram_mark}
use poholos.Firmware.Airs.{IsNode}
use poholos.Firmware.Letters.{letter, line_for}
use poholos.Firmware.Letters.Shown.{letter_lem}
use poholos.Tests.Data.{hi}
use poholos.Tests.Routers.{cache}
use poholos.Tests.Hosts.{chat, chat-IsChat}

-- The board of the name `mb-60c6`, and the line `@mb-60c6 hi`.
abbrev device : ℕ
device = 0x123460c6

abbrev board_name : List ℕ
board_name = 109 ∷ 98 ∷ 45 ∷ 54 ∷ 48 ∷ 99 ∷ 54 ∷ []

board_named : node_name device ≡ board_name
unfolding node_name hex4 hex_digit
board_named = refl

abbrev named_board : Node cache
named_board = record {
  router = poholos.Router.new cache (of_name (node_name device));
  seq = none;
  outgoing = [];
  display = [];
  chimes = [];
}

named_board-IsNode : IsNode cache named_board
unfolding poholos.Router.new
named_board-IsNode = record {
  routes = (new-IsRouter cache (of_name (node_name device))).0;
  local_fits = of_name-IsU32 (node_name device);
  seq_fits = λ n e. ground (arith, e);
  shows = omega arith;
  lines_fit = tt;
  chime_few = omega arith;
}

hi_short : (is_nil (trim hi) ≡ false) × (length (utf8 (trim hi)) ≤ 200) × All IsScalar (trim hi)
unfolding trim_end trim_start is_whitespace utf8 utf8_char
hi_short = (refl, omega arith, (inl (omega arith), (inl (omega arith), tt)))

line_trimmed : trim (line_for device hi) ≡ line_for device hi
unfolding trim_end trim_start is_whitespace node_name hex4 hex_digit
line_trimmed = refl

abbrev letter_hi : Packet
letter_hi = letter 65535 9 (of_name (node_name device)) hi

letter_taken : (true ≡ true) × ((frame_of 211 (wire_bytes letter_hi)).len ≤ 22)
unfolding wire_bytes frame_of trim_end trim_start is_whitespace utf8 utf8_char
    poholos.Packet.Valid.payload_of
letter_taken = (refl, omega arith)

letter_news : is_news cache named_board.router letter_hi ≡ true
unfolding is_news poholos.Router.new poholos.Seen.Recency.member poholos.Seen.Ring.new of_name
    node_name hex4 hex_digit poholos.Fnv.fnv64 poholos.Fnv.fnv64_update poholos.Fnv.fnv_round
letter_news = refl

letter_lem_example :
    (said : Chat cache) × (frame : Frame) × (on_line cache 22 chat (line_for device hi)
      ≡ some (said, [], false))
    × Hands (ble (record { out = []; alive = true })) said.transport frame
    × (after : Node cache) × (on_frame cache named_board frame ≡ some after)
    × (after.display ≡ newest display_queue [] (telegram_mark ++ utf8 (trim hi)))
unfolding of_name poholos.Router.new
letter_lem_example =
    letter_lem cache 22 chat named_board device (line_for device hi) hi chat-IsChat
      named_board-IsNode refl line_trimmed hi_short.2 hi_short.0 hi_short.1 letter_taken letter_news
