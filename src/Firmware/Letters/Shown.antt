-- ===== src/Firmware/Letters/Shown.antt =====
-- What a board of the boards' main.rs shows of a telegram typed for it.
use poholos.Prelude.{
  ==_refl, All, List, [], ap, arith, false, length, ok, refl, some, true, ℕ, ◌%◌, ◌++◌, ◌+◌, ◌^◌,
  ◌∙◌, ◌≡◌, ◌≤◌,
}
use poholos.Text.{is_nil, trim, utf8}
use poholos.Text.Utf8.{IsScalar, utf8-is_utf8}
use poholos.Packet.{Packet, WireId, as_slice}
use poholos.Packet.Valid.{IsCap, IsPacket, as_slice-payload_of}
use poholos.Wire.{Frame}
use poholos.Wire.Layout.{as_bytes-frame_of, frame_of, wire_bytes}
use poholos.Wire.RoundTrip.{decode-wire_bytes}
use poholos.Wire.Bytes.{wire_bytes-IsByte}
use poholos.NodeId.{of_name}
use poholos.Seen.Cache.{SeenCache}
use poholos.Router.{ingest}
use poholos.Router.Decision.{is_for_me}
use poholos.Router.Relay.{delivered, ingest_decisions, is_news}
use poholos.Transports.{Hands, Takes}
use poholos.Cli.{parse_outgoing}
use poholos.Cli.Chat.{Chat, is_dest, on_line}
use poholos.Cli.Apt.{IsChat}
use poholos.Cli.Heard.{on_line-Sends}
use poholos.Firmware.Channels.{newest}
use poholos.Firmware.Node.{Node, display_queue, node_name, on_frame, telegram_mark, text_of}
use poholos.Firmware.Airs.{IsNode}
use poholos.Firmware.Shows.{mark_of}
use poholos.Firmware.Tasks.{on_frame-Obeys, texts}
use poholos.Firmware.Letters.{
  letter, letter-IsPacket, line_for, line_for_plain, parse_outgoing-line_for,
}

module _ {size : ℕ} (c : SeenCache size) where
  -- A telegram to a board's own id is its newest text.
  telegram-shown :
      (node : Node c) (p : Packet) (dest : WireId)
      → IsNode c node
      → IsPacket 211 p
      → p.dest ≡ some dest
      → node.router.local ≡ dest
      → is_news c node.router p ≡ true
      → (after : Node c) × (on_frame c node (frame_of 211 (wire_bytes p)) ≡ some after)
        × (after.display
            ≡ newest display_queue node.display (telegram_mark ++ text_of (as_slice p.payload)))
  unfolding texts mark_of is_for_me
  telegram-shown node p dest v pv to me news =
      let hc : IsCap 211 = (omega arith, omega arith) in
      let bytes = wire_bytes p in
      let same = as_bytes-frame_of 211 bytes in
      let hb = wire_bytes-IsByte pv in
      let (up, on) =
        ingest_decisions c 211 node.router bytes p hc hb v.routes (decode-wire_bytes hc pv) in
      let mine : is_for_me node.router.local p.dest ≡ true = rw (to, me) (==_refl dest) in
      let marked : is_dest p.dest node.router.local ≡ true =
        unfold is_dest in rw (to, me) (==_refl dest) in
      let fresh_text : texts c node (some p)
          ≡ newest display_queue node.display (telegram_mark ++ text_of (as_slice p.payload)) =
        rw marked refl in
      let handed : delivered (ingest c 211 node.router bytes).1 ≡ some p =
        up ∙ rw (news, mine) refl in
      let (after, e, w, obeys) = on_frame-Obeys c node (frame_of 211 bytes) v (rw same hb) in
      (
        after,
        e,
        obeys.shown
            ∙ ap (λ bs. texts c node (delivered (ingest c 211 node.router bs).1)) same
            ∙ ap (texts c node) handed
            ∙ fresh_text,
      )

  -- When a well-formed chat reads a line whose trimmed form is `@`, the name that a board derives
  -- from its device id, a space and a message, whose trimmed form has 1 to 200 bytes in UTF-8 and
  -- no surrogate, and its transport takes the frame, then the chat shows nothing, goes on and
  -- hands the transport one frame. A well-formed board of that name, to which the packet is news,
  -- takes this frame without a panic, and its newest text on the display is the mark of a telegram
  -- and the trimmed message.
  pub letter_lem :
      (m : ℕ) (speaker : Chat c) (node : Node c) (deviceid : ℕ) (line message : List ℕ)
      → IsChat c speaker
      → IsNode c node
      → node.router.local ≡ of_name (node_name deviceid)
      → trim line ≡ line_for deviceid message
      → All IsScalar (trim message)
      → is_nil (trim message) ≡ false
      → length (utf8 (trim message)) ≤ 200
      → Takes m speaker.transport (
          frame_of 211
            (wire_bytes (letter speaker.seq speaker.router.local node.router.local message)))
      → is_news c node.router (letter speaker.seq speaker.router.local node.router.local message)
        ≡ true
      → (said : Chat c) × (frame : Frame) × (on_line c m speaker line ≡ some (said, [], false))
        × Hands speaker.transport said.transport frame
        × (after : Node c) × (on_frame c node frame ≡ some after)
        × (after.display ≡ newest display_queue node.display (telegram_mark ++ utf8 (trim message)))
  unfolding text_of
  letter_lem m speaker node deviceid line message v w named written scalars full few takes news =
      let p = letter speaker.seq speaker.router.local node.router.local message in
      let text = utf8 (trim message) in
      let pv =
        letter-IsPacket speaker.seq speaker.router.local node.router.local message v.seq_fits
          v.local_fits w.local_fits scalars few in
      let (some_line, no_quit) = line_for_plain deviceid message in
      let parsed : parse_outgoing speaker.seq speaker.router.local (trim line)
          ≡ ((speaker.seq + 1) % 2 ^ 16, ok p) =
        rw (written, named)
          (parse_outgoing-line_for speaker.seq speaker.router.local deviceid message full few) in
      let (said, e, counted, queued) =
        on_line-Sends c m speaker line ((speaker.seq + 1) % 2 ^ 16) p v pv (rw written some_line)
          (rw written no_quit) parsed takes in
      let (after, taken, display) = telegram-shown node p node.router.local w pv refl refl news in
      let payload : text_of (as_slice p.payload) ≡ text =
        ap text_of (as_slice-payload_of 211 text) ∙ rw (utf8-is_utf8 (trim message) scalars) refl in
      (
        said,
        frame_of 211 (wire_bytes p),
        e,
        queued,
        after,
        taken,
        display ∙ ap (λ t. newest display_queue node.display (telegram_mark ++ t)) payload,
      )
