-- ===== src/Firmware/Node.antt =====
-- `router_task`, `deliver` and what they call, of crates/poholos-microbit-morse/src/main.rs and
-- crates/poholos-microbit/src/main.rs. `none` is a panic.
use poholos.Prelude.{
  List, Option, Outcome, [], bit_and, err, if◌then◌else◌, leb, length, none, ok, panic, some, ℕ,
  ◌%◌, ◌++◌, ◌+◌, ◌^◌, ◌∷◌,
}
use poholos.Prelude.Words.{u32_from_be_bytes}
use poholos.Prelude.Panics.{◌>>=◌}
use poholos.Text.{is_between, is_utf8}
use poholos.Packet.{Packet, PacketError, WireId, as_slice, hearsay, telegram}
use poholos.Wire.{Frame, WireError, as_bytes}
use poholos.NodeId.{hex4}
use poholos.Seen.Cache.{SeenCache}
use poholos.Router.{Router, RouteAction, deliver_and_forward, forward, ignore, ingest, originate}
use poholos.Router
use poholos.Cli.Chat.{is_dest}
use poholos.Firmware.{send_shedding, try_send}

pub data Outgoing : Type 0 where
  own : Frame → Outgoing
  relay : Frame → Outgoing

-- The bytes of a `DisplayMsg`, the channels' capacities, and the texts of the source.
abbrev pub display_len : ℕ
display_len = 206

abbrev pub display_queue : ℕ
display_queue = 4

abbrev pub chime_queue : ℕ
chime_queue = 2

abbrev pub telegram_mark : List ℕ
telegram_mark = 64 ∷ 32 ∷ []

abbrev pub hearsay_mark : List ℕ
hearsay_mark = 42 ∷ 32 ∷ []

-- `<bin>`.
abbrev pub binary_text : List ℕ
binary_text = 60 ∷ 98 ∷ 105 ∷ 110 ∷ 62 ∷ []

-- One byte put in front of a text that is already cut: bytes that continue a character, and the
-- characters behind them.
unfoldable pub cut_before : ℕ → List ℕ × List (List ℕ) → List ℕ × List (List ℕ)
cut_before b (rest, cut) =
    if is_between 0x80 0xBF b then (b ∷ rest, cut) else ([], (b ∷ rest) ∷ cut)

unfoldable pub cut_chars : List ℕ → List ℕ × List (List ℕ)
cut_chars [] = ([], [])
cut_chars (b ∷ text) = cut_before b (cut_chars text)

-- `str::chars`, each as its bytes.
unfoldable pub chars : List ℕ → List (List ℕ)
chars text = (cut_chars text).1

-- The loop over the characters: it stops when one does not fit.
unfoldable pub push_chars : List ℕ → List (List ℕ) → List ℕ
push_chars msg [] = msg
push_chars msg (c ∷ cs) =
    let more = push_chars (msg ++ c) cs in
    if leb (length msg + length c) display_len then more else msg

-- `from_utf8(payload).unwrap_or("<bin>")`.
unfoldable pub text_of : List ℕ → List ℕ
text_of payload = if is_utf8 payload then payload else binary_text

-- `frame_src`; `none` is the panic of an index out of range.
unfoldable pub frame_src_of : List ℕ → Option ℕ
frame_src_of (a ∷ b ∷ c ∷ w ∷ x ∷ y ∷ z ∷ bytes) = some (u32_from_be_bytes w x y z)
frame_src_of bytes = none

unfoldable pub frame_src : Frame → Option ℕ
frame_src frame = frame_src_of (as_bytes frame)

-- `node_name` of the factory device id.
unfoldable pub node_name : ℕ → List ℕ
node_name deviceid = 109 ∷ 98 ∷ 45 ∷ hex4 (bit_and deviceid 0xFFFF)

pub data ButtonEvent : Type 0 where
  button_a button_b : ButtonEvent

-- The payloads of the buttons.
abbrev pub ok_message : List ℕ
ok_message =
    73 ∷ 32 ∷ 97 ∷ 109 ∷ 32 ∷ 79 ∷ 75 ∷ 32 ∷ 45 ∷ 32 ∷ 108 ∷ 111 ∷ 110 ∷ 103 ∷ 32 ∷ 115 ∷ 116 ∷ 97
    ∷ 116 ∷ 117 ∷ 115 ∷ 32 ∷ 115 ∷ 101 ∷ 110 ∷ 116 ∷ 32 ∷ 111 ∷ 118 ∷ 101 ∷ 114 ∷ 32 ∷ 66 ∷ 76 ∷ 69
    ∷ 32 ∷ 53 ∷ 32 ∷ 101 ∷ 120 ∷ 116 ∷ 101 ∷ 110 ∷ 100 ∷ 101 ∷ 100 ∷ 32 ∷ 97 ∷ 100 ∷ 118 ∷ 101 ∷ 114
    ∷ 116 ∷ 105 ∷ 115 ∷ 105 ∷ 110 ∷ 103 ∷ []

abbrev pub sos_message : List ℕ
sos_message = 83 ∷ 79 ∷ 83 ∷ 32 ∷ 45 ∷ 32 ∷ 116 ∷ 101 ∷ 115 ∷ 116 ∷ []

-- What a press scrolls: `>ok` and `>sos`.
unfoldable pub echo_of : ButtonEvent → List ℕ
echo_of button_a = 62 ∷ 111 ∷ 107 ∷ []
echo_of button_b = 62 ∷ 115 ∷ 111 ∷ 115 ∷ []

unfoldable pub packet_for : WireId → WireId → ℕ → ButtonEvent → Outcome PacketError Packet
packet_for local buddy next button_a = telegram 211 local buddy next ok_message
packet_for local buddy next button_b = hearsay 211 local next sos_message

module _ {size : ℕ} (c : SeenCache size) where
  pub record Node : Type 0 where
    pub router : Router c
    pub seq : Option ℕ
    pub outgoing : List Outgoing
    pub display : List (List ℕ)
    pub chimes : List (Unit {0})

  unfoldable pub enqueue_display : Node → List ℕ → Node
  enqueue_display node msg = record node { display = send_shedding display_queue node.display msg }

  unfoldable pub deliver : Node → Packet → Node
  deliver node packet =
      let text = text_of (as_slice packet.payload) in
      if is_dest packet.dest node.router.local
      then enqueue_display (record node { chimes = (try_send chime_queue node.chimes tt).0 })
          (push_chars telegram_mark (chars text))
      else enqueue_display node (push_chars hearsay_mark (chars text))

  -- `OUTGOING.send`, after the source of the frame is logged.
  unfoldable pub send_relay : Node → Frame → Option Node
  send_relay node frame = do
    src ← frame_src frame
    some (record node { outgoing = node.outgoing ++ (relay frame ∷ []) })

  unfoldable pub obey : Node → Outcome WireError RouteAction → Option Node
  obey node (ok (Router.deliver packet)) = some (deliver node packet)
  obey node (ok (deliver_and_forward packet frame)) = send_relay (deliver node packet) frame
  obey node (ok (forward frame)) = send_relay node frame
  obey node (ok (ignore reason)) = some node
  obey node (err e) = some node
  obey node panic = none

  unfoldable pub on_frame : Node → Frame → Option Node
  on_frame node frame =
      let (router, answer) = ingest c 211 node.router (as_bytes frame) in
      obey (record node { router = router }) answer

  -- The next sequence number: the tick of the first one sent, cut to 16 bits.
  unfoldable pub next_seq : Option ℕ → ℕ → ℕ
  next_seq none ticks = ticks % 2 ^ 16
  next_seq (some seq) ticks = seq

  unfoldable pub send_packet : Node → Outcome PacketError Packet → Option Node
  send_packet node (ok packet) = do
    (router, frame) ← originate c 211 node.router packet
    some (record node { router = router; outgoing = node.outgoing ++ (own frame ∷ []) })
  send_packet node (err e) = some node
  send_packet node panic = none

  unfoldable pub on_composed : Node → List ℕ → ℕ → Option Node
  on_composed node text ticks =
      let next = next_seq node.seq ticks in
      send_packet (record node { seq = some ((next + 1) % 2 ^ 16) })
        (hearsay 211 node.router.local next text)

  unfoldable pub scroll : Node → List ℕ → Node
  scroll node text = enqueue_display node text

  -- A packet that is refused leaves the press without an echo.
  unfoldable pub send_echoed : Node → Outcome PacketError Packet → List ℕ → Option Node
  send_echoed node (ok packet) text = do
    node' ← send_packet node (ok packet)
    some (scroll node' text)
  send_echoed node (err e) text = some node
  send_echoed node panic text = none

  unfoldable pub on_button : WireId → Node → ButtonEvent → ℕ → Option Node
  on_button buddy node button ticks =
      let next = next_seq node.seq ticks in
      send_echoed (record node { seq = some ((next + 1) % 2 ^ 16) })
        (packet_for node.router.local buddy next button) (echo_of button)

-- What `router_task` waits for: a frame, or a message or a press with the tick at which it comes.
pub data Event (E : Type 0) : Type 0 where
  heard : Frame → Event E
  local : E → ℕ → Event E

module _ {size : ℕ} {c : SeenCache size} {E : Type 0}
    (on_local : Node c → E → ℕ → Option (Node c)) where
  unfoldable pub router_task : Node c → List (Event E) → Option (Node c)
  router_task node [] = some node
  router_task node (heard frame ∷ events) = do
    node' ← on_frame c node frame
    router_task node' events
  router_task node (local e ticks ∷ events) = do
    node' ← on_local node e ticks
    router_task node' events

module _ {size : ℕ} (c : SeenCache size) where
  -- The tasks of the two boards.
  unfoldable pub morse_task : Node c → List (Event (List ℕ)) → Option (Node c)
  morse_task = router_task (on_composed c)

  unfoldable pub microbit_task : WireId → Node c → List (Event ButtonEvent) → Option (Node c)
  microbit_task buddy = router_task (on_button c buddy)
