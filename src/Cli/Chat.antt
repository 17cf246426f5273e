-- ===== src/Cli/Chat.antt =====
-- `run` of crates/poholos-cli/src/app.rs: one step for a typed line and one for a received frame,
-- and the loop over such events. `none` is a panic.
use poholos.Prelude.{
  Bool, List, Option, Outcome, [], err, false, if◌then◌else◌, none, ok, panic, some, true, ℕ, ◌++◌,
  ◌==◌, ◌∷◌,
}
use poholos.Prelude.Panics.{◌>>=◌}
use poholos.Text.{trim, is_nil}
use poholos.Packet.{Packet, WireId}
use poholos.Wire.{Frame, WireError, as_bytes}
use poholos.Seen.Cache.{SeenCache}
use poholos.Rotation.Fair.{same_bytes}
use poholos.Router.{
  Router, RouteAction, deliver, deliver_and_forward, forward, ignore, ingest, originate,
}
use poholos.Ble.Advertise.{SendError}
use poholos.Transports.{Transport, send_own, send_relay}
use poholos.Cli.{LineError, parse_outgoing}

-- `/quit`.
abbrev pub quit_line : List ℕ
quit_line = 47 ∷ 113 ∷ 117 ∷ 105 ∷ 116 ∷ []

-- What appears on the terminal: a packet and whether it is marked as for `you`, or a complaint.
pub data Shown : Type 0 where
  delivery : Packet → Bool → Shown
  refusal : LineError → Shown
  send_failed : SendError → Shown
  relay_failed : SendError → Shown

unfoldable pub is_dest : Option WireId → WireId → Bool
is_dest none local = false
is_dest (some dest) local = dest == local

abbrev pub print_delivery : Packet → WireId → Shown
print_delivery packet local = delivery packet (is_dest packet.dest local)

abbrev pub complaint : (SendError → Shown) → Outcome SendError (Unit {0}) → List Shown
complaint failed (ok done) = []
complaint failed (err e) = failed e ∷ []
complaint failed panic = []

-- What the loop waits for: a line, the end of the input, a frame, or the end of the transport.
pub data Event : Type 0 where
  typed : List ℕ → Event
  input_closed : Event
  heard : Frame → Event
  transport_closed : Event

module _ {size : ℕ} (c : SeenCache size) where
  pub record Chat : Type 0 where
    pub router : Router c
    pub seq : ℕ
    pub transport : Transport

  -- The frame of an originated packet is sent; a failure is shown.
  unfoldable pub say : ℕ → Chat → Packet → Option (Chat × List Shown)
  say max_frame chat packet = do
    (router, frame) ← originate c 211 chat.router packet
    let (transport, sent) = send_own max_frame chat.transport frame
    some (record chat { router = router; transport = transport }, complaint send_failed sent)

  unfoldable pub answer_line : ℕ → Chat → ℕ × Outcome LineError Packet → Option (Chat × List Shown)
  answer_line max_frame chat (seq, ok packet) = say max_frame (record chat { seq = seq }) packet
  answer_line max_frame chat (seq, err reason) =
      some (record chat { seq = seq }, refusal reason ∷ [])
  answer_line max_frame chat (seq, panic) = none

  -- A typed line; the Boolean tells the loop to end.
  unfoldable pub on_line : ℕ → Chat → List ℕ → Option (Chat × List Shown × Bool)
  on_line max_frame chat input =
      let line = trim input in
      if is_nil line
      then some (chat, [], false)
      else if same_bytes line quit_line
      then some (chat, [], true)
      else (do
        (chat', shown) ← answer_line max_frame chat (parse_outgoing chat.seq chat.router.local line)
        some (chat', shown, false))

  unfoldable pub relay_frame : ℕ → Chat → Frame → Chat × List Shown
  relay_frame max_frame chat frame =
      let (transport, sent) = send_relay max_frame chat.transport frame in
      (record chat { transport = transport }, complaint relay_failed sent)

  -- The `match` on the router's answer.
  unfoldable pub obey : ℕ → Chat → Outcome WireError RouteAction → Option (Chat × List Shown)
  obey max_frame chat (ok (deliver p)) = some (chat, print_delivery p chat.router.local ∷ [])
  obey max_frame chat (ok (deliver_and_forward p relay)) =
      let (chat', shown) = relay_frame max_frame chat relay in
      some (chat', print_delivery p chat.router.local ∷ shown)
  obey max_frame chat (ok (forward relay)) = some (relay_frame max_frame chat relay)
  obey max_frame chat (ok (ignore reason)) = some (chat, [])
  obey max_frame chat (err e) = some (chat, [])
  obey max_frame chat panic = none

  -- A received frame.
  unfoldable pub on_frame : ℕ → Chat → Frame → Option (Chat × List Shown)
  on_frame max_frame chat frame =
      let (router, answer) = ingest c 211 chat.router (as_bytes frame) in
      obey max_frame (record chat { router = router }) answer

  unfoldable pub run : ℕ → Chat → List Event → Option (Chat × List Shown)
  run max_frame chat [] = some (chat, [])
  run max_frame chat (input_closed ∷ events) = some (chat, [])
  run max_frame chat (transport_closed ∷ events) = some (chat, [])
  run max_frame chat (typed line ∷ events) = do
    (chat', shown, quits) ← on_line max_frame chat line
    if quits
        then some (chat', shown)
        else (do (last, later) ← run max_frame chat' events; some (last, shown ++ later))
  run max_frame chat (heard frame ∷ events) = do
    (chat', shown) ← on_frame max_frame chat frame
    (last, later) ← run max_frame chat' events
    some (last, shown ++ later)
