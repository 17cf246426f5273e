-- ===== src/Transports.antt =====
-- `Transport` of crates/poholos-cli/src/transport/mod.rs: one of the two, and what a send hands over.
use poholos.Prelude.{
  Bool, Outcome, [], drop, err, if◌then◌else◌, le→leb, ok, refl, true, ℕ, ◌++◌, ◌∷◌, ◌≡◌, ◌≤◌,
}
use poholos.Wire.{Frame, as_bytes}
use poholos.Udp.{UdpTransport, answer, broadcast_if}
use poholos.Udp
use poholos.Ble.Advertise.{BleTransport, SendError, own, send, socket_failed}
use poholos.Ble.Advertise

pub data Transport : Type 0 where
  udp : UdpTransport → Transport
  ble : BleTransport → Transport

-- The results of the two sends as one.
abbrev pub of_udp : UdpTransport × Bool → Transport × Outcome SendError (Unit {0})
of_udp (t, sent) = (udp t, if sent then ok tt else err socket_failed)

abbrev pub of_ble :
    BleTransport × Outcome SendError (Unit {0}) → Transport × Outcome SendError (Unit {0})
of_ble (t, sent) = (ble t, sent)

unfoldable pub send_own : ℕ → Transport → Frame → Transport × Outcome SendError (Unit {0})
send_own max_frame (udp t) frame = of_udp (Udp.send t frame)
send_own max_frame (ble t) frame = of_ble (Advertise.send_own max_frame t frame)

unfoldable pub send_relay : ℕ → Transport → Frame → Transport × Outcome SendError (Unit {0})
send_relay max_frame (udp t) frame = of_udp (Udp.send t frame)
send_relay max_frame (ble t) frame = of_ble (Advertise.send_relay max_frame t frame)

-- A transport that takes an own frame: the socket answers well, or the advertiser task lives and the
-- platform has room.
abbrev pub Takes : ℕ → Transport → Frame → Type 0
Takes max_frame (udp t) frame = answer t.answers ≡ true
Takes max_frame (ble t) frame = (t.alive ≡ true) × (frame.len ≤ max_frame)

-- What was handed over in between: one datagram of the frame's bytes, or one own frame for the rotation.
abbrev pub Hands : Transport → Transport → Frame → Type 0
Hands (udp t) (udp t') frame = t'.broadcast ≡ t.broadcast ++ (as_bytes frame ∷ [])
Hands (ble t) (ble t') frame = t'.out ≡ t.out ++ (own frame ∷ [])
Hands (udp t) (ble t') frame = ⊥
Hands (ble t) (udp t') frame = ⊥

pub send_own-Hands :
    (max_frame : ℕ) (t : Transport) (frame : Frame)
    → Takes max_frame t frame
    → (after : Transport) × (send_own max_frame t frame ≡ (after, ok tt)) × Hands t after frame
unfolding send_own Udp.send broadcast_if Advertise.send_own send
send_own-Hands max_frame (udp t) frame h = (
  udp (record { broadcast = t.broadcast ++ (as_bytes frame ∷ []); answers = drop 1 t.answers }),
  rw h refl,
  refl,
)
send_own-Hands max_frame (ble t) frame (alive, fits) = (
  ble (record t { out = t.out ++ (own frame ∷ []) }),
  rw (le→leb frame.len max_frame fits, alive) refl,
  refl,
)
