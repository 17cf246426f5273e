-- ===== src/Udp.antt =====
-- `read_loop` of crates/poholos-cli/src/transport/udp.rs: which datagrams become frames, and when the
-- socket is given up. `none` is a panic.
pub mod Streaks
use poholos.Prelude.{
  Bool, List, Option, Outcome, [], drop, err, false, if◌then◌else◌, leb, ltb, none, ok, panic, some,
  true, ℕ, ◌++◌, ◌+◌, ◌^◌, ◌∷◌,
}
use poholos.Prelude.Panics.{◌>>=◌}
use poholos.Wire.{Frame, WireError, as_bytes, copy_from}
use poholos.Packet.{max_ext_frame_len}

-- `UdpTransport`: the datagrams broadcast, and what the socket answers to the next sends; beyond these it
-- takes them.
pub record UdpTransport : Type 0 where
  pub broadcast : List (List ℕ)
  pub answers : List Bool

-- The Boolean is false for the error.
unfoldable pub broadcast_if : UdpTransport → List ℕ → Bool → UdpTransport × Bool
broadcast_if t bytes taken =
    if taken then (record t { broadcast = t.broadcast ++ (bytes ∷ []) }, true) else (t, false)

abbrev pub answer : List Bool → Bool
answer [] = true
answer (taken ∷ answers) = taken

unfoldable pub send : UdpTransport → Frame → UdpTransport × Bool
send t frame =
    broadcast_if (record t { answers = drop 1 t.answers }) (as_bytes frame) (answer t.answers)

abbrev pub max_consecutive_recv_errors : ℕ
max_consecutive_recv_errors = 64

-- What `recv_from` returns: an error, or the bytes of a datagram, cut to the buffer. The Boolean
-- tells whether the transport is still there to take its frame.
pub data Received : Type 0 where
  failed : Received
  datagram : List ℕ → Bool → Received

-- The loop's count, and the frames sent to the chat loop.
pub record Reader : Type 0 where
  pub consecutive_errors : ℕ
  pub sent : List Frame

-- The Boolean tells whether the loop goes on. The count is a u32, and its overflow a panic.
unfoldable pub on_error : Reader → Option (Reader × Bool)
on_error r =
    let errors = r.consecutive_errors + 1 in
    if leb (2 ^ 32) errors
    then none
    else some (record r { consecutive_errors = errors }, ltb errors max_consecutive_recv_errors)

unfoldable pub on_copied : Reader → Bool → Outcome WireError Frame → Option (Reader × Bool)
on_copied r taken (ok frame) =
    some (if taken then (record r { sent = r.sent ++ (frame ∷ []) }, true) else (r, false))
on_copied r taken (err e) = some (r, true)
on_copied r taken panic = none

unfoldable pub on_received : Reader → Received → Option (Reader × Bool)
on_received r failed = on_error r
on_received r (datagram bytes taken) =
    on_copied (record r { consecutive_errors = 0 }) taken (copy_from max_ext_frame_len bytes)

unfoldable pub read_loop : Reader → List Received → Option (Reader × Bool)
read_loop r [] = some (r, true)
read_loop r (x ∷ xs) = do
  (r', goes_on) ← on_received r x
  if goes_on then read_loop r' xs else some (r', false)
