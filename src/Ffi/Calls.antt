-- ===== src/Ffi/Calls.antt =====
-- The C functions of crates/poholos-ffi/src/lib.rs on live pointers.
use poholos.Prelude.{Option, Outcome, err, ok, panic, some, ℕ, ◌≡◌}
use poholos.Packet.{Packet}
use poholos.Wire.{WireError}
use poholos.Seen.Cache.{SeenCache}
use poholos.Router.{Router}
use poholos.Router.Decision.{answer_to}
use poholos.Ffi.{Action, Left, decode_error, ok_status}
use poholos.Ffi.Flat.{Says}

module _ {size : ℕ} (c : SeenCache size) where
  -- What a call tells the host, by the verdict on the bytes.
  unfoldable pub Tells : Router c → Option Action → Outcome WireError Packet → Left c → Type 0
  Tells r out (ok p) left =
      (left.status ≡ ok_status)
      × ((flat : Action) × (left.out_action ≡ some (some flat)) × Says (answer_to c 211 r p) flat)
  Tells r out (err e) left = (left.status ≡ decode_error) × (left.out_action ≡ some out)
  Tells r out panic left = ⊥
