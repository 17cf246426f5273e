-- ===== src/Firmware.antt =====
-- The tasks of the boards: crates/poholos-microbit-morse/src/main.rs and
-- crates/poholos-microbit/src/main.rs, and the scan handler that both have in src/radio.rs.
pub mod Compose
pub mod Keyed
pub mod Node
pub mod Channels
pub mod Scan
pub mod Radio
pub mod Slot
pub mod Airs
pub mod Shows
pub mod Tasks
pub mod Runs
pub mod Buttons
pub mod Letters
use poholos.Prelude.{Bool, List, [], false, if◌then◌else◌, length, ltb, true, ℕ, ◌++◌, ◌∷◌}

-- A bounded `Channel` of `embassy_sync`: what it holds, and `try_send`, which answers `false` when
-- it is full.
unfoldable pub try_send {ℓ} : {A : Type ℓ} → ℕ → List A → A → List A × Bool
try_send cap queue x = if ltb (length queue) cap then (queue ++ (x ∷ []), true) else (queue, false)

-- `try_receive`, whose item is dropped here.
unfoldable pub try_receive {ℓ} : {A : Type ℓ} → List A → List A
try_receive [] = []
try_receive (x ∷ queue) = queue

-- `enqueue_display`, and the same in the scan handler: the oldest item makes room.
unfoldable pub send_shedding {ℓ} : {A : Type ℓ} → ℕ → List A → A → List A
send_shedding cap queue x =
    let (tried, sent) = try_send cap queue x in
    if sent then tried else (try_send cap (try_receive tried) x).0
