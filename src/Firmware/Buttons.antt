-- ===== src/Firmware/Buttons.antt =====
-- `button_task` and `ble_address` of crates/poholos-microbit-morse/src/main.rs. What a button and
-- the timers do is a sequence of signals.
use poholos.Prelude.{
  Bool, List, Option, [], ap, arith, bit_or, false, map, none, refl, some, true, ℕ, ◌%◌, ◌++◌, ◌+◌,
  ◌/◌, ◌∙◌, ◌∷◌, ◌≡◌,
}
use poholos.Prelude.Words.{}
use poholos.Prelude.Bits.{bit_or-0xc0}

-- An edge of the button's level, the end of `HOLD` and the end of `DEBOUNCE`.
pub data Signal : Type 0 where
  falling_edge rising_edge held_long settled : Signal

-- The `await` at which the task stands: for a falling edge, in the `select`, for the release of a
-- long press, and for the end of `DEBOUNCE`.
pub data Await : Type 0 where
  falling either rising settling : Await

module _ {ℓ} {E : Type ℓ} (tap hold : E) where
  -- What the task stands at after a signal, and the event that it has sent.
  unfoldable pub on_signal : Await → Signal → Await × Option E
  on_signal falling falling_edge = (either, none)
  on_signal either rising_edge = (settling, some tap)
  on_signal either held_long = (rising, none)
  on_signal rising rising_edge = (settling, some hold)
  on_signal settling settled = (falling, none)
  on_signal await signal = (await, none)

  unfoldable pub sent_before : Option E → List E → List E
  sent_before none events = events
  sent_before (some event) events = event ∷ events

  -- The events that the task sends over a sequence of signals.
  unfoldable pub button_task : Await → List Signal → List E
  button_task await [] = []
  button_task await (signal ∷ signals) =
      let (await', sent) = on_signal await signal in sent_before sent (button_task await' signals)

-- One press, with the bounces of the level before the end of `DEBOUNCE`.
pub data Press : Type 0 where
  short long : List Bool → Press

-- The edges of a bouncing level.
abbrev pub bounce : Bool → Signal
bounce true = rising_edge
bounce false = falling_edge

unfoldable pub bounces : List Bool → List Signal
bounces [] = settled ∷ []
bounces (up ∷ rest) = bounce up ∷ bounces rest

unfoldable pub signals_of : Press → List Signal
signals_of (short rest) = falling_edge ∷ rising_edge ∷ bounces rest
signals_of (long rest) = falling_edge ∷ held_long ∷ rising_edge ∷ bounces rest

-- Presses one after the other.
unfoldable pub all_signals : List Press → List Signal
all_signals [] = []
all_signals (press ∷ presses) = signals_of press ++ all_signals presses

module _ {ℓ} {E : Type ℓ} (tap hold : E) where
  unfoldable pub event_of : Press → E
  event_of (short rest) = tap
  event_of (long rest) = hold

  -- Bounces send nothing, and the task then waits for the next press.
  button_task-bounces :
      (rest : List Bool) (signals : List Signal)
      → button_task tap hold settling (bounces rest ++ signals)
        ≡ button_task tap hold falling signals
  unfolding bounces button_task on_signal sent_before
  button_task-bounces [] signals = refl
  button_task-bounces (true ∷ rest) signals = button_task-bounces rest signals
  button_task-bounces (false ∷ rest) signals = button_task-bounces rest signals

  button_task-press :
      (press : Press) (signals : List Signal)
      → button_task tap hold falling (signals_of press ++ signals)
        ≡ event_of press ∷ button_task tap hold falling signals
  unfolding signals_of event_of button_task on_signal sent_before
  button_task-press (short rest) signals = ap (λ es. tap ∷ es) (button_task-bounces rest signals)
  button_task-press (long rest) signals = ap (λ es. hold ∷ es) (button_task-bounces rest signals)

  -- The task sends one event for each press, in order, whatever the bounces: `tap` for a short one
  -- and `hold` for a long one.
  pub button_task_lem :
      (presses : List Press)
      → button_task tap hold falling (all_signals presses) ≡ map event_of presses
  unfolding all_signals button_task
  button_task_lem [] = refl
  button_task_lem (press ∷ presses) =
      button_task-press press (all_signals presses)
      ∙ ap (λ es. event_of press ∷ es) (button_task_lem presses)

-- `u32::to_le_bytes` and `u16::to_le_bytes`, with the top bits of the last byte set; `lo` and `hi`
-- are the registers of the factory device address.
unfoldable pub ble_address : ℕ → ℕ → List ℕ
ble_address lo hi =
    (lo % 256)
    ∷ (lo / 256 % 256)
    ∷ (lo / 65536 % 256)
    ∷ (lo / 16777216 % 256)
    ∷ (hi % 256)
    ∷ bit_or (hi / 256 % 256) 0xC0
    ∷ []

-- The address is of six bytes, has the bits of the factory's device address but for the two that
-- mark a random static one, and these are set.
pub ble_address_lem :
    (lo hi : ℕ)
    → ble_address lo hi
      ≡ (lo % 256)
        ∷ (lo / 256 % 256)
        ∷ (lo / 65536 % 256)
        ∷ (lo / 16777216 % 256)
        ∷ (hi % 256)
        ∷ (192 + hi / 256 % 64)
        ∷ []
unfolding ble_address
ble_address_lem lo hi =
    let same : hi / 256 % 256 % 64 ≡ hi / 256 % 64 = omega arith in
    rw (bit_or-0xc0 (hi / 256 % 256) (omega arith), same) refl
