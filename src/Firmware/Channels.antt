-- ===== src/Firmware/Channels.antt =====
-- What a channel that sheds its oldest item holds.
use poholos.Prelude.{
  All, All-append, Bool-cases, List, [], arith, if_elim, if◌then◌else◌, inl, inr, length,
  length-append, ltb, ltb→lt, lt→ltb, refl, true, ℕ, ◌++◌, ◌-◌, ◌<◌, ◌∷◌, ◌≡◌, ◌≤◌,
}
use poholos.Firmware.{send_shedding, try_receive, try_send}

-- The newest items: `x` last, and before it what was there, less the oldest of a full channel.
unfoldable pub newest {ℓ} : {A : Type ℓ} → ℕ → List A → A → List A
newest cap queue x = (if ltb (length queue) cap then queue else try_receive queue) ++ (x ∷ [])

pub length-try_receive {ℓ} :
    {A : Type ℓ} (queue : List A) → length (try_receive queue) ≡ length queue - 1
unfolding try_receive
length-try_receive [] = omega arith
length-try_receive (x ∷ queue) = omega arith

-- A channel within its capacity that has room for one item ends with the new one, holds the older
-- items but the oldest of a full channel, and stays within its capacity.
pub send_shedding_lem {ℓ} :
    {A : Type ℓ} (cap : ℕ) (queue : List A) (x : A)
    → 0 < cap
    → length queue ≤ cap
    → (send_shedding cap queue x ≡ newest cap queue x) × (length (send_shedding cap queue x) ≤ cap)
unfolding send_shedding try_send newest
send_shedding_lem cap queue x some_room fits = elim (Bool-cases (ltb (length queue) cap)) [
  | inl room ↦
      rw room
        (refl, rw (length-append queue (x ∷ [])) (omega (arith, ltb→lt (length queue) cap room)))
  | inr full ↦
      let left = length-try_receive queue in
      let fewer : ltb (length (try_receive queue)) cap ≡ true =
        lt→ltb (length (try_receive queue)) cap (omega (arith, left, fits, some_room)) in
      rw (full, fewer)
        (
          refl,
          rw (length-append (try_receive queue) (x ∷ [])) (omega (arith, left, fits, some_room)),
        )
]

All-try_receive {ℓ κ} :
    {A : Type ℓ} (P : A → Type κ) (queue : List A) → All P queue → All P (try_receive queue)
unfolding try_receive
All-try_receive P [] h = tt
All-try_receive P (x ∷ queue) h = h.1

pub All-send_shedding {ℓ κ} :
    {A : Type ℓ} (P : A → Type κ) (cap : ℕ) (queue : List A) (x : A)
    → 0 < cap
    → length queue ≤ cap
    → All P queue
    → P x
    → All P (send_shedding cap queue x)
unfolding newest
All-send_shedding P cap queue x some_room fits h hx =
    rw (send_shedding_lem cap queue x some_room fits).0 (
      All-append P (if ltb (length queue) cap then queue else try_receive queue) (x ∷ [])
        (if_elim (All P) (ltb (length queue) cap) queue (try_receive queue) (λ room. h)
          (λ full. All-try_receive P queue h))
        (hx, tt))

pub try_send-le {ℓ} :
    {A : Type ℓ} (cap : ℕ) (queue : List A) (x : A)
    → length queue ≤ cap
    → length (try_send cap queue x).0 ≤ cap
unfolding try_send
try_send-le cap queue x h = elim (Bool-cases (ltb (length queue) cap)) [
  | inl room ↦
      rw room (rw (length-append queue (x ∷ [])) (omega (arith, ltb→lt (length queue) cap room)))
  | inr full ↦ rw full h
]
