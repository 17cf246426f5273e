-- ===== src/Rotation/Drain.antt =====
-- How the relays of `RotationN` of crates/poholos/src/rotation.rs leave the queue.
use poholos.Prelude.{
  Bool, List, Option, [], ap, arith, drop, false, none, refl, replicate, some, suc, true, zero, ℕ,
  ◌+◌, ◌/◌, ◌∙◌, ◌∷◌, ◌≡◌, ◌≤◌,
}
use poholos.Wire.{Frame}
use poholos.Rotation.{Own, Rotation}
use poholos.Rotation.Schedule.{Schedule, dwell, next, own_after, plan, turn}
use poholos.Rotation.Queue.{pending}
use poholos.Rotation.Refine.{IsRotation, run, run_lem, schedule}

-- A relay turn is due when the own message had the last turn or there is none.
abbrev relay_bonus : Option Own → Bool → ℕ
relay_bonus none last = 1
relay_bonus (some own) true = 1
relay_bonus (some own) false = 0

relay_bonus-le : (own : Option Own) (last : Bool) → relay_bonus own last ≤ 1
relay_bonus-le none last = omega arith
relay_bonus-le (some own) true = omega arith
relay_bonus-le (some own) false = omega arith

relay_bonus_due : (own : Option Own) → relay_bonus own true ≡ 1
relay_bonus_due none = refl
relay_bonus_due (some own) = refl

-- The relays left after `n` turns.
abbrev Drained : Schedule → ℕ → Type 0
Drained s n =
    (k : ℕ) × ((n + relay_bonus s.own s.last_was_own) / 2 ≤ k)
    × ((plan s (replicate n dwell)).0.waiting ≡ drop k s.waiting)

turn_empty : (own : Option Own) (last : Bool) → (turn own [] last).0.waiting ≡ []
unfolding turn
turn_empty none last = refl
turn_empty (some own) last = refl

drain_empty : (n : ℕ) (s : Schedule) → s.waiting ≡ [] → (plan s (replicate n dwell)).0.waiting ≡ []
unfolding plan
drain_empty zero s h = h
drain_empty (suc n) s h =
    drain_empty n (next s).0
      (ap (λ xs. (turn s.own xs s.last_was_own).0.waiting) h ∙ turn_empty s.own s.last_was_own)

drain :
    (n : ℕ) (own : Option Own) (waiting : List Frame) (last : Bool)
    → Drained (record { own = own; waiting = waiting; last_was_own = last }) n
unfolding plan turn
drain zero own waiting last = (0, omega (arith, relay_bonus-le own last), refl)
drain (suc n) own [] last = (
  suc (suc n),
  omega (arith, relay_bonus-le own last),
  drain_empty (suc n) (record { own = own; waiting = []; last_was_own = last }) refl,
)
drain (suc n) none (x ∷ xs) last =
    let (k, few, e) = drain n none xs false in (suc k, omega (arith, few), e)
drain (suc n) (some own) (x ∷ xs) true =
    let (k, few, e) = drain n (some own) xs false in (suc k, omega (arith, few), e)
drain (suc n) (some own) (x ∷ xs) false =
    let (k, few, e) = drain n (own_after own) (x ∷ xs) true in
    (k, omega (arith, few, relay_bonus_due (own_after own)), e)

-- From a well-formed rotation `n` calls of `next_frame` run without a panic and leave the pending
-- relays less the oldest `k`, for a `k` that is half of `n` at least, rounded down.
pub relays-drain :
    (n : ℕ) (r : Rotation)
    → IsRotation r
    → (after : Rotation) × (out : List (Option Frame)) × (k : ℕ) × (run r (replicate n dwell)
        ≡ some (after, out))
      × (n / 2 ≤ k)
      × (pending after.relays ≡ drop k (pending r.relays))
relays-drain n r v =
    let (after, e, s, w) = run_lem r (replicate n dwell) v in
    let (k, few, d) = drain n r.own (pending r.relays) r.last_was_own in
    (
      after,
      (plan (schedule r) (replicate n dwell)).1,
      k,
      e,
      omega (arith, few),
      ap (λ t. t.waiting) s ∙ d,
    )
