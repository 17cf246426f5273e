-- ===== src/Seen/Ring/Shift.antt =====
-- The loop of `Ring::insert` that moves every newer key down one logical place.
use native.Mathlib.Nat.{mod-eq_of_lt, mod-eq-sub-mod}
use poholos.Prelude.{
  ==-false→ne, ==_iff, Bool-cases, List, arith, get_or-set_ne, get_or-set_self, inl, inr, length,
  length-set, ltb, ltb-false→le, ltb→lt, refl, set, suc, sym, zero, ℕ, ◌+◌, ◌-◌, ◌<◌, ◌==◌, ◌∙◌,
  ◌≡◌, ◌≢◌, ◌≤◌, ◌⊎◌,
}
use poholos.Seen.Ring.{phys, shift_down}
use poholos.Seen.Ring.Window.{key_at}

phys_cases :
    (cap head k : ℕ)
    → head < cap
    → k < cap
    → ((head + k < cap) × (phys cap head k ≡ head + k))
      ⊎ ((cap ≤ head + k) × (phys cap head k + cap ≡ head + k))
phys_cases cap head k hh hk = elim (Bool-cases (ltb (head + k) cap)) [
  | inl low ↦ inl (ltb→lt _ _ low, mod-eq_of_lt (ltb→lt _ _ low))
  | inr high ↦
      let h : cap ≤ head + k = ltb-false→le _ _ high in
      inr (
        h,
        omega (
          arith,
          mod-eq-sub-mod {n = head + k} {m = cap} h,
          mod-eq_of_lt {n = head + k - cap} {m = cap} (omega arith),
        ),
      )
]

pub phys-lt : (cap head k : ℕ) → head < cap → phys cap head k < cap
phys-lt cap head k h = omega arith

-- Different logical places are different slots.
pub phys_ne :
    (cap head j k : ℕ) → head < cap → j < cap → k < cap → j ≢ k → phys cap head j ≢ phys cap head k
phys_ne cap head j k hh hj hk ne e =
    omega (arith, phys_cases cap head j hh hj, phys_cases cap head k hh hk)

pub length-shift_down :
    (cap head k n : ℕ) (slots : List ℕ) → length (shift_down cap head k n slots) ≡ length slots
unfolding shift_down
length-shift_down cap head k zero slots = refl
length-shift_down cap head k (suc n) slots =
    length-shift_down cap head (suc k) n _ ∙ length-set slots (phys cap head k) _

module _ (cap head : ℕ) (hh : head < cap) where
  -- A write to one logical place, read at another and at the same.
  pub key_at-set_ne :
      (slots : List ℕ) (j k v : ℕ)
      → j < cap
      → k < cap
      → j ≢ k
      → key_at cap head (set slots (phys cap head k) v) j ≡ key_at cap head slots j
  key_at-set_ne slots j k v hj hk ne =
      get_or-set_ne slots (phys cap head k) (phys cap head j) v 0
        (λ e. phys_ne cap head j k hh hj hk ne (sym e))

  pub key_at-set_self :
      (slots : List ℕ) (k v : ℕ)
      → length slots ≡ cap
      → key_at cap head (set slots (phys cap head k) v) k ≡ v
  key_at-set_self slots k v h =
      get_or-set_self slots (phys cap head k) v 0 (omega (arith, phys-lt cap head k hh))

  -- Outside the loop's range nothing moves.
  pub shift_down_outside :
      (n k j : ℕ) (slots : List ℕ)
      → k + n < cap
      → j < cap
      → (j < k) ⊎ (k + n ≤ j)
      → key_at cap head (shift_down cap head k n slots) j ≡ key_at cap head slots j
  unfolding shift_down
  shift_down_outside zero k j slots hk hj out = refl
  shift_down_outside (suc n) k j slots hk hj out =
      shift_down_outside n (suc k) j _ (omega arith) hj (omega arith)
      ∙ key_at-set_ne slots j k _ hj (omega arith) (λ e. omega arith)

  -- Inside it every place takes the key above it.
  pub shift_down_inside :
      (n k j : ℕ) (slots : List ℕ)
      → length slots ≡ cap
      → k + n < cap
      → k ≤ j
      → j < k + n
      → key_at cap head (shift_down cap head k n slots) j ≡ key_at cap head slots (suc j)
  unfolding shift_down
  shift_down_inside zero k j slots hs hk lo hi = absurd (omega arith)
  shift_down_inside (suc n) k j slots hs hk lo hi = elim (Bool-cases (k == j)) [
    | inl same ↦
        let e : k ≡ j = (==_iff k j).0 same in
        shift_down_outside n (suc k) j _ (omega arith) (omega arith) (inl (omega arith))
        ∙ rw (← e) (key_at-set_self slots k _ hs)
    | inr later ↦
        let ne : k ≢ j = ==-false→ne k j later in
        shift_down_inside n (suc k) j _ (length-set slots _ _ ∙ hs) (omega arith) (omega arith)
          (omega arith)
        ∙ key_at-set_ne slots (suc j) k _ (omega arith) (omega arith) (λ e. omega arith)
  ]
