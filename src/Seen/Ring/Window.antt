-- ===== src/Seen/Ring/Window.antt =====
-- Lists read off a function of the position, and the keys of a ring in logical order.
use poholos.Prelude.{
  Bool-cases, List, [], ap, ap₂, arith, inl, inr, length, refl, suc, true, zero, ℕ, ◌++◌, ◌+◌, ◌<◌,
  ◌==◌, ◌∷◌, ◌≡◌, ◌≤◌,
}
use poholos.Seen.Recency.{member}
use poholos.Seen.Ring.{Ring, phys, slot}

-- The values of `f` at the `n` positions from `i` on.
abbrev pub tabulate : (ℕ → ℕ) → ℕ → ℕ → List ℕ
tabulate f i zero = []
tabulate f i (suc n) = f i ∷ tabulate f (suc i) n

-- The key at a logical position.
abbrev pub key_at : ℕ → ℕ → List ℕ → ℕ → ℕ
key_at cap head slots k = slot slots (phys cap head k)

-- The keys that a ring holds, stalest first.
abbrev pub contents : ℕ → Ring → List ℕ
contents cap r = tabulate (key_at cap r.head r.slots) 0 r.len

pub length-tabulate : (f : ℕ → ℕ) (i n : ℕ) → length (tabulate f i n) ≡ n
length-tabulate f i zero = refl
length-tabulate f i (suc n) = ap suc (length-tabulate f (suc i) n)

pub tabulate-ext :
    (f g : ℕ → ℕ) (i n : ℕ)
    → ((j : ℕ) → i ≤ j → j < i + n → f j ≡ g j)
    → tabulate f i n ≡ tabulate g i n
tabulate-ext f g i zero h = refl
tabulate-ext f g i (suc n) h =
    ap₂ ◌∷◌ (h i (omega arith) (omega arith))
      (tabulate-ext f g (suc i) n (λ j lo hi. h j (omega arith) (omega arith)))

pub tabulate-snoc :
    (f : ℕ → ℕ) (i n : ℕ) → tabulate f i (suc n) ≡ tabulate f i n ++ (f (i + n) ∷ [])
tabulate-snoc f i zero = let e : i + zero ≡ i = omega arith in rw e
tabulate-snoc f i (suc n) =
    let e : i + suc n ≡ suc i + n = omega arith in rw e (ap (◌∷◌ (f i)) (tabulate-snoc f (suc i) n))

pub tabulate_shift :
    (f g : ℕ → ℕ) (i k n : ℕ)
    → ((j : ℕ) → i ≤ j → j < i + n → f j ≡ g (j + k))
    → tabulate f i n ≡ tabulate g (i + k) n
tabulate_shift f g i k zero h = refl
tabulate_shift f g i k (suc n) h =
    let e : suc i + k ≡ suc (i + k) = omega arith in
    ap₂ ◌∷◌ (h i (omega arith) (omega arith))
      (rw (← e) (tabulate_shift f g (suc i) k n (λ j lo hi. h j (omega arith) (omega arith))))

-- A key is in the list exactly when it is the value at some position.
pub member-tabulate :
    (f : ℕ → ℕ) (key i n j : ℕ) → i ≤ j → j < i + n → f j ≡ key → member key (tabulate f i n) ≡ true
unfolding member
member-tabulate f key i zero j lo hi e = absurd (omega arith)
member-tabulate f key i (suc n) j lo hi e = elim (Bool-cases (i == j)) [
  | inl same ↦ ground arith
  | inr later ↦ ground (arith, member-tabulate f key (suc i) n j)
]

pub position_of_member :
    (f : ℕ → ℕ) (key i n : ℕ)
    → member key (tabulate f i n) ≡ true
    → (j : ℕ) × (i ≤ j) × (j < i + n) × (f j ≡ key)
unfolding member
position_of_member f key i zero h = absurd cc
position_of_member f key i (suc n) h = elim (Bool-cases (f i == key)) [
  | inl here ↦ (i, omega arith, omega arith, ground arith)
  | inr there ↦
      let (j, lo, hi, e) = position_of_member f key (suc i) n (ground arith) in
      (j, omega arith, omega arith, e)
]
