-- ===== src/Seen/Recency/Survival.antt =====
-- How long a heard key stays known.
use poholos.Prelude.{
  Bool-cases, List, [], arith, false, if◌then◌else◌, inl, inr, length, length-append, suc, sym,
  true, ℕ, ◌++◌, ◌+◌, ◌<◌, ◌==◌, ◌∷◌, ◌≡◌, ◌≢◌, ◌≤◌,
}
use poholos.Seen.Recency.{
  IsDistinct, IsRecency, evict, hear, hear-IsRecency, member, member-append, member-remove_ne,
  member-remove_self, remove,
}

-- How many keys were heard after `key`.
behind : ℕ → List ℕ → ℕ
behind key [] = 0
behind key (x ∷ xs) = if x == key then length xs else behind key xs

-- The keys `ks` heard one after the other.
unfoldable pub hear_all : ℕ → List ℕ → List ℕ → List ℕ
hear_all cap xs [] = xs
hear_all cap xs (k ∷ ks) = hear_all cap (hear cap xs k).0 ks

behind-snoc :
    (key k : ℕ) (xs : List ℕ)
    → member key xs ≡ true
    → behind key (xs ++ (k ∷ [])) ≡ suc (behind key xs)
unfolding behind member
behind-snoc key k [] h = cc
behind-snoc key k (x ∷ xs) h = ground (arith, length-append xs (k ∷ []), behind-snoc key k xs)

behind-snoc_self :
    (key : ℕ) (xs : List ℕ) → member key xs ≡ false → behind key (xs ++ (key ∷ [])) ≡ 0
unfolding behind member
behind-snoc_self key [] h = ground arith
behind-snoc_self key (x ∷ xs) h = ground (arith, behind-snoc_self key xs)

length-remove-le : (k : ℕ) (xs : List ℕ) → length (remove k xs) ≤ length xs
unfolding remove
length-remove-le k [] = omega arith
length-remove-le k (x ∷ xs) = ground (arith, length-remove-le k xs)

behind-remove : (key k : ℕ) (xs : List ℕ) → k ≢ key → behind key (remove k xs) ≤ behind key xs
unfolding behind remove
behind-remove key k [] h = omega arith
behind-remove key k (x ∷ xs) h = ground (arith, length-remove-le k xs, behind-remove key k xs h)

keep-evict :
    (cap key : ℕ) (xs : List ℕ)
    → member key xs ≡ true
    → behind key xs < cap
    → (member key (evict cap xs) ≡ true) × (behind key (evict cap xs) ≡ behind key xs)
unfolding behind member evict
keep-evict cap key [] h hb = cc
keep-evict cap key (x ∷ xs) h hb = ground arith

newest :
    (key : ℕ) (xs : List ℕ)
    → member key xs ≡ false
    → (member key (xs ++ (key ∷ [])) ≡ true) × (behind key (xs ++ (key ∷ [])) ≡ 0)
newest key xs h = (
  rw (member-append key xs (key ∷ []), h) (unfold member in ground arith),
  behind-snoc_self key xs h,
)

older :
    (key k : ℕ) (xs : List ℕ)
    → member key xs ≡ true
    → (member key (xs ++ (k ∷ [])) ≡ true) × (behind key (xs ++ (k ∷ [])) ≡ suc (behind key xs))
older key k xs h = (rw (member-append key xs (k ∷ []), h), behind-snoc key k xs h)

-- One more hearing ages a key by one place at most.
age_one :
    (cap key k : ℕ) (xs : List ℕ)
    → IsDistinct xs
    → member key xs ≡ true
    → suc (behind key xs) < cap
    → (member key (hear cap xs k).0 ≡ true) × (behind key (hear cap xs k).0 ≤ suc (behind key xs))
unfolding hear
age_one cap key k xs d h hb = elim (Bool-cases (member k xs)) [
  | inr new ↦ rw new (ground (arith, older key k xs h, keep-evict cap key (xs ++ (k ∷ []))))
  | inl old ↦ elim (Bool-cases (k == key)) [
    | inl same ↦ ground (arith, old, newest key (remove k xs), member-remove_self key xs d)
    | inr other ↦
        let ne : key ≢ k = λ e. ground arith in
        rw old (
          ground (
            arith,
            member-remove_ne k key xs ne,
            older key k (remove k xs),
            behind-remove key k xs (λ e. ne (sym e)),
          ))
  ]
]

-- The key just heard is the newest.
fresh :
    (cap key : ℕ) (xs : List ℕ)
    → 0 < cap
    → IsDistinct xs
    → (member key (hear cap xs key).0 ≡ true) × (behind key (hear cap xs key).0 ≡ 0)
unfolding hear
fresh cap key xs hc d = elim (Bool-cases (member key xs)) [
  | inl old ↦ rw old (newest key (remove key xs) (member-remove_self key xs d))
  | inr new ↦ rw new (ground (arith, newest key xs new, keep-evict cap key (xs ++ (key ∷ []))))
]

survive :
    (cap key : ℕ) (ks xs : List ℕ)
    → IsRecency cap xs
    → member key xs ≡ true
    → behind key xs + length ks < cap
    → member key (hear_all cap xs ks) ≡ true
unfolding hear_all
survive cap key [] xs v h hb = h
survive cap key (k ∷ ks) xs v h hb =
    let (m, b) = age_one cap key k xs v.distinct h (omega arith) in
    survive cap key ks (hear cap xs k).0 (hear-IsRecency cap xs k v) m (omega arith)

-- A key that was heard is still known after any fewer than `cap` further hearings.
pub hear_all-hear :
    (cap key : ℕ) (ks xs : List ℕ)
    → IsRecency cap xs
    → length ks < cap
    → member key (hear_all cap (hear cap xs key).0 ks) ≡ true
hear_all-hear cap key ks xs v h =
    let (m, b) = fresh cap key xs (omega arith) v.distinct in
    survive cap key ks (hear cap xs key).0 (hear-IsRecency cap xs key v) m (omega arith)
