-- ===== src/Seen/Ring/Find.antt =====
-- The linear search of `Ring::insert`, and the removal of what it finds.
use poholos.Prelude.{
  ==-eq-false, ==-false→ne, ==_iff, Bool-cases, List, ap₂, arith, false, inl, inr, none, refl, some,
  suc, sym, true, zero, ℕ, ◌+◌, ◌<◌, ◌==◌, ◌∷◌, ◌≡◌, ◌≢◌, ◌≤◌,
}
use poholos.Seen.Recency.{member, remove}
use poholos.Seen.Ring.{find_from}
use poholos.Seen.Ring.Window.{key_at, tabulate, tabulate_shift}

pub find_none :
    (cap head : ℕ) (slots : List ℕ) (key k n : ℕ)
    → find_from cap head slots key k n ≡ none
    → member key (tabulate (key_at cap head slots) k n) ≡ false
unfolding find_from member
find_none cap head slots key k zero h = refl
find_none cap head slots key k (suc n) h = ground (arith, find_none cap head slots key (suc k) n)

-- What a successful search says: the first place of the key.
pub record IsFirst (f : ℕ → ℕ) (key k n found : ℕ) : Type 0 where
  pub low : k ≤ found
  pub high : found < k + n
  pub here : f found ≡ key
  pub before : (j : ℕ) → k ≤ j → j < found → f j ≢ key

pub find_some :
    (cap head : ℕ) (slots : List ℕ) (key k n found : ℕ)
    → find_from cap head slots key k n ≡ some found
    → IsFirst (key_at cap head slots) key k n found
unfolding find_from
find_some cap head slots key k zero found h = absurd cc
find_some cap head slots key k (suc n) found h =
    elim (Bool-cases (key_at cap head slots k == key)) [
      | inl same ↦
          let e : k ≡ found = ground arith in
          record {
            low = omega arith;
            high = omega arith;
            here = rw (← e) ((==_iff _ _).0 same);
            before = λ j lo hi. absurd (omega arith);
          }
      | inr other ↦
          let ih = find_some cap head slots key (suc k) n found (rw other at h) in
          record {
            low = omega (arith, ih.low);
            high = omega (arith, ih.high);
            here = ih.here;
            before = λ j lo hi. step other ih j lo hi;
          }
    ]
  where
    step :
        (key_at cap head slots k == key) ≡ false
        → IsFirst (key_at cap head slots) key (suc k) n found
        → (j : ℕ) → k ≤ j
        → j < found
        → key_at cap head slots j ≢ key
    step other ih j lo hi = elim (Bool-cases (k == j)) [
      | inl same ↦ rw (← ((==_iff k j).0 same)) (==-false→ne _ _ other)
      | inr later ↦ ih.before j (omega (arith, ==-false→ne k j later)) hi
    ]

-- Removing the first occurrence closes the gap.
close_here :
    (f g : ℕ → ℕ) (key i n : ℕ)
    → f i ≡ key
    → ((j : ℕ) → i ≤ j → j < i + n → g j ≡ f (suc j))
    → remove key (tabulate f i (suc n)) ≡ tabulate g i n
unfolding remove
close_here f g key i n e hi =
    let t : (f i == key) ≡ true = (==_iff _ _).1 e in
    let next : i + 1 ≡ suc i = omega arith in
    let moved : tabulate g i n ≡ tabulate f (i + 1) n =
      tabulate_shift g f i 1 n
        (λ j lo hj. let n1 : j + 1 ≡ suc j = omega arith in rw n1 (hi j lo hj)) in
    rw t (rw (moved, next))

pub remove-tabulate :
    (f g : ℕ → ℕ) (key i n found : ℕ)
    → IsFirst f key i (suc n) found
    → ((j : ℕ) → i ≤ j → j < found → g j ≡ f j)
    → ((j : ℕ) → found ≤ j → j < i + n → g j ≡ f (suc j))
    → remove key (tabulate f i (suc n)) ≡ tabulate g i n
unfolding remove
remove-tabulate f g key i zero found first lo hi =
    let e : found ≡ i = omega (arith, first.low, first.high) in
    close_here f g key i zero (rw (← e) first.here) (λ j l h. hi j (omega arith) h)
remove-tabulate f g key i (suc n) found first lo hi = elim (Bool-cases (i == found)) [
  | inl same ↦
      let e : i ≡ found = (==_iff i found).0 same in
      close_here f g key i (suc n) (rw e first.here) (λ j l h. hi j (omega arith) h)
  | inr later ↦
      let ne : i ≢ found = ==-false→ne i found later in
      let other : (f i == key) ≡ false =
        ==-eq-false _ _ (first.before i (omega arith) (omega (arith, first.low))) in
      rw other (
        ap₂ ◌∷◌ (sym (lo i (omega arith) (omega (arith, first.low)))) (
          remove-tabulate f g key (suc i) n found
            (record {
              low = omega (arith, first.low);
              high = omega (arith, first.high);
              here = first.here;
              before = λ j l h. first.before j (omega arith) h;
            })
            (λ j l h. lo j (omega arith) h) (λ j l h. hi j l (omega arith))))
]
