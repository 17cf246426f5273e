-- ===== src/Seen/Recency.antt =====
-- What the seen cache of crates/poholos/src/seen.rs promises: the keys most recently heard, the
-- stalest first, at most `cap` of them.
pub mod Survival
use poholos.Prelude.{
  Bool, Bool-cases, List, [], arith, drop, false, if◌then◌else◌, inl, inr, length, length-append,
  ltb, not, refl, suc, true, ℕ, ◌++◌, ◌+◌, ◌<◌, ◌==◌, ◌||◌, ◌∷◌, ◌≡◌, ◌≢◌, ◌≤◌,
}

unfoldable pub member : ℕ → List ℕ → Bool
member key [] = false
member key (x ∷ xs) = x == key || member key xs

-- Without the first occurrence.
unfoldable pub remove : ℕ → List ℕ → List ℕ
remove key [] = []
remove key (x ∷ xs) = if x == key then xs else x ∷ remove key xs

-- The list with the stalest key dropped, if it is too long.
unfoldable pub evict : ℕ → List ℕ → List ℕ
evict cap [] = []
evict cap (x ∷ xs) = if ltb cap (suc (length xs)) then xs else x ∷ xs

-- Hearing a key: a known one becomes the newest, a new one is added, and whether it was new.
unfoldable pub hear : ℕ → List ℕ → ℕ → List ℕ × Bool
hear cap xs key =
    if member key xs
    then (remove key xs ++ (key ∷ []), false)
    else (evict cap (xs ++ (key ∷ [])), true)

-- No key twice.
abbrev pub IsDistinct : List ℕ → Type 0
IsDistinct [] = Unit {0}
IsDistinct (x ∷ xs) = (member x xs ≡ false) × IsDistinct xs

pub record IsRecency (cap : ℕ) (xs : List ℕ) : Type 0 where
  pub bounded : length xs ≤ cap
  pub distinct : IsDistinct xs

pub nil-IsRecency : (cap : ℕ) → IsRecency cap []
nil-IsRecency cap = record { bounded = omega arith; distinct = tt }

pub member-append :
    (key : ℕ) (xs ys : List ℕ) → member key (xs ++ ys) ≡ (member key xs || member key ys)
unfolding member
member-append key [] ys = refl
member-append key (x ∷ xs) ys = ground (arith, member-append key xs ys)

pub length-remove :
    (key : ℕ) (xs : List ℕ) → member key xs ≡ true → length (remove key xs) + 1 ≡ length xs
unfolding member remove
length-remove key [] h = cc
length-remove key (x ∷ xs) h = ground (arith, length-remove key xs)

-- Other keys are not touched by a removal.
pub member-remove_ne : (key k : ℕ) (xs : List ℕ) → k ≢ key → member k (remove key xs) ≡ member k xs
unfolding member remove
member-remove_ne key k [] h = refl
member-remove_ne key k (x ∷ xs) h = ground (arith, member-remove_ne key k xs h)

pub member-remove_self :
    (key : ℕ) (xs : List ℕ) → IsDistinct xs → member key (remove key xs) ≡ false
unfolding member remove
member-remove_self key [] d = refl
member-remove_self key (x ∷ xs) d = ground (arith, member-remove_self key xs d.1)

remove-IsDistinct : (key : ℕ) (xs : List ℕ) → IsDistinct xs → IsDistinct (remove key xs)
unfolding remove
remove-IsDistinct key [] d = d
remove-IsDistinct key (x ∷ xs) d =
    ground (arith, remove-IsDistinct key xs d.1, member-remove_ne key x xs)

snoc-IsDistinct :
    (key : ℕ) (xs : List ℕ) → IsDistinct xs → member key xs ≡ false → IsDistinct (xs ++ (key ∷ []))
unfolding member
snoc-IsDistinct key [] d h = (refl, tt)
snoc-IsDistinct key (x ∷ xs) d h =
    ground (arith, snoc-IsDistinct key xs d.1, member-append x xs (key ∷ []))

evict-IsDistinct : (cap : ℕ) (xs : List ℕ) → IsDistinct xs → IsDistinct (evict cap xs)
unfolding evict
evict-IsDistinct cap [] d = d
evict-IsDistinct cap (x ∷ xs) d = ground arith

length-evict : (cap : ℕ) (xs : List ℕ) → length xs ≤ suc cap → length (evict cap xs) ≤ cap
unfolding evict
length-evict cap [] h = omega arith
length-evict cap (x ∷ xs) h = ground arith

-- Hearing a key keeps the list within the capacity and free of repetitions.
pub hear-IsRecency :
    (cap : ℕ) (xs : List ℕ) (key : ℕ) → IsRecency cap xs → IsRecency cap (hear cap xs key).0
unfolding hear
hear-IsRecency cap xs key v = elim (Bool-cases (member key xs)) [
  | inl old ↦ rw old (record {
    bounded =
        omega
          (arith, length-append (remove key xs) (key ∷ []), length-remove key xs old, v.bounded);
    distinct =
        snoc-IsDistinct key (remove key xs) (remove-IsDistinct key xs v.distinct)
          (member-remove_self key xs v.distinct);
  })
  | inr new ↦ rw new (record {
    bounded =
        length-evict cap (xs ++ (key ∷ [])) (omega (arith, length-append xs (key ∷ []), v.bounded));
    distinct = evict-IsDistinct cap (xs ++ (key ∷ [])) (snoc-IsDistinct key xs v.distinct new);
  })
]

pub remove_absent : (key : ℕ) (xs : List ℕ) → member key xs ≡ false → remove key xs ≡ xs
unfolding member remove
remove_absent key [] h = refl
remove_absent key (x ∷ xs) h = ground (arith, remove_absent key xs)

pub evict_small : (cap : ℕ) (xs : List ℕ) → length xs ≤ cap → evict cap xs ≡ xs
unfolding evict
evict_small cap [] h = refl
evict_small cap (x ∷ xs) h = ground arith

pub evict_large : (cap : ℕ) (xs : List ℕ) → cap < length xs → evict cap xs ≡ drop 1 xs
unfolding evict
evict_large cap [] h = refl
evict_large cap (x ∷ xs) h = ground arith

pub hear_new : (cap : ℕ) (xs : List ℕ) (key : ℕ) → (hear cap xs key).1 ≡ not (member key xs)
unfolding hear
hear_new cap xs key = ground arith
