-- ===== src/Text/Split.antt =====
-- Where a string is split.
use poholos.Prelude.{
  ==-eq-false, ==_refl, All, Bool-cases, List, Option, [], arith, inl, inr, none, refl, some, subst,
  ℕ, ◌++◌, ◌==◌, ◌∷◌, ◌≡◌, ◌≢◌,
}
use poholos.Text.{split_before, split_once}

-- A character behind which a string is not split.
split_once-pass :
    (c x : ℕ) (text front back : List ℕ)
    → x ≢ c
    → split_once c text ≡ some (front, back)
    → split_once c (x ∷ text) ≡ some (x ∷ front, back)
unfolding split_once split_before
split_once-pass c x text front back h e = rw (e, ==-eq-false x c h) refl

-- A string is split at the first `c`.
pub split_once-append :
    (c : ℕ) (front back : List ℕ)
    → All (λ x. x ≢ c) front
    → split_once c (front ++ (c ∷ back)) ≡ some (front, back)
unfolding split_once
split_once-append c [] back h = rw (==_refl c) refl
split_once-append c (x ∷ front) back (h, hs) =
    split_once-pass c x (front ++ (c ∷ back)) front back h (split_once-append c front back hs)

-- Of a string split before, with one more code point in front.
split_before_front :
    (c x : ℕ) (text front back : List ℕ) (r : Option (List ℕ × List ℕ))
    → x ≢ c
    → ((f k : List ℕ) → r ≡ some (f, k) → All (λ y. y ≢ c) f)
    → split_before x r ≡ some (front, back)
    → All (λ y. y ≢ c) front
unfolding split_before
split_before_front c x text front back none other ih h = absurd (ground (arith, h))
split_before_front c x text front back (some (f, k)) other ih h =
    let same : x ∷ f ≡ front = ground (arith, h) in
    subst (All (λ y. y ≢ c)) same (other, ih f k refl)

split_before-none : (x : ℕ) (r : Option (List ℕ × List ℕ)) → split_before x r ≡ none → r ≡ none
unfolding split_before
split_before-none x none h = refl
split_before-none x (some (f, k)) h = absurd (ground (arith, h))

-- There is no `c` before the one at which a string is split.
pub split_once_front :
    (c : ℕ) (text front back : List ℕ)
    → split_once c text ≡ some (front, back)
    → All (λ y. y ≢ c) front
unfolding split_once
split_once_front c [] front back h = absurd (ground (arith, h))
split_once_front c (x ∷ text) front back h = elim (Bool-cases (x == c)) [
  | inl here ↦
      let none_before : [] ≡ front = ground (arith, here, h) in
      subst (All (λ y. y ≢ c)) none_before tt
  | inr later ↦
      split_before_front c x text front back (split_once c text) (λ e. ground (arith, later, e))
        (λ f k e. split_once_front c text f k e) (ground (arith, later, h))
]

-- A string that is not split has no `c`.
pub split_once_absent : (c : ℕ) (text : List ℕ) → split_once c text ≡ none → All (λ y. y ≢ c) text
unfolding split_once
split_once_absent c [] h = tt
split_once_absent c (x ∷ text) h = elim (Bool-cases (x == c)) [
  | inl here ↦ absurd (ground (arith, here, h))
  | inr later ↦
      let unsplit : split_before x (split_once c text) ≡ none = ground (arith, later, h) in
      (
        λ e. ground (arith, later, e),
        split_once_absent c text (split_before-none x (split_once c text) unsplit),
      )
]
