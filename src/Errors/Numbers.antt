-- ===== src/Errors/Numbers.antt =====
-- The decimal digits in the messages of crates/poholos/src/error.rs, read back.
use poholos.Prelude.{
  Bool, Bool-cases, List, [], append_assoc, arith, false, if◌then◌else◌, inl, inr, leb, ltb, refl,
  suc, true, zero, ℕ, ◌%◌, ◌&&◌, ◌*◌, ◌++◌, ◌+◌, ◌-◌, ◌/◌, ◌<◌, ◌∙◌, ◌∷◌, ◌≡◌,
}
use poholos.Errors.{decimal, digits}

abbrev pub is_digit : ℕ → Bool
is_digit c = leb 48 c && leb c 57

-- The number whose digits a text begins with, behind those that make up `acc`, and what follows.
unfoldable pub number : ℕ → List ℕ → ℕ × List ℕ
number acc [] = (acc, [])
number acc (c ∷ text) =
    let more = number (acc * 10 + (c - 48)) text in if is_digit c then more else (acc, c ∷ text)

-- The next text does not go on with a digit.
abbrev pub Stops : List ℕ → Type 0
Stops [] = Unit {0}
Stops (c ∷ text) = is_digit c ≡ false

number-Stops : (acc : ℕ) (text : List ℕ) → Stops text → number acc text ≡ (acc, text)
unfolding number
number-Stops acc [] h = refl
number-Stops acc (c ∷ text) h = rw h refl

-- One digit read behind a number.
number_digit :
    (acc d : ℕ) (text : List ℕ) → d < 10 → number acc ((48 + d) ∷ text) ≡ number (acc * 10 + d) text
unfolding number
number_digit acc d text h =
    let yes : is_digit (48 + d) ≡ true = ground arith in
    let back : 48 + d - 48 ≡ d = omega arith in rw (yes, back) refl

digits_read :
    (fuel n : ℕ) (text : List ℕ) → n < fuel → number 0 (digits fuel n ++ text) ≡ number n text
unfolding digits
digits_read zero n text h = absurd (omega arith)
digits_read (suc fuel) n text h = elim (Bool-cases (ltb n 10)) [
  | inl small ↦ rw small (
      number_digit 0 n text (ground (arith, small))
      ∙ (let same : 0 * 10 + n ≡ n = omega arith in rw same refl))
  | inr large ↦
      let shorter : n / 10 < fuel = ground (arith, large) in
      let whole : n / 10 * 10 + n % 10 ≡ n = omega arith in
      rw (large, append_assoc)
        (digits_read fuel (n / 10) ((48 + n % 10) ∷ text) shorter
          ∙ number_digit (n / 10) (n % 10) text (omega arith)
          ∙ rw whole refl)
]

pub number-decimal : (n : ℕ) (text : List ℕ) → Stops text → number 0 (decimal n ++ text) ≡ (n, text)
unfolding decimal
number-decimal n text h = digits_read (suc n) n text (omega arith) ∙ number-Stops n text h
