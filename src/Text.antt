-- ===== src/Text.antt =====
-- Strings of the standard library: text as a list of code points, its UTF-8 bytes, and the test
-- that bytes are UTF-8.
pub mod Split
pub mod Utf8
use poholos.Prelude.{
  All, All-append, Bool, Bool-cases, List, Option, [], arith, false, if◌then◌else◌, inl, inr, leb,
  ltb, none, refl, some, true, ℕ, ◌%◌, ◌&&◌, ◌++◌, ◌+◌, ◌/◌, ◌<◌, ◌==◌, ◌||◌, ◌∷◌, ◌≡◌,
}
use poholos.Prelude.Words.{IsByte}

abbrev pub is_between : ℕ → ℕ → ℕ → Bool
is_between lo hi x = leb lo x && leb x hi

-- The bytes that may follow a first byte: a range for each. `none` is no first byte.
unfoldable pub following : ℕ → Option (List (ℕ × ℕ))
following b =
    let any : ℕ × ℕ = (0x80, 0xBF) in
    if is_between 0 0x7F b
    then some []
    else if is_between 0xC2 0xDF b
    then some (any ∷ [])
    else if b == 0xE0
    then some ((0xA0, 0xBF) ∷ any ∷ [])
    else if b == 0xED
    then some ((0x80, 0x9F) ∷ any ∷ [])
    else if is_between 0xE1 0xEF b
    then some (any ∷ any ∷ [])
    else if b == 0xF0
    then some ((0x90, 0xBF) ∷ any ∷ any ∷ [])
    else if is_between 0xF1 0xF3 b
    then some (any ∷ any ∷ any ∷ [])
    else if b == 0xF4
    then some ((0x80, 0x8F) ∷ any ∷ any ∷ [])
    else none

-- `str::from_utf8`, with the ranges that are still owed.
unfoldable pub is_utf8_after : List (ℕ × ℕ) → List ℕ → Bool
is_utf8_after [] [] = true
is_utf8_after (r ∷ owed) [] = false
is_utf8_after [] (b ∷ bytes) = elim (following b) [
  | none ↦ false
  | some owed ↦ is_utf8_after owed bytes
]
is_utf8_after (r ∷ owed) (b ∷ bytes) = is_between r.0 r.1 b && is_utf8_after owed bytes

abbrev pub is_utf8 : List ℕ → Bool
is_utf8 bytes = is_utf8_after [] bytes

-- The UTF-8 bytes of a code point, and of a text.
unfoldable pub utf8_char : ℕ → List ℕ
utf8_char c =
    if ltb c 0x80
    then c ∷ []
    else if ltb c 0x800
    then (0xC0 + c / 64) ∷ (0x80 + c % 64) ∷ []
    else if ltb c 0x10000
    then (0xE0 + c / 4096) ∷ (0x80 + c / 64 % 64) ∷ (0x80 + c % 64) ∷ []
    else (0xF0 + c / 262144) ∷ (0x80 + c / 4096 % 64) ∷ (0x80 + c / 64 % 64) ∷ (0x80 + c % 64) ∷ []

unfoldable pub utf8 : List ℕ → List ℕ
utf8 [] = []
utf8 (c ∷ text) = utf8_char c ++ utf8 text

abbrev pub IsChar : ℕ → Type 0
IsChar c = c < 0x110000

-- `char::is_whitespace`.
unfoldable pub is_whitespace : ℕ → Bool
is_whitespace c =
    is_between 0x09 0x0D c
    || (c == 0x20)
    || (c == 0x85)
    || (c == 0xA0)
    || (c == 0x1680)
    || is_between 0x2000 0x200A c
    || is_between 0x2028 0x2029 c
    || (c == 0x202F)
    || (c == 0x205F)
    || (c == 0x3000)

unfoldable pub trim_start : List ℕ → List ℕ
trim_start [] = []
trim_start (c ∷ text) = let rest = trim_start text in if is_whitespace c then rest else c ∷ text

abbrev pub is_nil {ℓ} : {A : Type ℓ} → List A → Bool
is_nil [] = true
is_nil (c ∷ text) = false

unfoldable pub trim_end : List ℕ → List ℕ
trim_end [] = []
trim_end (c ∷ text) =
    let rest = trim_end text in if is_nil rest && is_whitespace c then [] else c ∷ rest

abbrev pub trim : List ℕ → List ℕ
trim text = trim_end (trim_start text)

unfoldable pub strip_prefix : ℕ → List ℕ → Option (List ℕ)
strip_prefix c [] = none
strip_prefix c (x ∷ text) = if x == c then some text else none

-- The split of a text with one more code point in front.
unfoldable pub split_before : ℕ → Option (List ℕ × List ℕ) → Option (List ℕ × List ℕ)
split_before x none = none
split_before x (some (front, back)) = some (x ∷ front, back)

-- `str::split_once`: what stands before and behind the first `c`.
unfoldable pub split_once : ℕ → List ℕ → Option (List ℕ × List ℕ)
split_once c [] = none
split_once c (x ∷ text) =
    let rest = split_once c text in if x == c then some ([], text) else split_before x rest

utf8_char-IsByte : (c : ℕ) → IsChar c → All IsByte (utf8_char c)
unfolding utf8_char
utf8_char-IsByte c h = ground arith

pub utf8-IsByte : (text : List ℕ) → All IsChar text → All IsByte (utf8 text)
unfolding utf8
utf8-IsByte [] h = tt
utf8-IsByte (c ∷ text) (h, hs) =
    All-append IsByte (utf8_char c) (utf8 text) (utf8_char-IsByte c h) (utf8-IsByte text hs)

pub All-trim_start {κ} : (P : ℕ → Type κ) (text : List ℕ) → All P text → All P (trim_start text)
unfolding trim_start
All-trim_start P [] h = tt
All-trim_start P (c ∷ text) (h, hs) = elim (Bool-cases (is_whitespace c)) [
  | inl space ↦ rw space (All-trim_start P text hs)
  | inr other ↦ rw other (h, hs)
]

pub All-trim_end {κ} : (P : ℕ → Type κ) (text : List ℕ) → All P text → All P (trim_end text)
unfolding trim_end
All-trim_end P [] h = tt
All-trim_end P (c ∷ text) (h, hs) = elim (Bool-cases (is_nil (trim_end text) && is_whitespace c)) [
  | inl gone ↦ rw gone tt
  | inr kept ↦ rw kept (h, All-trim_end P text hs)
]

split_before_inv :
    (c x : ℕ) (text front back : List ℕ) (r : Option (List ℕ × List ℕ))
    → ((f k : List ℕ) → r ≡ some (f, k) → text ≡ f ++ (c ∷ k))
    → split_before x r ≡ some (front, back)
    → x ∷ text ≡ front ++ (c ∷ back)
unfolding split_before
split_before_inv c x text front back (some (f, k)) ih h =
    let tail : text ≡ f ++ (c ∷ k) = ih f k refl in ground (arith, h, tail)
split_before_inv c x text front back none ih h = ground (arith, h)

-- The parts are those of the text.
pub split_once-append_inv :
    (c : ℕ) (text front back : List ℕ)
    → split_once c text ≡ some (front, back)
    → text ≡ front ++ (c ∷ back)
unfolding split_once
split_once-append_inv c [] front back h = ground (arith, h)
split_once-append_inv c (x ∷ text) front back h = elim (Bool-cases (x == c)) [
  | inl here ↦ ground (arith, here, h)
  | inr later ↦
      split_before_inv c x text front back (split_once c text)
        (λ f k e. split_once-append_inv c text f k e) (ground (arith, later, h))
]
