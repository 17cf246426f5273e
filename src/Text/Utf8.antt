-- ===== src/Text/Utf8.antt =====
-- The UTF-8 bytes of a text are a text's.
use poholos.Prelude.{
  All, Bool-cases, List, [], ap, arith, inl, inr, ltb, ltb-false→le, ltb→lt, lt→ltb, refl, some,
  true, ℕ, ◌%◌, ◌++◌, ◌+◌, ◌/◌, ◌<◌, ◌==◌, ◌∙◌, ◌∷◌, ◌≡◌, ◌≤◌, ◌⊎◌,
}
use poholos.Text.{following, is_between, is_utf8, is_utf8_after, utf8, utf8_char}

-- A scalar value: a code point that is no surrogate.
abbrev pub IsScalar : ℕ → Type 0
IsScalar c = (c < 0xD800) ⊎ ((0xE000 ≤ c) × (c < 0x110000))

following_one : (a : ℕ) → a < 0x80 → following a ≡ some []
unfolding following
following_one a h = ground arith

one_byte : (a : ℕ) (rest : List ℕ) → a < 0x80 → is_utf8 (a ∷ rest) ≡ is_utf8 rest
unfolding is_utf8_after
one_byte a rest h = rw (is_utf8_after, following_one a h) refl

within : (lo hi x : ℕ) → lo ≤ x → x ≤ hi → is_between lo hi x ≡ true
within lo hi x h k = ground arith

IsRest : ℕ → Type 0
IsRest b = (0x80 ≤ b) × (b ≤ 0xBF)

following_two : (a : ℕ) → 0xC2 ≤ a → a ≤ 0xDF → following a ≡ some ((0x80, 0xBF) ∷ [])
unfolding following
following_two a lo hi = ground arith

two_bytes :
    (a b : ℕ) (rest : List ℕ)
    → 0xC2 ≤ a
    → a ≤ 0xDF
    → IsRest b
    → is_utf8 (a ∷ b ∷ rest) ≡ is_utf8 rest
unfolding is_utf8_after IsRest
two_bytes a b rest lo hi (l, h) =
    rw (is_utf8_after, following_two a lo hi, within 0x80 0xBF b l h) refl

led_three :
    (a b : ℕ)
    → 0xE0 ≤ a
    → a ≤ 0xEF
    → IsRest b
    → (a ≡ 0xE0 → 0xA0 ≤ b)
    → (a ≡ 0xED → b ≤ 0x9F)
    → (l : ℕ) × (h : ℕ) × (following a ≡ some ((l, h) ∷ (0x80, 0xBF) ∷ [])) × (l ≤ b) × (b ≤ h)
unfolding following IsRest
led_three a b lo hi (bl, bh) first surrogate = elim (Bool-cases (a == 0xE0)) [
  | inl e ↦ (0xA0, 0xBF, ground (arith, e), first (ground (arith, e)), bh)
  | inr e ↦ elim (Bool-cases (a == 0xED)) [
    | inl s ↦ (0x80, 0x9F, ground (arith, e, s), bl, surrogate (ground (arith, s)))
    | inr s ↦ (0x80, 0xBF, ground (arith, e, s), bl, bh)
  ]
]

three_bytes :
    (a b c : ℕ) (rest : List ℕ)
    → 0xE0 ≤ a
    → a ≤ 0xEF
    → IsRest b
    → IsRest c
    → (a ≡ 0xE0 → 0xA0 ≤ b)
    → (a ≡ 0xED → b ≤ 0x9F)
    → is_utf8 (a ∷ b ∷ c ∷ rest) ≡ is_utf8 rest
unfolding is_utf8_after IsRest
three_bytes a b c rest lo hi hb (cl, ch) first surrogate =
    let (l, h, lead, low, high) = led_three a b lo hi hb first surrogate in
    rw (is_utf8_after, lead, within l h b low high, within 0x80 0xBF c cl ch) refl

led_four :
    (a b : ℕ)
    → 0xF0 ≤ a
    → a ≤ 0xF4
    → IsRest b
    → (a ≡ 0xF0 → 0x90 ≤ b)
    → (a ≡ 0xF4 → b ≤ 0x8F)
    → (l : ℕ) × (h : ℕ) × (following a ≡ some ((l, h) ∷ (0x80, 0xBF) ∷ (0x80, 0xBF) ∷ []))
      × (l ≤ b)
      × (b ≤ h)
unfolding following IsRest
led_four a b lo hi (bl, bh) first last = elim (Bool-cases (a == 0xF0)) [
  | inl e ↦ (0x90, 0xBF, ground (arith, e), first (ground (arith, e)), bh)
  | inr e ↦ elim (Bool-cases (a == 0xF4)) [
    | inl s ↦ (0x80, 0x8F, ground (arith, e, s), bl, last (ground (arith, s)))
    | inr s ↦ (0x80, 0xBF, ground (arith, e, s), bl, bh)
  ]
]

four_bytes :
    (a b c d : ℕ) (rest : List ℕ)
    → 0xF0 ≤ a
    → a ≤ 0xF4
    → IsRest b
    → IsRest c
    → IsRest d
    → (a ≡ 0xF0 → 0x90 ≤ b)
    → (a ≡ 0xF4 → b ≤ 0x8F)
    → is_utf8 (a ∷ b ∷ c ∷ d ∷ rest) ≡ is_utf8 rest
unfolding is_utf8_after IsRest
four_bytes a b c d rest lo hi hb (cl, ch) (dl, dh) first last =
    let (l, h, lead, low, high) = led_four a b lo hi hb first last in
    rw
      (
        is_utf8_after,
        lead,
        within l h b low high,
        within 0x80 0xBF c cl ch,
        within 0x80 0xBF d dl dh,
      )
      refl

utf8_char_lem : (c : ℕ) (rest : List ℕ) → IsScalar c → is_utf8 (utf8_char c ++ rest) ≡ is_utf8 rest
unfolding utf8_char IsRest
utf8_char_lem c rest h = elim (Bool-cases (ltb c 0x80)) [
  | inl one ↦ rw one (one_byte c rest (ltb→lt c 0x80 one))
  | inr more ↦ elim (Bool-cases (ltb c 0x800)) [
    | inl two ↦
        let lo = ltb-false→le c 0x80 more in
        let hi = ltb→lt c 0x800 two in
        rw (more, two)
          (two_bytes (0xC0 + c / 64) (0x80 + c % 64) rest (omega arith) (omega arith)
            (omega arith, omega arith))
    | inr more' ↦ elim (Bool-cases (ltb c 0x10000)) [
      | inl three ↦
          let lo = ltb-false→le c 0x800 more' in
          let hi = ltb→lt c 0x10000 three in
          rw (more, more', three)
            (three_bytes (0xE0 + c / 4096) (0x80 + c / 64 % 64) (0x80 + c % 64) rest (omega arith)
              (omega arith) (omega arith, omega arith) (omega arith, omega arith)
              (λ e. omega (arith, e)) (λ e. omega (arith, e)))
      | inr four ↦
          let lo = ltb-false→le c 0x10000 four in
          let hi : c < 0x110000 = omega (arith, h) in
          rw (more, more', four)
            (four_bytes (0xF0 + c / 262144) (0x80 + c / 4096 % 64) (0x80 + c / 64 % 64)
              (0x80 + c % 64) rest (omega arith) (omega arith) (omega arith, omega arith)
              (omega arith, omega arith) (omega arith, omega arith) (λ e. omega (arith, e))
              (λ e. omega (arith, e)))
    ]
  ]
]

-- The bytes of scalar values pass `str::from_utf8`.
pub utf8-is_utf8 : (text : List ℕ) → All IsScalar text → is_utf8 (utf8 text) ≡ true
unfolding utf8
utf8-is_utf8 [] h = unfold is_utf8_after in refl
utf8-is_utf8 (c ∷ text) (h, hs) = utf8_char_lem c (utf8 text) h ∙ utf8-is_utf8 text hs

-- ASCII characters are their bytes.
pub utf8_plain : (text : List ℕ) → All (λ x. x < 128) text → utf8 text ≡ text
unfolding utf8 utf8_char
utf8_plain [] h = refl
utf8_plain (x ∷ text) (h, hs) = rw (lt→ltb x 128 h) (ap (◌∷◌ x) (utf8_plain text hs))
