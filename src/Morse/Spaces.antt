-- ===== src/Morse/Spaces.antt =====
-- Texts in which spaces stand between other characters only.
use poholos.Prelude.{
  Bool, Bool-cases, List, [], false, if◌then◌else◌, inl, inr, not, refl, true, ℕ, ◌&&◌, ◌++◌, ◌==◌,
  ◌||◌, ◌∷◌, ◌≡◌,
}
use poholos.Morse.{blank}

-- Spaces stand between other characters only: none leads, none is doubled. The Boolean tells
-- whether a space, or the start, is just before.
unfoldable pub is_spaced : Bool → List ℕ → Bool
is_spaced before [] = true
is_spaced before (c ∷ text) =
    if c == blank then not before && is_spaced true text else is_spaced false text

-- Whether a space, or the start, is just before the end.
unfoldable pub ends_open : Bool → List ℕ → Bool
ends_open before [] = before
ends_open before (c ∷ text) = ends_open (c == blank) text

pub is_spaced-append :
    (before : Bool) (text : List ℕ) (c : ℕ)
    → is_spaced before (text ++ (c ∷ []))
      ≡ is_spaced before text && (not (c == blank) || not (ends_open before text))
unfolding is_spaced ends_open
is_spaced-append before [] c = elim (Bool-cases (c == blank)) [
  | inl gap ↦ rw gap (elim (Bool-cases before) [ inl e ↦ rw e refl | inr e ↦ rw e refl ])
  | inr letter ↦ rw letter refl
]
is_spaced-append before (x ∷ text) c = elim (Bool-cases (x == blank)) [
  | inl gap ↦ elim (Bool-cases before) [
    | inl e ↦ rw (gap, e) refl
    | inr e ↦ rw (gap, e) (is_spaced-append true text c)
  ]
  | inr letter ↦ rw letter (is_spaced-append false text c)
]

pub ends_open-append :
    (before : Bool) (text : List ℕ) (c : ℕ) → ends_open before (text ++ (c ∷ [])) ≡ (c == blank)
unfolding ends_open
ends_open-append before [] c = refl
ends_open-append before (x ∷ text) c = ends_open-append (x == blank) text c
