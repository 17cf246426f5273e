-- ===== src/Wire/Ad/Ends.antt =====
-- Where the walk of `manufacturer_frame` of crates/poholos/src/wire.rs ends, on any bytes.
use poholos.Prelude.{
  All, All-drop, All-take, Bool-cases, List, [], ap, append_assoc, arith, drop, false, inl, inr,
  length, length-drop, length-take, ltb, ltb-false→le, ltb→lt, refl, subst, suc, sym, take,
  take-append-drop, zero, ℕ, ◌++◌, ◌<◌, ◌==◌, ◌∙◌, ◌∷◌, ◌≡◌, ◌≤◌, ◌⊎◌,
}
use poholos.Prelude.Words.{IsByte}
use poholos.Wire.Ad.{
  Carries, Found, IsForeign, absent, frame, frame_entry, is_ours, is_ours-frame_entry,
  manufacturer_frame, ours_shape, structure, structures, stuck, walk,
}

-- Data behind the last whole structure: nothing, padding behind a zero byte, or a structure that is
-- cut short.
abbrev pub IsEnd : List ℕ → Type 0
IsEnd [] = Unit {0}
IsEnd (len ∷ tail) = (len ≡ 0) ⊎ (length tail < len)

-- The first structure of the company, with those of others before it; or none.
unfoldable pub Ends : List ℕ → Found → Type 0
Ends ad (frame bytes) =
    (entries : List (List ℕ)) × (rest : List ℕ) × All IsForeign entries
    × (ad ≡ structures entries ++ (structure (frame_entry bytes) ++ rest))
Ends ad absent =
    (entries : List (List ℕ)) × (rest : List ℕ) × All IsForeign entries
    × IsEnd rest
    × (ad ≡ structures entries ++ rest)
Ends ad stuck = ⊥

-- A first structure that fits.
first_structure :
    (len : ℕ) (tail : List ℕ)
    → len ≤ length tail
    → len ∷ tail ≡ structure (take len tail) ++ drop len tail
first_structure len tail h =
    let size : length (take len tail) ≡ len = omega (arith, length-take len tail) in
    rw (size, take-append-drop len tail) refl

structure-Ends :
    (entry rest : List ℕ) (found : Found)
    → IsForeign entry
    → Ends rest found
    → Ends (structure entry ++ rest) found
unfolding Ends
structure-Ends entry rest (frame bytes) foreign (entries, back, others, e) = (
  entry ∷ entries,
  back,
  (foreign, others),
  ap (◌++◌ (structure entry)) e
      ∙ sym (
          append_assoc (structure entry) (structures entries)
            (structure (frame_entry bytes) ++ back)),
)
structure-Ends entry rest absent foreign (entries, back, others, end, e) = (
  entry ∷ entries,
  back,
  (foreign, others),
  end,
  ap (◌++◌ (structure entry)) e ∙ sym (append_assoc (structure entry) (structures entries) back),
)
structure-Ends entry rest stuck foreign never = absurd never

not_ours-IsForeign :
    (entry : List ℕ) → 1 ≤ length entry → All IsByte entry → is_ours entry ≡ false → IsForeign entry
not_ours-IsForeign entry h hb other = (h, hb, λ bytes e. clash bytes (sym (ap is_ours e) ∙ other))
  where
    clash : (bytes : List ℕ) → is_ours (frame_entry bytes) ≡ false → ⊥
    clash bytes e = ground (arith, e, is_ours-frame_entry bytes)

walk-Ends : (fuel : ℕ) (ad : List ℕ) → All IsByte ad → length ad < fuel → Ends ad (walk fuel ad)
unfolding walk Ends
walk-Ends zero ad hb h = absurd (omega arith)
walk-Ends (suc fuel) [] hb h = ([], [], tt, tt, refl)
walk-Ends (suc fuel) (len ∷ tail) hb h = elim (Bool-cases (len == 0)) [
  | inl none_left ↦ rw none_left ([], len ∷ tail, tt, inl (ground (arith, none_left)), refl)
  | inr some_left ↦ elim (Bool-cases (ltb (length tail) len)) [
    | inl cut ↦ rw (some_left, cut) ([], len ∷ tail, tt, inr (ltb→lt (length tail) len cut), refl)
    | inr whole ↦
        let fits = ltb-false→le (length tail) len whole in
        let entry = take len tail in
        let bytes = All-take IsByte len tail hb.1 in
        let parts = first_structure len tail fits in
        elim (Bool-cases (is_ours entry)) [
          | inl ours ↦
              rw (some_left, whole, ours)
                (
                  [],
                  drop len tail,
                  tt,
                  parts ∙ ap (λ e. structure e ++ drop len tail) (ours_shape entry bytes ours),
                )
          | inr other ↦
              let long : 1 ≤ length entry = ground (arith, some_left, length-take len tail) in
              rw (some_left, whole, other)
                (subst (λ xs. Ends xs (walk fuel (drop len tail))) (sym parts)
                  (structure-Ends entry (drop len tail) (walk fuel (drop len tail))
                    (not_ours-IsForeign entry long bytes other)
                    (walk-Ends fuel (drop len tail) (All-drop IsByte len tail hb.1)
                      (omega (arith, length-drop len tail)))))
        ]
  ]
]

-- On any bytes the walk ends. If it returns a frame, the data is whole structures of others, then
-- the company's structure with this frame, then anything; if it returns none, the data is whole
-- structures of others, then nothing, a zero byte, or a structure that is cut short.
pub manufacturer_frame-Ends : (ad : List ℕ) → All IsByte ad → Ends ad (manufacturer_frame ad)
unfolding manufacturer_frame
manufacturer_frame-Ends ad hb = walk-Ends (suc (length ad)) ad hb (omega arith)

-- A frame that the walk returns stands in the advertising data as a whole structure of the company.
pub manufacturer_frame-Carries :
    (ad bytes : List ℕ) → All IsByte ad → manufacturer_frame ad ≡ frame bytes → Carries ad bytes
unfolding Ends
manufacturer_frame-Carries ad bytes hb h =
    let (entries, rest, others, e) = subst (Ends ad) h (manufacturer_frame-Ends ad hb) in
    (structures entries, rest, e)
