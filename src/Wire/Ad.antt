-- ===== src/Wire/Ad.antt =====
-- `manufacturer_frame` of crates/poholos/src/wire.rs: the walk through raw advertising data.
pub mod Ends
use poholos.Prelude.{
  All, Bool, Bool-cases, List, [], append_assoc, arith, drop, drop-length_append, false, get_or,
  if◌then◌else◌, inl, inr, leb, length, length-append, length-drop, ltb, refl, suc, take,
  take-length_append, true, zero, ℕ, ◌&&◌, ◌++◌, ◌+◌, ◌<◌, ◌==◌, ◌∙◌, ◌∷◌, ◌≡◌, ◌≢◌, ◌≤◌,
}
use poholos.Prelude.Words.{IsByte, u16_from_le_bytes}
use poholos.Wire.{company_id}

abbrev pub ad_type_manufacturer : ℕ
ad_type_manufacturer = 0xFF

abbrev pub manufacturer_header_len : ℕ
manufacturer_header_len = 1 + 2

-- `none` of the source is `absent`; `stuck` is no answer of the source: the walk ran out of fuel.
pub data Found : Type 0 where
  frame : List ℕ → Found
  absent : Found
  stuck : Found

-- The test on an entry `[type, data...]`. Its indices are in range: an entry has a first byte, and
-- the others are read behind the length test.
unfoldable pub is_ours : List ℕ → Bool
is_ours entry =
    get_or entry 0 0 == ad_type_manufacturer
    && leb manufacturer_header_len (length entry)
    && u16_from_le_bytes (get_or entry 1 0) (get_or entry 2 0) == company_id

unfoldable pub walk : ℕ → List ℕ → Found
walk zero rest = stuck
walk (suc fuel) [] = absent
walk (suc fuel) (len ∷ tail) =
    let more = walk fuel (drop len tail) in
    if len == 0
    then absent
    else if ltb (length tail) len
    then absent
    else if is_ours (take len tail)
    then frame (drop manufacturer_header_len (take len tail))
    else more

-- Every round takes a byte at least, so one more round than bytes is enough.
unfoldable pub manufacturer_frame : List ℕ → Found
manufacturer_frame ad = walk (suc (length ad)) ad

-- One AD structure, `[len, type, data...]` for an entry `[type, data...]`, and a sequence of them.
abbrev pub structure : List ℕ → List ℕ
structure entry = length entry ∷ entry

abbrev pub structures : List (List ℕ) → List ℕ
structures [] = []
structures (entry ∷ entries) = structure entry ++ structures entries

-- The manufacturer entry that carries a frame, after its length byte: the type, and the company's
-- number with its low byte first.
abbrev pub frame_entry : List ℕ → List ℕ
frame_entry bytes = 0xFF ∷ 0x0C ∷ 0xF1 ∷ bytes

-- The entries of others: bytes with a type, which do not begin with the type and the number of the
-- company's.
abbrev pub IsForeign : List ℕ → Type 0
IsForeign entry =
    (1 ≤ length entry) × All IsByte entry × ((bytes : List ℕ) → entry ≢ frame_entry bytes)

pub ours_shape :
    (entry : List ℕ)
    → All IsByte entry
    → is_ours entry ≡ true
    → entry ≡ frame_entry (drop manufacturer_header_len entry)
unfolding is_ours
ours_shape [] hb h = absurd (ground arith)
ours_shape (a ∷ []) hb h = absurd (ground arith)
ours_shape (a ∷ b ∷ []) hb h = absurd (ground arith)
ours_shape (a ∷ b ∷ c ∷ bytes) hb h = ground arith

pub is_ours-frame_entry : (bytes : List ℕ) → is_ours (frame_entry bytes) ≡ true
unfolding is_ours
is_ours-frame_entry bytes = ground arith

foreign-is_ours : (entry : List ℕ) → IsForeign entry → is_ours entry ≡ false
foreign-is_ours entry (h, hb, other) = elim (Bool-cases (is_ours entry)) [
  | inl ours ↦ absurd (other _ (ours_shape entry hb ours))
  | inr not_ours ↦ not_ours
]

walk-ne-stuck : (fuel : ℕ) (rest : List ℕ) → length rest < fuel → walk fuel rest ≢ stuck
unfolding walk
walk-ne-stuck zero rest h = absurd (omega arith)
walk-ne-stuck (suc fuel) [] h = λ e. cc
walk-ne-stuck (suc fuel) (len ∷ tail) h =
    ground (arith, length-drop len tail, walk-ne-stuck fuel (drop len tail))

-- The walk ends with an answer on any data: the fuel is enough.
pub manufacturer_frame-ne-stuck : (ad : List ℕ) → manufacturer_frame ad ≢ stuck
unfolding manufacturer_frame
manufacturer_frame-ne-stuck ad = walk-ne-stuck (suc (length ad)) ad (omega arith)

-- One round on a whole structure.
walk-structure :
    (fuel : ℕ) (entry rest : List ℕ)
    → 1 ≤ length entry
    → walk (suc fuel) (structure entry ++ rest)
      ≡ (if is_ours entry then frame (drop manufacturer_header_len entry) else walk fuel rest)
unfolding walk
walk-structure fuel entry rest h =
    ground (
      arith,
      take-length_append entry rest,
      drop-length_append entry rest,
      length-append entry rest,
    )

-- The round on a structure that is passed over.
walk_pass :
    (fuel : ℕ) (entry : List ℕ) (entries : List (List ℕ)) (rest : List ℕ)
    → IsForeign entry
    → walk (suc fuel) (structures (entry ∷ entries) ++ rest)
      ≡ walk fuel (structures entries ++ rest)
walk_pass fuel entry entries rest (h, hb, other) =
    rw (append_assoc (structure entry) (structures entries) rest) (
      walk-structure fuel entry (structures entries ++ rest) h
      ∙ rw (foreign-is_ours entry (h, hb, other)))

walk_found :
    (entries : List (List ℕ)) (fuel : ℕ) (entry rest : List ℕ)
    → All IsForeign entries
    → is_ours entry ≡ true
    → 1 ≤ length entry
    → length (structures entries) < fuel
    → walk fuel (structures entries ++ (structure entry ++ rest))
      ≡ frame (drop manufacturer_header_len entry)
walk_found [] zero entry rest h ours he hf = absurd (omega arith)
walk_found [] (suc fuel) entry rest h ours he hf = walk-structure fuel entry rest he ∙ rw ours
walk_found (e ∷ entries) zero entry rest h ours he hf = absurd (omega arith)
walk_found (e ∷ entries) (suc fuel) entry rest h ours he hf =
    walk_pass fuel e entries (structure entry ++ rest) h.0
    ∙ walk_found entries fuel entry rest h.1 ours he
        (omega (arith, length-append e (structures entries)))

walk_absent :
    (entries : List (List ℕ)) (fuel : ℕ) (padding : List ℕ)
    → All IsForeign entries
    → length (structures entries) < fuel
    → get_or padding 0 0 ≡ 0
    → walk fuel (structures entries ++ padding) ≡ absent
walk_absent [] zero padding h hf z = absurd (omega arith)
walk_absent [] (suc fuel) [] h hf z = unfold walk in refl
walk_absent [] (suc fuel) (x ∷ padding) h hf z = unfold walk in ground arith
walk_absent (e ∷ entries) zero padding h hf z = absurd (omega arith)
walk_absent (e ∷ entries) (suc fuel) padding h hf z =
    walk_pass fuel e entries padding h.0
    ∙ walk_absent entries fuel padding h.1 (omega (arith, length-append e (structures entries))) z

-- The walk finds the frame of the company's structure behind any structures of others, which are
-- of bytes and do not begin with the type 0xFF and the company's number 0xF10C, low byte first,
-- and before any bytes at all.
pub manufacturer_frame_finds :
    (entries : List (List ℕ)) (bytes rest : List ℕ)
    → All IsForeign entries
    → manufacturer_frame (structures entries ++ (structure (frame_entry bytes) ++ rest))
      ≡ frame bytes
unfolding manufacturer_frame
manufacturer_frame_finds entries bytes rest h =
    walk_found entries _ (frame_entry bytes) rest h (is_ours-frame_entry bytes) (omega arith)
      (omega (arith, length-append (structures entries) (structure (frame_entry bytes) ++ rest)))

-- The walk finds no frame in structures of others with nothing or a zero byte behind them.
pub manufacturer_frame_absent :
    (entries : List (List ℕ)) (padding : List ℕ)
    → All IsForeign entries
    → get_or padding 0 0 ≡ 0
    → manufacturer_frame (structures entries ++ padding) ≡ absent
unfolding manufacturer_frame
manufacturer_frame_absent entries padding h z =
    walk_absent entries _ padding h (omega (arith, length-append (structures entries) padding)) z

-- Bytes of which an occurrence of the manufacturer structure for `bytes` is a part.
abbrev pub Carries : List ℕ → List ℕ → Type 0
Carries ad bytes =
    (front : List ℕ) × (back : List ℕ) × (ad ≡ front ++ (structure (frame_entry bytes) ++ back))
