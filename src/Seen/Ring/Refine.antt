-- ===== src/Seen/Ring/Refine.antt =====
-- The ring of crates/poholos/src/seen.rs behaves as the recency list of the keys that it holds.
use native.Mathlib.Nat.{mod-eq_of_lt, mod-eq-sub-mod, mod-add-mod}
use poholos.Prelude.{
  Bool-cases, List, Option-cases, [], arith, false, get_or-set_self, inl, inr, length,
  length-append, ltb, ltb-eq-false, ltb-false→le, ltb→lt, lt→ltb, refl, set, subst, suc, sym, true,
  zero, ℕ, ◌%◌, ◌++◌, ◌+◌, ◌-◌, ◌<◌, ◌∙◌, ◌∷◌, ◌≡◌, ◌≤◌,
}
use poholos.Seen.Recency.{evict, evict_small, hear, member, remove}
use poholos.Seen.Ring.{Ring, find_from, insert, new, phys, record_new, refresh, shift_down}
use poholos.Seen.Ring.Window.{
  contents, key_at, length-tabulate, member-tabulate, tabulate, tabulate-ext, tabulate-snoc,
  tabulate_shift,
}
use poholos.Seen.Ring.Shift.{
  key_at-set_ne, key_at-set_self, length-shift_down, shift_down_inside, shift_down_outside,
}
use poholos.Seen.Ring.Find.{IsFirst, find_none, find_some, remove-tabulate}
use poholos.Seen.Ring.Valid.{IsRing}

module _ (cap head key : ℕ) (slots : List ℕ) (hs : length slots ≡ cap) (hh : head < cap) where
  refreshed_slots : ℕ → ℕ → List ℕ
  refreshed_slots found m = set (shift_down cap head found (m - found) slots) (phys cap head m) key

  refresh_slots :
      (found m : ℕ)
      → suc m ≤ cap
      → IsFirst (key_at cap head slots) key 0 (suc m) found
      → tabulate (key_at cap head (refreshed_slots found m)) 0 (suc m)
        ≡ remove key (tabulate (key_at cap head slots) 0 (suc m)) ++ (key ∷ [])
  unfolding refreshed_slots
  refresh_slots found m hm first =
      let shifted : List ℕ = shift_down cap head found (m - found) slots in
      let g : ℕ → ℕ = key_at cap head (refreshed_slots found m) in
      let in_range : found ≤ m = omega (arith, first.high) in
      let last : g (0 + m) ≡ key =
        let z : 0 + m ≡ m = omega arith in
        rw z (
          key_at-set_self cap head hh shifted m key
            (length-shift_down cap head found (m - found) slots ∙ hs)) in
      let keep : (j : ℕ) → j < m → g j ≡ key_at cap head shifted j =
        λ j h. key_at-set_ne cap head hh shifted j m key (omega arith) hm (λ e. omega arith) in
      tabulate-snoc g 0 m
      ∙ rw
          (
            last,
            remove-tabulate (key_at cap head slots) g key 0 m found first
                (λ j l h.
                  keep j (omega arith)
                  ∙ shift_down_outside cap head hh (m - found) found j slots (omega arith)
                      (omega arith) (inl h))
                (λ j l h.
                  keep j (omega arith)
                  ∙ shift_down_inside cap head hh (m - found) found j slots hs (omega arith) l
                      (omega arith)),
          )
          refl

  refresh_len :
      (found len : ℕ)
      → len ≤ cap
      → IsFirst (key_at cap head slots) key 0 len found
      → contents cap (refresh cap (record { slots = slots; len = len; head = head }) key found)
        ≡ remove key (tabulate (key_at cap head slots) 0 len) ++ (key ∷ [])
  unfolding refresh refreshed_slots
  refresh_len found zero hm first = absurd (omega (arith, first.high))
  refresh_len found (suc m) hm first =
      let z : m ≡ suc m - 1 = omega arith in
      subst
        (λ (k : ℕ).
          tabulate (key_at cap head (refreshed_slots found k)) 0 (suc m)
          ≡ remove key (tabulate (key_at cap head slots) 0 (suc m)) ++ (key ∷ []))
        z (refresh_slots found m hm first)

-- Refreshing a known key makes it the newest.
refresh_moves :
    (cap : ℕ) (r : Ring) (key found : ℕ)
    → IsRing cap r
    → IsFirst (key_at cap r.head r.slots) key 0 r.len found
    → contents cap (refresh cap r key found) ≡ remove key (contents cap r) ++ (key ∷ [])
refresh_moves cap r key found v first =
    refresh_len cap r.head key r.slots v.size v.head_in found r.len v.len_in first

-- A new key while slots are free: the ring starts at slot 0 and the key goes behind the others.
fill_slots :
    (cap len key : ℕ) (slots : List ℕ)
    → length slots ≡ cap
    → len < cap
    → tabulate (key_at cap 0 (set slots len key)) 0 (len + 1)
      ≡ tabulate (key_at cap 0 slots) 0 len ++ (key ∷ [])
fill_slots cap len key slots hs hl =
    let at : len ≡ phys cap 0 len =
      omega (arith, mod-eq_of_lt {n = 0 + len} {m = cap} (omega arith)) in
    let one : len + 1 ≡ suc len = omega arith in
    let z : 0 + len ≡ len = omega arith in
    let g : ℕ → ℕ = key_at cap 0 (set slots len key) in
    let last : g (0 + len) ≡ key = rw z (
      subst (λ (i : ℕ). key_at cap 0 (set slots i key) len ≡ key) (sym at)
        (key_at-set_self cap 0 (omega arith) slots len key hs)) in
    let same : tabulate g 0 len ≡ tabulate (key_at cap 0 slots) 0 len =
      tabulate-ext g (key_at cap 0 slots) 0 len (λ j l h.
        subst (λ (i : ℕ). key_at cap 0 (set slots i key) j ≡ key_at cap 0 slots j) (sym at)
          (key_at-set_ne cap 0 (omega arith) slots j len key (omega arith) hl
            (λ e. omega arith))) in
    rw one (tabulate-snoc g 0 len ∙ rw (last, same))

-- A new key over the stalest one, in a full ring.
module _ (m head key : ℕ) (slots : List ℕ) (hs : length slots ≡ suc m) (hh : head < suc m) where
  turn : (j : ℕ) → phys (suc m) ((head + 1) % suc m) j ≡ phys (suc m) head (suc j)
  turn j = rw (mod-add-mod) (let e : head + 1 + j ≡ head + suc j = omega arith in rw e)

  place_zero : head ≡ phys (suc m) head 0
  place_zero = omega (arith, mod-eq_of_lt {n = head + 0} {m = suc m} (omega arith))

  place_round : phys (suc m) head (suc m) ≡ head
  place_round = omega (
    arith,
    mod-eq-sub-mod {n = head + suc m} {m = suc m} (omega arith),
    mod-eq_of_lt {n = head + suc m - suc m} {m = suc m} (omega arith),
  )

  abbrev turned : ℕ → ℕ
  turned = key_at (suc m) ((head + 1) % suc m) (set slots head key)

  turned_last : turned (0 + m) ≡ key
  turned_last =
      let z : 0 + m ≡ m = omega arith in
      rw (z, turn m, place_round) (get_or-set_self slots head key 0 (omega arith))

  turned_moves : (j : ℕ) → j < m → turned j ≡ key_at (suc m) head slots (suc j)
  turned_moves j h = rw (turn j) (
      subst
        (λ (i : ℕ).
          key_at (suc m) head (set slots i key) (suc j) ≡ key_at (suc m) head slots (suc j))
        (sym place_zero)
        (key_at-set_ne (suc m) head hh slots (suc j) 0 key (omega arith) (omega arith)
          (λ e. omega arith)))

  evict_slots : tabulate turned 0 (suc m) ≡ tabulate (key_at (suc m) head slots) 1 m ++ (key ∷ [])
  evict_slots =
      tabulate-snoc turned 0 m
      ∙ rw
          (
            turned_last,
            tabulate_shift turned (key_at (suc m) head slots) 0 1 m (λ j l h.
                let n1 : j + 1 ≡ suc j = omega arith in rw n1 (turned_moves j (omega arith))),
          )
          refl

record_fill :
    (cap len key : ℕ) (head : ℕ) (slots : List ℕ)
    → length slots ≡ cap
    → len < cap
    → head ≡ 0
    → contents cap (record_new cap (record { slots = slots; len = len; head = head }) key)
      ≡ tabulate (key_at cap head slots) 0 len ++ (key ∷ [])
unfolding record_new
record_fill cap len key head slots hs hl z =
    rw (lt→ltb len cap hl, z) (fill_slots cap len key slots hs hl)

record_evict :
    (m key head : ℕ) (slots : List ℕ)
    → length slots ≡ suc m
    → head < suc m
    → contents (suc m) (record_new (suc m) (record { slots = slots; len = suc m; head = head }) key)
      ≡ tabulate (key_at (suc m) head slots) 1 m ++ (key ∷ [])
unfolding record_new
record_evict m key head slots hs hh =
    rw (ltb-eq-false (suc m) (suc m) (omega arith)) (evict_slots m head key slots hs hh)

evict_full :
    (f : ℕ → ℕ) (m key : ℕ)
    → evict (suc m) (tabulate f 0 (suc m) ++ (key ∷ [])) ≡ tabulate f 1 m ++ (key ∷ [])
unfolding evict
evict_full f m key =
    let long : suc m < suc (length (tabulate f 1 m ++ (key ∷ []))) =
      omega (arith, length-append (tabulate f 1 m) (key ∷ []), length-tabulate f 1 m) in
    rw (lt→ltb _ _ long)

record_fields :
    (cap len key head : ℕ) (slots : List ℕ)
    → IsRing cap (record { slots = slots; len = len; head = head })
    → contents cap (record_new cap (record { slots = slots; len = len; head = head }) key)
      ≡ evict cap (tabulate (key_at cap head slots) 0 len ++ (key ∷ []))
record_fields zero len key head slots v = absurd (omega (arith, v.head_in))
record_fields (suc m) len key head slots v = elim (Bool-cases (ltb len (suc m))) [
  | inl free ↦
      let h : len < suc m = ltb→lt _ _ free in
      record_fill (suc m) len key head slots v.size h (omega (arith, v.filling))
      ∙ sym (
          evict_small (suc m) _ (
            omega (
              arith,
              length-append (tabulate (key_at (suc m) head slots) 0 len) (key ∷ []),
              length-tabulate (key_at (suc m) head slots) 0 len,
            )))
  | inr full ↦
      let e : suc m ≡ len = omega (arith, ltb-false→le _ _ full, v.len_in) in
      subst
        (λ (l : ℕ).
          contents (suc m) (record_new (suc m) (record { slots = slots; len = l; head = head }) key)
          ≡ evict (suc m) (tabulate (key_at (suc m) head slots) 0 l ++ (key ∷ [])))
        e
        (record_evict m key head slots v.size v.head_in
          ∙ sym (evict_full (key_at (suc m) head slots) m key))
]

pub contents-new : (cap : ℕ) → contents cap (new cap) ≡ []
unfolding new
contents-new cap = refl

-- `insert` on a well-formed ring leaves it holding the recency list after hearing the key, and
-- answers as the recency list does.
pub insert_refines :
    (cap : ℕ) (r : Ring) (key : ℕ)
    → IsRing cap r
    → (contents cap (insert cap r key).0 ≡ (hear cap (contents cap r) key).0)
      × ((insert cap r key).1 ≡ (hear cap (contents cap r) key).1)
unfolding hear insert
insert_refines cap r key v = elim (Option-cases (find_from cap r.head r.slots key 0 r.len)) [
  | inl e ↦
      let new : member key (contents cap r) ≡ false = find_none cap r.head r.slots key 0 r.len e in
      rw (e, insert, new) (record_fields cap r.len key r.head r.slots v, refl)
  | inr (found, e) ↦
      let first = find_some cap r.head r.slots key 0 r.len found e in
      let old : member key (contents cap r) ≡ true =
        member-tabulate (key_at cap r.head r.slots) key 0 r.len found first.low first.high
          first.here in
      rw (e, insert, old) (refresh_moves cap r key found v first, refl)
]
