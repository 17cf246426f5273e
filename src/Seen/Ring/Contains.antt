-- ===== src/Seen/Ring/Contains.antt =====
-- `Ring::contains` of crates/poholos/src/seen.rs scans the slots in physical order.
use native.Mathlib.Nat.{mod-eq_of_lt, mod-eq-sub-mod}
use poholos.Prelude.{
  Bool-cases, Bool-ext, List, [], ap, arith, get_or, inl, inr, length, ltb, ltb-false→le, ltb→lt,
  refl, suc, sym, take, zero, ℕ, ◌+◌, ◌-◌, ◌<◌, ◌∙◌, ◌∷◌, ◌≡◌, ◌≤◌,
}
use poholos.Seen.Recency.{member}
use poholos.Seen.Ring.{Ring, contains, phys}
use poholos.Seen.Ring.Window.{
  contents, key_at, member-tabulate, position_of_member, tabulate, tabulate_shift,
}
use poholos.Seen.Ring.Valid.{IsRing}

tabulate-take :
    (n : ℕ) (xs : List ℕ) → n ≤ length xs → tabulate (λ j. get_or xs j 0) 0 n ≡ take n xs
tabulate-take zero xs h = refl
tabulate-take (suc n) [] h = absurd (omega arith)
tabulate-take (suc n) (x ∷ xs) h = ap (◌∷◌ x) (
    sym (
      tabulate_shift (λ j. get_or xs j 0) (λ j. get_or (x ∷ xs) j 0) 0 1 n
        (λ j l u. let e : j + 1 ≡ suc j = omega arith in rw e))
    ∙ tabulate-take n xs (omega arith))

-- The logical place of a slot in use.
logical :
    {cap : ℕ} {r : Ring} (p : ℕ)
    → IsRing cap r
    → p < r.len
    → (k : ℕ) × (k < r.len) × (phys cap r.head k ≡ p)
logical {cap} {r} p v h = elim (Bool-cases (ltb p r.head)) [
  | inr above ↦
      let le : r.head ≤ p = ltb-false→le _ _ above in
      (
        p - r.head,
        omega arith,
        omega (
          arith,
          v.len_in,
          mod-eq_of_lt {n = r.head + (p - r.head)} {m = cap} (omega (arith, v.len_in)),
        ),
      )
  | inl below ↦
      let lt : p < r.head = ltb→lt _ _ below in
      let full : r.len ≡ cap = omega (arith, v.filling) in
      (
        p + cap - r.head,
        omega (arith, v.head_in),
        omega (
          arith,
          v.head_in,
          mod-eq-sub-mod {n = r.head + (p + cap - r.head)} {m = cap} (omega (arith, v.head_in)),
          mod-eq_of_lt {n = r.head + (p + cap - r.head) - cap} {m = cap} (omega (arith, v.head_in)),
        ),
      )
]

physical : {cap : ℕ} {r : Ring} (k : ℕ) → IsRing cap r → k < r.len → phys cap r.head k < r.len
physical {cap} {r} k v h = omega (
  arith,
  v.filling,
  v.len_in,
  v.head_in,
  mod-eq_of_lt {n = 0 + k} {m = cap} (omega (arith, v.len_in)),
)

-- On a well-formed ring the scan of `contains` finds a key exactly when the recency list has it.
pub contains_refines :
    (cap : ℕ) (r : Ring) (key : ℕ) → IsRing cap r → contains r key ≡ member key (contents cap r)
unfolding contains
contains_refines cap r key v =
    let scan : tabulate (λ j. get_or r.slots j 0) 0 r.len ≡ take r.len r.slots =
      tabulate-take r.len r.slots (omega (arith, v.size, v.len_in)) in
    rw (← scan) (
      Bool-ext _ _
        (λ h.
          let (p, lo, hi, e) = position_of_member (λ j. get_or r.slots j 0) key 0 r.len h in
          let (k, fits, at) = logical p v (omega arith) in
          member-tabulate (key_at cap r.head r.slots) key 0 r.len k (omega arith) (omega arith)
            (rw at e))
        (λ h.
          let (k, lo, hi, e) = position_of_member (key_at cap r.head r.slots) key 0 r.len h in
          member-tabulate (λ j. get_or r.slots j 0) key 0 r.len (phys cap r.head k) (omega arith)
            (omega (arith, physical k v (omega arith))) e))
