-- ===== src/Seen/Ring/Valid.antt =====
-- The representation invariant of `Ring`, and that no index is out of range.
use poholos.Prelude.{
  Option-cases, arith, inl, inr, length, length-replicate, length-set, refl, ℕ, ◌-◌, ◌<◌, ◌∙◌, ◌≡◌,
  ◌≤◌, ◌⊎◌,
}
use poholos.Seen.Ring.{Ring, find_from, insert, new, phys, record_new, refresh}
use poholos.Seen.Ring.Shift.{length-shift_down, phys-lt}

-- While slots are free the ring starts at slot 0.
pub record IsRing (cap : ℕ) (r : Ring) : Type 0 where
  pub size : length r.slots ≡ cap
  pub head_in : r.head < cap
  pub len_in : r.len ≤ cap
  pub filling : (r.head ≡ 0) ⊎ (r.len ≡ cap)

pub new-IsRing : (cap : ℕ) → 0 < cap → IsRing cap (new cap)
unfolding new
new-IsRing cap h = record {
  size = length-replicate cap 0;
  head_in = h;
  len_in = omega arith;
  filling = inl refl;
}

refresh-IsRing :
    (cap : ℕ) (r : Ring) (key found : ℕ) → IsRing cap r → IsRing cap (refresh cap r key found)
unfolding refresh
refresh-IsRing cap r key found v = record {
  size =
      length-set _ (phys cap r.head (r.len - 1)) key
      ∙ length-shift_down cap r.head found (r.len - 1 - found) r.slots
      ∙ v.size;
  head_in = v.head_in;
  len_in = v.len_in;
  filling = v.filling;
}

record_new-IsRing :
    (cap : ℕ) (r : Ring) (key : ℕ) → IsRing cap r → IsRing cap (record_new cap r key)
unfolding record_new
record_new-IsRing cap r key v =
    ground (arith, length-set r.slots r.len key, length-set r.slots r.head key)

-- `insert` on a well-formed ring leaves a well-formed ring.
pub insert-IsRing : (cap : ℕ) (r : Ring) (key : ℕ) → IsRing cap r → IsRing cap (insert cap r key).0
unfolding insert
insert-IsRing cap r key v = elim (Option-cases (find_from cap r.head r.slots key 0 r.len)) [
  | inl e ↦ rw (e, insert) (record_new-IsRing cap r key v)
  | inr (found, e) ↦ rw (e, insert) (refresh-IsRing cap r key found v)
]

-- Every slot that a search or a shift reads or writes, and the slot that a new key takes, exists.
pub in_bounds :
    {cap : ℕ} {r : Ring} (k : ℕ)
    → IsRing cap r
    → (phys cap r.head k < length r.slots)
      × (r.head < length r.slots)
      × ((r.len < length r.slots) ⊎ (r.len ≡ cap))
in_bounds {cap} {r} k v =
    rw v.size (phys-lt cap r.head k v.head_in, v.head_in, omega (arith, v.len_in))
