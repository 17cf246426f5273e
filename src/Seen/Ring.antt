-- ===== src/Seen/Ring.antt =====
-- The `no_std` backend of crates/poholos/src/seen.rs: a ring of slots with a linear scan. `cap` is
-- `SEEN_CAPACITY`.
pub mod Window
pub mod Shift
pub mod Find
pub mod Valid
pub mod Refine
pub mod Contains
use poholos.Prelude.{
  Bool, List, Option, false, get_or, if◌then◌else◌, ltb, none, replicate, set, some, suc, take,
  true, zero, ℕ, ◌%◌, ◌+◌, ◌-◌, ◌==◌,
}
use poholos.Seen.Recency.{member}

pub record Ring : Type 0 where
  pub slots : List ℕ
  pub len : ℕ
  pub head : ℕ

unfoldable pub new : ℕ → Ring
new cap = record { slots = replicate cap 0; len = 0; head = 0 }

-- `phys`, for a ring that starts at `head`.
abbrev pub phys : ℕ → ℕ → ℕ → ℕ
phys cap head logical = (head + logical) % cap

-- `slots[i]`; every index that is read or written is in range (`in_bounds`).
abbrev pub slot : List ℕ → ℕ → ℕ
slot slots i = get_or slots i 0

-- `slots[..len].contains(&key)`.
unfoldable pub contains : Ring → ℕ → Bool
contains r key = member key (take r.len r.slots)

-- `(k..k + n).find(|&k| slots[phys(k)] == key)`.
unfoldable pub find_from : ℕ → ℕ → List ℕ → ℕ → ℕ → ℕ → Option ℕ
find_from cap head slots key k zero = none
find_from cap head slots key k (suc n) =
    if slot slots (phys cap head k) == key then some k else find_from cap head slots key (suc k) n

-- `for k in k..k + n { slots[phys(k)] = slots[phys(k + 1)]; }`.
unfoldable pub shift_down : ℕ → ℕ → ℕ → ℕ → List ℕ → List ℕ
shift_down cap head k zero slots = slots
shift_down cap head k (suc n) slots =
    shift_down cap head (suc k) n (set slots (phys cap head k) (slot slots (phys cap head (suc k))))

-- The branch of `insert` that refreshes a key found at a logical position.
unfoldable pub refresh : ℕ → Ring → ℕ → ℕ → Ring
refresh cap r key found =
    let slots' = shift_down cap r.head found (r.len - 1 - found) r.slots in
    record r { slots = set slots' (phys cap r.head (r.len - 1)) key }

-- The branch of `insert` that records a new key.
unfoldable pub record_new : ℕ → Ring → ℕ → Ring
record_new cap r key =
    if ltb r.len cap
    then record r { slots = set r.slots r.len key; len = r.len + 1 }
    else record r { slots = set r.slots r.head key; head = (r.head + 1) % cap }

unfoldable pub insert : ℕ → Ring → ℕ → Ring × Bool
insert cap r key = elim (find_from cap r.head r.slots key 0 r.len) [
  | some found ↦ (refresh cap r key found, false)
  | none ↦ (record_new cap r key, true)
]
