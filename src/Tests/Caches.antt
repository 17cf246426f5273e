-- ===== src/Tests/Caches.antt =====
-- Runs of the theorems on the seen cache.
use poholos.Prelude.{List, [], arith, drop, inr, length, not, refl, ℕ, ◌++◌, ◌<◌, ◌∷◌, ◌≡◌, ◌⊎◌}
use poholos.Seen.Recency.{hear, member, remove}
use poholos.Seen.Ring
use poholos.Seen.Ring.{Ring}
use poholos.Seen.Ring.Window.{contents}
use poholos.Seen.Ring.Valid.{IsRing, in_bounds}
use poholos.Seen.Ring.Refine.{insert_refines}
use poholos.Seen.Cache.{contains, insert, len, Call, replies, ring_cache}
use poholos.Seen.Linked.{LinkedHashSet, linked_cache, ring-linked_agree}

-- A ring of two slots that is full and has wrapped around.
abbrev wrapped : Ring
wrapped = record { slots = 3 ∷ 2 ∷ []; head = 1; len = 2 }

wrapped-IsRing : IsRing 2 wrapped
wrapped-IsRing = record {
  size = refl;
  head_in = omega arith;
  len_in = omega arith;
  filling = inr refl;
}

insert_refines_example :
    (contents 2 (Ring.insert 2 wrapped 5).0 ≡ (hear 2 (contents 2 wrapped) 5).0)
    × ((Ring.insert 2 wrapped 5).1 ≡ (hear 2 (contents 2 wrapped) 5).1)
insert_refines_example = insert_refines 2 wrapped 5 wrapped-IsRing

in_bounds_example :
    (Ring.phys 2 wrapped.head 1 < length wrapped.slots)
    × (wrapped.head < length wrapped.slots)
    × ((wrapped.len < length wrapped.slots) ⊎ (wrapped.len ≡ 2))
in_bounds_example = in_bounds {cap = 2} {r = wrapped} 1 wrapped-IsRing

-- A linked hash set as a list in insertion order.
abbrev list_set : LinkedHashSet
list_set = record {
  Set = List ℕ;
  with_capacity = λ n. [];
  insert = λ s x. (remove x s ++ (x ∷ []), not (member x s));
  contains = λ s x. member x s;
  len = length;
  pop_front = drop 1;
  order = λ s. s;
  order-with_capacity = λ n. refl;
  order-insert = λ s x. refl;
  insert_new = λ s x. refl;
  contains_order = λ s x. refl;
  len_order = λ s. refl;
  order-pop_front = λ s. refl;
}

two : 0 < 2
two = omega arith

abbrev session : List Call
session = insert 4 ∷ insert 5 ∷ insert 4 ∷ insert 6 ∷ contains 5 ∷ len ∷ []

ring-linked_agree_example :
    replies (ring_cache 2 two) (Ring.new 2) session ≡ replies (linked_cache list_set 2) [] session
ring-linked_agree_example = ring-linked_agree list_set 2 two session
