-- ===== src/Seen/Linked.antt =====
-- The `std` backend of crates/poholos/src/seen.rs, over the linked hash set of the crate hashlink,
-- which is a parameter.
use poholos.Prelude.{
  Bool, Bool-cases, List, [], ap, drop, false, if◌then◌else◌, inl, inr, length, ltb, ltb-false→le,
  ltb→lt, not, refl, sym, true, ℕ, ◌++◌, ◌<◌, ◌∙◌, ◌∷◌, ◌≡◌,
}
use poholos.Seen.Recency.{evict_large, evict_small, hear, member, remove, remove_absent}
use poholos.Seen.Ring
use poholos.Seen.Cache.{Call, SeenCache, backends_agree, replies, ring_cache}

-- What the backend uses of `LinkedHashSet<u64>`, with its documented behaviour: the elements have
-- an order, an insertion moves a duplicate to the back and says whether the element was new, and
-- `pop_front` takes the front element off.
pub record LinkedHashSet : Type 1 where
  pub Set : Type 0
  pub with_capacity : ℕ → Set
  pub insert : Set → ℕ → Set × Bool
  pub contains : Set → ℕ → Bool
  pub len : Set → ℕ
  pub pop_front : Set → Set
  pub order : Set → List ℕ
  pub order-with_capacity : (n : ℕ) → order (with_capacity n) ≡ []
  pub order-insert : (s : Set) (x : ℕ) → order (insert s x).0 ≡ remove x (order s) ++ (x ∷ [])
  pub insert_new : (s : Set) (x : ℕ) → (insert s x).1 ≡ not (member x (order s))
  pub contains_order : (s : Set) (x : ℕ) → contains s x ≡ member x (order s)
  pub len_order : (s : Set) → len s ≡ length (order s)
  pub order-pop_front : (s : Set) → order (pop_front s) ≡ drop 1 (order s)

module _ (lib : LinkedHashSet) (cap : ℕ) where
  open lib use {Set, order}

  -- `SeenCache::insert` under `feature = "std"`.
  unfoldable pub linked_insert : Set → ℕ → Set × Bool
  linked_insert s key =
      let (s', new) = lib.insert s key in
      if not new
      then (s', false)
      else if ltb cap (lib.len s')
      then (lib.pop_front s', true)
      else (s', true)

  pub linked_refines :
      (s : Set) (key : ℕ)
      → (order (linked_insert s key).0 ≡ (hear cap (order s) key).0)
        × ((linked_insert s key).1 ≡ (hear cap (order s) key).1)
  unfolding linked_insert hear
  linked_refines s key = elim (Bool-cases (member key (order s))) [
    | inl old ↦
        let told : (lib.insert s key).1 ≡ false = lib.insert_new s key ∙ rw old in
        rw (told, old) (lib.order-insert s key, refl)
    | inr new ↦
        let told : (lib.insert s key).1 ≡ true = lib.insert_new s key ∙ rw new in
        let held : order (lib.insert s key).0 ≡ order s ++ (key ∷ []) =
          lib.order-insert s key
          ∙ ap (λ (l : List ℕ). l ++ (key ∷ [])) (remove_absent key (order s) new) in
        let count : lib.len (lib.insert s key).0 ≡ length (order s ++ (key ∷ [])) =
          lib.len_order _ ∙ ap length held in
        elim (Bool-cases (ltb cap (length (order s ++ (key ∷ []))))) [
          | inl full ↦
              rw (told, new, count, full)
                (
                  lib.order-pop_front _
                      ∙ rw held (sym (evict_large cap (order s ++ (key ∷ [])) (ltb→lt _ _ full))),
                  refl,
                )
          | inr room ↦
              rw (told, new, count, room)
                (held ∙ sym (evict_small cap (order s ++ (key ∷ [])) (ltb-false→le _ _ room)), refl)
        ]
  ]

  -- `SeenCache` under `feature = "std"`.
  abbrev pub linked_cache : SeenCache cap
  linked_cache = record {
    State = Set;
    new = lib.with_capacity cap;
    insert = linked_insert;
    contains = lib.contains;
    len = lib.len;
    IsValid = λ s. Unit {0};
    view = order;
    new-IsValid = tt;
    view-new = lib.order-with_capacity cap;
    insert-IsValid = λ s key v. tt;
    view-insert = λ s key v. (linked_refines s key).0;
    insert_new = λ s key v. (linked_refines s key).1;
    contains_view = λ s key v. lib.contains_order s key;
    len_view = λ s v. lib.len_order s;
  }

-- For any linked hash set with the documented laws and any positive capacity the two backends of
-- the cache reply alike, from the start, to every sequence of `insert`, `contains`, `len` and
-- `is_empty`.
pub ring-linked_agree :
    (lib : LinkedHashSet) (cap : ℕ) (pos : 0 < cap) (calls : List Call)
    → replies (ring_cache cap pos) (Ring.new cap) calls
      ≡ replies (linked_cache lib cap) (lib.with_capacity cap) calls
ring-linked_agree lib cap pos calls =
    backends_agree (ring_cache cap pos) (linked_cache lib cap) calls
