-- ===== src/Seen/Cache.antt =====
-- `SeenCache` of crates/poholos/src/seen.rs as its clients see it: operations, the recency list
-- that stands behind them, and the calls of a client.
use poholos.Prelude.{Bool, List, [], ap, length, refl, sym, ℕ, ◌<◌, ◌==◌, ◌∙◌, ◌∷◌, ◌≡◌}
use poholos.Seen.Recency.{hear, member}
use poholos.Seen.Ring
use poholos.Seen.Ring.{Ring}
use poholos.Seen.Ring.Window.{contents, key_at, length-tabulate}
use poholos.Seen.Ring.Valid.{IsRing, insert-IsRing, new-IsRing}
use poholos.Seen.Ring.Refine.{contents-new, insert_refines}
use poholos.Seen.Ring.Contains.{contains_refines}

abbrev pub seen_capacity : ℕ
seen_capacity = 512

-- A backend. `view` and the laws are what it owes to its clients.
pub record SeenCache (cap : ℕ) : Type 1 where
  pub State : Type 0
  pub new : State
  pub insert : State → ℕ → State × Bool
  pub contains : State → ℕ → Bool
  pub len : State → ℕ
  pub IsValid : State → Type 0
  pub view : State → List ℕ
  pub new-IsValid : IsValid new
  pub view-new : view new ≡ []
  pub insert-IsValid : (s : State) (key : ℕ) → IsValid s → IsValid (insert s key).0
  pub view-insert :
      (s : State) (key : ℕ) → IsValid s → view (insert s key).0 ≡ (hear cap (view s) key).0
  pub insert_new : (s : State) (key : ℕ) → IsValid s → (insert s key).1 ≡ (hear cap (view s) key).1
  pub contains_view : (s : State) (key : ℕ) → IsValid s → contains s key ≡ member key (view s)
  pub len_view : (s : State) → IsValid s → len s ≡ length (view s)

-- The `no_std` backend.
abbrev pub ring_cache : (cap : ℕ) → 0 < cap → SeenCache cap
ring_cache cap h = record {
  State = Ring;
  new = Ring.new cap;
  insert = Ring.insert cap;
  contains = Ring.contains;
  len = λ r. r.len;
  IsValid = IsRing cap;
  view = contents cap;
  new-IsValid = new-IsRing cap h;
  view-new = contents-new cap;
  insert-IsValid = insert-IsRing cap;
  view-insert = λ r key v. (insert_refines cap r key v).0;
  insert_new = λ r key v. (insert_refines cap r key v).1;
  contains_view = contains_refines cap;
  len_view = λ r v. sym (length-tabulate (key_at cap r.head r.slots) 0 r.len);
}

-- A client's calls, and what it sees of each.
pub data Call : Type 0 where
  insert : ℕ → Call
  contains : ℕ → Call
  len : Call
  is_empty : Call

pub data Reply : Type 0 where
  answer : Bool → Reply
  size : ℕ → Reply

module _ {cap : ℕ} (c : SeenCache cap) where
  unfoldable pub call : c.State → Call → c.State × Reply
  call s (insert key) = let (s', new) = c.insert s key in (s', answer new)
  call s (contains key) = (s, answer (c.contains s key))
  call s len = (s, size (c.len s))
  call s is_empty = (s, answer (c.len s == 0))

  unfoldable pub replies : c.State → List Call → List Reply
  replies s [] = []
  replies s (x ∷ xs) = let (s', reply) = call s x in reply ∷ replies s' xs

-- The replies of the recency list.
unfoldable pub spec_replies : ℕ → List ℕ → List Call → List Reply
spec_replies cap xs [] = []
spec_replies cap xs (insert key ∷ calls) =
    answer (hear cap xs key).1 ∷ spec_replies cap (hear cap xs key).0 calls
spec_replies cap xs (contains key ∷ calls) = answer (member key xs) ∷ spec_replies cap xs calls
spec_replies cap xs (len ∷ calls) = size (length xs) ∷ spec_replies cap xs calls
spec_replies cap xs (is_empty ∷ calls) = answer (length xs == 0) ∷ spec_replies cap xs calls

replies_refine :
    {cap : ℕ} (c : SeenCache cap) (s : c.State) (calls : List Call)
    → c.IsValid s
    → replies c s calls ≡ spec_replies cap (c.view s) calls
unfolding replies call spec_replies
replies_refine c s [] v = refl
replies_refine {cap} c s (insert key ∷ calls) v =
    rw (← c.view-insert s key v, c.insert_new s key v)
      (ap (◌∷◌ (answer (hear cap (c.view s) key).1))
        (replies_refine c (c.insert s key).0 calls (c.insert-IsValid s key v)))
replies_refine {cap} c s (contains key ∷ calls) v =
    rw (c.contains_view s key v)
      (ap (◌∷◌ (answer (member key (c.view s)))) (replies_refine c s calls v))
replies_refine {cap} c s (len ∷ calls) v =
    rw (c.len_view s v) (ap (◌∷◌ (size (length (c.view s)))) (replies_refine c s calls v))
replies_refine {cap} c s (is_empty ∷ calls) v =
    rw (c.len_view s v) (ap (◌∷◌ (answer (length (c.view s) == 0))) (replies_refine c s calls v))

-- Any two backends that meet the laws of the cache reply alike, from the start, to every sequence
-- of calls.
pub backends_agree :
    {cap : ℕ} (c d : SeenCache cap) (calls : List Call)
    → replies c c.new calls ≡ replies d d.new calls
backends_agree c d calls =
    replies_refine c c.new calls c.new-IsValid
    ∙ rw (c.view-new, ← d.view-new) (sym (replies_refine d d.new calls d.new-IsValid))
