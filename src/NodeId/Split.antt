-- ===== src/NodeId/Split.antt =====
-- What `rsplit_once` of crates/poholos/src/node_id.rs does.
use poholos.Prelude.{
  ==-eq-false, ==_refl, All, List, Option, [], arith, none, refl, some, ℕ, ◌++◌, ◌∷◌, ◌≡◌, ◌≢◌,
}
use poholos.NodeId.{rsplit_once, split_behind}

-- The last `c` is the one with none behind it.
pub rsplit_once-append :
    (c : ℕ) (front back : List ℕ)
    → rsplit_once c back ≡ none
    → rsplit_once c (front ++ (c ∷ back)) ≡ some (front, back)
unfolding rsplit_once split_behind
rsplit_once-append c [] back h = rw (h, ==_refl c) refl
rsplit_once-append c (b ∷ front) back h = rw (rsplit_once-append c front back h) refl

pub rsplit_once_absent : (c : ℕ) (xs : List ℕ) → All (λ b. b ≢ c) xs → rsplit_once c xs ≡ none
unfolding rsplit_once split_behind
rsplit_once_absent c [] h = refl
rsplit_once_absent c (b ∷ bytes) h = rw (rsplit_once_absent c bytes h.1, ==-eq-false b c h.0) refl

split_behind_inv :
    (c b : ℕ) (bytes front back : List ℕ) (r : Option (List ℕ × List ℕ))
    → ((f k : List ℕ) → r ≡ some (f, k) → bytes ≡ f ++ (c ∷ k))
    → split_behind c b bytes r ≡ some (front, back)
    → b ∷ bytes ≡ front ++ (c ∷ back)
unfolding split_behind
split_behind_inv c b bytes front back (some (f, k)) ih h =
    let tail : bytes ≡ f ++ (c ∷ k) = ih f k refl in ground (arith, h, tail)
split_behind_inv c b bytes front back none ih h = ground (arith, h)

-- The parts are those of the string.
pub rsplit_once-append_inv :
    (c : ℕ) (s front back : List ℕ) → rsplit_once c s ≡ some (front, back) → s ≡ front ++ (c ∷ back)
unfolding rsplit_once
rsplit_once-append_inv c [] front back h = ground (arith, h)
rsplit_once-append_inv c (b ∷ bytes) front back h =
    split_behind_inv c b bytes front back (rsplit_once c bytes)
      (λ f k e. rsplit_once-append_inv c bytes f k e) h
