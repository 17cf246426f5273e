-- ===== src/Rotation/Queue.antt =====
-- `RelayRing` of crates/poholos/src/rotation.rs holds a queue of at most eight frames.
use poholos.Prelude.{
  ==_iff, Bool-cases, List, [], ap, ap₂, arith, drop, false, get_elem?, get_or, get_or-set_ne,
  get_or-set_self, inl, inr, length, length-append, length-set, lt→ltb, refl, set, some, suc, sym,
  zero, ℕ, ◌%◌, ◌++◌, ◌+◌, ◌-◌, ◌<◌, ◌==◌, ◌∙◌, ◌∷◌, ◌≡◌, ◌≢◌, ◌≤◌,
}
use poholos.Rotation.Schedule.{shed}
use poholos.Wire.{Frame, empty_frame}
use poholos.Rotation.{RelayRing, pop_front, push_back, put}

pub record IsQueue (ring : RelayRing) : Type 0 where
  pub size : length ring.slots ≡ 8
  pub head_in : ring.head < 8
  pub len_in : ring.len ≤ 8

-- The `n` frames from slot `at` on.
unfoldable pub frames_from : List Frame → ℕ → ℕ → List Frame
frames_from slots at zero = []
frames_from slots at (suc n) = get_or slots at (empty_frame 0) ∷ frames_from slots ((at + 1) % 8) n

-- The pending relays, oldest first.
abbrev pub pending : RelayRing → List Frame
pending ring = frames_from ring.slots ring.head ring.len

pub length-frames_from : (slots : List Frame) (at n : ℕ) → length (frames_from slots at n) ≡ n
unfolding frames_from
length-frames_from slots at zero = refl
length-frames_from slots at (suc n) = ap suc (length-frames_from slots ((at + 1) % 8) n)

get_elem?-get_or :
    (slots : List Frame) (i : ℕ)
    → i < length slots
    → get_elem? slots i ≡ some (get_or slots i (empty_frame 0))
get_elem?-get_or [] i h = absurd (omega arith)
get_elem?-get_or (x ∷ xs) zero h = refl
get_elem?-get_or (x ∷ xs) (suc i) h = get_elem?-get_or xs i (omega arith)

-- A frame written behind `n` others.
frames_from-set :
    (slots : List Frame) (at n : ℕ) (frame : Frame)
    → length slots ≡ 8
    → at < 8
    → n < 8
    → frames_from (set slots ((at + n) % 8) frame) at (suc n)
      ≡ frames_from slots at n ++ (frame ∷ [])
unfolding frames_from
frames_from-set slots at zero frame hs ha hn =
    let here : (at + zero) % 8 ≡ at = omega arith in
    ap (λ i. get_or (set slots i frame) at (empty_frame 0) ∷ []) here
    ∙ (ap (λ x. x ∷ []) (get_or-set_self slots at frame (empty_frame 0) (omega (arith, hs))))
frames_from-set slots at (suc n) frame hs ha hn =
    let next : (at + suc n) % 8 ≡ ((at + 1) % 8 + n) % 8 = omega arith in
    let away : (at + suc n) % 8 ≢ at = λ e. omega (arith, e) in
    ap₂ (λ x xs. x ∷ xs) (get_or-set_ne slots ((at + suc n) % 8) at frame (empty_frame 0) away)
      (ap (λ i. frames_from (set slots i frame) ((at + 1) % 8) (suc n)) next
        ∙ frames_from-set slots ((at + 1) % 8) n frame hs (omega arith) (omega arith))

put_lem :
    (ring : RelayRing) (frame : Frame)
    → IsQueue ring
    → ring.len < 8
    → (after : RelayRing) × (put ring frame ≡ some after)
      × IsQueue after
      × (pending after ≡ pending ring ++ (frame ∷ []))
unfolding put
put_lem ring frame v h =
    let at : ℕ = (ring.head + ring.len) % 8 in
    let more : ring.len + 1 ≡ suc ring.len = omega arith in
    (
      record ring { slots = set ring.slots at frame; len = ring.len + 1 },
      rw (lt→ltb at (length ring.slots) (omega (arith, v.size))) refl,
      record {
        size = length-set ring.slots at frame ∙ v.size;
        head_in = v.head_in;
        len_in = omega arith;
      },
      ap (frames_from (set ring.slots at frame) ring.head) more
          ∙ frames_from-set ring.slots ring.head ring.len frame v.size v.head_in h,
    )

shed_full :
    (xs : List Frame) (frame : Frame)
    → length xs ≡ 8
    → shed (xs ++ (frame ∷ [])) ≡ drop 1 xs ++ (frame ∷ [])
unfolding shed
shed_full [] frame h = absurd (omega (arith, h))
shed_full (x ∷ xs) frame h =
    let one : suc (length (xs ++ (frame ∷ []))) - 8 ≡ 1 =
      omega (arith, length-append xs (frame ∷ []), h) in
    rw one refl

shed_room :
    (xs : List Frame) (frame : Frame)
    → length xs < 8
    → shed (xs ++ (frame ∷ [])) ≡ xs ++ (frame ∷ [])
unfolding shed
shed_room xs frame h =
    let none_over : length (xs ++ (frame ∷ [])) - 8 ≡ 0 =
      omega (arith, length-append xs (frame ∷ []), h) in
    rw none_over refl

drop-frames_from :
    (slots : List Frame) (at n : ℕ)
    → 0 < n
    → frames_from slots ((at + 1) % 8) (n - 1) ≡ drop 1 (frames_from slots at n)
unfolding frames_from
drop-frames_from slots at zero h = absurd (omega arith)
drop-frames_from slots at (suc n) h =
    let same : suc n - 1 ≡ n = omega arith in ap (frames_from slots ((at + 1) % 8)) same

-- `push_back` on a well-formed ring does not panic, leaves a well-formed ring, and queues the
-- frame behind the pending ones, of which only the eight newest are kept.
pub push_back_lem :
    (ring : RelayRing) (frame : Frame)
    → IsQueue ring
    → (after : RelayRing) × (push_back ring frame ≡ some after)
      × IsQueue after
      × (pending after ≡ shed (pending ring ++ (frame ∷ [])))
unfolding push_back
push_back_lem ring frame v = elim (Bool-cases (ring.len == 8)) [
  | inl full ↦
      let len8 : ring.len ≡ 8 = (==_iff ring.len 8).0 full in
      let shorter : RelayRing = record ring { head = (ring.head + 1) % 8; len = ring.len - 1 } in
      let w : IsQueue shorter = record {
        size = v.size;
        head_in = omega arith;
        len_in = omega (arith, v.len_in);
      } in
      let (after, e, va, k) = put_lem shorter frame w (omega arith) in
      (
        after,
        rw full e,
        va,
        k
            ∙ ap (λ xs. xs ++ (frame ∷ []))
                (drop-frames_from ring.slots ring.head ring.len (omega arith))
            ∙ sym (
                shed_full (pending ring) frame
                  (length-frames_from ring.slots ring.head ring.len ∙ len8)),
      )
  | inr room ↦
      let less : ring.len < 8 = ground (arith, v.len_in) in
      let (after, e, va, k) = put_lem ring frame v less in
      (
        after,
        rw room e,
        va,
        k
            ∙ sym (
                shed_room (pending ring) frame
                  (rw (length-frames_from ring.slots ring.head ring.len) less)),
      )
]

uncons-frames_from :
    (slots : List Frame) (at n : ℕ)
    → 0 < n
    → frames_from slots at n
      ≡ get_or slots at (empty_frame 0) ∷ frames_from slots ((at + 1) % 8) (n - 1)
unfolding frames_from
uncons-frames_from slots at zero h = absurd (omega arith)
uncons-frames_from slots at (suc n) h =
    let same : n ≡ suc n - 1 = omega arith in
    ap (λ k. get_or slots at (empty_frame 0) ∷ frames_from slots ((at + 1) % 8) k) same

-- `pop_front` on a well-formed ring that is not empty does not panic, returns the oldest pending
-- frame, and leaves a well-formed ring with the others.
pub pop_front_lem :
    (ring : RelayRing)
    → IsQueue ring
    → 0 < ring.len
    → (after : RelayRing) × (x : Frame) × (pop_front ring ≡ some (after, some x))
      × IsQueue after
      × (pending ring ≡ x ∷ pending after)
unfolding pop_front
pop_front_lem ring v h =
    let some_left : (ring.len == 0) ≡ false = ground arith in
    let x = get_or ring.slots ring.head (empty_frame 0) in
    let read : get_elem? ring.slots ring.head ≡ some x =
      get_elem?-get_or ring.slots ring.head (omega (arith, v.head_in, v.size)) in
    (
      record ring { head = (ring.head + 1) % 8; len = ring.len - 1 },
      x,
      rw (some_left, read) refl,
      record { size = v.size; head_in = omega arith; len_in = omega (arith, v.len_in) },
      uncons-frames_from ring.slots ring.head ring.len h,
    )
