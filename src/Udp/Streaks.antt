-- ===== src/Udp/Streaks.antt =====
-- What `read_loop` of crates/poholos-cli/src/transport/udp.rs hands on.
use poholos.Prelude.{
  All, Bool-cases, List, Option, [], ap, append-nil, append_assoc, arith, false, if◌then◌else◌, inl,
  inr, leb, leb-eq-false, length, ltb, ltb→lt, lt→ltb, none, refl, replicate, some, suc, sym, true,
  zero, ℕ, ◌++◌, ◌+◌, ◌-◌, ◌<◌, ◌^◌, ◌∙◌, ◌∷◌, ◌≡◌,
}
use poholos.Wire.{Frame}
use poholos.Wire.Frames.{copy_from_lem}
use poholos.Wire.Layout.{frame_of}
use poholos.Packet.{max_ext_frame_len}
use poholos.Udp.{
  Reader, Received, datagram, failed, max_consecutive_recv_errors, on_copied, on_error, on_received,
  read_loop,
}

-- The frames of the datagrams that fit.
unfoldable pub plausible : List Received → List Frame
plausible [] = []
plausible (failed ∷ xs) = plausible xs
plausible (datagram bytes taken ∷ xs) =
    let more = plausible xs in
    if ltb max_ext_frame_len (length bytes) then more else frame_of max_ext_frame_len bytes ∷ more

-- The errors in a row at the end, after `n` of them, unless there are too many in a row before.
unfoldable pub streak : ℕ → List Received → Option ℕ
streak n [] = some n
streak n (failed ∷ xs) =
    let more = streak (n + 1) xs in if ltb (n + 1) max_consecutive_recv_errors then more else none
streak n (datagram bytes taken ∷ xs) = streak 0 xs

-- The transport is there to take every frame.
unfoldable pub IsTaken : Received → Type 0
IsTaken failed = Unit {0}
IsTaken (datagram bytes taken) = taken ≡ true

unfoldable pub after : Reader → ℕ → List Received → Reader
after r n xs = record { consecutive_errors = n; sent = r.sent ++ plausible xs }

counted : (r : Reader) → r.consecutive_errors < 64 → leb (2 ^ 32) (r.consecutive_errors + 1) ≡ false
counted r few = leb-eq-false (2 ^ 32) (r.consecutive_errors + 1) (omega (arith, few))

streak-none : (n : ℕ) → none ≡ some n → ⊥
streak-none n e = ground (arith, e)

goes_on :
    (r : Reader) (xs ys : List Received) (n : ℕ)
    → r.consecutive_errors < max_consecutive_recv_errors
    → All IsTaken xs
    → streak r.consecutive_errors xs ≡ some n
    → (read_loop r (xs ++ ys) ≡ read_loop (after r n xs) ys) × (n < max_consecutive_recv_errors)
unfolding read_loop on_received on_error on_copied plausible streak after IsTaken
goes_on r [] ys n few hs e =
    let same : r.consecutive_errors ≡ n = ground (arith, e) in
    (rw (← same, append-nil r.sent) refl, rw (← same) few)
goes_on r (failed ∷ xs) ys n few (h, hs) e =
    elim (Bool-cases (ltb (r.consecutive_errors + 1) max_consecutive_recv_errors)) [
      | inl more ↦
          let rest =
            goes_on (record r { consecutive_errors = r.consecutive_errors + 1 }) xs ys n
              (ltb→lt (r.consecutive_errors + 1) 64 more) hs
              (sym (ap (λ b. if b then streak (r.consecutive_errors + 1) xs else none) more) ∙ e) in
          (rw (counted r few, more) rest.0, rest.1)
      | inr last ↦ absurd (
          streak-none n
            (sym (ap (λ b. if b then streak (r.consecutive_errors + 1) xs else none) last) ∙ e))
    ]
goes_on r (datagram bytes taken ∷ xs) ys n few (h, hs) e =
    elim (Bool-cases (ltb max_ext_frame_len (length bytes))) [
      | inl big ↦
          let rest = goes_on (record r { consecutive_errors = 0 }) xs ys n (omega arith) hs e in
          (rw (copy_from_lem max_ext_frame_len bytes (omega arith), big) rest.0, rest.1)
      | inr fits ↦
          let f : Frame = frame_of max_ext_frame_len bytes in
          let rest =
            goes_on (record { consecutive_errors = 0; sent = r.sent ++ (f ∷ []) }) xs ys n
              (omega arith) hs e in
          (
            rw (copy_from_lem max_ext_frame_len bytes (omega arith), fits, h)
                (rest.0
                  ∙ ap (λ out. read_loop (record { consecutive_errors = n; sent = out }) ys)
                      (append_assoc r.sent (f ∷ []) (plausible xs))),
            rest.1,
          )
    ]

-- Errors to the limit end the loop, whatever would come.
gives_up :
    (k : ℕ) (r : Reader) (ys : List Received)
    → r.consecutive_errors + suc k ≡ max_consecutive_recv_errors
    → read_loop r (replicate (suc k) failed ++ ys)
      ≡ some (record r { consecutive_errors = 64 }, false)
unfolding read_loop on_received on_error
gives_up zero r ys e =
    let last : r.consecutive_errors + 1 ≡ 64 = omega (arith, e) in
    rw (counted r (omega (arith, e)), last) refl
gives_up (suc k) r ys e =
    let more : ltb (r.consecutive_errors + 1) 64 ≡ true =
      lt→ltb (r.consecutive_errors + 1) 64 (omega (arith, e)) in
    rw (counted r (omega (arith, e)), more)
      (gives_up k (record r { consecutive_errors = r.consecutive_errors + 1 }) ys
        (omega (arith, e)))

-- While the transport takes every frame and fewer than 64 errors come in a row, `read_loop` goes
-- on and sends the frames of all datagrams of at most 211 bytes in order, and no others; it then
-- holds the number of errors at the end, `n`. After `64 - n` errors more it returns with these
-- frames, whatever would come. It does not panic.
pub read_loop_lem :
    (r : Reader) (xs ys : List Received) (n : ℕ)
    → r.consecutive_errors < max_consecutive_recv_errors
    → All IsTaken xs
    → streak r.consecutive_errors xs ≡ some n
    → (read_loop r xs ≡ some (after r n xs, true))
      × (read_loop r (xs ++ (replicate (max_consecutive_recv_errors - n) failed ++ ys))
          ≡ some
              (record (after r n xs) { consecutive_errors = max_consecutive_recv_errors }, false))
unfolding after
read_loop_lem r xs ys n few hs e =
    let alone = goes_on r xs [] n few hs e in
    let left : max_consecutive_recv_errors - n ≡ suc (63 - n) = omega (arith, alone.1) in
    let last = goes_on r xs (replicate (64 - n) failed ++ ys) n few hs e in
    (
      ap (read_loop r) (sym (append-nil xs)) ∙ alone.0 ∙ unfold read_loop in refl,
      last.0
          ∙ ap (λ k. read_loop (after r n xs) (replicate k failed ++ ys)) left
          ∙ gives_up (63 - n) (after r n xs) ys (omega (arith, alone.1)),
    )
