-- ===== src/Serde/Visits.antt =====
-- The visitors of crates/poholos/src/packet.rs and crates/poholos/src/wire.rs read a sequence of bytes as
-- they read the byte string.
use poholos.Prelude.{
  Bool-cases, List, [], ap, append-nil, append_assoc, arith, copy_at-fill, err, false,
  if◌then◌else◌, inl, inr, leb, leb→le, length, length-append, le→leb, ltb, ltb-eq-false, map, ok,
  refl, replicate, some, suc, take-length_append, true, ℕ, ◌++◌, ◌+◌, ◌-◌, ◌<◌, ◌>>=◌, ◌∙◌, ◌∷◌,
  ◌≡◌, ◌≤◌,
}
use poholos.Packet.{payload_copy_from}
use poholos.Packet.Valid.{}
use poholos.Wire.Layout.{}
use poholos.Wire.{copy_from}
use poholos.Serde.{
  byte_string, custom_packet, custom_wire, frame_visit, invalid_length, map_err, payload_visit,
  sequence, slice_to, visit_elements,
}

-- The loop with the bytes before it in the buffer.
visit_elements_lem :
    (cap : ℕ) (front bytes : List ℕ)
    → length front ≤ cap
    → visit_elements cap (front ++ replicate (cap - length front) 0) (length front) (map some bytes)
      ≡ (if ltb cap (length front + length bytes)
          then err (invalid_length (cap + 1))
          else ok (front ++ bytes))
unfolding visit_elements slice_to
visit_elements_lem cap front [] h =
    let room : length front ≤ length (front ++ replicate (cap - length front) 0) =
      omega (arith, length-append front (replicate (cap - length front) 0)) in
    let short : ltb cap (length front + 0) ≡ false =
      ltb-eq-false cap (length front + 0) (omega arith) in
    rw
      (
        le→leb (length front) (length (front ++ replicate (cap - length front) 0)) room,
        take-length_append front (replicate (cap - length front) 0),
        short,
        append-nil,
      )
      refl
visit_elements_lem cap front (b ∷ bytes) h = elim (Bool-cases (leb cap (length front))) [
  | inl full ↦
      let filled : length front ≡ cap = ground (arith, leb→le cap (length front) full) in
      let long : ltb cap (length front + suc (length bytes)) ≡ true = ground arith in
      rw (full, long) (ap (λ n. err (invalid_length (n + 1))) filled)
  | inr more ↦
      let less : length front < cap = ground (arith, more) in
      let grown : length (front ++ (b ∷ [])) ≡ length front + 1 = length-append front (b ∷ []) in
      let left : cap - length front - length (b ∷ []) ≡ cap - length (front ++ (b ∷ [])) =
        omega (arith, grown) in
      let total : length (front ++ (b ∷ [])) + length bytes ≡ length front + suc (length bytes) =
        omega (arith, grown) in
      let filled = copy_at-fill front (b ∷ []) (cap - length front) 0 (omega arith) in
      rw
        (
          more,
          filled,
          left,
          ← grown,
          visit_elements_lem cap (front ++ (b ∷ [])) bytes (omega (arith, grown)),
          total,
          append_assoc,
        )
        refl
]

-- The loop from its start.
visit_all :
    (cap : ℕ) (bytes : List ℕ)
    → visit_elements cap (replicate cap 0) 0 (map some bytes)
      ≡ (if ltb cap (length bytes) then err (invalid_length (cap + 1)) else ok bytes)
visit_all cap bytes =
    let none_yet : cap - 0 ≡ cap = omega arith in
    let total : 0 + length bytes ≡ length bytes = omega arith in
    rw (none_yet, total) at (visit_elements_lem cap [] bytes (omega arith))

-- A sequence of bytes is read as the byte string is, unless it is longer than the capacity.
pub payload_visit-sequence :
    (cap : ℕ) (bytes : List ℕ)
    → payload_visit cap (sequence (map some bytes)) ≡ (
        if ltb cap (length bytes)
        then err (invalid_length (cap + 1))
        else payload_visit cap (byte_string bytes))
unfolding payload_visit
payload_visit-sequence cap bytes =
    ap (λ o. o >>= λ v. map_err custom_packet (payload_copy_from cap v cap)) (visit_all cap bytes)
    ∙ (elim (Bool-cases (ltb cap (length bytes))) [
      | inl long ↦ rw long refl
      | inr short ↦ rw short refl
    ])

pub frame_visit-sequence :
    (cap : ℕ) (bytes : List ℕ)
    → frame_visit cap (sequence (map some bytes)) ≡ (
        if ltb cap (length bytes)
        then err (invalid_length (cap + 1))
        else frame_visit cap (byte_string bytes))
unfolding frame_visit
frame_visit-sequence cap bytes =
    ap (λ o. o >>= λ v. map_err custom_wire (copy_from cap v)) (visit_all cap bytes)
    ∙ (elim (Bool-cases (ltb cap (length bytes))) [
      | inl long ↦ rw long refl
      | inr short ↦ rw short refl
    ])
