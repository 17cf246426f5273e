-- ===== src/Cli/Lines.antt =====
-- What `parse_outgoing` of crates/poholos-cli/src/app.rs makes of a line.
use poholos.Prelude.{
  All, All-append_back, Bool-cases, List, Option, Option-cases, Outcome, [], ap, arith, err, false,
  inl, inr, length, ltb, ltb-false→le, ltb→lt, none, ok, panic, refl, some, subst, true, ℕ, ◌%◌,
  ◌++◌, ◌+◌, ◌<◌, ◌^◌, ◌∙◌, ◌∷◌, ◌≡◌, ◌≢◌, ◌≤◌, ◌⊎◌,
}
use poholos.Prelude.Words.{IsU16, IsU32}
use poholos.Text.{
  All-trim_end, All-trim_start, IsChar, is_nil, split_once, split_once-append_inv, strip_prefix,
  trim, trim_start, utf8, utf8-IsByte,
}
use poholos.Fnv.{}
use poholos.Text.Split.{split_once_absent, split_once_front}
use poholos.Packet.{Packet, WireId, as_slice, hearsay, telegram}
use poholos.Packet.Valid.{
  IsPacket, as_slice-payload_of, constructed_fits, hearsay_with_lem, packet_of-IsPacket,
  telegram_with_lem,
}
use poholos.NodeId.{of_name, of_name-IsU32}
use poholos.Cli.{
  LineError, advance, at_sign, hearsay_line, hearsay_too_long, map_err, packet_of_line,
  parse_outgoing, refused, space, syntax, telegram_line, telegram_too_long,
}

-- A line for everyone: it does not begin with `@`.
abbrev pub IsPlain : List ℕ → Type 0
IsPlain line = (rest : List ℕ) → line ≢ 64 ∷ rest

-- A line `@name message`: the name ends at the first space.
abbrev pub Addresses : List ℕ → List ℕ → List ℕ → Type 0
Addresses line name message = (line ≡ 64 ∷ (name ++ (32 ∷ message))) × All (λ x. x ≢ 32) name

-- The payload that a line asks for, to everyone or to one node.
unfoldable pub Carries : List ℕ → Option WireId → List ℕ → Type 0
Carries line none bytes = IsPlain line × (bytes ≡ utf8 line)
Carries line (some dest) bytes =
    (name : List ℕ) × (message : List ℕ) × Addresses line name message
    × (trim message ≢ [])
    × (dest ≡ of_name (utf8 name))
    × (bytes ≡ utf8 (trim message))

-- A line that begins with `@` and has no space, or nothing but white space behind the first one.
abbrev pub IsUnfinished : List ℕ → Type 0
IsUnfinished line =
    ((rest : List ℕ) × (line ≡ 64 ∷ rest) × All (λ x. x ≢ 32) rest)
    ⊎ ((name : List ℕ) × (message : List ℕ) × Addresses line name message × (trim message ≡ []))

-- The packet and the next sequence number, or the reason for a refusal.
unfoldable pub Parses : ℕ → WireId → List ℕ → ℕ × Outcome LineError Packet → Type 0
Parses seq src line (next, ok p) =
    IsPacket 211 p
    × (p.seq ≡ seq)
    × (p.src ≡ src)
    × (p.ttl ≡ 16)
    × (next ≡ (seq + 1) % 2 ^ 16)
    × Carries line p.dest (as_slice p.payload)
Parses seq src line (next, err syntax) = (next ≡ seq) × IsUnfinished line
Parses seq src line (next, err (telegram_too_long n)) =
    (next ≡ seq)
    × (200 < n)
    × (name : List ℕ) × (message : List ℕ) × Addresses line name message
    × (n ≡ length (utf8 (trim message)))
Parses seq src line (next, err (hearsay_too_long n)) =
    (next ≡ seq) × (204 < n) × IsPlain line × (n ≡ length (utf8 line))
Parses seq src line (next, err (refused e)) = ⊥
Parses seq src line (next, panic) = ⊥

is_nil_cases : (xs : List ℕ) → ((is_nil xs ≡ true) × (xs ≡ [])) ⊎ ((is_nil xs ≡ false) × (xs ≢ []))
is_nil_cases [] = inl (refl, refl)
is_nil_cases (x ∷ xs) = inr (refl, λ e. ground (arith, e))

hearsay_line-Parses :
    (seq : ℕ) (src : WireId) (line : List ℕ)
    → IsU16 seq
    → IsU32 src
    → All IsChar line
    → IsPlain line
    → Parses seq src line (advance seq (hearsay_line seq src line))
unfolding hearsay_line hearsay map_err advance Parses Carries
hearsay_line-Parses seq src line hq hs hl plain = elim (Bool-cases (ltb 204 (length (utf8 line)))) [
  | inl big ↦ rw big (refl, ltb→lt 204 (length (utf8 line)) big, plain, refl)
  | inr fits ↦
      let room : 7 + length (utf8 line) ≤ 211 =
        omega (arith, ltb-false→le 204 (length (utf8 line)) fits) in
      let same =
        hearsay_with_lem 211 src seq (utf8 line) 16 (omega arith, omega arith)
        ∙ constructed_fits src none seq (utf8 line) room in
      rw (fits, same)
        (
          packet_of-IsPacket 211 src none seq (utf8 line) 16 hs tt hq (utf8-IsByte line hl)
              (omega arith, omega arith) room,
          refl,
          refl,
          refl,
          refl,
          (plain, as_slice-payload_of 211 (utf8 line)),
        )
]

telegram_line-Parses :
    (seq : ℕ) (src : WireId) (line name rest : List ℕ)
    → IsU16 seq
    → IsU32 src
    → All IsChar rest
    → Addresses line name rest
    → Parses seq src line (advance seq (telegram_line seq src name rest))
unfolding telegram_line telegram map_err advance Parses Carries
telegram_line-Parses seq src line name rest hq hs hr split = elim (is_nil_cases (trim rest)) [
  | inl (empty, gone) ↦ rw empty (refl, inr (name, rest, split, gone))
  | inr (full, some_left) ↦ elim (Bool-cases (ltb 200 (length (utf8 (trim rest))))) [
    | inl big ↦
        rw (full, big) (refl, ltb→lt 200 (length (utf8 (trim rest))) big, name, rest, split, refl)
    | inr fits ↦
        let dest : WireId = of_name (utf8 name) in
        let bytes : List ℕ = utf8 (trim rest) in
        let room : 11 + length bytes ≤ 211 = omega (arith, ltb-false→le 200 (length bytes) fits) in
        let chars : All IsChar (trim rest) =
          All-trim_end IsChar (trim_start rest) (All-trim_start IsChar rest hr) in
        let same =
          telegram_with_lem 211 src dest seq bytes 16 (omega arith, omega arith)
          ∙ constructed_fits src (some dest) seq bytes room in
        rw (full, fits, same)
          (
            packet_of-IsPacket 211 src (some dest) seq bytes 16 hs (of_name-IsU32 (utf8 name)) hq
                (utf8-IsByte (trim rest) chars) (omega arith, omega arith) room,
            refl,
            refl,
            refl,
            refl,
            (name, rest, split, some_left, refl, as_slice-payload_of 211 bytes),
          )
  ]
]

strip_prefix_inv : (c : ℕ) (text rest : List ℕ) → strip_prefix c text ≡ some rest → text ≡ c ∷ rest
unfolding strip_prefix
strip_prefix_inv c [] rest h = ground (arith, h)
strip_prefix_inv c (x ∷ text) rest h = ground (arith, h)

strip_prefix_absent : (c : ℕ) (text rest : List ℕ) → strip_prefix c text ≡ none → text ≢ c ∷ rest
unfolding strip_prefix
strip_prefix_absent c [] rest h = λ e. ground (arith, e)
strip_prefix_absent c (x ∷ text) rest h = λ e. ground (arith, h, e)

packet_of_line-Parses :
    (seq : ℕ) (src : WireId) (line : List ℕ)
    → IsU16 seq
    → IsU32 src
    → All IsChar line
    → Parses seq src line (advance seq (packet_of_line seq src line))
unfolding packet_of_line Parses
packet_of_line-Parses seq src line hq hs hl = elim (Option-cases (strip_prefix at_sign line)) [
  | inl plain ↦
      rw (packet_of_line, plain)
        (hearsay_line-Parses seq src line hq hs hl
          (λ rest. strip_prefix_absent at_sign line rest plain))
  | inr (rest, marked) ↦
      let whole : line ≡ at_sign ∷ rest = strip_prefix_inv at_sign line rest marked in
      let chars : All IsChar rest = (subst (All IsChar) whole hl).1 in
      elim (Option-cases (split_once space rest)) [
        | inl bare ↦
            rw (packet_of_line, marked, bare)
              (unfold advance Parses in
                (refl, inl (rest, whole, split_once_absent space rest bare)))
        | inr ((name, message), split) ↦
            let parts : rest ≡ name ++ (space ∷ message) =
              split_once-append_inv space rest name message split in
            rw (packet_of_line, marked, split)
              (telegram_line-Parses seq src line name message hq hs
                (All-append_back IsChar name (space ∷ message) (subst (All IsChar) parts chars)).1
                (whole ∙ ap (◌∷◌ at_sign) parts, split_once_front space rest name message split))
      ]
]

-- On any characters `parse_outgoing` has no panic. It returns a well-formed packet with the
-- sequence number, the source and 16 hops, and counts it: hearsay of the whole line, which does
-- not begin with `@`; or, for `@`, a name that ends at the first space, and a message that is not
-- empty without its outer spaces, a telegram of this message to the name. Or it keeps the sequence
-- number and refuses the line: for its form, if it begins with `@` and has no space, or only white
-- space behind the first; or for its length, which it tells, if the message has more than 200
-- bytes, or the line without `@` more than 204. It never refuses it for an error of the packet.
pub parse_outgoing-Parses :
    (seq : ℕ) (src : WireId) (line : List ℕ)
    → IsU16 seq
    → IsU32 src
    → All IsChar line
    → Parses seq src line (parse_outgoing seq src line)
unfolding parse_outgoing
parse_outgoing-Parses seq src line hq hs hl = packet_of_line-Parses seq src line hq hs hl
