-- ===== src/NodeId/Names.antt =====
-- Which names `NodeId` of crates/poholos/src/node_id.rs accepts, and how `new` and `parse` fit.
use poholos.Prelude.{
  All, List, Option, Outcome, [], ap, arith, bit_and, err, false, if◌then◌else◌, length, none, not,
  ok, panic, refl, some, sym, true, ℕ, ◌%◌, ◌++◌, ◌/◌, ◌<◌, ◌==◌, ◌>>=◌, ◌||◌, ◌↔◌, ◌∙◌, ◌∷◌, ◌≡◌,
  ◌≢◌, ◌≤◌, ◌⊎◌,
}
use poholos.Prelude.Words.{}
use poholos.Packet.{}
use poholos.NodeId.{
  NodeId, NodeIdError, all, dash, ends_with, hex4, hex_digit, invalid, is_hex_byte, is_name_byte,
  new, parse, parse_parts, rsplit_once, starts_with, validate_name,
}
use poholos.NodeId.Split.{rsplit_once-append, rsplit_once-append_inv, rsplit_once_absent}

-- A byte of `[a-z0-9-]`.
abbrev pub IsNameByte : ℕ → Type 0
IsNameByte b = ((97 ≤ b) × (b ≤ 122)) ⊎ (((48 ≤ b) × (b ≤ 57)) ⊎ (b ≡ 45))

all-All : (xs : List ℕ) → all is_name_byte xs ≡ true → All IsNameByte xs
unfolding all
all-All [] h = tt
all-All (x ∷ xs) h = (ground (arith, h), all-All xs (ground (arith, h)))

all-All_inv : (xs : List ℕ) → All IsNameByte xs → all is_name_byte xs ≡ true
unfolding all
all-All_inv [] h = refl
all-All_inv (x ∷ xs) (h, hs) = ground (arith, h, all-All_inv xs hs)

-- A name as its documentation has it.
pub record IsName (name : List ℕ) : Type 0 where
  pub not_empty : 1 ≤ length name
  pub short : length name ≤ 16
  pub bytes : All IsNameByte name
  pub no_dash_first : starts_with dash name ≡ false
  pub no_dash_last : ends_with dash name ≡ false

-- `validate_name` accepts a name exactly when it has 1 to 16 bytes, all of `[a-z0-9-]`, and
-- neither starts nor ends with a dash.
pub validate_name_iff : (name : List ℕ) → (validate_name name ≡ ok tt) ↔ IsName name
unfolding validate_name
validate_name_iff name = (
  λ h. record {
    not_empty = ground (arith, h);
    short = ground (arith, h);
    bytes = all-All name (ground (arith, h));
    no_dash_first = ground (arith, h);
    no_dash_last = ground (arith, h);
  },
  λ v.
      ground
        (arith, v.not_empty, v.short, all-All_inv name v.bytes, v.no_dash_first, v.no_dash_last),
)

hex_digit_lem : (n : ℕ) → n < 16 → (is_hex_byte (hex_digit n) ≡ true) × (hex_digit n ≢ 45)
unfolding hex_digit
hex_digit_lem n h = ground arith

hex4_lem :
    (x : ℕ)
    → (length (hex4 x) ≡ 4) × (all is_hex_byte (hex4 x) ≡ true) × (rsplit_once dash (hex4 x) ≡ none)
unfolding hex4 all
hex4_lem x =
    let (a0, b0) = hex_digit_lem (x / 4096 % 16) (omega arith) in
    let (a1, b1) = hex_digit_lem (x / 256 % 16) (omega arith) in
    let (a2, b2) = hex_digit_lem (x / 16 % 16) (omega arith) in
    let (a3, b3) = hex_digit_lem (x % 16) (omega arith) in
    (refl, rw (a0, a1, a2, a3) refl, rsplit_once_absent dash (hex4 x) (b0, (b1, (b2, (b3, tt)))))

checked :
    (m : Outcome NodeIdError (Unit {0})) (k : Outcome NodeIdError NodeId) (id : NodeId)
    → (m >>= λ u. k) ≡ ok id
    → (m ≡ ok tt) × (k ≡ ok id)
checked (ok u) k id h = (refl, h)
checked (err e) k id h = ground (arith, h)
checked panic k id h = ground (arith, h)

ok_injective : (x y : NodeId) → ◌≡◌ {A = Outcome NodeIdError NodeId} (ok x) (ok y) → x ≡ y
ok_injective x y h = ground (arith, h)

new_ok :
    (name : List ℕ) (entropy : ℕ) (id : NodeId)
    → new name entropy ≡ ok id
    → (validate_name name ≡ ok tt)
      × (id ≡ record { full = name ++ (dash ∷ hex4 (bit_and entropy 0xFFFF)) })
unfolding new
new_ok name entropy id h =
    let made : NodeId = record { full = name ++ (dash ∷ hex4 (bit_and entropy 0xFFFF)) } in
    let (v, e) = checked (validate_name name) (ok made) id h in (v, sym (ok_injective made id e))

-- If `new` returns an id, `parse` of its display form returns the same id.
pub parse-new :
    (name : List ℕ) (entropy : ℕ) (id : NodeId) → new name entropy ≡ ok id → parse id.full ≡ ok id
unfolding parse parse_parts
parse-new name entropy id h =
    let (v, e) = new_ok name entropy id h in
    let suffix = hex4 (bit_and entropy 0xFFFF) in
    let (four, hex, no_dash) = hex4_lem (bit_and entropy 0xFFFF) in
    let split : rsplit_once dash (name ++ (dash ∷ suffix)) ≡ some (name, suffix) =
      rsplit_once-append dash name suffix no_dash in
    rw e (rw (parse, split, four, hex, v) refl)

-- What `parse` accepts.
pub record Parsed (s : List ℕ) (id : NodeId) : Type 0 where
  pub name : List ℕ
  pub suffix : List ℕ
  pub whole : s ≡ name ++ (dash ∷ suffix)
  pub unchanged : id.full ≡ s
  pub four : length suffix ≡ 4
  pub hex : all is_hex_byte suffix ≡ true
  pub valid : validate_name name ≡ ok tt

parsed :
    (s : List ℕ) (id : NodeId) (r : Option (List ℕ × List ℕ))
    → rsplit_once dash s ≡ r
    → parse s ≡ ok id
    → Parsed s id
unfolding parse parse_parts
parsed s id none e h =
    let refused : parse s ≡ err invalid = rw (parse, e) refl in ground (arith, refused, h)
parsed s id (some (name, suffix)) e h =
    let parts : parse s ≡ parse_parts s name suffix = rw (parse, e) refl in
    let hex_test : Outcome NodeIdError (Unit {0}) =
      if not (length suffix == 4) || not (all is_hex_byte suffix) then err invalid else ok tt in
    let (test, rest) = checked hex_test _ id (sym parts ∙ h) in
    let (v, same) = checked (validate_name name) (ok (record { full = s })) id rest in
    record {
      name = name;
      suffix = suffix;
      whole = rsplit_once-append_inv dash s name suffix e;
      unchanged = ap (λ i. i.full) (sym (ok_injective (record { full = s }) id same));
      four = ground (arith, test);
      hex = ground (arith, test);
      valid = v;
    }

-- If `parse` returns an id, its display form is the string parsed, which is a name that
-- `validate_name` accepts, a dash and four bytes of `[0-9a-f]`.
pub parse-Parsed : (s : List ℕ) (id : NodeId) → parse s ≡ ok id → Parsed s id
parse-Parsed s id h = parsed s id (rsplit_once dash s) refl h
