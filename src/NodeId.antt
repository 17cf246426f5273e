-- ===== src/NodeId.antt =====
-- crates/poholos/src/node_id.rs: names of nodes and the ids derived from them. A string is the list
-- of its bytes.
pub mod Split
pub mod Names
use poholos.Prelude.Words.{IsU32}
use poholos.Prelude.{
  Bool, List, Option, Outcome, [], arith, bit_and, err, false, if◌then◌else◌, leb, length, ltb,
  none, not, ok, some, true, ℕ, ◌%◌, ◌&&◌, ◌++◌, ◌+◌, ◌/◌, ◌==◌, ◌>>=◌, ◌>>◌, ◌^◌, ◌||◌, ◌∷◌,
}
use poholos.Fnv.{fnv64}
use poholos.Packet.{WireId}

abbrev pub max_name_len : ℕ
max_name_len = 16

-- The byte of `-`.
abbrev pub dash : ℕ
dash = 45

pub data NodeIdError : Type 0 where
  invalid : NodeIdError

pub record NodeId : Type 0 where
  pub full : List ℕ

-- `WireId::of_name`: the hash cast to a u32.
unfoldable pub of_name : List ℕ → WireId
of_name name = fnv64 name % 2 ^ 32

pub of_name-IsU32 : (name : List ℕ) → IsU32 (of_name name)
unfolding of_name
of_name-IsU32 name = omega arith

abbrev pub is_ascii_lowercase : ℕ → Bool
is_ascii_lowercase b = leb 97 b && leb b 122

abbrev pub is_ascii_digit : ℕ → Bool
is_ascii_digit b = leb 48 b && leb b 57

unfoldable pub all : (ℕ → Bool) → List ℕ → Bool
all p [] = true
all p (b ∷ bytes) = p b && all p bytes

unfoldable pub starts_with : ℕ → List ℕ → Bool
starts_with c [] = false
starts_with c (b ∷ bytes) = b == c

unfoldable pub ends_with : ℕ → List ℕ → Bool
ends_with c [] = false
ends_with c (b ∷ []) = b == c
ends_with c (b ∷ x ∷ bytes) = ends_with c (x ∷ bytes)

abbrev pub is_name_byte : ℕ → Bool
is_name_byte b = is_ascii_lowercase b || is_ascii_digit b || (b == dash)

abbrev pub is_hex_byte : ℕ → Bool
is_hex_byte b = is_ascii_digit b || (leb 97 b && leb b 102)

unfoldable pub validate_name : List ℕ → Outcome NodeIdError (Unit {0})
validate_name name =
    if not (length name == 0)
      && leb (length name) max_name_len
      && all is_name_byte name
      && not (starts_with dash name)
      && not (ends_with dash name)
    then ok tt
    else err invalid

unfoldable pub hex_digit : ℕ → ℕ
hex_digit n = if ltb n 10 then 48 + n else 87 + n

-- `{suffix:04x}` of a suffix below `2 ^ 16`.
unfoldable pub hex4 : ℕ → List ℕ
hex4 x =
    hex_digit (x / 4096 % 16)
    ∷ hex_digit (x / 256 % 16)
    ∷ hex_digit (x / 16 % 16)
    ∷ hex_digit (x % 16)
    ∷ []

unfoldable pub new : List ℕ → ℕ → Outcome NodeIdError NodeId
new name entropy = do
  validate_name name
  let suffix = bit_and entropy 0xFFFF
  ok (record { full = name ++ (dash ∷ hex4 suffix) })

-- The split of a string with one more byte in front.
unfoldable pub split_behind : ℕ → ℕ → List ℕ → Option (List ℕ × List ℕ) → Option (List ℕ × List ℕ)
split_behind c b bytes (some (front, back)) = some (b ∷ front, back)
split_behind c b bytes none = if b == c then some ([], bytes) else none

-- `str::rsplit_once`: what stands before and behind the last `c`.
unfoldable pub rsplit_once : ℕ → List ℕ → Option (List ℕ × List ℕ)
rsplit_once c [] = none
rsplit_once c (b ∷ bytes) = split_behind c b bytes (rsplit_once c bytes)

-- `parse` once the string is split.
unfoldable pub parse_parts : List ℕ → List ℕ → List ℕ → Outcome NodeIdError NodeId
parse_parts s name suffix = do
  if not (length suffix == 4) || not (all is_hex_byte suffix) then err invalid else ok tt
  validate_name name
  ok (record { full = s })

unfoldable pub parse : List ℕ → Outcome NodeIdError NodeId
parse s = elim (rsplit_once dash s) [
  | none ↦ err invalid
  | some (name, suffix) ↦ parse_parts s name suffix
]

unfoldable pub wire_id : NodeId → WireId
wire_id id = of_name id.full
