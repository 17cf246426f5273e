-- ===== src/Errors.antt =====
-- crates/poholos/src/error.rs: the predicates of `WireError`, and the messages of both errors. A message
-- is the list of its bytes; the backtrace behind it is left out.
pub mod Told
pub mod Numbers
pub mod Messages
use poholos.Prelude.{
  Bool, List, [], false, if◌then◌else◌, ltb, max, suc, true, zero, ℕ, ◌%◌, ◌++◌, ◌+◌, ◌/◌, ◌∷◌,
}
use poholos.Packet.{PacketError, payload_too_long, ttl_out_of_range, max_ttl, max_frame_len}
use poholos.Wire.{WireError, oversized, truncated, unsupported_version, zero_ttl}

unfoldable pub is_truncated : WireError → Bool
is_truncated (truncated len) = true
is_truncated (oversized len) = false
is_truncated (unsupported_version version) = false
is_truncated zero_ttl = false

unfoldable pub is_oversized : WireError → Bool
is_oversized (truncated len) = false
is_oversized (oversized len) = true
is_oversized (unsupported_version version) = false
is_oversized zero_ttl = false

unfoldable pub is_unsupported_version : WireError → Bool
is_unsupported_version (truncated len) = false
is_unsupported_version (oversized len) = false
is_unsupported_version (unsupported_version version) = true
is_unsupported_version zero_ttl = false

unfoldable pub is_zero_ttl : WireError → Bool
is_zero_ttl (truncated len) = false
is_zero_ttl (oversized len) = false
is_zero_ttl (unsupported_version version) = false
is_zero_ttl zero_ttl = true

-- `{n}` of a number, with fuel for its digits.
unfoldable pub digits : ℕ → ℕ → List ℕ
digits zero n = []
digits (suc fuel) n =
    let front = digits fuel (n / 10) in
    if ltb n 10 then (48 + n) ∷ [] else front ++ ((48 + n % 10) ∷ [])

unfoldable pub decimal : ℕ → List ℕ
decimal n = digits (suc n) n

-- `bytes is too short for its header`.
abbrev pub too_short_text : List ℕ
too_short_text =
    32 ∷ 98 ∷ 121 ∷ 116 ∷ 101 ∷ 115 ∷ 32 ∷ 105 ∷ 115 ∷ 32 ∷ 116 ∷ 111 ∷ 111 ∷ 32 ∷ 115 ∷ 104 ∷ 111
    ∷ 114 ∷ 116 ∷ 32 ∷ 102 ∷ 111 ∷ 114 ∷ 32 ∷ 105 ∷ 116 ∷ 115 ∷ 32 ∷ 104 ∷ 101 ∷ 97 ∷ 100 ∷ 101
    ∷ 114 ∷ []

-- `bytes exceeds the`.
abbrev pub exceeds_text : List ℕ
exceeds_text =
    32 ∷ 98 ∷ 121 ∷ 116 ∷ 101 ∷ 115 ∷ 32 ∷ 101 ∷ 120 ∷ 99 ∷ 101 ∷ 101 ∷ 100 ∷ 115 ∷ 32 ∷ 116 ∷ 104
    ∷ 101 ∷ 32 ∷ []

-- `-byte on-air budget`.
abbrev pub budget_text : List ℕ
budget_text =
    45 ∷ 98 ∷ 121 ∷ 116 ∷ 101 ∷ 32 ∷ 111 ∷ 110 ∷ 45 ∷ 97 ∷ 105 ∷ 114 ∷ 32 ∷ 98 ∷ 117 ∷ 100 ∷ 103
    ∷ 101 ∷ 116 ∷ []

-- `frame of`.
abbrev pub frame_text : List ℕ
frame_text = 102 ∷ 114 ∷ 97 ∷ 109 ∷ 101 ∷ 32 ∷ 111 ∷ 102 ∷ 32 ∷ []

-- `unsupported wire version`.
abbrev pub version_text : List ℕ
version_text =
    117 ∷ 110 ∷ 115 ∷ 117 ∷ 112 ∷ 112 ∷ 111 ∷ 114 ∷ 116 ∷ 101 ∷ 100 ∷ 32 ∷ 119 ∷ 105 ∷ 114 ∷ 101
    ∷ 32 ∷ 118 ∷ 101 ∷ 114 ∷ 115 ∷ 105 ∷ 111 ∷ 110 ∷ 32 ∷ []

-- `frame arrived with ttl 0, which must never be on the wire`.
abbrev pub zero_text : List ℕ
zero_text =
    102 ∷ 114 ∷ 97 ∷ 109 ∷ 101 ∷ 32 ∷ 97 ∷ 114 ∷ 114 ∷ 105 ∷ 118 ∷ 101 ∷ 100 ∷ 32 ∷ 119 ∷ 105 ∷ 116
    ∷ 104 ∷ 32 ∷ 116 ∷ 116 ∷ 108 ∷ 32 ∷ 48 ∷ 44 ∷ 32 ∷ 119 ∷ 104 ∷ 105 ∷ 99 ∷ 104 ∷ 32 ∷ 109 ∷ 117
    ∷ 115 ∷ 116 ∷ 32 ∷ 110 ∷ 101 ∷ 118 ∷ 101 ∷ 114 ∷ 32 ∷ 98 ∷ 101 ∷ 32 ∷ 111 ∷ 110 ∷ 32 ∷ 116 ∷ 104
    ∷ 101 ∷ 32 ∷ 119 ∷ 105 ∷ 114 ∷ 101 ∷ []

-- `payload is`.
abbrev pub payload_text : List ℕ
payload_text = 112 ∷ 97 ∷ 121 ∷ 108 ∷ 111 ∷ 97 ∷ 100 ∷ 32 ∷ 105 ∷ 115 ∷ 32 ∷ []

-- `bytes but at most`.
abbrev pub at_most_text : List ℕ
at_most_text =
    32 ∷ 98 ∷ 121 ∷ 116 ∷ 101 ∷ 115 ∷ 32 ∷ 98 ∷ 117 ∷ 116 ∷ 32 ∷ 97 ∷ 116 ∷ 32 ∷ 109 ∷ 111 ∷ 115
    ∷ 116 ∷ 32 ∷ []

-- `bytes fit this packet shape`.
abbrev pub shape_text : List ℕ
shape_text =
    32 ∷ 98 ∷ 121 ∷ 116 ∷ 101 ∷ 115 ∷ 32 ∷ 102 ∷ 105 ∷ 116 ∷ 32 ∷ 116 ∷ 104 ∷ 105 ∷ 115 ∷ 32 ∷ 112
    ∷ 97 ∷ 99 ∷ 107 ∷ 101 ∷ 116 ∷ 32 ∷ 115 ∷ 104 ∷ 97 ∷ 112 ∷ 101 ∷ []

-- `ttl`.
abbrev pub ttl_text : List ℕ
ttl_text = 116 ∷ 116 ∷ 108 ∷ 32 ∷ []

-- `is outside the valid on-wire range 1..=`.
abbrev pub range_text : List ℕ
range_text =
    32 ∷ 105 ∷ 115 ∷ 32 ∷ 111 ∷ 117 ∷ 116 ∷ 115 ∷ 105 ∷ 100 ∷ 101 ∷ 32 ∷ 116 ∷ 104 ∷ 101 ∷ 32 ∷ 118
    ∷ 97 ∷ 108 ∷ 105 ∷ 100 ∷ 32 ∷ 111 ∷ 110 ∷ 45 ∷ 119 ∷ 105 ∷ 114 ∷ 101 ∷ 32 ∷ 114 ∷ 97 ∷ 110 ∷ 103
    ∷ 101 ∷ 32 ∷ 49 ∷ 46 ∷ 46 ∷ 61 ∷ []

unfoldable pub wire_message : WireError → List ℕ
wire_message (truncated len) = frame_text ++ (decimal len ++ too_short_text)
wire_message (oversized len) =
    frame_text ++ (decimal len ++ (exceeds_text ++ (decimal max_frame_len ++ budget_text)))
wire_message (unsupported_version version) = version_text ++ decimal version
wire_message zero_ttl = zero_text

unfoldable pub packet_message : PacketError → List ℕ
packet_message (payload_too_long len max) =
    payload_text ++ (decimal len ++ (at_most_text ++ (decimal max ++ shape_text)))
packet_message (ttl_out_of_range ttl) = ttl_text ++ (decimal ttl ++ (range_text ++ decimal max_ttl))
