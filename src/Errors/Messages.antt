-- ===== src/Errors/Messages.antt =====
-- The messages of crates/poholos/src/error.rs tell the errors apart, with their numbers.
use poholos.Prelude.{
  List, [], ap, append-nil, drop, get_or, if◌then◌else◌, length, refl, sym, ℕ, ◌++◌, ◌==◌, ◌∙◌, ◌≡◌,
}
use poholos.Packet.{PacketError, payload_too_long, ttl_out_of_range}
use poholos.Wire.{WireError, oversized, truncated, unsupported_version, zero_ttl}
use poholos.Errors.{
  at_most_text, decimal, exceeds_text, packet_message, payload_text, range_text, shape_text,
  too_short_text, ttl_text, version_text, wire_message, frame_text, budget_text,
}
use poholos.Errors.Numbers.{number, number-decimal}

-- A reader of the messages: by the letters in which they differ first, and the numbers in them.
abbrev pub read_length : ℕ × List ℕ → WireError
read_length (n, rest) = if get_or rest 7 0 == 105 then truncated n else oversized n

unfoldable pub read_wire : List ℕ → WireError
read_wire text =
    if get_or text 0 0 == 117
    then unsupported_version (number 0 (drop (length version_text) text)).0
    else if get_or text 6 0 == 97
    then zero_ttl
    else read_length (number 0 (drop (length frame_text) text))

abbrev pub read_limit : ℕ × List ℕ → PacketError
read_limit (n, rest) = payload_too_long n (number 0 (drop (length at_most_text) rest)).0

unfoldable pub read_packet : List ℕ → PacketError
read_packet text =
    if get_or text 0 0 == 112
    then read_limit (number 0 (drop (length payload_text) text))
    else ttl_out_of_range (number 0 (drop (length ttl_text) text)).0

number_last : (n : ℕ) → number 0 (decimal n) ≡ (n, [])
number_last n = ap (number 0) (sym (append-nil (decimal n))) ∙ number-decimal n [] tt

pub read-wire_message : (e : WireError) → read_wire (wire_message e) ≡ e
unfolding read_wire wire_message
read-wire_message (truncated n) = rw (number-decimal n too_short_text refl) refl
read-wire_message (oversized n) =
    rw (number-decimal n (exceeds_text ++ (decimal 22 ++ budget_text)) refl) refl
read-wire_message (unsupported_version v) = rw (number_last v) refl
read-wire_message zero_ttl = refl

pub read-packet_message : (e : PacketError) → read_packet (packet_message e) ≡ e
unfolding read_packet packet_message
read-packet_message (payload_too_long n limit) =
    rw
      (
        number-decimal n (at_most_text ++ (decimal limit ++ shape_text)) refl,
        number-decimal limit shape_text refl,
      )
      refl
read-packet_message (ttl_out_of_range ttl) =
    rw (number-decimal ttl (range_text ++ decimal 31) refl) refl
