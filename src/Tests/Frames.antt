-- ===== src/Tests/Frames.antt =====
-- Runs of the theorems on frames and advertising data.
use poholos.Prelude.{All, List, [], arith, err, not, ok, refl, some, ℕ, ◌&&◌, ◌++◌, ◌||◌, ◌∷◌, ◌≡◌}
use poholos.Prelude.Words.{IsByte}
use poholos.Wire.{Frame, as_bytes, truncated}
use poholos.Wire.Encode.{encode}
use poholos.Wire.Decode.{decode}
use poholos.Wire.Layout.{encode_lem, frame_of, wire_bytes}
use poholos.Wire.RoundTrip.{decode-encode}
use poholos.Wire.Accept.{decode_lem, verdict}
use poholos.Wire.Read.{Fault, Reads, decode-Reads}
use poholos.Errors.{is_oversized, is_truncated, is_unsupported_version, is_zero_ttl, wire_message}
use poholos.Errors.Messages.{read_wire}
use poholos.Errors.Told.{decode_told, no_hops, too_big, too_small, unknown_version}
use poholos.Wire.Ad.Ends.{Ends, manufacturer_frame-Ends}
use poholos.Wire.Ad.{
  IsForeign, frame, frame_entry, is_ours, manufacturer_frame, manufacturer_frame_finds, structure,
  structures, walk,
}
use poholos.Tests.Data.{
  legacy-IsCap, hi, hi-IsByte, ping, ping-IsPacket, ping_bytes, ping_bytes-IsByte, ping_read,
}

decode-encode_example : (f : Frame) × (encode 22 ping ≡ some f) × (decode 22 (as_bytes f) ≡ ok ping)
decode-encode_example = decode-encode {cap = 22} {p = ping} legacy-IsCap ping-IsPacket

decode_lem_example : decode 22 ping_bytes ≡ verdict 22 ping_bytes
decode_lem_example = decode_lem 22 ping_bytes legacy-IsCap ping_bytes-IsByte

encode_lem_example : encode 22 ping ≡ some (frame_of 22 (wire_bytes ping))
encode_lem_example = encode_lem {cap = 22} {p = ping} (omega arith) ping-IsPacket

decode-Reads_example : Reads 22 ping_bytes ping
decode-Reads_example = decode-Reads 22 ping_bytes ping legacy-IsCap ping_bytes-IsByte ping_read

short_read : decode 22 hi ≡ err (truncated 2)
unfolding verdict
short_read = decode_lem 22 hi legacy-IsCap hi-IsByte

decode_told_example :
    Fault 22 hi (truncated 2)
    × (read_wire (wire_message (truncated 2)) ≡ truncated 2)
    × (is_oversized (truncated 2) ≡ too_big 22 hi)
    × (is_unsupported_version (truncated 2)
        ≡ (not (too_big 22 hi) && (not (too_small hi) && unknown_version hi)))
    × (is_zero_ttl (truncated 2)
        ≡ (not (too_big 22 hi) && (not (too_small hi) && (not (unknown_version hi) && no_hops hi))))
    × (is_truncated (truncated 2)
        ≡ not (
            is_oversized (truncated 2)
            || (is_unsupported_version (truncated 2) || is_zero_ttl (truncated 2))))
decode_told_example = decode_told 22 hi (truncated 2) legacy-IsCap hi-IsByte short_read

-- The flags entry that most advertisements begin with.
abbrev flags_entry : List ℕ
flags_entry = 1 ∷ 6 ∷ []

flags-IsForeign : All IsForeign (flags_entry ∷ [])
flags-IsForeign =
    ((omega arith, (omega arith, (omega arith, tt)), λ bytes e. ground (arith, e)), tt)

manufacturer_frame_finds_example :
    manufacturer_frame (structures (flags_entry ∷ []) ++ (structure (frame_entry hi) ++ (0 ∷ [])))
    ≡ frame hi
manufacturer_frame_finds_example =
    manufacturer_frame_finds (flags_entry ∷ []) hi (0 ∷ []) flags-IsForeign

-- An advertisement of one frame.
abbrev beacon : List ℕ
beacon = 5 ∷ 0xFF ∷ 0x0C ∷ 0xF1 ∷ hi

beacon-IsByte : All IsByte beacon
beacon-IsByte = (omega arith, (omega arith, (omega arith, (omega arith, hi-IsByte))))

manufacturer_frame-Ends_example : Ends beacon (manufacturer_frame beacon)
manufacturer_frame-Ends_example = manufacturer_frame-Ends beacon beacon-IsByte

beacon_frame : manufacturer_frame beacon ≡ frame hi
unfolding manufacturer_frame walk is_ours
beacon_frame = refl
