-- ===== src/Ffi/Flat.antt =====
-- What a flattened action of crates/poholos-ffi/src/lib.rs says.
use poholos.Prelude.{
  List, Option, [], ap, ap₂, arith, copy_at, copy_at-fill, if◌then◌else◌, is_some, length, none, ok,
  refl, replicate, some, sym, take, take-length_append, ℕ, ◌%◌, ◌++◌, ◌-◌, ◌<◌, ◌∙◌, ◌≡◌, ◌≤◌,
}
use poholos.Packet.{Packet, WireId, as_slice}
use poholos.Packet.Valid.{
  IsPacket, header_len, length-as_slice, packet_of, payload_of, payload_of-as_slice,
}
use poholos.Wire.{Frame, as_bytes}
use poholos.Wire.Decode.{decode}
use poholos.Wire.Layout.{as_bytes-frame_of, wire_bytes}
use poholos.Wire.Bytes.{length-wire_bytes}
use poholos.Wire.RoundTrip.{decode-wire_bytes}
use poholos.Router.{RouteAction, deliver, deliver_and_forward, forward, ignore}
use poholos.Router.Actions.{IsAction, IsRelay}
use poholos.Ffi.{
  Action, deliver_and_forward_kind, deliver_kind, dest_or_zero, empty_action, fill_decoded,
  fill_frame, fill_packet, flatten, forward_kind, ignore_kind, poholos_max_frame_len, reason_of,
}

-- The packet and the frame that a host reads out of an action.
unfoldable pub packet_in : Action → Packet
packet_in out =
    packet_of poholos_max_frame_len out.src (if out.has_dest then some out.dest else none) out.seq
      (take out.payload_len out.payload) out.ttl

abbrev pub frame_in : Action → List ℕ
frame_in out = take out.frame_len out.frame

-- What the fields of `out` say of an action.
unfoldable pub Says : RouteAction → Action → Type 0
Says (deliver p) out = (out.kind ≡ deliver_kind) × (packet_in out ≡ p) × (frame_in out ≡ [])
Says (deliver_and_forward p f) out =
    (out.kind ≡ deliver_and_forward_kind) × (packet_in out ≡ p) × (frame_in out ≡ as_bytes f)
Says (forward f) out =
    (out.kind ≡ forward_kind)
    × (decode 211 (as_bytes f) ≡ ok (packet_in out))
    × (frame_in out ≡ as_bytes f)
Says (ignore r) out =
    (out.kind ≡ ignore_kind)
    × (out.ignore_reason ≡ reason_of r)
    × (out.payload_len ≡ 0)
    × (frame_in out ≡ [])

-- A filled buffer gives back what was put in.
copied :
    (bs : List ℕ) (n : ℕ)
    → length bs ≤ n
    → n < 65536
    → (buf : List ℕ) × (copy_at 0 bs (replicate n 0) ≡ some buf)
      × (take (length bs % 65536) buf ≡ bs)
copied bs n h hn =
    let small : length bs % 65536 ≡ length bs = omega arith in
    (
      bs ++ replicate (n - length bs) 0,
      copy_at-fill [] bs n 0 h,
      rw small (take-length_append bs (replicate (n - length bs) 0)),
    )

payload_room : {p : Packet} → IsPacket 211 p → length (as_slice p.payload) ≤ 204
payload_room {p} v =
    rw (length-as_slice v.payload_fits) (omega (arith, v.room, header_len-ge p.dest))
  where
    header_len-ge : (dest : Option WireId) → 7 ≤ header_len dest
    header_len-ge none = omega arith
    header_len-ge (some dest) = omega arith

dest_back :
    (dest : Option WireId) → (if is_some dest then some (dest_or_zero dest) else none) ≡ dest
dest_back none = refl
dest_back (some dest) = refl

-- A packet filled into an action whose payload buffer is clear.
fill_packet_lem :
    (out : Action) (p : Packet)
    → IsPacket 211 p
    → out.payload ≡ replicate 204 0
    → (after : Action) × (fill_packet out p ≡ some after)
      × (packet_in after ≡ p)
      × (after.kind ≡ out.kind)
      × (after.frame ≡ out.frame)
      × (after.frame_len ≡ out.frame_len)
unfolding fill_packet packet_in
fill_packet_lem out p v e =
    let (buf, put, got) = copied (as_slice p.payload) 204 (payload_room v) (omega arith) in
    (
      record out {
        has_dest = is_some p.dest;
        ttl = p.ttl;
        seq = p.seq;
        src = p.src;
        dest = dest_or_zero p.dest;
        payload = buf;
        payload_len = length (as_slice p.payload) % 65536;
      },
      rw (e, put) refl,
      ap₂ (λ d pl. record p { dest = d; payload = pl }) (dest_back p.dest)
          (ap (payload_of 211) got ∙ payload_of-as_slice v.payload_fits),
      refl,
      refl,
      refl,
    )

-- A frame of at most 211 bytes filled into an action whose frame buffer is clear.
fill_frame_lem :
    (out : Action) (bs : List ℕ)
    → length bs ≤ 211
    → out.frame ≡ replicate 211 0
    → (after : Action) × (fill_frame out bs ≡ some after)
      × (frame_in after ≡ bs)
      × (packet_in after ≡ packet_in out)
      × (after.kind ≡ out.kind)
      × (after.payload ≡ out.payload)
unfolding fill_frame packet_in
fill_frame_lem out bs h e =
    let (buf, put, got) = copied bs 211 h (omega arith) in
    (
      record out { frame = buf; frame_len = length bs % 65536 },
      rw (e, put) refl,
      got,
      refl,
      refl,
      refl,
    )

frame_room : {f : Frame} {q : Packet} → IsRelay f q → length (as_bytes f) ≤ 211
frame_room {f} {q} (v, e) = rw (e, as_bytes-frame_of 211 (wire_bytes q)) (length-wire_bytes v)

-- `flatten` never panics on an answer of the router, and the host reads the same answer back: the
-- packet, its sender's bytes, the frame to send, the reason.
pub flatten-Says :
    (a : RouteAction) → IsAction a → (out : Action) × (flatten a ≡ some out) × Says a out
unfolding flatten IsAction Says
flatten-Says (deliver p) v =
    let (out, e, same, kind, frame, len) =
      fill_packet_lem (record empty_action { kind = deliver_kind }) p v refl in
    (out, e, (kind, same, ap (λ n. take n out.frame) len))
flatten-Says (deliver_and_forward p f) (v, (q, r)) =
    let (out, e, same, kind, frame, len) =
      fill_packet_lem (record empty_action { kind = deliver_and_forward_kind }) p v refl in
    let (after, d, bytes, kept, kind', pl) = fill_frame_lem out (as_bytes f) (frame_room r) frame in
    (after, rw e d, (kind' ∙ kind, kept ∙ same, bytes))
flatten-Says (forward f) (q, r) =
    let (out, e, bytes, kept, kind, pl) =
      fill_frame_lem (record empty_action { kind = forward_kind }) (as_bytes f) (frame_room r)
        refl in
    let (after, d, same, kind', frame, len) = fill_packet_lem out q r.0 pl in
    let reads : decode 211 (as_bytes f) ≡ ok q =
      rw (r.1, as_bytes-frame_of 211 (wire_bytes q))
        (decode-wire_bytes (omega arith, omega arith) r.0) in
    (
      after,
      rw (e, reads) (unfold fill_decoded in d),
      (kind' ∙ kind, reads ∙ ap ok (sym same), ap₂ take len frame ∙ bytes),
    )
flatten-Says (ignore r) v =
    (record empty_action { ignore_reason = reason_of r }, refl, (refl, refl, refl, refl))
