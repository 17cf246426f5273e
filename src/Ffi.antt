-- ===== src/Ffi.antt =====
-- crates/poholos-ffi/src/lib.rs: the engine behind C functions. A null pointer is `none`.
pub mod Flat
pub mod Calls
use poholos.Prelude.{
  Bool, List, Option, Outcome, [], copy_at, err, false, if◌then◌else◌, is_some, length, none, not,
  ok, panic, replicate, some, take, ℕ, ◌%◌, ◌==◌,
}
use poholos.Prelude.Panics.{◌>>=◌}
use poholos.Text.{is_utf8}
use poholos.Packet.{Packet, WireId, as_slice}
use poholos.Wire.{WireError, as_bytes}
use poholos.Wire.Decode.{decode}
use poholos.NodeId.{of_name}
use poholos.Seen.Cache.{SeenCache}
use poholos.Router
use poholos.Router.{
  IgnoreReason, RouteAction, Router, deliver, deliver_and_forward, duplicate, expired_ttl, forward,
  ignore, ingest, own,
}

abbrev pub poholos_max_frame_len : ℕ
poholos_max_frame_len = 211

abbrev pub poholos_max_payload_len : ℕ
poholos_max_payload_len = 204

-- `PoholosStatus`.
pub data Status : Type 0 where
  ok_status null_argument decode_error panic_status : Status

-- `PoholosActionKind`.
pub data ActionKind : Type 0 where
  deliver_kind deliver_and_forward_kind forward_kind ignore_kind : ActionKind

-- `PoholosIgnoreReason`.
pub data Reason : Type 0 where
  no_reason own_reason duplicate_reason expired_ttl_reason other_reason : Reason

-- `PoholosAction`.
pub record Action : Type 0 where
  pub kind : ActionKind
  pub ignore_reason : Reason
  pub has_dest : Bool
  pub ttl : ℕ
  pub seq : ℕ
  pub payload_len : ℕ
  pub frame_len : ℕ
  pub src : ℕ
  pub dest : ℕ
  pub payload : List ℕ
  pub frame : List ℕ

abbrev pub empty_action : Action
empty_action = record {
  kind = ignore_kind;
  ignore_reason = no_reason;
  has_dest = false;
  ttl = 0;
  seq = 0;
  payload_len = 0;
  frame_len = 0;
  src = 0;
  dest = 0;
  payload = replicate poholos_max_payload_len 0;
  frame = replicate poholos_max_frame_len 0;
}

abbrev pub dest_or_zero : Option WireId → ℕ
dest_or_zero none = 0
dest_or_zero (some dest) = dest

-- `none` is the panic of a slice out of range; the length is cast to a u16.
unfoldable pub fill_packet : Action → Packet → Option Action
fill_packet out packet = do
  payload ← copy_at 0 (as_slice packet.payload) out.payload
  some (record out {
    has_dest = is_some packet.dest;
    ttl = packet.ttl;
    seq = packet.seq;
    src = packet.src;
    dest = dest_or_zero packet.dest;
    payload = payload;
    payload_len = length (as_slice packet.payload) % 65536;
  })

unfoldable pub fill_frame : Action → List ℕ → Option Action
fill_frame out bytes = do
  frame ← copy_at 0 bytes out.frame
  some (record out { frame = frame; frame_len = length bytes % 65536 })

unfoldable pub reason_of : IgnoreReason → Reason
reason_of own = own_reason
reason_of duplicate = duplicate_reason
reason_of expired_ttl = expired_ttl_reason

-- The `if let Ok(packet)` of `flatten`: a frame that does not decode leaves the packet fields.
unfoldable pub fill_decoded : Action → Outcome WireError Packet → Option Action
fill_decoded out (ok packet) = fill_packet out packet
fill_decoded out (err e) = some out
fill_decoded out panic = none

unfoldable pub flatten : RouteAction → Option Action
flatten (deliver packet) = fill_packet (record empty_action { kind = deliver_kind }) packet
flatten (deliver_and_forward packet frame) = do
  out ← fill_packet (record empty_action { kind = deliver_and_forward_kind }) packet
  fill_frame out (as_bytes frame)
flatten (forward frame) = do
  out ← fill_frame (record empty_action { kind = forward_kind }) (as_bytes frame)
  fill_decoded out (decode poholos_max_frame_len (as_bytes frame))
flatten (ignore reason) =
    some (record empty_action { kind = ignore_kind; ignore_reason = reason_of reason })

-- A C string, null or the bytes before its nul, read as UTF-8.
unfoldable pub to_str : Option (List ℕ) → Option (List ℕ)
to_str none = none
to_str (some bytes) = if is_utf8 bytes then some bytes else none

unfoldable pub poholos_wire_id_of_name : Option (List ℕ) → ℕ
poholos_wire_id_of_name name = elim (to_str name) [ none ↦ 0 | some bytes ↦ of_name bytes ]

module _ {size : ℕ} (c : SeenCache size) where
  unfoldable pub poholos_router_new : Option (List ℕ) → Option (Router c)
  poholos_router_new name = elim (to_str name) [
    | none ↦ none
    | some bytes ↦ some (Router.new c (of_name bytes))
  ]

  -- What a call leaves: its status, the router, and the storage that `out_action` points to.
  pub record Left : Type 0 where
    pub status : Status
    pub router : Option (Router c)
    pub out_action : Option (Option Action)

  -- The `match` of the call on a live router and storage `out`.
  unfoldable pub report : Router c × Outcome WireError RouteAction → Option Action → Left
  report (r, ok action) out = elim (flatten action) [
    | none ↦ record { status = panic_status; router = some r; out_action = some out }
    | some flat ↦ record { status = ok_status; router = some r; out_action = some (some flat) }
  ]
  report (r, err e) out = record { status = decode_error; router = some r; out_action = some out }
  report (r, panic) out = record { status = panic_status; router = some r; out_action = some out }

  -- `bytes` points to `memory`, and `out_action` to storage that may hold nothing yet.
  unfoldable pub poholos_router_ingest :
      Option (Router c) → Option (List ℕ) → ℕ → Option (Option Action) → Left
  poholos_router_ingest (some r) (some memory) len (some out) =
      let received = if len == 0 then [] else take len memory in
      report (ingest c poholos_max_frame_len r received) out
  poholos_router_ingest (some r) none len (some out) =
      if not (len == 0)
      then record { status = null_argument; router = some r; out_action = some out }
      else report (ingest c poholos_max_frame_len r []) out
  poholos_router_ingest none bytes len out = record {
    status = null_argument;
    router = none;
    out_action = out;
  }
  poholos_router_ingest (some r) bytes len none = record {
    status = null_argument;
    router = some r;
    out_action = none;
  }
