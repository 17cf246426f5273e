-- ===== src/Cli/Apt.antt =====
-- What `run` of crates/poholos-cli/src/app.rs keeps and shows, and a received frame.
use poholos.Prelude.{
  ==-false→ne, All, Bool, Bool-cases, List, Option, Outcome, [], arith, err, false, inl, inr,
  is_some, ltb, none, ok, panic, refl, some, subst, sym, true, ℕ, ◌&&◌, ◌<◌, ◌==◌, ◌∷◌, ◌≡◌, ◌≢◌,
}
use poholos.Prelude.Words.{IsByte, IsU16, IsU32}
use poholos.Text.{IsChar}
use poholos.Packet.{Packet, WireId, dedup_key}
use poholos.Packet.Valid.{IsCap, IsPacket}
use poholos.Wire.{Frame, WireError, as_bytes}
use poholos.Wire.Decode.{decode}
use poholos.Wire.Read.{decode-Reads}
use poholos.Seen.Recency.{member}
use poholos.Seen.Cache.{SeenCache}
use poholos.Router.Decision.{
  IsRouter, action, answer_to, is_for_me, is_for_others, known, policy_to, relayed,
}
use poholos.Ble.Advertise.{SendError}
use poholos.Transports.{send_relay}
use poholos.Cli.{hearsay_too_long, refused, syntax, telegram_too_long}
use poholos.Cli.Chat.{
  Chat, Event, Shown, complaint, delivery, heard, input_closed, is_dest, obey, on_frame,
  print_delivery, refusal, relay_failed, relay_frame, send_failed, transport_closed, typed,
}
use poholos.Router.{Router, ingest}
use poholos.Wire.Accept.{decode_lem, verdict}
use poholos.Router.Policy.{ingest_lem, response, verdict-total}

-- The state that the loop keeps.
pub record IsChat {size : ℕ} (c : SeenCache size) (chat : Chat c) : Type 0 where
  pub routes : IsRouter c chat.router
  pub seq_fits : IsU16 chat.seq
  pub local_fits : IsU32 chat.router.local

-- A delivery is a well-formed packet of another node that is for this one, and marked `you` when it
-- is a telegram. A refusal is of a line, never of the packet made of it.
unfoldable pub IsApt : WireId → Shown → Type 0
IsApt local (delivery p you) =
    IsPacket 211 p × (p.src ≢ local) × (is_for_me local p.dest ≡ true) × (you ≡ is_some p.dest)
IsApt local (refusal (refused e)) = ⊥
IsApt local (refusal syntax) = Unit {0}
IsApt local (refusal (telegram_too_long n)) = 200 < n
IsApt local (refusal (hearsay_too_long n)) = 204 < n
IsApt local (send_failed e) = Unit {0}
IsApt local (relay_failed e) = Unit {0}

-- What the loop can meet: lines of characters, and frames of bytes.
unfoldable pub IsEvent : Event → Type 0
IsEvent (typed line) = All IsChar line
IsEvent input_closed = Unit {0}
IsEvent (heard frame) = All IsByte (as_bytes frame)
IsEvent transport_closed = Unit {0}

pub is_dest_lem :
    (dest : Option WireId) (local : WireId)
    → is_for_me local dest ≡ true
    → is_dest dest local ≡ is_some dest
unfolding is_dest is_for_me
is_dest_lem none local h = refl
is_dest_lem (some dest) local h = h

pub complaint-IsApt :
    (local : WireId) (failed : SendError → Shown) (sent : Outcome SendError (Unit {0}))
    → ((e : SendError) → IsApt local (failed e))
    → All (IsApt local) (complaint failed sent)
complaint-IsApt local failed (ok done) h = tt
complaint-IsApt local failed (err e) h = (h e, tt)
complaint-IsApt local failed panic h = tt

module _ {size : ℕ} (c : SeenCache size) where
  -- What a step leaves: no panic, a well-formed state of the same node, and apt output.
  abbrev pub Steps : WireId → Option (Chat c × List Shown) → Type 0
  Steps local o =
      (after : Chat c) × (shown : List Shown) × (o ≡ some (after, shown))
      × IsChat c after
      × (after.router.local ≡ local)
      × All (IsApt local) shown

  relay_frame_sound :
      (m : ℕ) (chat : Chat c) (frame : Frame)
      → IsChat c chat
      → IsChat c (relay_frame c m chat frame).0
        × ((relay_frame c m chat frame).0.router.local ≡ chat.router.local)
        × All (IsApt chat.router.local) (relay_frame c m chat frame).1
  unfolding relay_frame IsApt
  relay_frame_sound m chat frame v = (
    record { routes = v.routes; seq_fits = v.seq_fits; local_fits = v.local_fits },
    refl,
    complaint-IsApt chat.router.local relay_failed (send_relay m chat.transport frame).1 (λ e. tt),
  )

  obey-action :
      (m : ℕ) (chat : Chat c) (p : Packet) (f : Frame) (d s : Bool)
      → IsChat c chat
      → (d ≡ true → IsApt chat.router.local (print_delivery p chat.router.local))
      → Steps chat.router.local (obey c m chat (ok (action p f d s)))
  unfolding obey action
  obey-action m chat p f true true v h =
      let (w, l, apt) = relay_frame_sound m chat f v in
      (
        (relay_frame c m chat f).0,
        print_delivery p chat.router.local ∷ (relay_frame c m chat f).1,
        refl,
        w,
        l,
        (h refl, apt),
      )
  obey-action m chat p f true false v h =
      (chat, print_delivery p chat.router.local ∷ [], refl, v, refl, (h refl, tt))
  obey-action m chat p f false true v h =
      let (w, l, apt) = relay_frame_sound m chat f v in
      ((relay_frame c m chat f).0, (relay_frame c m chat f).1, refl, w, l, apt)
  obey-action m chat p f false false v h = (chat, [], refl, v, refl, tt)

  obey-answer_to :
      (m : ℕ) (chat : Chat c) (r : Router c) (p : Packet)
      → IsChat c chat
      → IsPacket 211 p
      → r.local ≡ chat.router.local
      → Steps chat.router.local (obey c m chat (ok (answer_to c 211 r p)))
  unfolding answer_to policy_to IsApt
  obey-answer_to m chat r p v pv same = elim (Bool-cases (p.src == r.local)) [
    | inl mine ↦ rw mine (unfold obey in (chat, [], refl, v, refl, tt))
    | inr other ↦ elim (Bool-cases (member (dedup_key p) (known c r))) [
      | inl old ↦ rw (other, old) (unfold obey in (chat, [], refl, v, refl, tt))
      | inr new ↦
          rw (other, new)
            (obey-action m chat p (relayed 211 p) (is_for_me r.local p.dest)
              (is_for_others r.local p.dest && ltb 1 p.ttl) v
              (λ mine.
                let me : is_for_me chat.router.local p.dest ≡ true =
                  subst (λ l. is_for_me l p.dest ≡ true) same mine in
                (
                  pv,
                  subst (λ l. p.src ≢ l) same (==-false→ne p.src r.local other),
                  me,
                  is_dest_lem p.dest chat.router.local me,
                )))
    ]
  ]

  obey-response :
      (m : ℕ) (chat : Chat c) (r : Router c) (bytes : List ℕ) (o : Outcome WireError Packet)
      → IsChat c chat
      → All IsByte bytes
      → r.local ≡ chat.router.local
      → decode 211 bytes ≡ o
      → o ≢ panic
      → Steps chat.router.local (obey c m chat (response c 211 r o))
  unfolding response
  obey-response m chat r bytes (ok p) v hb same e np =
      obey-answer_to m chat r p v (decode-Reads 211 bytes p (omega arith, omega arith) hb e).valid
        same
  obey-response m chat r bytes (err x) v hb same e np = unfold obey in (chat, [], refl, v, refl, tt)
  obey-response m chat r bytes panic v hb same e np = absurd (np refl)

  pub on_frame-Steps :
      (m : ℕ) (chat : Chat c) (frame : Frame)
      → IsChat c chat
      → All IsByte (as_bytes frame)
      → Steps chat.router.local (on_frame c m chat frame)
  unfolding on_frame
  on_frame-Steps m chat frame v hb =
      let hc : IsCap 211 = (omega arith, omega arith) in
      let bytes = as_bytes frame in
      let (told, sound, keys, rv, same) = ingest_lem c 211 chat.router bytes hc hb v.routes in
      let chat' = record chat { router = (ingest c 211 chat.router bytes).0 } in
      let v' : IsChat c chat' = record {
        routes = rv;
        seq_fits = v.seq_fits;
        local_fits = rw same v.local_fits;
      } in
      let here =
        obey-response m chat' chat.router bytes (verdict 211 bytes) v' hb (sym same)
          (decode_lem 211 bytes hc hb) (verdict-total c 211 bytes) in
      rw told (
        subst (λ l. Steps l (obey c m chat' (response c 211 chat.router (verdict 211 bytes)))) same
          here)
