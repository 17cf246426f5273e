-- ===== src/Cli/Heard.antt =====
-- A line typed into the chat of crates/poholos-cli/src/app.rs, and the chat of another node that hears
-- its frame.
use poholos.Prelude.{
  All, Bool, List, Option, Outcome, [], ap, arith, err, false, is_some, ok, panic, refl, some,
  subst, true, ℕ, ◌∙◌, ◌∷◌, ◌≡◌,
}
use poholos.Text.{IsChar, is_nil, trim}
use poholos.Packet.{Packet, WireId, as_slice}
use poholos.Packet.Valid.{IsCap, IsPacket}
use poholos.Wire.{Frame, WireError, as_bytes}
use poholos.Wire.Layout.{frame_of, wire_bytes, as_bytes-frame_of}
use poholos.Wire.RoundTrip.{decode-wire_bytes}
use poholos.Wire.Bytes.{wire_bytes-IsByte}
use poholos.Seen.Cache.{SeenCache}
use poholos.Router.{RouteAction, deliver, deliver_and_forward, forward, ignore, ingest}
use poholos.Router.Decision.{is_for_me}
use poholos.Router.Policy.{ingest_lem}
use poholos.Router.Relay.{delivered, ingest_decisions, is_news}
use poholos.Router.History.{originate_lem}
use poholos.Rotation.Fair.{same_bytes}
use poholos.Transports.{Hands, Takes, send_own-Hands}
use poholos.Cli.{parse_outgoing}
use poholos.Cli.Lines.{Carries, Parses, parse_outgoing-Parses}
use poholos.Cli.Chat.{
  Chat, Shown, answer_line, delivery, obey, on_frame, on_line, print_delivery, quit_line,
  relay_frame, say,
}
use poholos.Cli.Apt.{IsChat, is_dest_lem}

some_inj : {p q : Packet} → some p ≡ some q → p ≡ q
some_inj e = cc

shown_as :
    (p q : Packet) (local : WireId)
    → some q ≡ some p
    → is_for_me local p.dest ≡ true
    → print_delivery q local ≡ delivery p (is_some p.dest)
shown_as p q local h mine =
    ap (λ x. print_delivery x local) (some_inj h) ∙ ap (delivery p) (is_dest_lem p.dest local mine)

module _ {size : ℕ} (c : SeenCache size) where
  -- What hearing the packet shows.
  abbrev Shows : Packet → Bool → Option (Chat c × List Shown) → Type 0
  Shows p you o =
      (after : Chat c) × (others : List Shown) × (o ≡ some (after, delivery p you ∷ others))

  obey-delivered :
      (m : ℕ) (chat : Chat c) (p : Packet) (o : Outcome WireError RouteAction)
      → delivered o ≡ some p
      → is_for_me chat.router.local p.dest ≡ true
      → Shows p (is_some p.dest) (obey c m chat o)
  unfolding obey delivered
  obey-delivered m chat p (ok (deliver q)) h mine =
      (chat, [], ap (λ s. some (chat, s ∷ [])) (shown_as p q chat.router.local h mine))
  obey-delivered m chat p (ok (deliver_and_forward q relay)) h mine =
      let (chat', shown) = relay_frame c m chat relay in
      (chat', shown, ap (λ s. some (chat', s ∷ shown)) (shown_as p q chat.router.local h mine))
  obey-delivered m chat p (ok (forward relay)) h mine = ground (arith, h)
  obey-delivered m chat p (ok (ignore reason)) h mine = ground (arith, h)
  obey-delivered m chat p (err e) h mine = ground (arith, h)
  obey-delivered m chat p panic h mine = ground (arith, h)

  on_frame-Shows :
      (m : ℕ) (chat : Chat c) (p : Packet)
      → IsChat c chat
      → IsPacket 211 p
      → is_news c chat.router p ≡ true
      → is_for_me chat.router.local p.dest ≡ true
      → Shows p (is_some p.dest) (on_frame c m chat (frame_of 211 (wire_bytes p)))
  unfolding on_frame
  on_frame-Shows m chat p v pv news mine =
      let hc : IsCap 211 = (omega arith, omega arith) in
      let bytes = wire_bytes p in
      let hb = wire_bytes-IsByte pv in
      let (told, sound, keys, rv, same) = ingest_lem c 211 chat.router bytes hc hb v.routes in
      let (up, on) =
        ingest_decisions c 211 chat.router bytes p hc hb v.routes (decode-wire_bytes hc pv) in
      let answer = ingest c 211 chat.router bytes in
      let handed : delivered answer.1 ≡ some p = up ∙ rw (news, mine) refl in
      rw (as_bytes-frame_of 211 bytes)
        (obey-delivered m (record chat { router = answer.0 }) p answer.1 handed (rw same mine))

  -- A line that asks for a packet.
  pub on_line-Sends :
      (m : ℕ) (chat : Chat c) (line : List ℕ) (next : ℕ) (p : Packet)
      → IsChat c chat
      → IsPacket 211 p
      → is_nil (trim line) ≡ false
      → same_bytes (trim line) quit_line ≡ false
      → parse_outgoing chat.seq chat.router.local (trim line) ≡ (next, ok p)
      → Takes m chat.transport (frame_of 211 (wire_bytes p))
      → (after : Chat c) × (on_line c m chat line ≡ some (after, [], false))
        × (after.seq ≡ next)
        × Hands chat.transport after.transport (frame_of 211 (wire_bytes p))
  unfolding on_line answer_line say
  on_line-Sends m chat line next p v pv full other parsed takes =
      let (s, e, keys, sv, same) =
        originate_lem c 211 chat.router p (omega arith, omega arith) pv v.routes in
      let (transport, sent, handed) =
        send_own-Hands m chat.transport (frame_of 211 (wire_bytes p)) takes in
      (
        record { router = s; seq = next; transport = transport },
        rw (full, other, parsed, e, sent) refl,
        refl,
        handed,
      )

  -- When a well-formed chat reads a line, neither empty nor `/quit` without its outer spaces, for
  -- which `parse_outgoing` returns a packet, and its transport takes the frame, then it shows
  -- nothing, goes on and hands the transport one frame: a datagram of its bytes, or an own frame
  -- for the rotation. A well-formed chat that receives the bytes of this frame, to which the
  -- packet is news and for which it is meant, shows first the packet, marked `you` exactly for a
  -- telegram. It is the whole line to everyone, if this does not begin with `@`; else the message
  -- behind the first space, without its outer spaces, to the name between `@` and that space.
  pub said-heard :
      (m : ℕ) (speaker hearer : Chat c) (line : List ℕ) (next : ℕ) (p : Packet)
      → IsChat c speaker
      → IsChat c hearer
      → All IsChar (trim line)
      → is_nil (trim line) ≡ false
      → same_bytes (trim line) quit_line ≡ false
      → parse_outgoing speaker.seq speaker.router.local (trim line) ≡ (next, ok p)
      → Takes m speaker.transport (frame_of 211 (wire_bytes p))
      → is_news c hearer.router p ≡ true
      → is_for_me hearer.router.local p.dest ≡ true
      → (said : Chat c) × (frame : Frame) × (on_line c m speaker line ≡ some (said, [], false))
        × Hands speaker.transport said.transport frame
        × (heard : Chat c) × (others : List Shown) × (on_frame c m hearer
              (frame_of 211 (as_bytes frame))
            ≡ some (heard, delivery p (is_some p.dest) ∷ others))
        × Carries (trim line) p.dest (as_slice p.payload)
  unfolding Parses
  said-heard m speaker hearer line next p v w chars full other parsed takes news mine =
      let (pv, seq, src, ttl, n, carries) =
        subst (Parses speaker.seq speaker.router.local (trim line)) parsed (
          parse_outgoing-Parses speaker.seq speaker.router.local (trim line) v.seq_fits v.local_fits
            chars) in
      let (said, e, counted, queued) =
        on_line-Sends m speaker line next p v pv full other parsed takes in
      let (after, others, shows) = on_frame-Shows m hearer p w pv news mine in
      (
        said,
        frame_of 211 (wire_bytes p),
        e,
        queued,
        after,
        others,
        rw (as_bytes-frame_of 211 (wire_bytes p)) shows,
        carries,
      )
