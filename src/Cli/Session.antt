-- ===== src/Cli/Session.antt =====
-- The loop of `run` of crates/poholos-cli/src/app.rs over any events.
use poholos.Prelude.{
  All, All-append, Bool, Bool-cases, List, Option, Outcome, [], arith, err, false, inl, inr, ok,
  panic, refl, some, subst, true, ℕ, ◌++◌, ◌∙◌, ◌∷◌, ◌≡◌,
}
use poholos.Text.{All-trim_end, All-trim_start, IsChar, is_nil, trim, trim_start}
use poholos.Packet.{Packet, WireId}
use poholos.Packet.Valid.{IsPacket}
use poholos.Wire.Layout.{frame_of, wire_bytes}
use poholos.Seen.Cache.{SeenCache}
use poholos.Router.History.{originate_lem}
use poholos.Transports.{send_own}
use poholos.Cli.{LineError, hearsay_too_long, parse_outgoing, refused, syntax, telegram_too_long}
use poholos.Cli.Lines.{Parses, parse_outgoing-Parses}
use poholos.Cli.Chat.{
  Chat, Event, Shown, answer_line, complaint, heard, input_closed, on_line, quit_line, refusal, run,
  say, send_failed, transport_closed, typed,
}
use poholos.Rotation.Fair.{same_bytes}
use poholos.Cli.Apt.{IsApt, IsChat, IsEvent, Steps, complaint-IsApt, on_frame-Steps}

module _ {size : ℕ} (c : SeenCache size) where
  say-Steps :
      (m : ℕ) (chat : Chat c) (p : Packet)
      → IsChat c chat
      → IsPacket 211 p
      → Steps c chat.router.local (say c m chat p)
  unfolding say IsApt
  say-Steps m chat p v pv =
      let (s, e, keys, sv, same) =
        originate_lem c 211 chat.router p (omega arith, omega arith) pv v.routes in
      let (transport, sent) = send_own m chat.transport (frame_of 211 (wire_bytes p)) in
      (
        record chat { router = s; transport = transport },
        complaint send_failed sent,
        rw e refl,
        record { routes = sv; seq_fits = v.seq_fits; local_fits = rw same v.local_fits },
        same,
        complaint-IsApt chat.router.local send_failed sent (λ e. tt),
      )

  answer_line-Steps :
      (m : ℕ) (chat : Chat c) (line : List ℕ) (answer : ℕ × Outcome LineError Packet)
      → IsChat c chat
      → Parses chat.seq chat.router.local line answer
      → Steps c chat.router.local (answer_line c m chat answer)
  unfolding answer_line Parses IsApt
  answer_line-Steps m chat line (next, ok p) v (pv, e, src, ttl, n, carries) =
      say-Steps m (record chat { seq = next }) p
        (record { routes = v.routes; seq_fits = rw n (omega arith); local_fits = v.local_fits }) pv
  answer_line-Steps m chat line (next, err syntax) v (n, form) = (
    record chat { seq = next },
    refusal syntax ∷ [],
    refl,
    (record { routes = v.routes; seq_fits = rw n v.seq_fits; local_fits = v.local_fits }),
    refl,
    (tt, tt),
  )
  answer_line-Steps m chat line (next, err (telegram_too_long k)) v
        (n, big, name, message, split, is) =
      (
        record chat { seq = next },
        refusal (telegram_too_long k) ∷ [],
        refl,
        (record { routes = v.routes; seq_fits = rw n v.seq_fits; local_fits = v.local_fits }),
        refl,
        (big, tt),
      )
  answer_line-Steps m chat line (next, err (hearsay_too_long k)) v (n, big, plain, is) = (
    record chat { seq = next },
    refusal (hearsay_too_long k) ∷ [],
    refl,
    (record { routes = v.routes; seq_fits = rw n v.seq_fits; local_fits = v.local_fits }),
    refl,
    (big, tt),
  )
  answer_line-Steps m chat line (next, err (refused x)) v h = absurd h
  answer_line-Steps m chat line (next, panic) v h = absurd h

  -- The same for a line, which may also end the loop.
  abbrev Ends : WireId → Option (Chat c × List Shown × Bool) → Type 0
  Ends local o =
      (after : Chat c) × (shown : List Shown) × (quits : Bool) × (o ≡ some (after, shown, quits))
      × IsChat c after
      × (after.router.local ≡ local)
      × All (IsApt local) shown

  on_line-Ends :
      (m : ℕ) (chat : Chat c) (line : List ℕ)
      → IsChat c chat
      → All IsChar line
      → Ends chat.router.local (on_line c m chat line)
  unfolding on_line
  on_line-Ends m chat line v hl = elim (Bool-cases (is_nil (trim line))) [
    | inl empty ↦ (chat, [], false, rw empty refl, v, refl, tt)
    | inr full ↦ elim (Bool-cases (same_bytes (trim line) quit_line)) [
      | inl bye ↦ (chat, [], true, rw (full, bye) refl, v, refl, tt)
      | inr other ↦
          let chars : All IsChar (trim line) =
            All-trim_end IsChar (trim_start line) (All-trim_start IsChar line hl) in
          let (after, shown, e, w, same, apt) =
            answer_line-Steps m chat (trim line)
              (parse_outgoing chat.seq chat.router.local (trim line)) v
              (parse_outgoing-Parses chat.seq chat.router.local (trim line) v.seq_fits v.local_fits
                chars) in
          (after, shown, false, rw (full, other, e) refl, w, same, apt)
    ]
  ]

  -- From a well-formed chat state, over any events of typed characters and received bytes, the
  -- loop of `run` does not panic and leaves a well-formed state of the same node. Each packet that
  -- it shows is well formed, comes from another node, is for this node, and is marked `you`
  -- exactly when it is a telegram; each refusal names the form or a length above the limit.
  pub run-IsApt :
      (m : ℕ) (chat : Chat c) (events : List Event)
      → IsChat c chat
      → All IsEvent events
      → Steps c chat.router.local (run c m chat events)
  unfolding run IsEvent
  run-IsApt m chat [] v hs = (chat, [], refl, v, refl, tt)
  run-IsApt m chat (input_closed ∷ events) v hs = (chat, [], refl, v, refl, tt)
  run-IsApt m chat (transport_closed ∷ events) v hs = (chat, [], refl, v, refl, tt)
  run-IsApt m chat (typed line ∷ events) v (h, hs) =
      let (next, shown, quits, e, w, same, apt) = on_line-Ends m chat line v h in
      let (last, later, d, x, same', apt') = run-IsApt m next events w hs in
      elim (Bool-cases quits) [
        | inl bye ↦ (next, shown, rw (e, bye) refl, w, same, apt)
        | inr more ↦ (
          last,
          shown ++ later,
          rw (e, more, d) refl,
          x,
          same' ∙ same,
          All-append (IsApt chat.router.local) shown later apt
              (subst (λ l. All (IsApt l) later) same apt'),
        )
      ]
  run-IsApt m chat (heard frame ∷ events) v (h, hs) =
      let (next, shown, e, w, same, apt) = on_frame-Steps c m chat frame v h in
      let (last, later, d, x, same', apt') = run-IsApt m next events w hs in
      (
        last,
        shown ++ later,
        rw (e, d) refl,
        x,
        same' ∙ same,
        All-append (IsApt chat.router.local) shown later apt
            (subst (λ l. All (IsApt l) later) same apt'),
      )
