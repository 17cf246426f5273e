-- ===== src/Ble/Scan/Heard.antt =====
-- Which frames the scanner of crates/poholos-cli/src/transport/ble/scan.rs forwards.
use poholos.Prelude.{
  All, Bool, Bool-cases, List, Option, [], ap, append-nil, append_assoc, ap₂, arith, false,
  if◌then◌else◌, inl, inr, leb, length, ltb, ltb-false→le, none, refl, some, suc, sym, take, true,
  zero, ℕ, ◌++◌, ◌-◌, ◌==◌, ◌∙◌, ◌∷◌, ◌≡◌,
}
use poholos.Prelude.Panics.{◌>>=◌}
use poholos.Prelude.Words.{IsByte}
use poholos.Wire.{Frame, company_id}
use poholos.Wire.Frames.{copy_from_lem}
use poholos.Wire.Layout.{frame_of}
use poholos.Ble.Uuid.{
  by_company, copied_frame, frame_from_manufacturer, frame_from_service_uuid_lem, to_option,
}
use poholos.Ble.Scan.{
  CentralEvent, Entries, Sender, device, manufacturer_data_advertisement, on_event,
  on_manufacturer_data, on_services, other_event, scan_loop, send, send_found,
  services_advertisement,
}

-- The frames that an event carries: the company's data of at most 211 bytes, and what stands behind the
-- first byte of a service UUID where this is above 246.
unfoldable pub fitting : Option (List ℕ) → List Frame
fitting none = []
fitting (some bytes) = if ltb 211 (length bytes) then [] else frame_of 211 bytes ∷ []

abbrev pub manufactured : Entries → List Frame
manufactured entries = fitting (by_company entries company_id)

unfoldable pub serviced : List (List ℕ) → List Frame
serviced [] = []
serviced ([] ∷ uuids) = serviced uuids
serviced ((b ∷ rest) ∷ uuids) =
    if ltb 246 b then frame_of 211 (take (b - 240) rest) ∷ serviced uuids else serviced uuids

unfoldable pub frames_of : CentralEvent → List Frame
frames_of (manufacturer_data_advertisement entries) = manufactured entries
frames_of (services_advertisement uuids) = serviced uuids
frames_of (device none) = []
frames_of (device (some props)) = manufactured props.manufacturer_data ++ serviced props.services
frames_of other_event = []

unfoldable pub frames_of_all : List CentralEvent → List Frame
frames_of_all [] = []
frames_of_all (event ∷ events) = frames_of event ++ frames_of_all events

-- A UUID is not empty and begins with a byte.
abbrev pub IsUuid : List ℕ → Type 0
IsUuid [] = ⊥
IsUuid (b ∷ rest) = IsByte b

abbrev pub IsEvent : CentralEvent → Type 0
IsEvent (manufacturer_data_advertisement entries) = Unit {0}
IsEvent (services_advertisement uuids) = All IsUuid uuids
IsEvent (device none) = Unit {0}
IsEvent (device (some props)) = All IsUuid props.services
IsEvent other_event = Unit {0}

-- Frames sent one after the other, until the receiver is gone.
unfoldable forward : Sender → List Frame → Sender × Bool
forward tx [] = (tx, true)
forward tx (frame ∷ frames) =
    let rest = forward (send tx frame).0 frames in
    if (send tx frame).1 then rest else ((send tx frame).0, false)

-- The next part of a loop, unless it has returned.
abbrev next : Sender × Bool → (Sender → Sender × Bool) → Sender × Bool
next (tx, goes_on) more = if goes_on then more tx else (tx, false)

forward-append :
    (tx : Sender) (fs gs : List Frame)
    → forward tx (fs ++ gs) ≡ next (forward tx fs) (λ tx'. forward tx' gs)
unfolding forward
forward-append tx [] gs = refl
forward-append tx (f ∷ fs) gs = elim (Bool-cases (send tx f).1) [
  | inl sent ↦ rw sent (forward-append (send tx f).0 fs gs)
  | inr gone ↦ rw gone refl
]

forward_one : (tx : Sender) (f : Frame) → forward tx (f ∷ []) ≡ send tx f
unfolding forward
forward_one tx f = elim (Bool-cases (send tx f).1) [
  | inl sent ↦ rw sent refl
  | inr gone ↦ rw gone refl
]

send_fitting :
    (tx : Sender) (get : ℕ → Option (List ℕ)) (o : Option (List ℕ))
    → get company_id ≡ o
    → (frame_from_manufacturer get >>= λ found. some (send_found tx found))
      ≡ some (forward tx (fitting o))
unfolding frame_from_manufacturer send_found fitting forward to_option
send_fitting tx get none e = rw (e, frame_from_manufacturer) refl
send_fitting tx get (some bytes) e = elim (Bool-cases (ltb 211 (length bytes))) [
  | inl long ↦ rw (e, frame_from_manufacturer, copy_from_lem 211 bytes (omega arith), long) refl
  | inr short ↦
      rw
        (
          e,
          frame_from_manufacturer,
          copied_frame bytes (ltb-false→le 211 (length bytes) short),
          short,
        )
        (ap some (sym (forward_one tx (frame_of 211 bytes))))
]

on_manufacturer_data_lem :
    (tx : Sender) (entries : Entries)
    → on_manufacturer_data tx entries ≡ some (forward tx (manufactured entries))
unfolding on_manufacturer_data
on_manufacturer_data_lem tx entries =
    send_fitting tx (by_company entries) (by_company entries company_id) refl

on_services_lem :
    (tx : Sender) (uuids : List (List ℕ))
    → All IsUuid uuids
    → on_services tx uuids ≡ some (forward tx (serviced uuids))
unfolding on_services send_found forward serviced
on_services_lem tx [] h = refl
on_services_lem tx ([] ∷ uuids) (h, hs) = absurd h
on_services_lem tx ((b ∷ rest) ∷ uuids) (h, hs) = elim (Bool-cases (ltb 246 b)) [
  | inl long ↦
      let frame = frame_of 211 (take (b - 240) rest) in
      elim (Bool-cases (send tx frame).1) [
        | inl sent ↦
            rw (frame_from_service_uuid_lem b rest h, long, sent)
              (on_services_lem (send tx frame).0 uuids hs)
        | inr gone ↦ rw (frame_from_service_uuid_lem b rest h, long, gone) refl
      ]
  | inr short ↦ rw (frame_from_service_uuid_lem b rest h, short) (on_services_lem tx uuids hs)
]

on_event_lem :
    (tx : Sender) (event : CentralEvent)
    → IsEvent event
    → on_event tx event ≡ some (forward tx (frames_of event))
unfolding on_event frames_of
on_event_lem tx (manufacturer_data_advertisement entries) h = on_manufacturer_data_lem tx entries
on_event_lem tx (services_advertisement uuids) h = on_services_lem tx uuids h
on_event_lem tx (device none) h = unfold forward in refl
on_event_lem tx (device (some props)) h =
    let first = manufactured props.manufacturer_data in
    let e = forward-append tx first (serviced props.services) in
    elim (Bool-cases (forward tx first).1) [
      | inl more ↦
          rw (on_manufacturer_data_lem tx props.manufacturer_data, more)
            (on_services_lem (forward tx first).0 props.services h
              ∙ ap some (sym (e ∙ rw more refl)))
      | inr gone ↦
          rw (on_manufacturer_data_lem tx props.manufacturer_data, gone)
            (ap some (sym (e ∙ rw gone refl)))
    ]
on_event_lem tx other_event h = unfold forward in refl

loop_lem :
    (tx : Sender) (events : List CentralEvent)
    → All IsEvent events
    → scan_loop tx events ≡ some (forward tx (frames_of_all events))
unfolding scan_loop frames_of_all
loop_lem tx [] h = unfold forward in refl
loop_lem tx (event ∷ events) (h, hs) =
    let e = forward-append tx (frames_of event) (frames_of_all events) in
    elim (Bool-cases (forward tx (frames_of event)).1) [
      | inl more ↦
          rw (on_event_lem tx event h, more)
            (loop_lem (forward tx (frames_of event)).0 events hs ∙ ap some (sym (e ∙ rw more refl)))
      | inr gone ↦ rw (on_event_lem tx event h, gone) (ap some (sym (e ∙ rw gone refl)))
    ]

abbrev after : List Frame → ℕ → Bool → Sender × Bool
after sent takes goes_on = (record { sent = sent; takes = takes }, goes_on)

forward_lem :
    (sent : List Frame) (takes : ℕ) (frames : List Frame)
    → forward (record { sent = sent; takes = takes }) frames
      ≡ after (sent ++ take takes frames) (takes - length frames) (leb (length frames) takes)
unfolding forward send
forward_lem sent zero [] = rw append-nil (ap₂ (after sent) (omega arith) (ground arith))
forward_lem sent (suc n) [] = rw append-nil (ap₂ (after sent) (omega arith) (ground arith))
forward_lem sent zero (f ∷ fs) = rw append-nil (ap₂ (after sent) (omega arith) (ground arith))
forward_lem sent (suc n) (f ∷ fs) =
    let one : suc n - 1 ≡ n = omega arith in
    let nonzero : (suc n == 0) ≡ false = ground arith in
    rw (nonzero, one, forward_lem (sent ++ (f ∷ [])) n fs, append_assoc)
      (ap₂ (after (sent ++ (f ∷ take n fs))) (omega arith) (ground arith))

-- Over events whose service UUIDs begin with a byte, `scan_loop` does not panic and sends the
-- frames that the events carry, in order: all of them, and goes on, if the receiver takes so many;
-- else as many as it takes, and returns.
pub scan_loop_lem :
    (tx : Sender) (events : List CentralEvent)
    → All IsEvent events
    → scan_loop tx events
      ≡ some (
        record {
          sent = tx.sent ++ take tx.takes (frames_of_all events);
          takes = tx.takes - length (frames_of_all events);
        },
        leb (length (frames_of_all events)) tx.takes,
      )
scan_loop_lem tx events h =
    loop_lem tx events h ∙ ap some (forward_lem tx.sent tx.takes (frames_of_all events))
