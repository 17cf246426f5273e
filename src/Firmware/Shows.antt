-- ===== src/Firmware/Shows.antt =====
-- What `deliver` of the boards' main.rs puts on the display.
use poholos.Prelude.{
  Bool-cases, List, [], ap, append-nil, append_assoc, arith, false, if_elim, if◌then◌else◌, inl,
  inr, leb, length, length-append, le→leb, none, refl, sym, true, ℕ, ◌++◌, ◌+◌, ◌∙◌, ◌∷◌, ◌≡◌, ◌≤◌,
}
use poholos.Text.{is_between, is_utf8, is_utf8_after, following}
use poholos.Packet.{Packet, as_slice}
use poholos.Packet.Valid.{IsPacket, header_len-ge, length-as_slice}
use poholos.Seen.Cache.{SeenCache}
use poholos.Cli.Chat.{is_dest}
use poholos.Firmware.{try_send}
use poholos.Firmware.Channels.{All-send_shedding, newest, send_shedding_lem, try_send-le}
use poholos.Firmware.Node.{
  Node, binary_text, chars, chime_queue, cut_before, cut_chars, deliver, display_len, display_queue,
  enqueue_display, hearsay_mark, push_chars, telegram_mark, text_of,
}
use poholos.Firmware.Airs.{IsNode}

joined : List (List ℕ) → List ℕ
joined [] = []
joined (c ∷ cs) = c ++ joined cs

cut_before-joined :
    (b : ℕ) (cut : List ℕ × List (List ℕ))
    → (cut_before b cut).0 ++ joined (cut_before b cut).1 ≡ b ∷ (cut.0 ++ joined cut.1)
unfolding cut_before joined
cut_before-joined b (rest, cut) = elim (Bool-cases (is_between 0x80 0xBF b)) [
  | inl inside ↦ rw inside refl
  | inr lead ↦ rw lead refl
]

cut_chars-joined : (text : List ℕ) → (cut_chars text).0 ++ joined (cut_chars text).1 ≡ text
unfolding cut_chars joined
cut_chars-joined [] = refl
cut_chars-joined (b ∷ text) =
    cut_before-joined b (cut_chars text) ∙ ap (◌∷◌ b) (cut_chars-joined text)

-- A byte that continues a character starts none.
following_inside : (b : ℕ) → is_between 0x80 0xBF b ≡ true → following b ≡ none
unfolding following
following_inside b h = ground (arith, h)

stray : (b : ℕ) (text : List ℕ) → is_between 0x80 0xBF b ≡ true → is_utf8 (b ∷ text) ≡ false
unfolding is_utf8_after
stray b text inside = rw (is_utf8_after, following_inside b inside) refl

starts : (b : ℕ) (text : List ℕ) → is_between 0x80 0xBF b ≡ false → (cut_chars (b ∷ text)).0 ≡ []
unfolding cut_chars cut_before
starts b text lead = rw lead refl

chars_lem : (text : List ℕ) → is_utf8 text ≡ true → joined (chars text) ≡ text
unfolding chars
chars_lem [] h = unfold cut_chars joined in refl
chars_lem (b ∷ text) h = elim (Bool-cases (is_between 0x80 0xBF b)) [
  | inl inside ↦ absurd (clash (sym h ∙ stray b text inside))
  | inr lead ↦
      ap (λ xs. xs ++ joined (cut_chars (b ∷ text)).1) (sym (starts b text lead))
      ∙ cut_chars-joined (b ∷ text)
]
  where
    clash : true ≡ false → ⊥
    clash e = ground (arith, e)

push_chars_lem :
    (msg : List ℕ) (cs : List (List ℕ))
    → length msg + length (joined cs) ≤ display_len
    → push_chars msg cs ≡ msg ++ joined cs
unfolding push_chars joined
push_chars_lem msg [] h = sym (append-nil msg)
push_chars_lem msg (c ∷ cs) h =
    let total = length-append c (joined cs) in
    let room : leb (length msg + length c) display_len ≡ true =
      le→leb (length msg + length c) display_len (omega (arith, h, total)) in
    rw room (
      push_chars_lem (msg ++ c) cs (rw (length-append msg c) (omega (arith, h, total)))
      ∙ append_assoc msg c (joined cs))

text_of-is_utf8 : (payload : List ℕ) → is_utf8 (text_of payload) ≡ true
unfolding text_of is_utf8_after following
text_of-is_utf8 payload =
    if_elim (λ t. is_utf8 t ≡ true) (is_utf8 payload) payload binary_text (λ e. e) (λ e. refl)

text_of_fits : (payload : List ℕ) → length payload ≤ 204 → length (text_of payload) ≤ 204
unfolding text_of
text_of_fits payload h =
    if_elim (λ t. length t ≤ 204) (is_utf8 payload) payload binary_text (λ e. h) (λ e. omega arith)

-- The whole text stands behind a mark of two bytes.
shown_whole :
    (mark payload : List ℕ)
    → length mark ≡ 2
    → length payload ≤ 204
    → push_chars mark (chars (text_of payload)) ≡ mark ++ text_of payload
shown_whole mark payload two h =
    let whole = chars_lem (text_of payload) (text_of-is_utf8 payload) in
    push_chars_lem mark (chars (text_of payload))
      (rw whole (omega (arith, two, text_of_fits payload h)))
    ∙ ap (◌++◌ mark) whole

module _ {size : ℕ} (c : SeenCache size) where
  unfoldable pub mark_of : Node c → Packet → List ℕ
  mark_of node p = if is_dest p.dest node.router.local then telegram_mark else hearsay_mark

  -- A board after a delivery: the newest text on the display, with its mark, and nothing else
  -- changed but the chimes.
  pub record Shows (node after : Node c) (p : Packet) : Type 0 where
    pub newest_text :
        after.display
        ≡ newest display_queue node.display (mark_of node p ++ text_of (as_slice p.payload))
    pub chime : after.chimes ≡ (
        if is_dest p.dest node.router.local
        then (try_send chime_queue node.chimes tt).0
        else node.chimes)
    pub same_router : after.router ≡ node.router
    pub same_seq : after.seq ≡ node.seq
    pub same_outgoing : after.outgoing ≡ node.outgoing

  pub enqueue_display-IsNode :
      (node : Node c) (msg : List ℕ)
      → IsNode c node
      → length msg ≤ display_len
      → IsNode c (enqueue_display c node msg)
  unfolding enqueue_display
  enqueue_display-IsNode node msg v h = record {
    routes = v.routes;
    local_fits = v.local_fits;
    seq_fits = v.seq_fits;
    shows = (send_shedding_lem display_queue node.display msg (omega arith) v.shows).1;
    lines_fit =
        All-send_shedding (λ m. length m ≤ display_len) display_queue node.display msg (omega arith)
          v.shows v.lines_fit h;
    chime_few = v.chime_few;
  }

  chimed : Node c → Node c
  chimed node = record node { chimes = (try_send chime_queue node.chimes tt).0 }

  chimed-IsNode : (node : Node c) → IsNode c node → IsNode c (chimed node)
  unfolding chimed
  chimed-IsNode node v = record {
    routes = v.routes;
    local_fits = v.local_fits;
    seq_fits = v.seq_fits;
    shows = v.shows;
    lines_fit = v.lines_fit;
    chime_few = try_send-le chime_queue node.chimes tt v.chime_few;
  }

  -- On a well-formed board `deliver` of a well-formed packet puts the mark of its kind and the
  -- whole text, or `<bin>` for a payload that is not UTF-8, last on the display, of which at most
  -- the oldest text goes; a chime is asked for exactly for a telegram to this node. The board
  -- stays well formed, and nothing else changes.
  pub deliver_lem :
      (node : Node c) (p : Packet)
      → IsNode c node
      → IsPacket 211 p
      → IsNode c (deliver c node p) × Shows node (deliver c node p) p
  unfolding deliver mark_of enqueue_display chimed
  deliver_lem node p v pv =
      let payload = as_slice p.payload in
      let few : length payload ≤ 204 =
        rw (length-as_slice pv.payload_fits) (omega (arith, pv.room, header_len-ge p.dest)) in
      let text = text_of payload in
      let few' = text_of_fits payload few in
      elim (Bool-cases (is_dest p.dest node.router.local)) [
        | inl me ↦
            rw (me, shown_whole telegram_mark payload refl few)
              (
                enqueue_display-IsNode (chimed node) (telegram_mark ++ text) (chimed-IsNode node v)
                    (omega (arith, few')),
                record {
                  newest_text = rw me (
                      (send_shedding_lem display_queue node.display (telegram_mark ++ text)
                        (omega arith) v.shows).0);
                  chime = rw me refl;
                  same_router = refl;
                  same_seq = refl;
                  same_outgoing = refl;
                },
              )
        | inr all ↦
            rw (all, shown_whole hearsay_mark payload refl few)
              (
                enqueue_display-IsNode node (hearsay_mark ++ text) v (omega (arith, few')),
                record {
                  newest_text = rw all (
                      (send_shedding_lem display_queue node.display (hearsay_mark ++ text)
                        (omega arith) v.shows).0);
                  chime = rw all refl;
                  same_router = refl;
                  same_seq = refl;
                  same_outgoing = refl;
                },
              )
      ]
