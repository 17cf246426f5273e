-- ===== src/Morse/Keeps.antt =====
-- What the composer of crates/poholos-morse/src/lib.rs keeps true of its message.
use poholos.Prelude.{
  ==_iff, All, All-append, Bool, Bool-cases, List, [], and_true, arith, false, if_elim, inl, inr,
  leb, length, length-append, ltb, ltb-false→le, ltb→lt, not, not-true, refl, subst, sym, true, ℕ,
  ◌&&◌, ◌++◌, ◌<◌, ◌==◌, ◌||◌, ◌∙◌, ◌∷◌, ◌≡◌, ◌≢◌, ◌≤◌,
}
use poholos.Text.{is_nil}
use poholos.Morse.Spaces.{ends_open, ends_open-append, is_spaced, is_spaced-append}
use poholos.Morse.{
  Composer, MorseDecoder, Symbol, blank, clear, is_full, letter_gap, max_morse, message, new,
  put_space, symbol, word_gap,
}

is_nil-false : (xs : List ℕ) → is_nil xs ≡ false → xs ≢ []
is_nil-false [] h e = ground (arith, h)
is_nil-false (x ∷ xs) h e = ground (arith, e)

append_ne_nil : {A : Type 0} (xs : List A) (x : A) → (xs ++ (x ∷ [])) ≢ []
append_ne_nil [] x e = ground (arith, e)
append_ne_nil (y ∷ xs) x e = ground (arith, e)

module _ {max_len : ℕ} (d : MorseDecoder max_len) where
  -- Between letters the decoder holds no signals once there is a message, and no space ends the
  -- message unless one is pending. Within a letter there is room for it, and a signal.
  pub record IsComposer (c : Composer d) : Type 0 where
    pub fits : length (message d c) ≤ max_len
    pub ascii : All (λ b. b < 128) (message d c)
    pub spaced : is_spaced true (message d c) ≡ true
    pub room : c.letter_in_progress ≡ true → length (message d c) < max_len
    pub signals : c.letter_in_progress ≡ true → d.character c.decoder ≢ []
    pub between : c.letter_in_progress ≡ false → message d c ≢ [] → d.character c.decoder ≡ []
    pub closed :
        c.letter_in_progress ≡ false
        → c.space_pending ≡ false
        → message d c ≢ []
        → ends_open true (message d c) ≡ false

  pub new-IsComposer : IsComposer (new d)
  unfolding new message
  new-IsComposer = record {
    fits = rw d.message-new (omega arith);
    ascii = rw d.message-new tt;
    spaced = rw d.message-new (unfold is_spaced in refl);
    room = λ h. ground (arith, h);
    signals = λ h. ground (arith, h);
    between = λ h e. d.character-new;
    closed = λ h p e. absurd (e d.message-new);
  }

  pub clear-IsComposer : (c : Composer d) → IsComposer (clear d c)
  unfolding clear message
  clear-IsComposer c = record {
    fits = rw (d.message-clear c.decoder) (omega arith);
    ascii = rw (d.message-clear c.decoder) tt;
    spaced = rw (d.message-clear c.decoder) (unfold is_spaced in refl);
    room = λ h. ground (arith, h);
    signals = λ h. ground (arith, h);
    between = λ h e. absurd (e (d.message-clear c.decoder));
    closed = λ h p e. absurd (e (d.message-clear c.decoder));
  }

  -- A signal is never lost from an empty character.
  add_ne_nil : (s : d.State) (x : Symbol) → d.character (d.add_signal_to_character s x) ≢ []
  add_ne_nil s x = elim (Bool-cases (ltb (length (d.character s)) max_morse)) [
    | inl room ↦
        rw (d.character-add s x (ltb→lt (length (d.character s)) max_morse room))
          (append_ne_nil (d.character s) x)
    | inr full ↦
        let big = ltb-false→le (length (d.character s)) max_morse full in
        rw (d.character-add_full s x big) (λ e. ground (arith, subst (λ xs. 6 ≤ length xs) e big))
  ]

  pub symbol-IsComposer : (c : Composer d) (x : Symbol) → IsComposer c → IsComposer (symbol d c x)
  unfolding symbol message is_full
  symbol-IsComposer c x v = elim (Bool-cases (leb max_len (length (d.message c.decoder)))) [
    | inl full ↦ rw full v
    | inr more ↦
        let same = d.message-add c.decoder x in
        rw more (record {
          fits = rw same v.fits;
          ascii = rw same v.ascii;
          spaced = rw same v.spaced;
          room = λ h. rw same (ground (arith, more));
          signals = λ h. add_ne_nil c.decoder x;
          between = λ h e. ground (arith, h);
          closed = λ h p e. ground (arith, h);
        })
  ]

  -- A character is committed: a space only where none is just before, and then one is pending.
  commit :
      (c : Composer d) (next : Bool)
      → IsComposer c
      → length (message d c) < max_len
      → ((d.decoded (d.character c.decoder) == blank) ≡ true
          → (next ≡ true) × (ends_open true (message d c) ≡ false))
      → IsComposer (record {
        decoder = d.add_current_char_to_message c.decoder;
        letter_in_progress = false;
        space_pending = next;
      })
  unfolding message
  commit c next v room gap =
      let text = d.message c.decoder in
      let ch = d.decoded (d.character c.decoder) in
      let same = d.message-commit c.decoder room in
      record {
        fits = rw (same, length-append text (ch ∷ [])) (omega (arith, room));
        ascii = rw same (
            All-append (λ b. b < 128) text (ch ∷ []) v.ascii
              (d.decoded-IsAscii (d.character c.decoder), tt));
        spaced =
            rw (same, is_spaced-append true text ch, v.spaced)
              (allowed (ch == blank) (ends_open true text) gap);
        room = λ h. ground (arith, h);
        signals = λ h. ground (arith, h);
        between = λ h e. d.character-commit c.decoder room;
        closed = λ h p e.
            rw (same, ends_open-append true text ch)
              (ends (ch == blank) (ends_open true text) gap p);
      }
    where
      allowed : (b o : Bool) → (b ≡ true → (next ≡ true) × (o ≡ false)) → (not b || not o) ≡ true
      allowed true o h = rw (h refl).1 refl
      allowed false o h = refl

      ends : (b o : Bool) → (b ≡ true → (next ≡ true) × (o ≡ false)) → next ≡ false → b ≡ false
      ends true o h p = sym (h refl).0 ∙ p
      ends false o h p = refl

  pub letter_gap-IsComposer : (c : Composer d) → IsComposer c → IsComposer (letter_gap d c)
  unfolding letter_gap
  letter_gap-IsComposer c v =
      if_elim IsComposer c.letter_in_progress
        (record c { decoder = d.add_current_char_to_message c.decoder; letter_in_progress = false })
        c
        (λ going. commit c c.space_pending v (v.room going) (λ b. absurd (
          d.decoded_letter (d.character c.decoder) (v.signals going)
            ((==_iff (d.decoded (d.character c.decoder)) blank).0 b))))
        (λ shut. v)

  pub letter_gap_closes : (c : Composer d) → (letter_gap d c).letter_in_progress ≡ false
  unfolding letter_gap
  letter_gap_closes c = elim (Bool-cases c.letter_in_progress) [
    | inl going ↦ rw going refl
    | inr shut ↦ rw shut refl
  ]

  pub put_space-IsComposer :
      (c : Composer d) → c.letter_in_progress ≡ false → IsComposer c → IsComposer (put_space d c)
  unfolding put_space is_full message
  put_space-IsComposer c shut v =
      if_elim IsComposer (not c.space_pending && (not (is_nil (message d c)) && not (is_full d c)))
        (record c { decoder = d.add_current_char_to_message c.decoder; space_pending = true }) c
        (λ put.
          let (once, rest) =
            and_true (not c.space_pending) (not (is_nil (message d c)) && not (is_full d c)) put in
          let (more, room) = and_true (not (is_nil (message d c))) (not (is_full d c)) rest in
          subst
            (λ b. IsComposer (record {
              decoder = d.add_current_char_to_message c.decoder;
              letter_in_progress = b;
              space_pending = true;
            }))
            (sym shut)
            (commit c true v (ground (arith, room)) (λ b. (
              refl,
              v.closed shut (not-true c.space_pending once)
                  (is_nil-false (message d c) (not-true (is_nil (message d c)) more)),
            ))))
        (λ kept. v)

  pub word_gap-IsComposer : (c : Composer d) → IsComposer c → IsComposer (word_gap d c)
  unfolding word_gap
  word_gap-IsComposer c v =
      put_space-IsComposer (letter_gap d c) (letter_gap_closes c) (letter_gap-IsComposer c v)

  pub word_gap_closes : (c : Composer d) → (word_gap d c).letter_in_progress ≡ false
  unfolding word_gap put_space
  word_gap_closes c =
      let e = letter_gap d c in
      if_elim (λ (x : Composer d). x.letter_in_progress ≡ false)
        (not e.space_pending && (not (is_nil (d.message e.decoder)) && not (is_full d e)))
        (record e { decoder = d.add_current_char_to_message e.decoder; space_pending = true }) e
        (λ put. letter_gap_closes c) (λ kept. letter_gap_closes c)

  pub symbol_opens :
      (c : Composer d) (x : Symbol) → is_full d c ≡ false → (symbol d c x).letter_in_progress ≡ true
  unfolding symbol
  symbol_opens c x room = rw room refl

-- The calls of a client.
pub data Call : Type 0 where
  symbol_call : Symbol → Call
  letter_gap_call word_gap_call clear_call : Call

module _ {max_len : ℕ} (d : MorseDecoder max_len) where
  unfoldable pub call : Composer d → Call → Composer d
  call c (symbol_call x) = symbol d c x
  call c letter_gap_call = letter_gap d c
  call c word_gap_call = word_gap d c
  call c clear_call = clear d c

  unfoldable pub calls : Composer d → List Call → Composer d
  calls c [] = c
  calls c (x ∷ xs) = calls (call c x) xs

  call-IsComposer : (c : Composer d) (x : Call) → IsComposer d c → IsComposer d (call c x)
  unfolding call
  call-IsComposer c (symbol_call x) v = symbol-IsComposer d c x v
  call-IsComposer c letter_gap_call v = letter_gap-IsComposer d c v
  call-IsComposer c word_gap_call v = word_gap-IsComposer d c v
  call-IsComposer c clear_call v = clear-IsComposer d c

  calls_keep : (c : Composer d) (xs : List Call) → IsComposer d c → IsComposer d (calls c xs)
  unfolding calls
  calls_keep c [] v = v
  calls_keep c (x ∷ xs) v = calls_keep (call c x) xs (call-IsComposer c x v)

  -- Any sequence of calls on a new composer leaves a message within the limit, of ASCII
  -- characters, of which no space leads or is doubled; a letter in progress has room and a signal,
  -- and between letters no signals are left once there is a message.
  pub calls-IsComposer : (xs : List Call) → IsComposer d (calls (new d) xs)
  calls-IsComposer xs = calls_keep (new d) xs (new-IsComposer d)
