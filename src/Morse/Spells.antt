-- ===== src/Morse/Spells.antt =====
-- What the composer of crates/poholos-morse/src/lib.rs makes of letters, words and pauses.
use poholos.Prelude.{
  All, Bool, List, [], and_intro, ap, append-nil, append_assoc, ap₂, arith, false, if◌then◌else◌,
  leb-eq-false, length, length-append, length-map, map, not, refl, suc, sym, true, zero, ℕ, ◌&&◌,
  ◌++◌, ◌+◌, ◌<◌, ◌∙◌, ◌∷◌, ◌≡◌, ◌≤◌,
}
use poholos.Morse.{
  Composer, MorseDecoder, Symbol, blank, is_full, letter_gap, max_morse, message, new, put_space,
  symbol, word_gap,
}
use poholos.Text.{is_nil}

unfoldable pub IsLetter : List Symbol → Type 0
IsLetter xs = (0 < length xs) × (length xs ≤ max_morse)

-- A word, and how many word pauses after the first follow it.
abbrev pub Word : Type 0
Word = List (List Symbol) × ℕ

unfoldable pub IsWord : Word → Type 0
IsWord (letters, more) = (0 < length letters) × All IsLetter letters

module _ {max_len : ℕ} (d : MorseDecoder max_len) where
  unfoldable pub symbols : Composer d → List Symbol → Composer d
  symbols c [] = c
  symbols c (x ∷ xs) = symbols (symbol d c x) xs

  -- Letters, each with its pause.
  unfoldable pub letters : Composer d → List (List Symbol) → Composer d
  letters c [] = c
  letters c (xs ∷ rest) = letters (letter_gap d (symbols c xs)) rest

  unfoldable pub word_gaps : Composer d → ℕ → Composer d
  word_gaps c zero = c
  word_gaps c (suc n) = word_gaps (word_gap d c) n

  -- Words, each with one pause or more.
  unfoldable pub words : Composer d → List Word → Composer d
  words c [] = c
  words c ((ls, more) ∷ rest) = words (word_gaps (letters c ls) (suc more)) rest

  -- The characters of the words, with one space behind each word.
  unfoldable pub spelled : List Word → List ℕ
  spelled [] = []
  spelled ((ls, more) ∷ rest) = (map d.decoded ls ++ (blank ∷ [])) ++ spelled rest

  -- Within a letter, and between letters.
  pub record Entering (c : Composer d) (text : List ℕ) (xs : List Symbol) : Type 0 where
    pub told : message d c ≡ text
    pub held : d.character c.decoder ≡ xs
    pub going : c.letter_in_progress ≡ true
    pub none_pending : c.space_pending ≡ false

  pub record Between (c : Composer d) (text : List ℕ) (pending : Bool) : Type 0 where
    pub told : message d c ≡ text
    pub held : d.character c.decoder ≡ []
    pub shut : c.letter_in_progress ≡ false
    pub awaits : c.space_pending ≡ pending

  pub not_full : (c : Composer d) → length (message d c) < max_len → is_full d c ≡ false
  unfolding is_full message
  not_full c h = leb-eq-false max_len (length (message d c)) h

  pub symbol_enters :
      (c : Composer d) (x : Symbol) (text : List ℕ) (xs : List Symbol)
      → message d c ≡ text
      → d.character c.decoder ≡ xs
      → length text < max_len
      → length xs < max_morse
      → Entering (symbol d c x) text (xs ++ (x ∷ []))
  unfolding symbol message
  symbol_enters c x text xs told held room few = rw (not_full c (rw told room)) (record {
    told = d.message-add c.decoder x ∙ told;
    held = d.character-add c.decoder x (rw held few) ∙ ap (λ ys. ys ++ (x ∷ [])) held;
    going = refl;
    none_pending = refl;
  })

  pub symbols_enter :
      (c : Composer d) (more : List Symbol) (text : List ℕ) (xs : List Symbol)
      → Entering c text xs
      → length text < max_len
      → length xs + length more ≤ max_morse
      → Entering (symbols c more) text (xs ++ more)
  unfolding symbols
  symbols_enter c [] text xs v room few = rw (append-nil xs) v
  symbols_enter c (x ∷ more) text xs v room few =
      let step = symbol_enters c x text xs v.told v.held room (omega (arith, few)) in
      rw⁻¹ (append_assoc xs (x ∷ []) more) (
        symbols_enter (symbol d c x) more text (xs ++ (x ∷ [])) step room
          (rw (length-append xs (x ∷ [])) (omega (arith, few))))

  letter_spells :
      (c : Composer d) (x : Symbol) (xs : List Symbol) (text : List ℕ) (pending : Bool)
      → Between c text pending
      → length text < max_len
      → length (x ∷ xs) ≤ max_morse
      → Between (letter_gap d (symbols c (x ∷ xs))) (text ++ (d.decoded (x ∷ xs) ∷ [])) false
  unfolding symbols letter_gap message
  letter_spells c x xs text pending v room few =
      let first = symbol_enters c x text [] v.told v.held room (omega arith) in
      let all = symbols_enter (symbol d c x) xs text (x ∷ []) first room (omega (arith, few)) in
      let s = (symbols (symbol d c x) xs).decoder in
      let free : length (d.message s) < max_len = rw all.told room in
      rw all.going (record {
        told = d.message-commit s free ∙ ap₂ (λ t ys. t ++ (d.decoded ys ∷ [])) all.told all.held;
        held = d.character-commit s free;
        shut = refl;
        awaits = all.none_pending;
      })

  letters_spell :
      (c : Composer d) (ls : List (List Symbol)) (text : List ℕ) (pending : Bool)
      → Between c text pending
      → All IsLetter ls
      → 0 < length ls
      → length text + length ls ≤ max_len
      → Between (letters c ls) (text ++ map d.decoded ls) false
  unfolding letters IsLetter
  letters_spell c [] text pending v hs some_one room = absurd (omega (arith, some_one))
  letters_spell c ([] ∷ ls) text pending v (h, hs) some_one room = absurd (omega (arith, h.0))
  letters_spell c ((x ∷ xs) ∷ []) text pending v (h, hs) some_one room =
      letter_spells c x xs text pending v (omega (arith, room)) h.1
  letters_spell c ((x ∷ xs) ∷ (ys ∷ ls)) text pending v (h, hs) some_one room =
      let ch = d.decoded (x ∷ xs) in
      let step = letter_spells c x xs text pending v (omega (arith, room)) h.1 in
      rw⁻¹ (append_assoc text (ch ∷ []) (map d.decoded (ys ∷ ls))) (
        letters_spell (letter_gap d (symbols c (x ∷ xs))) (ys ∷ ls) (text ++ (ch ∷ [])) false step
          hs (omega arith) (rw (length-append text (ch ∷ [])) (omega (arith, room))))

  word_gap_shut : (c : Composer d) → c.letter_in_progress ≡ false → word_gap d c ≡ put_space d c
  unfolding word_gap letter_gap
  word_gap_shut c shut =
      ap
        (λ b. put_space d (
          if b
          then record c {
            decoder = d.add_current_char_to_message c.decoder;
            letter_in_progress = false;
          }
          else c))
        shut

  spaced : Composer d → Composer d
  spaced c = record c { decoder = d.add_current_char_to_message c.decoder; space_pending = true }

  needs_space : Composer d → Bool
  needs_space c = not c.space_pending && (not (is_nil (message d c)) && not (is_full d c))

  put_space_if : (c : Composer d) → put_space d c ≡ (if needs_space c then spaced c else c)
  unfolding put_space spaced needs_space message
  put_space_if c = refl

  not-is_nil : (xs : List ℕ) → 0 < length xs → not (is_nil xs) ≡ true
  not-is_nil [] h = absurd (omega (arith, h))
  not-is_nil (x ∷ xs) h = refl

  -- The first pause behind a word makes a space, the others nothing.
  word_gap_spells :
      (c : Composer d) (text : List ℕ)
      → Between c text false
      → 0 < length text
      → length text < max_len
      → Between (word_gap d c) (text ++ (blank ∷ [])) true
  unfolding message spaced needs_space
  word_gap_spells c text v more room =
      let free : length (message d c) < max_len = rw v.told room in
      let put : needs_space c ≡ true =
        and_intro (not c.space_pending) (not (is_nil (message d c)) && not (is_full d c))
          (ap not v.awaits)
          (and_intro (not (is_nil (message d c))) (not (is_full d c))
            (not-is_nil (message d c) (rw v.told more)) (ap not (not_full c free))) in
      let same : word_gap d c ≡ spaced c =
        word_gap_shut c v.shut ∙ put_space_if c ∙ ap (λ b. if b then spaced c else c) put in
      rw same (record {
        told =
            d.message-commit c.decoder free
            ∙ ap₂ (λ t b. t ++ (b ∷ [])) v.told (ap d.decoded v.held ∙ d.decoded-nil);
        held = d.character-commit c.decoder free;
        shut = v.shut;
        awaits = refl;
      })

  word_gap_again :
      (c : Composer d) (text : List ℕ) → Between c text true → Between (word_gap d c) text true
  unfolding needs_space
  word_gap_again c text v =
      let kept : needs_space c ≡ false =
        ap (λ b. not b && (not (is_nil (message d c)) && not (is_full d c))) v.awaits in
      rw (word_gap_shut c v.shut ∙ put_space_if c ∙ ap (λ b. if b then spaced c else c) kept) v

  word_gaps_keep :
      (c : Composer d) (n : ℕ) (text : List ℕ)
      → Between c text true
      → Between (word_gaps c n) text true
  unfolding word_gaps
  word_gaps_keep c zero text v = v
  word_gaps_keep c (suc n) text v = word_gaps_keep (word_gap d c) n text (word_gap_again c text v)

  spelled_len :
      (w : Word) (ws : List Word) → length (spelled (w ∷ ws)) ≡ length w.0 + 1 + length (spelled ws)
  unfolding spelled
  spelled_len (ls, more) ws =
      rw
        (
          length-append (map d.decoded ls ++ (blank ∷ [])) (spelled ws),
          length-append (map d.decoded ls) (blank ∷ []),
          length-map d.decoded ls,
        )
        refl

  words_spell :
      (c : Composer d) (ws : List Word) (text : List ℕ) (pending : Bool)
      → Between c text pending
      → All IsWord ws
      → length text + length (spelled ws) ≤ max_len
      → message d (words c ws) ≡ text ++ spelled ws
  unfolding words spelled IsWord word_gaps
  words_spell c [] text pending v hs room = v.told ∙ sym (append-nil text)
  words_spell c ((ls, more) ∷ ws) text pending v (h, hs) room =
      let total = spelled_len (ls, more) ws in
      let word = map d.decoded ls in
      let size : length (text ++ word) ≡ length text + length ls =
        length-append text word ∙ ap (◌+◌ (length text)) (length-map d.decoded ls) in
      let typed_in = letters_spell c ls text pending v h.1 h.0 (omega (arith, room, total)) in
      let spaced_out =
        word_gap_spells (letters c ls) (text ++ word) typed_in (omega (arith, size, h.0))
          (omega (arith, size, total, room)) in
      let done =
        word_gaps_keep (word_gap d (letters c ls)) more ((text ++ word) ++ (blank ∷ []))
          spaced_out in
      words_spell (word_gaps (word_gap d (letters c ls)) more) ws ((text ++ word) ++ (blank ∷ []))
        true done hs
        (rw (length-append (text ++ word) (blank ∷ [])) (omega (arith, size, total, room)))
      ∙ append_assoc (text ++ word) (blank ∷ []) (spelled ws)
      ∙ append_assoc text word (blank ∷ spelled ws)
      ∙ ap (◌++◌ text) (sym (append_assoc word (blank ∷ []) (spelled ws)))

  -- Words of letters of one to six signals, keyed into a new composer with a letter pause behind
  -- each letter and one word pause or more behind each word, give the message of their decoded
  -- letters with one space behind each word, if that fits the limit.
  pub words_lem :
      (ws : List Word)
      → All IsWord ws
      → length (spelled ws) ≤ max_len
      → message d (words (new d) ws) ≡ spelled ws
  unfolding new message
  words_lem ws hs room =
      words_spell (new d) ws [] false
        (record { told = d.message-new; held = d.character-new; shut = refl; awaits = refl }) hs
        (omega (arith, room))
