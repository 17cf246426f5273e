-- ===== src/Morse/Clear.antt =====
-- What `clear` of crates/poholos-morse/src/lib.rs leaves in the decoder.
use poholos.Prelude.{
  List, [], append_assoc, ap₂, arith, length, length-append, ℕ, ◌++◌, ◌+◌, ◌<◌, ◌∙◌, ◌∷◌, ◌≡◌, ◌≤◌,
}
use poholos.Morse.{MorseDecoder, Symbol, clear, letter_gap, max_morse, message, new, symbol}
use poholos.Morse.Spells.{symbol_enters, symbols, symbols_enter}

module _ {max_len : ℕ} (d : MorseDecoder max_len) where
  entered :
      (xs : List Symbol)
      → length xs ≤ max_morse
      → 0 < max_len
      → d.character (symbols d (new d) xs).decoder ≡ xs
  unfolding symbols new
  entered [] few room = d.character-new
  entered (x ∷ xs) few room =
      (symbols_enter d (symbol d (new d) x) xs [] (x ∷ [])
        (symbol_enters d (new d) x [] [] (unfold message in d.message-new) d.character-new
          (omega (arith, room)) (omega arith))
        (omega (arith, room)) (omega (arith, few))).held

  -- Signals entered before a `clear` stay with the decoder: with the signals entered after it, if
  -- there is one and they are six at most in all, they make up the letter that the next letter
  -- pause commits.
  pub clear_keeps_signals :
      (xs ys : List Symbol)
      → 0 < length ys
      → length xs + length ys ≤ max_morse
      → 0 < max_len
      → message d (letter_gap d (symbols d (clear d (symbols d (new d) xs)) ys))
        ≡ d.decoded (xs ++ ys) ∷ []
  unfolding symbols clear letter_gap message
  clear_keeps_signals xs [] some_one few room = absurd (omega (arith, some_one))
  clear_keeps_signals xs (y ∷ ys) some_one few room =
      let before = symbols d (new d) xs in
      let c = clear d before in
      let held = d.character-clear before.decoder ∙ entered xs (omega (arith, few)) room in
      let first =
        symbol_enters d c y [] xs (d.message-clear before.decoder) held (omega (arith, room))
          (omega (arith, few)) in
      let all =
        symbols_enter d (symbol d c y) ys [] (xs ++ (y ∷ [])) first (omega (arith, room))
          (rw (length-append xs (y ∷ [])) (omega (arith, few))) in
      let s = (symbols d (symbol d c y) ys).decoder in
      let free : length (d.message s) < max_len = rw all.told (omega (arith, room)) in
      rw all.going (
        d.message-commit s free
        ∙ ap₂ (λ t zs. t ++ (d.decoded zs ∷ [])) all.told (all.held ∙ append_assoc xs (y ∷ []) ys))
