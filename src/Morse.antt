-- ===== src/Morse.antt =====
-- crates/poholos-morse/src/lib.rs: the composer, over the decoder of the `morse_codec` crate.
pub mod Spaces
pub mod Keeps
pub mod Spells
pub mod Clear
use poholos.Prelude.{
  Bool, List, [], false, if◌then◌else◌, leb, length, not, true, ℕ, ◌&&◌, ◌++◌, ◌<◌, ◌∷◌, ◌≡◌, ◌≢◌,
  ◌≤◌,
}
use poholos.Prelude.Words.{}
use poholos.Text.{is_nil}

pub data Symbol : Type 0 where
  dot dash : Symbol

-- What the decoder's message begins a word with: an empty character.
abbrev pub blank : ℕ
blank = 32

-- The signals of a character that the decoder can hold.
abbrev pub max_morse : ℕ
max_morse = 6

-- `MorseDecoder<MAX>` of `morse_codec`, with `MorseSignal::Short` and `Long` as the symbols: its
-- state, the character being entered, the message, and what the composer relies on. `clear` is that of the message.
pub record MorseDecoder (max_len : ℕ) : Type 1 where
  pub State : Type 0
  pub new : State
  pub add_signal_to_character : State → Symbol → State
  pub add_current_char_to_message : State → State
  pub clear : State → State
  pub message : State → List ℕ
  pub character : State → List Symbol
  pub decoded : List Symbol → ℕ
  pub message-new : message new ≡ []
  pub character-new : character new ≡ []
  pub message-add : (s : State) (x : Symbol) → message (add_signal_to_character s x) ≡ message s
  pub character-add :
      (s : State) (x : Symbol)
      → length (character s) < max_morse
      → character (add_signal_to_character s x) ≡ character s ++ (x ∷ [])
  pub character-add_full :
      (s : State) (x : Symbol)
      → max_morse ≤ length (character s)
      → character (add_signal_to_character s x) ≡ character s
  pub message-commit :
      (s : State)
      → length (message s) < max_len
      → message (add_current_char_to_message s) ≡ message s ++ (decoded (character s) ∷ [])
  pub character-commit :
      (s : State) → length (message s) < max_len → character (add_current_char_to_message s) ≡ []
  pub message-clear : (s : State) → message (clear s) ≡ []
  pub character-clear : (s : State) → character (clear s) ≡ character s
  pub decoded-nil : decoded [] ≡ blank
  pub decoded_letter : (xs : List Symbol) → xs ≢ [] → decoded xs ≢ blank
  pub decoded-IsAscii : (xs : List Symbol) → decoded xs < 128

pub record Composer {max_len : ℕ} (d : MorseDecoder max_len) : Type 0 where
  pub decoder : d.State
  pub letter_in_progress : Bool
  pub space_pending : Bool

module _ {max_len : ℕ} (d : MorseDecoder max_len) where
  unfoldable pub new : Composer d
  new = record { decoder = d.new; letter_in_progress = false; space_pending = false }

  unfoldable pub message : Composer d → List ℕ
  message c = d.message c.decoder

  unfoldable pub is_full : Composer d → Bool
  is_full c = leb max_len (length (d.message c.decoder))

  unfoldable pub symbol : Composer d → Symbol → Composer d
  symbol c x = if is_full c then c else record {
    decoder = d.add_signal_to_character c.decoder x;
    letter_in_progress = true;
    space_pending = false;
  }

  unfoldable pub letter_gap : Composer d → Composer d
  letter_gap c =
      if c.letter_in_progress
      then record c {
        decoder = d.add_current_char_to_message c.decoder;
        letter_in_progress = false;
      }
      else c

  -- The second half of `word_gap`.
  unfoldable pub put_space : Composer d → Composer d
  put_space c =
      if not c.space_pending && (not (is_nil (d.message c.decoder)) && not (is_full c))
      then record c { decoder = d.add_current_char_to_message c.decoder; space_pending = true }
      else c

  unfoldable pub word_gap : Composer d → Composer d
  word_gap c = put_space (letter_gap c)

  unfoldable pub is_empty : Composer d → Bool
  is_empty c = is_nil (d.message c.decoder) && not c.letter_in_progress

  unfoldable pub clear : Composer d → Composer d
  clear c = record {
    decoder = d.clear c.decoder;
    letter_in_progress = false;
    space_pending = false;
  }
