-- ===== src/Firmware/Compose.antt =====
-- `compose_task` and `commit_letter` of crates/poholos-microbit-morse/src/main.rs: one step for each
-- gesture and for the idle timer.
use poholos.Prelude.{
  List, Option, [], if◌then◌else◌, leb, length, none, not, some, ℕ, ◌++◌, ◌||◌, ◌∷◌,
}
use poholos.Text.{is_nil}
use poholos.Morse.{Composer, MorseDecoder, Symbol, dash, dot, max_morse}
use poholos.Morse

-- `MSG_LEN`.
abbrev pub msg_len : ℕ
msg_len = 204

-- `InputEvent`, and the idle timer.
pub data Event : Type 0 where
  tap : Symbol → Event
  send : Event
  clear : Event
  idle : Event

pub data Phase : Type 0 where
  letter word : Phase

pub data Show : Type 0 where
  element : Symbol → Show
  char : ℕ → Show
  error sent cleared : Show

-- What a step puts out: a glyph offered to the display, a beep, or a message for the router.
pub data Effect : Type 0 where
  glyph : Show → Effect
  sidetone : Symbol → Effect
  composed : List ℕ → Effect

-- `String::push_str` on an empty `Message`: it fits whole or is left out.
unfoldable pub push_str : List ℕ → List ℕ
push_str text = if leb (length text) msg_len then text else []

unfoldable pub last : List ℕ → Option ℕ
last [] = none
last (b ∷ []) = some b
last (b ∷ c ∷ bytes) = last (c ∷ bytes)

unfoldable pub flash : Option ℕ → List Effect
flash none = []
flash (some byte) = glyph (char byte) ∷ []

module _ (d : MorseDecoder msg_len) where
  -- The task's variables, without the time at which the timer fires.
  pub record Task : Type 0 where
    pub composer : Composer d
    pub elements : List Symbol
    pub pending : Option Phase

  unfoldable pub start : Task
  start = record { composer = Morse.new d; elements = []; pending = none }

  unfoldable pub commit_letter : Task → Task × List Effect
  commit_letter t =
      if is_nil t.elements
      then (t, [])
      else let composer = Morse.letter_gap d t.composer in
        (record t { composer = composer; elements = [] }, flash (last (Morse.message d composer)))

  unfoldable pub on_tap : Task → Symbol → Task × List Effect
  on_tap t symbol =
      if Morse.is_full d t.composer
      then (t, glyph error ∷ [])
      else if leb max_morse (length t.elements)
      then (t, glyph error ∷ [])
      else (
        record {
          composer = Morse.symbol d t.composer symbol;
          elements = t.elements ++ (symbol ∷ []);
          pending = some letter;
        },
        glyph (element symbol) ∷ sidetone symbol ∷ [],
      )

  unfoldable pub reset : Task → Task
  reset t = record { composer = Morse.clear d t.composer; elements = []; pending = none }

  unfoldable pub on_send : Task → Task × List Effect
  on_send t =
      let (t', flashed) = commit_letter t in
      let out =
        if Morse.is_empty d t'.composer
        then []
        else composed (push_str (Morse.message d t'.composer)) ∷ glyph sent ∷ [] in
      (reset t', flashed ++ out)

  unfoldable pub on_clear : Task → Task × List Effect
  on_clear t = (
    reset t,
    if not (Morse.is_empty d t.composer) || not (is_nil t.elements) then glyph cleared ∷ [] else [],
  )

  unfoldable pub on_idle : Task → Option Phase → Task × List Effect
  on_idle t none = (t, [])
  on_idle t (some letter) =
      let (t', flashed) = commit_letter t in (record t' { pending = some word }, flashed)
  on_idle t (some word) = (record t { composer = Morse.word_gap d t.composer; pending = none }, [])

  unfoldable pub step : Task → Event → Task × List Effect
  step t (tap symbol) = on_tap t symbol
  step t send = on_send t
  step t clear = on_clear t
  step t idle = on_idle t t.pending

  unfoldable pub compose_task : Task → List Event → Task × List Effect
  compose_task t [] = (t, [])
  compose_task t (event ∷ events) =
      let (t', now) = step t event in
      let (last_task, later) = compose_task t' events in (last_task, now ++ later)
