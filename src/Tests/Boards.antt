-- ===== src/Tests/Boards.antt =====
-- Runs of the theorems on the Morse composer and on the boards.
use poholos.Prelude.{
  All, List, [], arith, if◌then◌else◌, leb, length, le→leb, ltb, ltb-eq-false, lt→ltb, none, refl,
  some, ℕ, ◌++◌, ◌+◌, ◌<◌, ◌∷◌, ◌≡◌, ◌≢◌, ◌≤◌,
}
use poholos.Wire.{Frame, as_bytes}
use poholos.Router.{ingest}
use poholos.Morse.{MorseDecoder, Symbol, dash, dot, blank, max_morse}
use poholos.Morse
use poholos.Morse.Keeps.{
  IsComposer, calls, calls-IsComposer, symbol_call, letter_gap_call, word_gap_call, clear_call,
}
use poholos.Morse.Spells.{IsWord, IsLetter, Word, words, words_lem, spelled, symbols}
use poholos.Morse.Clear.{clear_keeps_signals}
use poholos.Firmware.Compose.{compose_task, start, tap, idle, send, msg_len}
use poholos.Firmware.Keyed.{IsTask, compose_task_lem}
use poholos.Firmware.Keyed
use poholos.Firmware.Node.{Node, on_frame}
use poholos.Firmware.Airs.{Airs, IsNode}
use poholos.Firmware.Tasks.{Obeys, on_frame-Obeys}
use poholos.Wire.Ad.{structure, frame_entry}
use poholos.Firmware.Radio.{Encoder, IsEncoder}
use poholos.Tests.Data.{ping_bytes, ping_bytes-IsByte}
use poholos.Tests.Routers.{cache, node, node-IsRouter}

-- A decoder with an alphabet of three: E, T, and the error character.
unfoldable decoded : List Symbol → ℕ
decoded [] = 32
decoded (dot ∷ []) = 69
decoded (dash ∷ []) = 84
decoded (x ∷ y ∷ xs) = 35

decoded_letter : (xs : List Symbol) → xs ≢ [] → decoded xs ≢ 32
unfolding decoded
decoded_letter [] h e = h refl
decoded_letter (dot ∷ []) h e = ground (arith, e)
decoded_letter (dash ∷ []) h e = ground (arith, e)
decoded_letter (x ∷ y ∷ xs) h e = ground (arith, e)

decoded-IsAscii : (xs : List Symbol) → decoded xs < 128
unfolding decoded
decoded-IsAscii [] = omega arith
decoded-IsAscii (dot ∷ []) = omega arith
decoded-IsAscii (dash ∷ []) = omega arith
decoded-IsAscii (x ∷ y ∷ xs) = omega arith

-- Its state: the message, and the character.
abbrev State : Type 0
State = List ℕ × List Symbol

unfoldable add : State → Symbol → State
add (text, xs) x = (text, if ltb (length xs) max_morse then xs ++ (x ∷ []) else xs)

unfoldable commit : State → State
commit (text, xs) =
    if ltb (length text) msg_len then (text ++ (decoded xs ∷ []), []) else (text, xs)

add_room : (s : State) (x : Symbol) → length s.1 < max_morse → (add s x).1 ≡ s.1 ++ (x ∷ [])
unfolding add
add_room (text, xs) x h = rw (lt→ltb (length xs) max_morse h) refl

add_full : (s : State) (x : Symbol) → max_morse ≤ length s.1 → (add s x).1 ≡ s.1
unfolding add
add_full (text, xs) x h = rw (ltb-eq-false (length xs) max_morse h) refl

commit_text : (s : State) → length s.0 < msg_len → (commit s).0 ≡ s.0 ++ (decoded s.1 ∷ [])
unfolding commit
commit_text (text, xs) h = rw (lt→ltb (length text) msg_len h) refl

commit_gone : (s : State) → length s.0 < msg_len → (commit s).1 ≡ []
unfolding commit
commit_gone (text, xs) h = rw (lt→ltb (length text) msg_len h) refl

small_decoder : MorseDecoder msg_len
unfolding add decoded
small_decoder = record {
  State = State;
  new = ([], []);
  add_signal_to_character = add;
  add_current_char_to_message = commit;
  clear = λ s. ([], s.1);
  message = λ s. s.0;
  character = λ s. s.1;
  decoded = decoded;
  message-new = refl;
  character-new = refl;
  message-add = λ s x. refl;
  character-add = add_room;
  character-add_full = add_full;
  message-commit = commit_text;
  character-commit = commit_gone;
  message-clear = λ s. refl;
  character-clear = λ s. refl;
  decoded-nil = refl;
  decoded_letter = decoded_letter;
  decoded-IsAscii = decoded-IsAscii;
}

calls-IsComposer_example : IsComposer small_decoder (
    calls small_decoder
      (Morse.new small_decoder)
      (symbol_call dot ∷ letter_gap_call ∷ word_gap_call ∷ symbol_call dash ∷ clear_call ∷ []))
calls-IsComposer_example =
    calls-IsComposer small_decoder
      (symbol_call dot ∷ letter_gap_call ∷ word_gap_call ∷ symbol_call dash ∷ clear_call ∷ [])

abbrev et_e : List Word
et_e = ((dot ∷ []) ∷ (dash ∷ []) ∷ [], 1) ∷ ((dot ∷ []) ∷ [], 0) ∷ []

et_e-IsWord : All IsWord et_e
unfolding IsWord IsLetter
et_e-IsWord = (
  (omega arith, ((omega arith, omega arith), ((omega arith, omega arith), tt))),
  ((omega arith, ((omega arith, omega arith), tt)), tt),
)

et_e_fits : length (spelled small_decoder et_e) ≤ msg_len
unfolding spelled
et_e_fits = omega arith

words_lem_example :
    Morse.message small_decoder (words small_decoder (Morse.new small_decoder) et_e)
    ≡ spelled small_decoder et_e
words_lem_example = words_lem small_decoder et_e et_e-IsWord et_e_fits

clear_keeps_signals_example :
    Morse.message small_decoder (
      Morse.letter_gap small_decoder (
        symbols small_decoder
          (Morse.clear small_decoder (symbols small_decoder (Morse.new small_decoder) (dot ∷ [])))
          (dash ∷ [])))
    ≡ small_decoder.decoded ((dot ∷ []) ++ (dash ∷ [])) ∷ []
clear_keeps_signals_example =
    clear_keeps_signals small_decoder (dot ∷ []) (dash ∷ []) (omega arith) (omega arith)
      (omega arith)

compose_task_lem_example :
    IsTask small_decoder
      (compose_task small_decoder (start small_decoder) (tap dot ∷ idle ∷ send ∷ [])).0
    × All Keyed.IsSound
        (compose_task small_decoder (start small_decoder) (tap dot ∷ idle ∷ send ∷ [])).1
compose_task_lem_example = compose_task_lem small_decoder (tap dot ∷ idle ∷ send ∷ [])

abbrev board : Node cache
board = record { router = node; seq = none; outgoing = []; display = []; chimes = [] }

board-IsNode : IsNode cache board
unfolding poholos.Router.new
board-IsNode = record {
  routes = node-IsRouter;
  local_fits = omega arith;
  seq_fits = λ n e. ground (arith, e);
  shows = omega arith;
  lines_fit = tt;
  chime_few = omega arith;
}

abbrev ping_frame : Frame
ping_frame = record { len = 9; buf = ping_bytes }

on_frame-Obeys_example :
    (after : Node cache) × (on_frame cache board ping_frame ≡ some after)
    × IsNode cache after
    × Obeys cache board after (ingest cache 211 node (as_bytes ping_frame)).1
on_frame-Obeys_example = on_frame-Obeys cache board ping_frame board-IsNode ping_bytes-IsByte

abbrev pub encode_slice : Encoder
encode_slice room payload =
    if leb (length payload + 4) room then some (structure (frame_entry payload)) else none

pub encode_slice-IsEncoder : IsEncoder encode_slice
encode_slice-IsEncoder room payload fits small = rw (le→leb (length payload + 4) room fits) refl
