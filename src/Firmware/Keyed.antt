-- ===== src/Firmware/Keyed.antt =====
-- What `compose_task` of crates/poholos-microbit-morse/src/main.rs keeps, and the messages that it
-- hands to the router.
use poholos.Prelude.{
  All, All-append, Bool, Bool-cases, List, Option, [], ap, arith, false, if_elim, if◌then◌else◌,
  inl, inr, leb, length, length-append, le→leb, none, not, refl, some, subst, sym, true, ℕ, ◌&&◌,
  ◌++◌, ◌<◌, ◌||◌, ◌∙◌, ◌∷◌, ◌≡◌, ◌≢◌, ◌≤◌,
}
use poholos.Text.{is_nil}
use poholos.Morse.{Composer, MorseDecoder, Symbol, max_morse}
use poholos.Morse
use poholos.Morse.Spaces.{is_spaced}
use poholos.Morse.Keeps.{
  IsComposer, clear-IsComposer, letter_gap-IsComposer, letter_gap_closes, new-IsComposer,
  symbol-IsComposer, symbol_opens, word_gap-IsComposer, word_gap_closes,
}
use poholos.Firmware.Compose.{
  Effect, Event, Phase, Task, clear, cleared, commit_letter, compose_task, composed, element, error,
  flash, glyph, idle, last, letter, msg_len, on_clear, on_idle, on_send, on_tap, push_str, reset,
  send, sent, sidetone, start, step, tap, word,
}

-- A message: not empty, within the limit, of ASCII characters, with single spaces inside.
pub record IsText (text : List ℕ) : Type 0 where
  pub some_char : 0 < length text
  pub fits : length text ≤ msg_len
  pub ascii : All (λ b. b < 128) text
  pub spaced : is_spaced true text ≡ true

unfoldable pub IsSound : Effect → Type 0
IsSound (glyph show) = Unit {0}
IsSound (sidetone symbol) = Unit {0}
IsSound (composed text) = IsText text

flash-IsSound : (o : Option ℕ) → All IsSound (flash o)
unfolding flash IsSound
flash-IsSound none = tt
flash-IsSound (some b) = (tt, tt)

module _ (d : MorseDecoder msg_len) where
  -- A letter is in progress exactly while there are elements; they are within the limit, and while
  -- there are some the timer of a letter is set.
  pub record IsTask (t : Task d) : Type 0 where
    pub composes : IsComposer d t.composer
    pub few : length t.elements ≤ max_morse
    pub opened : t.composer.letter_in_progress ≡ not (is_nil t.elements)
    pub armed : is_nil t.elements ≡ false → t.pending ≡ some letter

  -- A step leaves a well-formed task and sound effects.
  abbrev Keeps : Task d × List Effect → Type 0
  Keeps x = IsTask x.0 × All IsSound x.1

  pub start-IsTask : IsTask (start d)
  unfolding start
  start-IsTask = record {
    composes = new-IsComposer d;
    few = omega arith;
    opened = unfold Morse.new in refl;
    armed = λ h. ground (arith, h);
  }

  reset-IsTask : (t : Task d) → IsTask (reset d t)
  unfolding reset
  reset-IsTask t = record {
    composes = clear-IsComposer d t.composer;
    few = omega arith;
    opened = unfold Morse.clear in refl;
    armed = λ h. ground (arith, h);
  }

  -- After a commit nothing is in progress.
  record Committed (t : Task d) : Type 0 where
    pub composes : IsComposer d t.composer
    pub elements_gone : t.elements ≡ []
    pub shut : t.composer.letter_in_progress ≡ false

  is_nil-true : (xs : List Symbol) → is_nil xs ≡ true → xs ≡ []
  is_nil-true [] h = refl
  is_nil-true (x ∷ xs) h = ground (arith, h)

  commit_letter-Committed :
      (t : Task d) → IsTask t → Committed (commit_letter d t).0 × All IsSound (commit_letter d t).1
  unfolding commit_letter
  commit_letter-Committed t v =
      if_elim (λ (x : Task d × List Effect). Committed x.0 × All IsSound x.1) (is_nil t.elements)
        (t, [])
        (
          record t { composer = Morse.letter_gap d t.composer; elements = [] },
          flash (last (Morse.message d (Morse.letter_gap d t.composer))),
        )
        (λ none_yet. (
          record {
            composes = v.composes;
            elements_gone = is_nil-true t.elements none_yet;
            shut = v.opened ∙ ap not none_yet;
          },
          tt,
        ))
        (λ going. (
          record {
            composes = letter_gap-IsComposer d t.composer v.composes;
            elements_gone = refl;
            shut = letter_gap_closes d t.composer;
          },
          flash-IsSound (last (Morse.message d (Morse.letter_gap d t.composer))),
        ))

  Committed-IsTask :
      (t : Task d) (pending : Option Phase) → Committed t → IsTask (record t { pending = pending })
  Committed-IsTask t pending v = record {
    composes = v.composes;
    few = rw v.elements_gone (omega arith);
    opened = rw v.elements_gone v.shut;
    armed = λ h. ground (arith, subst (λ xs. is_nil xs ≡ false) v.elements_gone h);
  }

  -- The message of a committed task that is not empty.
  message-IsText :
      (t : Task d)
      → Committed t
      → Morse.is_empty d t.composer ≡ false
      → IsText (push_str (Morse.message d t.composer))
  unfolding Morse.is_empty push_str Morse.message
  message-IsText t v h =
      let text = Morse.message d t.composer in
      let filled : is_nil text ≡ false = is_nil_and text (ap not v.shut) h in
      rw (le→leb (length text) 204 v.composes.fits) (record {
        some_char = more_than_nil text filled;
        fits = v.composes.fits;
        ascii = v.composes.ascii;
        spaced = v.composes.spaced;
      })
    where
      is_nil_and :
          {b : Bool} (xs : List ℕ) → b ≡ true → (is_nil xs && b) ≡ false → is_nil xs ≡ false
      is_nil_and [] e h = sym e ∙ h
      is_nil_and (x ∷ xs) e h = refl

      more_than_nil : (xs : List ℕ) → is_nil xs ≡ false → 0 < length xs
      more_than_nil [] h = ground (arith, h)
      more_than_nil (x ∷ xs) h = omega arith

  on_send-Keeps : (t : Task d) → IsTask t → Keeps (on_send d t)
  unfolding on_send IsSound
  on_send-Keeps t v =
      let (done, flashed) = commit_letter-Committed t v in
      let t' = (commit_letter d t).0 in
      let out = composed (push_str (Morse.message d t'.composer)) ∷ glyph sent ∷ [] in
      (
        reset-IsTask t',
        All-append IsSound (commit_letter d t).1 (if Morse.is_empty d t'.composer then [] else out)
            flashed
            (if_elim (All IsSound) (Morse.is_empty d t'.composer) [] out (λ empty. tt)
              (λ filled. (message-IsText t' done filled, (tt, tt)))),
      )

  entered : Task d → Symbol → Task d × List Effect
  entered t symbol = (
    record {
      composer = Morse.symbol d t.composer symbol;
      elements = t.elements ++ (symbol ∷ []);
      pending = some letter;
    },
    glyph (element symbol) ∷ sidetone symbol ∷ [],
  )

  accepted : Task d → Symbol → Task d × List Effect
  accepted t symbol =
      if leb max_morse (length t.elements) then (t, glyph error ∷ []) else entered t symbol

  on_tap-Keeps : (t : Task d) (symbol : Symbol) → IsTask t → Keeps (on_tap d t symbol)
  unfolding on_tap IsSound accepted entered
  on_tap-Keeps t symbol v =
      if_elim Keeps (Morse.is_full d t.composer) (t, glyph error ∷ []) (accepted t symbol)
        (λ full. (v, (tt, tt)))
        (λ room.
          if_elim Keeps (leb max_morse (length t.elements)) (t, glyph error ∷ []) (entered t symbol)
            (λ long. (v, (tt, tt)))
            (λ more. (
              record {
                composes = symbol-IsComposer d t.composer symbol v.composes;
                few =
                    rw (length-append t.elements (symbol ∷ []))
                      (omega (arith, few_left (length t.elements) more));
                opened =
                    symbol_opens d t.composer symbol room
                    ∙ ap not (sym (is_nil-append t.elements symbol));
                armed = λ h. refl;
              },
              (tt, (tt, tt)),
            )))
    where
      few_left : (n : ℕ) → leb 6 n ≡ false → n < 6
      few_left n h = ground (arith, h)

      is_nil-append : (xs : List Symbol) (x : Symbol) → is_nil (xs ++ (x ∷ [])) ≡ false
      is_nil-append [] x = refl
      is_nil-append (y ∷ xs) x = refl

  on_clear-Keeps : (t : Task d) → IsTask t → Keeps (on_clear d t)
  unfolding on_clear IsSound
  on_clear-Keeps t v = (
    reset-IsTask t,
    if_elim (All IsSound) (not (Morse.is_empty d t.composer) || not (is_nil t.elements))
        (glyph cleared ∷ []) [] (λ h. (tt, tt)) (λ h. tt),
  )

  letter-ne-word : some letter ≢ some word
  letter-ne-word h = ground (arith, h)

  on_idle-Keeps : (t : Task d) (p : Option Phase) → IsTask t → t.pending ≡ p → Keeps (on_idle d t p)
  unfolding on_idle IsSound
  on_idle-Keeps t none v e = (v, tt)
  on_idle-Keeps t (some letter) v e =
      let (done, flashed) = commit_letter-Committed t v in
      (Committed-IsTask (commit_letter d t).0 (some word) done, flashed)
  on_idle-Keeps t (some word) v e = elim (Bool-cases (is_nil t.elements)) [
    | inl none_left ↦ (
      record {
        composes = word_gap-IsComposer d t.composer v.composes;
        few = v.few;
        opened = word_gap_closes d t.composer ∙ ap not (sym none_left);
        armed = λ h. ground (arith, h, none_left);
      },
      tt,
    )
    | inr left ↦ absurd (letter-ne-word (sym (v.armed left) ∙ e))
  ]

  step-Keeps : (t : Task d) (event : Event) → IsTask t → Keeps (step d t event)
  unfolding step
  step-Keeps t (tap symbol) v = on_tap-Keeps t symbol v
  step-Keeps t send v = on_send-Keeps t v
  step-Keeps t clear v = on_clear-Keeps t v
  step-Keeps t idle v = on_idle-Keeps t t.pending v refl

  keeps : (t : Task d) (events : List Event) → IsTask t → Keeps (compose_task d t events)
  unfolding compose_task
  keeps t [] v = (v, tt)
  keeps t (event ∷ events) v =
      let (v', now) = step-Keeps t event v in
      let (w, later) = keeps (step d t event).0 events v' in
      (
        w,
        All-append IsSound (step d t event).1 (compose_task d (step d t event).0 events).1 now
            later,
      )

  -- After any sequence of gestures and idle timeouts a letter is in progress exactly while there
  -- are elements, there are at most six, while there are some the letter's timer is set, and the
  -- composer is well formed. Each message handed to the router has 1 to 204 ASCII characters, of
  -- which no space leads or is doubled.
  pub compose_task_lem :
      (events : List Event)
      → IsTask (compose_task d (start d) events).0 × All IsSound (compose_task d (start d) events).1
  compose_task_lem events = keeps (start d) events start-IsTask
