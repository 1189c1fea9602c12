-- ===== src/Keyboard/Decode.antt =====
-- What the translator makes of the sequences that a keyboard sends (scancode set 2).
use ssos.Base.{ℕ, ◌≡◌, ◌≢◌, Bool, true, false, List, [], ◌∷◌, ◌++◌}
use ssos.Keyboard.Keys.{Key, KeyboardEvent}
use ssos.Keyboard.Tables.{extended_key, plain_key}
use ssos.Keyboard.Translate.{Translator, no_event, translate_all}

-- Not one of the prefixes 0xE0, 0xF0 and 0xE1.
pub record IsCode (s : ℕ) : Type 0 where
  pub not_extended : s ≢ 0xE0
  pub not_released : s ≢ 0xF0
  pub not_pause : s ≢ 0xE1

-- No sequence is begun: no flag set, no key half read.
pub record IsIdle (t : Translator) : Type 0 where
  pub extended : t.is_extended ≡ false
  pub released : t.is_released ≡ false
  pub pause : t.pause_sequence_idx ≡ 0
  pub pressed_pending : t.is_print_screen_pressed_pending ≡ false
  pub released_pending : t.is_print_screen_released_pending ≡ false

-- What a keyboard sends for a key with this code: make or break, behind 0xE0 or not.
abbrev pub key_sequence : Bool → Bool → ℕ → List ℕ
key_sequence false false s = s ∷ []
key_sequence false true s = 0xF0 ∷ s ∷ []
key_sequence true false s = 0xE0 ∷ s ∷ []
key_sequence true true s = 0xE0 ∷ 0xF0 ∷ s ∷ []

abbrev pub key_of : Bool → ℕ → Key
key_of false s = plain_key s
key_of true s = extended_key s

-- The events before the last one of a key's sequence.
abbrev pub silence : Bool → Bool → List KeyboardEvent
silence false false = []
silence false true = no_event ∷ []
silence true false = no_event ∷ []
silence true true = no_event ∷ no_event ∷ []

abbrev pub Decoded : Translator → Bool → Bool → ℕ → Type 0
Decoded t extended released s =
    ((translate_all t (key_sequence extended released s)).1
      ≡ silence extended released
        ++ record { keycode = key_of extended s; is_released = released } ∷ [])
    × IsIdle (translate_all t (key_sequence extended released s)).0
