-- ===== src/Keyboard/PrintScreen.antt =====
-- Print Screen: its events return before the reset of the prefix flags.
use ssos.Base.{ℕ, ◌≡◌, ◌≢◌, refl, arith, false, [], ◌∷◌}
use ssos.Keyboard.Keys.{key_none, key_print_screen}
use ssos.Keyboard.Tables.{extended_key}
use ssos.Keyboard.Tables.Absent.{extended_key-print_screen, plain_key-print_screen}
use ssos.Keyboard.Translate.{
  Translator, no_event, switch_scancode, pause_step, translate_scancode, translate_all,
}
use ssos.Keyboard.Decode.{IsCode, IsIdle}

-- A call that gives KEY_PRINT_SCREEN leaves both prefix flags as they were.
translate_scancode-print_screen :
    (t : Translator) (s : ℕ)
    → (translate_scancode t s).1.keycode ≡ key_print_screen
    → ((translate_scancode t s).0.is_extended ≡ t.is_extended)
      × ((translate_scancode t s).0.is_released ≡ t.is_released)
unfolding translate_scancode pause_step switch_scancode
translate_scancode-print_screen t s h =
    ground (arith, extended_key-print_screen s, plain_key-print_screen s)

extended_key_0x12 : extended_key 0x12 ≡ key_none
unfolding extended_key
extended_key_0x12 = refl

module _ (t : Translator) (s : ℕ) (idle : IsIdle t) (code : IsCode s) (other : s ≢ 0x7C) where
  abbrev Misread : Type 0
  Misread =
      (translate_all t (0xE0 ∷ 0x12 ∷ 0xE0 ∷ 0x7C ∷ s ∷ [])).1
      ≡ no_event
        ∷ no_event
        ∷ no_event
        ∷ record { keycode = key_print_screen; is_released = false }
        ∷ record { keycode = extended_key s; is_released = false }
        ∷ []

  misread : extended_key 0x12 ≡ key_none → Misread
  unfolding translate_all
  misread silent = ground arith

  -- From an idle state, the scancode behind a press of Print Screen (0xE0 0x12 0xE0 0x7C), if it is no
  -- prefix and not 0x7C, is looked up in the extended table, though it has no prefix; the press
  -- itself gives one event.
  pub translate_all-after_print_screen :
      (translate_all t (0xE0 ∷ 0x12 ∷ 0xE0 ∷ 0x7C ∷ s ∷ [])).1
      ≡ no_event
        ∷ no_event
        ∷ no_event
        ∷ record { keycode = key_print_screen; is_released = false }
        ∷ record { keycode = extended_key s; is_released = false }
        ∷ []
  translate_all-after_print_screen = misread extended_key_0x12
