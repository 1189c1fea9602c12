-- ===== src/Keyboard/Translate.antt =====
-- `keyboard_translate_scancode` (src/drivers/keyboard.c): the static variables are a record,
-- and a call returns the new record and the event.
use ssos.Base.{ℕ, ◌+◌, Bool, true, false, List, [], ◌∷◌, ◌&&◌, ◌||◌}
use ssos.Base.{◌==◌, ltb, if◌then◌else◌, get_or}
use ssos.Keyboard.Keys.{KeyboardEvent, key_none, key_print_screen, key_play_pause}
use ssos.Keyboard.Tables.{extended_key, plain_key}

-- The static variables of the function.
pub record Translator : Type 0 where
  pub is_extended : Bool
  pub is_released : Bool
  pub pause_sequence_idx : ℕ
  pub is_print_screen_pressed_pending : Bool
  pub is_print_screen_released_pending : Bool

-- Their initial values.
abbrev pub initial : Translator
initial = record {
  is_extended = false;
  is_released = false;
  pause_sequence_idx = 0;
  is_print_screen_pressed_pending = false;
  is_print_screen_released_pending = false;
}

abbrev pub pause_sequence : List ℕ
pause_sequence = 0xE1 ∷ 0x14 ∷ 0x77 ∷ 0xE1 ∷ 0xF0 ∷ 0x14 ∷ 0xF0 ∷ 0x77 ∷ []

-- The event `{0}`.
abbrev pub no_event : KeyboardEvent
no_event = record { keycode = key_none; is_released = false }

-- The two switches, with the flags that they set, and the reset behind them.
unfoldable pub switch_scancode : Translator → ℕ → Translator × KeyboardEvent
switch_scancode t scancode =
    if t.is_extended
    then (
      record t {
        is_extended = false;
        is_released = false;
        is_print_screen_pressed_pending = scancode == 0x12 || t.is_print_screen_pressed_pending;
        is_print_screen_released_pending = scancode == 0x7C || t.is_print_screen_released_pending;
      },
      record { keycode = extended_key scancode; is_released = t.is_released },
    )
    else (
      record t { is_extended = false; is_released = false },
      record { keycode = plain_key scancode; is_released = t.is_released },
    )

-- The step through `pause_sequence`, taken inside a sequence or at 0xE1.
unfoldable pub pause_step : Translator → ℕ → Translator × KeyboardEvent
pause_step t scancode =
    if t.pause_sequence_idx == 0 && scancode == 0xE1
    then (record t { pause_sequence_idx = 1 }, no_event)
    else if scancode == get_or pause_sequence t.pause_sequence_idx 0
    then (if t.pause_sequence_idx + 1 == 8
        then (
          record t { pause_sequence_idx = 0; is_extended = false; is_released = false },
          record { keycode = key_play_pause; is_released = false },
        )
        else (record t { pause_sequence_idx = t.pause_sequence_idx + 1 }, no_event))
    else switch_scancode (record t { pause_sequence_idx = 0 }) scancode

unfoldable pub translate_scancode : Translator → ℕ → Translator × KeyboardEvent
translate_scancode t scancode =
    if scancode == 0xE0
    then (record t { is_extended = true }, no_event)
    else if scancode == 0xF0
    then (record t { is_released = true }, no_event)
    else if t.is_print_screen_pressed_pending && scancode == 0x7C
    then (
      record t { is_print_screen_pressed_pending = false },
      record { keycode = key_print_screen; is_released = false },
    )
    else if t.is_print_screen_released_pending && scancode == 0x12
    then (
      record t { is_print_screen_released_pending = false },
      record { keycode = key_print_screen; is_released = true },
    )
    else if ltb 0 t.pause_sequence_idx || scancode == 0xE1
    then pause_step t scancode
    else switch_scancode t scancode

-- The scancodes of a stream, one call each: the last state and the events, KEY_NONE included.
unfoldable pub translate_all : Translator → List ℕ → Translator × List KeyboardEvent
unfolding translate_scancode pause_step switch_scancode
translate_all t [] = (t, [])
translate_all t (s ∷ rest) =
    let (t', event) = translate_scancode t s in
    let (t'', events) = translate_all t' rest in (t'', event ∷ events)
