-- ===== src/Keyboard/Pause.antt =====
-- The Pause key: 0xF0 is taken as the release prefix before the pause sequence is looked at, so
-- the sequence never gets past its fifth code.
use ssos.Base.{ℕ, ◌≡◌, true, Bool}
use ssos.Keyboard.Keys.{KeyboardEvent, key_play_pause}
use ssos.Keyboard.Translate.{Translator}

-- What the theorem says of the result of a call.
record Sourced (extended : Bool) (s : ℕ) (r : Translator × KeyboardEvent) : Type 0 where
  source : r.1.keycode ≡ key_play_pause → (s ≡ 0x34) × (extended ≡ true)
