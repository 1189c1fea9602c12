-- ===== src/Keyboard/Buffer.antt =====
-- The event buffer and the interrupt handler (src/drivers/keyboard.c). `none` is an access out of
-- the bounds of the buffer, which C leaves undefined. `W` is what the callback may change.
pub mod Entries
pub mod Fifo
pub mod Deliver
use ssos.Base.{ℕ, zero, suc, ◌+◌, ◌-◌, ◌%◌, Bool, true, false, Option, none, some, List, [], ◌∷◌}
use ssos.Base.{ℤ, pos, negsuc, ltb, leb, ◌==◌, if◌then◌else◌, get_elem?, set?, replicate, ◌>>=◌}
use ssos.Keyboard.Keys.{Key, KeyboardEvent, key_none, key_unknown}
use ssos.Keyboard.Translate.{Translator, initial, no_event, translate_scancode}

-- MAX_KEYBOARD_BUFF_SIZE
abbrev pub max_keyboard_buff_size : ℕ
max_keyboard_buff_size = 24

-- The static variables of the file, those of the translator among them. `event_count` is an int,
-- which `keyboard_get_event` takes below 0 where no event waits.
pub record Keyboard (W : Type 0) : Type 0 where
  pub translator : Translator
  pub keyboard_event_buff : List KeyboardEvent
  pub event_buff_idx : ℕ
  pub event_count : ℤ
  pub keyboard_callback : Option (KeyboardEvent → W → W)

abbrev pub boot : (W : Type 0) → Keyboard W
boot W = record {
  translator = initial;
  keyboard_event_buff = replicate 24 no_event;
  event_buff_idx = 0;
  event_count = pos 0;
  keyboard_callback = none;
}

-- `((event_buff_idx - event_count) + MAX) % MAX`, an index where it is not negative.
unfoldable pub event_idx : ℕ → ℤ → Option ℕ
event_idx i (pos c) =
    if leb c (i + max_keyboard_buff_size)
    then some ((i + max_keyboard_buff_size - c) % max_keyboard_buff_size)
    else if (c - (i + max_keyboard_buff_size)) % max_keyboard_buff_size == 0
    then some 0
    else none
event_idx i (negsuc c) = some ((i + suc c + max_keyboard_buff_size) % max_keyboard_buff_size)

-- `event_count--`
unfoldable pub count_down : ℤ → ℤ
count_down (pos zero) = negsuc 0
count_down (pos (suc c)) = pos c
count_down (negsuc c) = negsuc (suc c)

-- `event_count < MAX ? event_count + 1 : MAX`
unfoldable pub count_up : ℤ → ℤ
count_up (pos c) = if ltb c max_keyboard_buff_size then pos (suc c) else pos max_keyboard_buff_size
count_up (negsuc zero) = pos 0
count_up (negsuc (suc c)) = negsuc c

-- Whether the handler drops the event.
unfoldable pub is_dropped : Key → Bool
is_dropped key_none = true
is_dropped key_unknown = true
is_dropped _ = false

module _ {W : Type 0} where
  unfoldable pub keyboard_get_event : Keyboard W → Option (KeyboardEvent × Keyboard W)
  keyboard_get_event k = do
    idx ← event_idx k.event_buff_idx k.event_count
    event ← get_elem? k.keyboard_event_buff idx
    some (event, record k { event_count = count_down k.event_count })

  -- The part of the handler that stores the event.
  unfoldable pub store_event : Keyboard W → KeyboardEvent → Option (Keyboard W)
  store_event k event = do
    buff ← set? k.keyboard_event_buff k.event_buff_idx event
    some (record k {
      keyboard_event_buff = buff;
      event_buff_idx = (k.event_buff_idx + 1) % max_keyboard_buff_size;
      event_count = count_up k.event_count;
    })

  -- `if (keyboard_callback) keyboard_callback(keyboard_get_event());`
  unfoldable pub run_callback :
      Option (KeyboardEvent → W → W) → Keyboard W → W → Option (Keyboard W × W)
  run_callback none k w = some (k, w)
  run_callback (some callback) k w = keyboard_get_event k >>= λ r. some (r.1, callback r.0 w)

  -- `scancode` is what the data port gives.
  unfoldable pub keyboard_irq_handler : ℕ → Keyboard W → W → Option (Keyboard W × W)
  keyboard_irq_handler scancode k w =
      let r = translate_scancode k.translator scancode in
      let k' : Keyboard W = record k { translator = r.0 } in
      if is_dropped r.1.keycode
      then some (k', w)
      else do k'' ← store_event k' r.1; run_callback k''.keyboard_callback k'' w

  unfoldable pub keyboard_install_event_callback : (KeyboardEvent → W → W) → Keyboard W → Keyboard W
  keyboard_install_event_callback callback k = record k { keyboard_callback = some callback }
