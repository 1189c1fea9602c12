-- ===== src/Keyboard/Tests.antt =====
-- Runs of the keyboard driver on single scancode sequences.
use ssos.Base.{ℕ, ◌≡◌, refl, arith, false, some, List, [], ◌∷◌}
use ssos.Base.{pos, none, replicate}
use ssos.Base.{negsuc, suc, ◌≢◌, ◌<◌, ◌⊎◌}
use ssos.Ports.{Ports}
use ssos.Keyboard.Commands.{keyboard_enable_scanning}
use ssos.Keyboard.Commands.{kbd_resp_resend, enable_scanning}
use ssos.Keyboard.Commands.Retry.{reply, after, keyboard_enable_scanning-cases}
use ssos.Keyboard.Keys.{KeyboardEvent, key_a, key_print_screen}
use ssos.Keyboard.Tables.{extended_key}
use ssos.Keyboard.Translate.{initial, no_event, translate_all}
use ssos.Keyboard.Decode.{IsCode, IsIdle}
use ssos.Keyboard.PrintScreen.{translate_all-after_print_screen}
use ssos.Keyboard.Buffer.{Keyboard, boot, keyboard_get_event, store_event}
use ssos.Keyboard.Buffer.Fifo.{Holds, keyboard_get_event-Holds, store_event-enqueue}
use ssos.Keyboard.Buffer.Deliver.{IsReady, deliver, reported, irq_all, irq_all-deliver}

initial-IsIdle : IsIdle initial
initial-IsIdle = record {
  extended = refl;
  released = refl;
  pause = refl;
  pressed_pending = refl;
  released_pending = refl;
}

IsCode-a : IsCode 0x1C
IsCode-a = record {
  not_extended = omega arith;
  not_released = omega arith;
  not_pause = omega arith;
}

-- The whole of Pause: the key is never reported.
abbrev pause_key : List ℕ
pause_key = 0xE1 ∷ 0x14 ∷ 0x77 ∷ 0xE1 ∷ 0xF0 ∷ 0x14 ∷ 0xF0 ∷ 0x77 ∷ []

abbrev media_code : ℕ
media_code = 0x34

translate_all-after_print_screen_example :
    (translate_all initial (0xE0 ∷ 0x12 ∷ 0xE0 ∷ 0x7C ∷ 0x1C ∷ [])).1
    ≡ no_event
      ∷ no_event
      ∷ no_event
      ∷ record { keycode = key_print_screen; is_released = false }
      ∷ record { keycode = extended_key 0x1C; is_released = false }
      ∷ []
translate_all-after_print_screen_example =
    translate_all-after_print_screen initial 0x1C initial-IsIdle IsCode-a (omega arith)

abbrev press_a : KeyboardEvent
press_a = record { keycode = key_a; is_released = false }

-- One event waits.
abbrev waiting : Keyboard (List KeyboardEvent)
waiting = record {
  translator = initial;
  keyboard_event_buff = press_a ∷ replicate 23 no_event;
  event_buff_idx = 1;
  event_count = pos 1;
  keyboard_callback = none;
}

waiting-Holds : Holds waiting (press_a ∷ [])
waiting-Holds = record {
  size = refl;
  idx = omega arith;
  fits = omega arith;
  count = refl;
  view = refl;
}

keyboard_get_event-Holds_example :
    (keyboard_get_event waiting ≡ some (press_a, record waiting { event_count = pos 0 }))
    × Holds (record waiting { event_count = pos 0 }) []
keyboard_get_event-Holds_example = keyboard_get_event-Holds waiting press_a [] waiting-Holds

store_event-enqueue_example :
    (k' : Keyboard (List KeyboardEvent)) × (store_event waiting no_event ≡ some k')
    × Holds k' (press_a ∷ no_event ∷ [])
    × (k'.translator ≡ initial)
    × (k'.keyboard_callback ≡ none)
store_event-enqueue_example = store_event-enqueue waiting no_event (press_a ∷ []) waiting-Holds

abbrev log_event : KeyboardEvent → List KeyboardEvent → List KeyboardEvent
log_event e w = e ∷ w

abbrev ready : Keyboard (List KeyboardEvent)
ready = record (boot (List KeyboardEvent)) { keyboard_callback = some log_event }

ready-IsReady : IsReady log_event initial ready
ready-IsReady = record {
  empty = record { size = refl; idx = omega arith; fits = omega arith; count = refl; view = refl };
  callback = refl;
  translator = refl;
}

irq_all-deliver_example :
    (k' : Keyboard (List KeyboardEvent)) × (irq_all pause_key ready []
      ≡ some (k', deliver log_event (reported (translate_all initial pause_key).1) []))
    × IsReady log_event (translate_all initial pause_key).0 k'
irq_all-deliver_example = irq_all-deliver log_event pause_key initial ready [] ready-IsReady

abbrev next_reply : List ℕ → ℕ × List ℕ
next_reply [] = (0, [])
next_reply (x ∷ d) = (x, d)

-- A device that answers each byte with the next of its replies.
abbrev scripted : Ports (List ℕ)
scripted = record {
  outb = λ port value d. d;
  inb = λ port d. next_reply d;
  outw = λ port value d. d;
  inw = λ port d. next_reply d;
}

abbrev replies : List ℕ
replies = 0xFE ∷ 0xFA ∷ 0xFE ∷ 0xFE ∷ 0xFA ∷ []

keyboard_enable_scanning-cases_example :
    ((n : ℕ) × (n < 3)
      × ((j : ℕ) → j < n → reply scripted enable_scanning j replies ≡ kbd_resp_resend)
      × (reply scripted enable_scanning n replies ≢ kbd_resp_resend)
      × (keyboard_enable_scanning scripted replies
          ≡ (pos 0, after scripted enable_scanning (suc n) replies)))
    ⊎ (((j : ℕ) → j < 3 → reply scripted enable_scanning j replies ≡ kbd_resp_resend)
        × (keyboard_enable_scanning scripted replies
            ≡ (negsuc 0, after scripted enable_scanning 3 replies)))
keyboard_enable_scanning-cases_example = keyboard_enable_scanning-cases scripted replies
