-- ===== src/Keyboard/Commands.antt =====
-- The commands to the keyboard and its controller (src/drivers/keyboard.c), over ports of which the
-- device behind them is a parameter. An int below 0 is an error code.
pub mod Retry
use ssos.Ports.{Ports}
use ssos.Base.{ℕ, zero, suc, Bool, true, false, Option, none, some, ◌>>=◌, bit_and}
use ssos.Base.{ℤ, pos, negsuc, ◌==◌, if◌then◌else◌}

abbrev pub max_retry_count : ℕ
max_retry_count = 3

-- KBD_DATA
abbrev pub kbd_data : ℕ
kbd_data = 0x60

-- KBD_STATUS and KBD_COMMAND, which are one port.
abbrev pub kbd_status : ℕ
kbd_status = 0x64

abbrev pub kbd_resp_ack : ℕ
kbd_resp_ack = 0xFA

abbrev pub kbd_resp_resend : ℕ
kbd_resp_resend = 0xFE

abbrev pub enable_scanning : ℕ
enable_scanning = 0xF4

abbrev pub disable_scanning : ℕ
disable_scanning = 0xF5

abbrev pub set_scancode_set : ℕ
set_scancode_set = 0xF0

abbrev pub default_scancode_set : ℕ
default_scancode_set = 2

-- The result of a command of which the reply is not looked at.
unfoldable pub sent : Option ℕ → ℤ
sent none = negsuc 0
sent (some resp) = pos 0

-- The error code for a reply, given the ones for no reply and for the wrong one.
unfoldable pub acknowledged : ℤ → ℤ → Option ℕ → ℤ
acknowledged silent wrong none = silent
acknowledged silent wrong (some resp) = if resp == kbd_resp_ack then pos 0 else wrong

unfoldable pub is_ok : ℤ → Bool
is_ok (pos n) = n == 0
is_ok (negsuc n) = false

module _ {D : Type 0} (io : Ports D) where
  -- `outb(KBD_DATA, value); io_wait(); resp = inb(KBD_DATA);`
  unfoldable pub attempt : ℕ → D → ℕ × D
  attempt value d = io.inb kbd_data (io.outb 0x80 0 (io.outb kbd_data value d))

  -- The loop around an attempt, with the retries that are left: the reply, or `none` where the
  -- retries have run out.
  unfoldable pub send : ℕ → ℕ → D → Option ℕ × D
  send zero value d = (none, d)
  send (suc left) value d =
      let r = attempt value d in
      let again = send left value r.1 in if r.0 == kbd_resp_resend then again else (some r.0, r.1)

  unfoldable pub keyboard_enable_scanning : D → ℤ × D
  keyboard_enable_scanning d = let r = send max_retry_count enable_scanning d in (sent r.0, r.1)

  unfoldable pub keyboard_disable_scanning : D → ℤ × D
  keyboard_disable_scanning d = let r = send max_retry_count disable_scanning d in (sent r.0, r.1)

  unfoldable pub keyboard_set_default_scancode_set : D → ℤ × D
  keyboard_set_default_scancode_set d =
      let first = send max_retry_count set_scancode_set d in
      let second = send max_retry_count default_scancode_set first.1 in
      let status = acknowledged (negsuc 0) (negsuc 1) first.0 in
      if is_ok status
      then (acknowledged (negsuc 2) (negsuc 3) second.0, second.1)
      else (status, first.1)

  -- Two loops that wait for the controller, with fuel for their rounds.
  unfoldable pub keyboard_flush_buff : ℕ → D → Option D
  keyboard_flush_buff zero d = none
  keyboard_flush_buff (suc fuel) d =
      let status = io.inb kbd_status d in
      let rest = keyboard_flush_buff fuel (io.inb kbd_data status.1).1 in
      if bit_and status.0 1 == 0 then some status.1 else rest

  unfoldable pub wait_to_write : ℕ → D → Option D
  wait_to_write zero d = none
  wait_to_write (suc fuel) d =
      let status = io.inb kbd_status d in
      let rest = wait_to_write fuel status.1 in
      if bit_and status.0 2 == 0 then some status.1 else rest

  unfoldable pub ps2_controller_configure : ℕ → D → Option D
  ps2_controller_configure fuel d = do
    d1 ← wait_to_write fuel d
    d2 ← wait_to_write fuel (io.outb kbd_status 0x60 d1)
    some (io.outb kbd_data 37 d2)

  -- The end of `keyboard_init`, given the result of setting the scancode set.
  unfoldable pub finish_init : ℤ × D → ℤ × Bool × D
  finish_init chosen =
      let started = keyboard_enable_scanning chosen.1 in
      if is_ok chosen.0
      then (if is_ok started.0 then (pos 0, true, started.1) else (negsuc 2, true, started.1))
      else (negsuc 1, false, chosen.1)

  -- The status, whether the handler was installed for interrupt 1, and the device.
  unfoldable pub keyboard_init : ℕ → D → Option (ℤ × Bool × D)
  keyboard_init fuel d =
      let stopped = keyboard_disable_scanning d in
      let rest = keyboard_flush_buff fuel stopped.1 >>= λ d1.
      ps2_controller_configure fuel d1 >>= λ d2.
      some (finish_init (keyboard_set_default_scancode_set d2)) in
      if is_ok stopped.0 then rest else some (negsuc 0, false, stopped.1)
