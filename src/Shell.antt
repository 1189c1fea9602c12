-- ===== src/Shell.antt =====
-- The shell (src/shell/shell.c).
-- `none` is what the allocator leaves undefined. Addresses inside a line are not wrapped: C has no
-- pointers past an object.
pub mod Letters
pub mod Line
pub mod Owner
pub mod Grown
pub mod Typing
pub mod Session
mod Tests
use ssos.Base.{
  ℕ, zero, suc, ◌+◌, ◌*◌, Bool, true, false, ◌||◌, Option, none, some, ◌>>=◌, List, [], ◌∷◌,
}
use ssos.Base.{u64, ltb, ◌==◌, if◌then◌else◌}
use ssos.Kalloc.{Kalloc, kmalloc, kfree}
use ssos.Memory.{store_byte, memcpy}
use ssos.Keyboard.Keys.{Key, KeyboardEvent, key_a, key_b, key_c, key_d, key_e, key_f, key_g, key_h}
use ssos.Keyboard.Keys.{key_i, key_j, key_k, key_l, key_m, key_n, key_o, key_p, key_q, key_r, key_s}
use ssos.Keyboard.Keys.{key_t, key_u, key_v, key_w, key_x, key_y, key_z, key_left_shift}
use ssos.Keyboard.Keys.{key_right_shift, key_enter, key_kp_enter}

-- The static variables, the bytes of memory, the allocator, and the calls of `screen_putch`, the
-- last one first.
pub record Shell : Type 0 where
  pub shell_prompt_confirmed : Bool
  pub shell_current_line : ℕ
  pub shell_line_capacity : ℕ
  pub shell_line_size : ℕ
  pub shell_shift_is_held : Bool
  pub byte : ℕ → ℕ
  pub heap : Kalloc
  pub put : List ℕ

-- A call returns, or stops the machine (`stop`).
pub data Run : Type 0 where
  running : Shell → Run
  stopped : Run

-- The place of a letter in the alphabet.
unfoldable pub letter : Key → Option ℕ
letter key_a = some 0
letter key_b = some 1
letter key_c = some 2
letter key_d = some 3
letter key_e = some 4
letter key_f = some 5
letter key_g = some 6
letter key_h = some 7
letter key_i = some 8
letter key_j = some 9
letter key_k = some 10
letter key_l = some 11
letter key_m = some 12
letter key_n = some 13
letter key_o = some 14
letter key_p = some 15
letter key_q = some 16
letter key_r = some 17
letter key_s = some 18
letter key_t = some 19
letter key_u = some 20
letter key_v = some 21
letter key_w = some 22
letter key_x = some 23
letter key_y = some 24
letter key_z = some 25
letter _ = none

-- 'A' or 'a', and the letters behind it.
unfoldable pub char_of : Bool → ℕ → ℕ
char_of shift i = if shift then 0x41 + i else 0x61 + i

unfoldable pub is_shift : Key → Bool
is_shift key_left_shift = true
is_shift key_right_shift = true
is_shift _ = false

unfoldable pub is_enter : Key → Bool
is_enter key_enter = true
is_enter key_kp_enter = true
is_enter _ = false

-- The part of the callback that makes the line longer.
unfoldable pub make_room : ℕ → Shell → Option Run
make_room walk s =
    let new_capacity =
      if s.shell_line_capacity == 0 then 1 else u64 (s.shell_line_capacity * 2 + 1) in
    let old = s.shell_current_line in
    let grown = kmalloc new_capacity s.heap >>= λ r.
    let s' : Shell = record s {
      shell_current_line = r.0;
      shell_line_capacity = new_capacity;
      heap = r.1;
    } in
    let moved = kfree walk old r.1 >>= λ heap.
    some (running (record s' { byte = memcpy r.0 old s.shell_line_size s.byte; heap = heap })) in
    if r.0 == 0 then some stopped else if old == 0 then some (running s') else moved in
    if ltb s.shell_line_capacity (s.shell_line_size + 1) then grown else some (running s)

-- `shell_current_line[shell_line_size++] = c`
unfoldable pub append : ℕ → Run → Run
append c stopped = stopped
append c (running s) = running (record s {
  byte = store_byte (s.shell_current_line + s.shell_line_size) c s.byte;
  shell_line_size = s.shell_line_size + 1;
})

-- `walk` bounds the length of the allocator's free lists.
unfoldable pub shell_input_callback : ℕ → KeyboardEvent → Shell → Option Run
shell_input_callback walk event s =
    if event.is_released then some (running s) else elim (letter event.keycode) [
      | some i ↦
          let c = char_of s.shell_shift_is_held i in
          make_room walk (record s { put = c ∷ s.put }) >>= λ r. some (append c r)
      | none ↦ some (
          running (record s {
            shell_shift_is_held = is_shift event.keycode || s.shell_shift_is_held;
            shell_prompt_confirmed = is_enter event.keycode || s.shell_prompt_confirmed;
          }))
    ]

unfoldable pub shell_reset_prompt_buffer : ℕ → Shell → Option Shell
shell_reset_prompt_buffer walk s =
    let cleared = λ (heap : Kalloc). (record s {
      shell_line_capacity = 0;
      shell_line_size = 0;
      shell_current_line = 0;
      heap = heap;
    }) in
    if s.shell_current_line == 0
    then some (cleared s.heap)
    else kfree walk s.shell_current_line s.heap >>= λ heap. some (cleared heap)

-- What `shell_init` does when an interrupt wakes it: whether it goes on to a new prompt.
unfoldable pub shell_wake : ℕ → Shell → Option (Bool × Shell)
shell_wake walk s =
    if s.shell_prompt_confirmed
    then (shell_reset_prompt_buffer walk (record s { shell_prompt_confirmed = false }) >>= λ s'.
        some (true, s'))
    else some (false, s)
