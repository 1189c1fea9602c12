-- ===== src/Shell/Tests.antt =====
-- Runs of the shell on single keys.
use ssos.Base.{ℕ, ◌-◌, ◌^◌, ◌≡◌, refl, arith, true, false, some}
use ssos.Base.{List, [], ◌∷◌, replicate}
use ssos.Keyboard.Keys.{KeyboardEvent, key_a, key_s, key_left_shift}
use ssos.Paging.{Paging}
use ssos.Kalloc.{MemBlock, Kalloc}
use ssos.Shell.{Shell, running}
use ssos.Shell.Letters.{spelled, shifts}
use ssos.Shell.Line.{contents, typed, type_all, Typed, type_all-Typed}
use ssos.Shell.Owner.{IsEmpty}
use ssos.Shell.{shell_reset_prompt_buffer}
use ssos.Shell.Session.{shell_reset_prompt_buffer-type_all}
use ssos.Kalloc.Undo.Lists.{lone}
use ssos.Kalloc.Undo.Page.{IsFresh}
use ssos.Base.{set, ◌+◌}

-- A machine with 30 free pages from 16 MiB on.
abbrev frames : Paging
frames = record {
  paging_hhdm_start = 0xFFFF800000000000;
  pages = (2 ^ 30 - 1) ∷ replicate 39 0;
  paging_phys_page_base = 0x1000000;
  paging_kernel_pml4 = 0xFFFF800000001000;
  paging_present_page_count = 30;
  paging_curr_free_page_table = 0;
  word = λ a. 0;
}

abbrev no_blocks : ℕ → MemBlock
no_blocks a = record { next = 0; level = 0; is_free = false }

abbrev heap : Kalloc
heap = record {
  mem_blocks = replicate 34 0;
  highest_block_size = 0x200000;
  highest_level = 18;
  block = no_blocks;
  paging = frames;
}

-- A shell with a line of one letter and room for seven.
abbrev line_of_one : Shell
line_of_one = record {
  shell_prompt_confirmed = false;
  shell_current_line = 4096;
  shell_line_capacity = 7;
  shell_line_size = 1;
  shell_shift_is_held = false;
  byte = λ a. 0x78;
  heap = heap;
  put = [];
}

abbrev keys : List KeyboardEvent
keys =
    record { keycode = key_a; is_released = false }
    ∷ record { keycode = key_left_shift; is_released = false }
    ∷ record { keycode = key_left_shift; is_released = true }
    ∷ record { keycode = key_s; is_released = false }
    ∷ []

-- The shift key has been released before the second letter.
typed-keys : typed false keys ≡ 0x61 ∷ 0x53 ∷ []
unfolding typed spelled shifts
typed-keys = refl

type_all-Typed_example :
    (s' : Shell) × (type_all 8 keys line_of_one ≡ some (running s'))
    × Typed (typed false keys) line_of_one s'
type_all-Typed_example = type_all-Typed 8 keys line_of_one (rw typed-keys (omega arith))

abbrev no_line : Shell
no_line = record line_of_one {
  shell_current_line = 0;
  shell_line_capacity = 0;
  shell_line_size = 0;
}

-- One free page, at 2 MiB, and no line.
abbrev one_page : Kalloc
one_page = record heap { mem_blocks = set (replicate 34 0) 18 0x200000; block = λ a. lone 18 }

one_page-IsFresh : IsFresh 0x200000 frames one_page
one_page-IsFresh = record {
  common = record { size = refl; level = refl; block_size = refl; frames = refl };
  heads = refl;
  page = refl;
}

abbrev ready : Shell
ready = record no_line { heap = one_page }

shell_reset_prompt_buffer-type_all_example :
    (s1 : Shell) × (s2 : Shell) × (type_all (2 ^ 21 + 1) keys ready ≡ some (running s1))
    × (contents s1 ≡ typed false keys)
    × (shell_reset_prompt_buffer (2 ^ 21 + 1) s1 ≡ some s2)
    × IsEmpty s2
    × IsFresh 0x200000 frames s2.heap
shell_reset_prompt_buffer-type_all_example =
    shell_reset_prompt_buffer-type_all 0x200000 frames (omega arith) (omega arith) refl (2 ^ 21 + 1)
      (omega arith) keys ready (record { line = refl; capacity = refl; size = refl })
      one_page-IsFresh (rw typed-keys (omega arith))
