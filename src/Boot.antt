-- ===== src/Boot.antt =====
-- The start of the kernel (src/kernel/kmain.c: `kmain`): the parts set up in order, each failure
-- reported and the machine stopped. The requests to the boot loader are arguments. `none` is undefined
-- behaviour of a part, or a device that keeps a loop waiting for longer than its fuel.
pub mod Messages
pub mod Silent
mod Tests
use ssos.Base.{ℕ, ◌+◌, ◌-◌, ◌^◌, Bool, true, false, not, List, ◌∷◌, []}
use ssos.Base.{Option, none, some, ◌>>=◌, ℤ, pos, negsuc, if◌then◌else◌}
use ssos.Ports.{Ports}
use ssos.Screen.{
  Framebuffer, Screen, screen_init, screen_set_font_scale, screen_print, screen_print_addr,
  screen_putch,
}
use ssos.Interrupts.{IdtEntry, Idtr, Driver, idt_init, pic_init}
use ssos.Keyboard.Commands.{keyboard_init, is_ok}
use ssos.Paging.{Paging}
use ssos.Paging.Init.{MemmapEntry, paging_init_frame_allocator}
use ssos.Kalloc.{Kalloc, kalloc_init}
use ssos.Disk.{disk_init}
use ssos.Gpt.{Gpt, gpt_init}
use Messages.{
  initialized_screen, initialized_idt, initialized_pic, enabled_interrupts, no_keyboard, no_frames,
  initialized_frames, no_heap, initialized_heap, no_disk, initialized_disk, no_gpt, initialized_gpt,
}

-- What the boot loader answers. The entries of the memory map are those that stand one behind the other
-- from the first, as the code reads them.
pub record Requests : Type 0 where
  pub base_revision_supported : Bool
  pub memory_map : Option (List MemmapEntry)
  pub hhdm : Option ℕ
  pub framebuffer : Option Framebuffer

-- Where the kernel lies, the addresses of its interrupt stubs and of its table, and the register cr3.
pub record Image : Type 0 where
  pub kernel_start : ℕ
  pub kernel_end : ℕ
  pub cr3 : ℕ
  pub idt : ℕ
  pub isr_stub_table : List ℕ

-- The static variables of the parts, memory, and the device behind the ports. The frame allocator is a
-- part of `heap`.
pub record Machine {D : Type 0} (io : Ports D) : Type 0 where
  pub screen : Screen
  pub byte : ℕ → ℕ
  pub device : D
  pub idtr : Idtr
  pub idt_entries : List IdtEntry
  pub keyboard_handler : Bool
  pub heap : Kalloc
  pub identify_data_block : List ℕ
  pub drivers : List (Driver io)
  pub gpt : Gpt

-- `stop()`, or the call of `shell_init`.
pub data End {D : Type 0} (io : Ports D) : Type 0 where
  halted : Machine io → End io
  in_shell : Machine io → End io

-- An int that is passed as a uintptr_t.
unfoldable pub to_uintptr : ℤ → ℕ
to_uintptr (pos n) = n
to_uintptr (negsuc n) = 2 ^ 64 - (n + 1)

-- `fuel` is for the loops that wait for a device, `walk` for the free lists.
module _ {D : Type 0} (io : Ports D) (fuel walk : ℕ) (image : Image) where
  unfoldable pub say : List ℕ → Machine io → Option (Machine io)
  say str m = screen_print str m.screen m.byte >>= λ r. some (record m { screen = r.0; byte = r.1 })

  unfoldable pub fail : List ℕ → Machine io → Option (End io)
  unfolding say
  fail str m = say str m >>= λ m'. some (halted m')

  -- `screen_print_addr(ret); screen_putch('\n');` and the message
  unfoldable pub fail_gpt : ℤ → Machine io → Option (End io)
  unfolding fail to_uintptr
  fail_gpt ret m = screen_print_addr 17 (to_uintptr ret) m.screen m.byte >>= λ r.
      screen_putch 0x0A r.0 r.1 >>= λ r'. fail no_gpt (record m { screen = r'.0; byte = r'.1 })

  unfoldable pub start_gpt : Machine io → Option (End io)
  unfolding say fail_gpt
  start_gpt m = gpt_init io walk fuel m.heap m.gpt m.byte m.device >>= λ r.
      let m' : Machine io = record m {
        heap = r.heap;
        gpt = r.gpt;
        byte = r.byte;
        device = r.device;
      } in
      let started = say initialized_gpt m' >>= λ m''. some (in_shell m'') in
      if is_ok r.ret then started else fail_gpt r.ret m'

  unfoldable pub start_disk : Machine io → Option (End io)
  unfolding say fail start_gpt
  start_disk m = disk_init io fuel m.identify_data_block m.drivers m.device >>= λ r.
      let m' : Machine io = record m { identify_data_block = r.1; drivers = r.2; device = r.3 } in
      let started = say initialized_disk m' >>= λ m''. start_gpt m'' in
      if is_ok r.0 then started else fail no_disk m'

  unfoldable pub start_heap : Machine io → Option (End io)
  unfolding say fail start_disk
  start_heap m = kalloc_init m.heap >>= λ r.
      let m' : Machine io = record m { heap = r.1 } in
      let started = say initialized_heap m' >>= λ m''. start_disk m'' in
      if r.0 then started else fail no_heap m'

  unfoldable pub start_frames : List MemmapEntry → ℕ → Machine io → Option (End io)
  unfolding say fail start_heap
  start_frames entries offset m =
      paging_init_frame_allocator image.kernel_start image.kernel_end image.cr3 entries offset
        m.heap.paging
      >>= λ r.
          let m' : Machine io = record m { heap = record m.heap { paging = r.1 } } in
          let started = say initialized_frames m' >>= λ m''. start_heap m'' in
          if r.0 then started else fail no_frames m'

  unfoldable pub start_keyboard : List MemmapEntry → ℕ → Machine io → Option (End io)
  unfolding fail start_frames
  start_keyboard entries offset m = keyboard_init io fuel m.device >>= λ r.
      let m' : Machine io = record m { keyboard_handler = r.1; device = r.2 } in
      if is_ok r.0 then start_frames entries offset m' else fail no_keyboard m'

  unfoldable pub start_interrupts : List MemmapEntry → ℕ → Machine io → Option (End io)
  unfolding say start_keyboard
  start_interrupts entries offset m = idt_init image.idt image.isr_stub_table m.idt_entries >>= λ t.
      say initialized_idt (record m { idtr = t.0; idt_entries = t.1 }) >>= λ m1.
      say initialized_pic (record m1 { device = pic_init io m1.device }) >>= λ m2.
      say enabled_interrupts m2 >>= λ m3. start_keyboard entries offset m3

  -- Behind the tests of the requests.
  unfoldable pub start_screen : List MemmapEntry → ℕ → Framebuffer → Machine io → Option (End io)
  unfolding say start_interrupts
  start_screen entries offset fb m =
      say initialized_screen (record m { screen = screen_set_font_scale (pos 2) (screen_init fb) })
      >>= λ m1. start_interrupts entries offset m1

  unfoldable pub with_responses :
      Option (List MemmapEntry) → Option ℕ → Option Framebuffer → Machine io → Option (End io)
  unfolding start_screen
  with_responses (some entries) (some offset) (some fb) m = start_screen entries offset fb m
  with_responses (some entries) (some offset) none m = some (halted m)
  with_responses (some entries) none fb m = some (halted m)
  with_responses none offset fb m = some (halted m)

  unfoldable pub kmain : Requests → Machine io → Option (End io)
  unfolding with_responses
  kmain requests m =
      let started = with_responses requests.memory_map requests.hhdm requests.framebuffer m in
      if requests.base_revision_supported then started else some (halted m)
