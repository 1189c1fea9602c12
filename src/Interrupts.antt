-- ===== src/Interrupts.antt =====
-- Interrupts (src/interrupts/idt.c, src/interrupts/pic.c): the descriptor table, the two interrupt
-- controllers, and the handlers that the stubs of src/interrupts/isr.asm call.
pub mod Gates
pub mod Dispatch
pub mod Report
mod Tests
use ssos.Base.{
  ℕ, zero, suc, ◌+◌, ◌*◌, ◌/◌, ◌%◌, ◌^◌, Option, none, some, ◌>>=◌, List, [], ◌∷◌, ◌++◌,
}
use ssos.Base.{leb, if◌then◌else◌, u64, bit_and, get_elem?, set, set?, replicate}
use ssos.Ports.{Ports, io_wait}
use ssos.Screen.{Screen, screen_print, screen_print_addr}

-- `idt_entry_t`
pub record IdtEntry : Type 0 where
  pub isr_low : ℕ
  pub kernel_cs : ℕ
  pub ist : ℕ
  pub attributes : ℕ
  pub isr_mid : ℕ
  pub isr_high : ℕ
  pub reserved : ℕ

-- `idtr_t`
pub record Idtr : Type 0 where
  pub limit : ℕ
  pub base : ℕ

-- `interrupt_frame_t`
pub record InterruptFrame : Type 0 where
  pub r15 : ℕ
  pub r14 : ℕ
  pub r13 : ℕ
  pub r12 : ℕ
  pub r11 : ℕ
  pub r10 : ℕ
  pub r9 : ℕ
  pub r8 : ℕ
  pub rdi : ℕ
  pub rsi : ℕ
  pub rdx : ℕ
  pub rcx : ℕ
  pub rbx : ℕ
  pub rax : ℕ
  pub error_code : ℕ
  pub rip : ℕ
  pub cs : ℕ
  pub rflags : ℕ
  pub rsp : ℕ
  pub ss : ℕ

unfoldable pub idt_set_descriptor : ℕ → ℕ → ℕ → List IdtEntry → List IdtEntry
idt_set_descriptor vector isr flags idt_entries = set idt_entries vector (record {
  isr_low = bit_and isr 0xFFFF;
  kernel_cs = 0x28;
  ist = 0;
  attributes = flags;
  isr_mid = bit_and (isr / 2 ^ 16) 0xFFFF;
  isr_high = bit_and (isr / 2 ^ 32) 0xFFFFFFFF;
  reserved = 0;
})

-- The loop of `idt_init`, with `left` vectors to go. `none` is a read behind the table of the stubs.
unfoldable pub set_vectors : ℕ → ℕ → List ℕ → List IdtEntry → Option (List IdtEntry)
set_vectors vector zero isr_stub_table idt_entries = some idt_entries
set_vectors vector (suc left) isr_stub_table idt_entries =
    get_elem? isr_stub_table vector >>= λ isr.
    set_vectors (vector + 1) left isr_stub_table (idt_set_descriptor vector isr 0x8E idt_entries)

-- The table register and the table, at the address `table`. An entry has 16 bytes.
unfoldable pub idt_init : ℕ → List ℕ → List IdtEntry → Option (Idtr × List IdtEntry)
idt_init table isr_stub_table idt_entries =
    set_vectors 0 48 isr_stub_table idt_entries >>= λ entries.
    some (record { limit = 4095; base = table }, entries)

-- "[ERROR] Got exception "
abbrev pub got_exception : List ℕ
got_exception =
    0x5B ∷ 0x45 ∷ 0x52 ∷ 0x52 ∷ 0x4F ∷ 0x52 ∷ 0x5D ∷ 0x20 ∷ 0x47 ∷ 0x6F ∷ 0x74 ∷ 0x20 ∷ 0x65 ∷ 0x78
    ∷ 0x63 ∷ 0x65 ∷ 0x70 ∷ 0x74 ∷ 0x69 ∷ 0x6F ∷ 0x6E ∷ 0x20 ∷ []

-- " from address "
abbrev pub from_address : List ℕ
from_address =
    0x20 ∷ 0x66 ∷ 0x72 ∷ 0x6F ∷ 0x6D ∷ 0x20 ∷ 0x61 ∷ 0x64 ∷ 0x64 ∷ 0x72 ∷ 0x65 ∷ 0x73 ∷ 0x73 ∷ 0x20
    ∷ []

-- " with error code "
abbrev pub with_error_code : List ℕ
with_error_code =
    0x20 ∷ 0x77 ∷ 0x69 ∷ 0x74 ∷ 0x68 ∷ 0x20 ∷ 0x65 ∷ 0x72 ∷ 0x72 ∷ 0x6F ∷ 0x72 ∷ 0x20 ∷ 0x63 ∷ 0x6F
    ∷ 0x64 ∷ 0x65 ∷ 0x20 ∷ []

-- ".\n"
abbrev pub full_stop : List ℕ
full_stop = 0x2E ∷ 0x0A ∷ []

-- The screen when the machine stops. `fuel` is for the digits.
unfoldable pub idt_exception_handler :
    ℕ → InterruptFrame → ℕ → Screen → (ℕ → ℕ) → Option (Screen × (ℕ → ℕ))
idt_exception_handler fuel frame int_num s byte = screen_print got_exception s byte >>= λ r1.
    screen_print_addr fuel int_num r1.0 r1.1 >>= λ r2. screen_print from_address r2.0 r2.1 >>= λ r3.
    screen_print_addr fuel frame.rip r3.0 r3.1 >>= λ r4.
    screen_print with_error_code r4.0 r4.1 >>= λ r5.
    screen_print_addr fuel frame.error_code r5.0 r5.1 >>= λ r6. screen_print full_stop r6.0 r6.1

-- The controllers, and the drivers, over the devices behind the ports.
module _ {D : Type 0} (io : Ports D) where
  unfoldable pub pic_remap : ℕ → ℕ → D → D
  unfolding io_wait
  pic_remap master_offset slave_offset d =
      let d1 = io_wait io (io.outb 0xA0 0x11 (io_wait io (io.outb 0x20 0x11 d))) in
      let d2 =
        io_wait io (
          io.outb 0xA1 (slave_offset % 256) (io_wait io (io.outb 0x21 (master_offset % 256) d1))) in
      let d3 = io_wait io (io.outb 0xA1 2 (io_wait io (io.outb 0x21 4 d2))) in
      let d4 = io_wait io (io.outb 0xA1 1 (io_wait io (io.outb 0x21 1 d3))) in
      io.outb 0xA1 0 (io.outb 0x21 0 d4)

  unfoldable pub pic_init : D → D
  unfolding pic_remap
  pic_init d = pic_remap 0x20 0x28 d

  unfoldable pub pic_send_eoi : ℕ → D → D
  pic_send_eoi irq d = io.outb 0x20 0x20 (if leb 8 irq then io.outb 0xA0 0x20 d else d)

  -- A call of a driver, which the device is the state of.
  abbrev pub Driver : Type 0
  Driver = InterruptFrame → ℕ → D → D

  unfoldable pub idt_default_irq_handler : Driver
  idt_default_irq_handler frame irq_num d = d

  unfoldable pub idt_irq_drivers : List Driver
  unfolding idt_default_irq_handler
  idt_irq_drivers = replicate 16 idt_default_irq_handler

  -- `none` is a write outside the 16 drivers.
  unfoldable pub idt_install_irq_driver : ℕ → Driver → List Driver → Option (List Driver)
  idt_install_irq_driver irq_num handler drivers = set? drivers irq_num handler

  -- `none` is a read outside the 16 drivers.
  unfoldable pub idt_irq_handler : InterruptFrame → ℕ → List Driver → D → Option D
  unfolding pic_send_eoi
  idt_irq_handler frame irq_num drivers d = get_elem? drivers irq_num >>= λ driver.
      some (pic_send_eoi (irq_num % 256) (driver frame irq_num d))
