-- ===== src/Interrupts/Tests.antt =====
-- Runs of the interrupt code.
use ssos.Base.{
  ℕ, ◌+◌, ◌*◌, ◌^◌, ◌<◌, ◌≡◌, refl, arith, some, List, ◌∷◌, replicate, length, get_or,
  if◌then◌else◌, ◌==◌, pos,
}
use ssos.Ports.{Ports}
use ssos.Screen.{Screen, screen_print}
use ssos.Screen.Paint.{IsUsable}
use ssos.Screen.Grid.{At, KeepsRest}
use ssos.Interrupts.{IdtEntry, Idtr, InterruptFrame, Driver, idt_init}
use ssos.Interrupts.{idt_exception_handler, idt_irq_handler, idt_install_irq_driver}
use ssos.Interrupts.{idt_default_irq_handler}
use ssos.Interrupts.Gates.{no_entry, Gates, idt_init-Gates}
use ssos.Interrupts.Dispatch.{ended, idt_irq_handler-installed}
use ssos.Interrupts.Report.{Shows, report, idt_exception_handler-report}

-- 48 stubs in the upper half of the address space.
abbrev stubs : List ℕ
stubs = replicate 48 0xFFFFFFFF80001234

stubs-lt : (j : ℕ) → get_or stubs j 0 < 2 ^ 64
stubs-lt j = below 48 j
  where
    below : (n j : ℕ) → get_or (replicate n 0xFFFFFFFF80001234) j 0 < 2 ^ 64
    below ℕ.zero j = omega arith
    below (ℕ.suc n) ℕ.zero = omega arith
    below (ℕ.suc n) (ℕ.suc j) = below n j

idt_init-Gates_example :
    (entries : List IdtEntry) × (reg : Idtr) × (idt_init 0x5000 stubs (replicate 256 no_entry)
      ≡ some (reg, entries))
    × (reg.base ≡ 0x5000)
    × (reg.limit + 1 ≡ 16 * length entries)
    × Gates 0 48 stubs (replicate 256 no_entry) entries
idt_init-Gates_example =
    idt_init-Gates 0x5000 stubs (replicate 256 no_entry) (omega arith) stubs-lt refl

-- A device that keeps the bytes written to it, the last one first.
abbrev log : Ports (List (ℕ × ℕ))
log = record {
  outb = λ port value d. (port, value) ∷ d;
  inb = λ port d. (0, d);
  outw = λ port value d. (port, value) ∷ d;
  inw = λ port d. (0, d);
}

-- The driver of the timer, which here writes to port 0x70.
abbrev timer : Driver log
timer frame irq_num d = (0x70, irq_num) ∷ d

idt_irq_handler-installed_example :
    (drivers' : List (Driver log)) × (idt_install_irq_driver log 0 timer
        (replicate 16 (idt_default_irq_handler log))
      ≡ some drivers')
    × (length drivers' ≡ 16)
    × ((irq : ℕ) (frame : InterruptFrame) (d : List (ℕ × ℕ))
        → irq < 16
        → idt_irq_handler log frame irq drivers' d
          ≡ some (
              ended log irq (
                if 0 == irq
                then timer frame irq d
                else get_or
                    (replicate 16 (idt_default_irq_handler log))
                    irq
                    (idt_default_irq_handler log)
                    frame
                    irq
                    d)))
idt_irq_handler-installed_example =
    idt_irq_handler-installed log 0 timer (replicate 16 (idt_default_irq_handler log)) (omega arith)
      refl

abbrev fault : InterruptFrame
fault = record {
  r15 = 0;
  r14 = 0;
  r13 = 0;
  r12 = 0;
  r11 = 0;
  r10 = 0;
  r9 = 0;
  r8 = 0;
  rdi = 0;
  rsi = 0;
  rdx = 0;
  rcx = 0;
  rbx = 0;
  rax = 0;
  error_code = 2;
  rip = 0xFFFFFFFF80001234;
  cs = 0x28;
  rflags = 2;
  rsp = 0x8000;
  ss = 0x30;
}

abbrev screen : Screen
screen = record {
  screen_fb = record {
    address = 0x100000;
    width = 80;
    height = 160;
    pitch = 320;
    bpp = 32;
    red_mask_shift = 16;
    green_mask_shift = 8;
    blue_mask_shift = 0;
  };
  cursor_x = 0;
  cursor_y = 0;
  screen_color = 0xFFFFFF;
  font_scale = pos 1;
}

screen-IsUsable : IsUsable screen.screen_fb
screen-IsUsable = record {
  bytes = refl;
  rows = omega arith;
  fits = omega arith;
  wide = omega arith;
  tall = omega arith;
}

screen-At : At screen 1 10 20 0 0
screen-At = record {
  scale = refl;
  visible = omega arith;
  small = omega arith;
  width = refl;
  height = refl;
  column = omega arith;
  line = omega arith;
  cursor_x = refl;
  cursor_y = refl;
}

abbrev dark : ℕ → ℕ
dark a = 0

idt_exception_handler-report_example :
    (a : List ℕ) × (b : List ℕ) × (c : List ℕ) × (s' : Screen) × (byte' : ℕ → ℕ) × Shows 14 a
    × Shows 0xFFFFFFFF80001234 b
    × Shows 2 c
    × (idt_exception_handler 17 fault 14 screen dark ≡ screen_print (report a b c) screen dark)
    × (screen_print (report a b c) screen dark ≡ some (s', byte'))
    × KeepsRest screen.screen_fb dark byte'
idt_exception_handler-report_example =
    idt_exception_handler-report 1 10 20 0 0 screen dark fault 14 screen-IsUsable screen-At
      (omega arith) (omega arith) (omega arith)
