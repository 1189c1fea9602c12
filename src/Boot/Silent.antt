-- ===== src/Boot/Silent.antt =====
-- The start of the kernel with a keyboard that acknowledges nothing.
use mathlib.Core.Path.{subst}
use ssos.Base.{get_elem?-eq-get_or}
use ssos.Base.{ℕ, zero, suc, ◌+◌, ◌*◌, ◌≤◌, ◌<◌, ◌≡◌, refl, sym, ap, arith, ◌∙◌, true, false}
use ssos.Base.{List, ◌++◌, length, Option, some, ◌>>=◌, pos, negsuc, get_or}
use ssos.Ports.{Ports}
use ssos.Screen.{Framebuffer, Screen, screen_init, screen_set_font_scale, screen_print}
use ssos.Screen.Paint.{IsUsable}
use ssos.Screen.Grid.{At, KeepsRest}
use ssos.Screen.Print.{bind_ext, bind_assoc, screen_print-append, screen_print-At}
use ssos.Interrupts.{IdtEntry, Idtr, idt_init, pic_init, set_vectors, idt_set_descriptor}
use ssos.Keyboard.Commands.{
  sent, keyboard_init, keyboard_disable_scanning, is_ok, disable_scanning, kbd_resp_resend,
}
use ssos.Keyboard.Commands.Retry.{after, reply, answered, exhausted, send-Sent}
use ssos.Paging.Init.{MemmapEntry}
use ssos.Boot.{
  Requests, Image, Machine, End, halted, say, fail, start_keyboard, start_interrupts, start_screen,
  with_responses, kmain,
}
use ssos.Boot.Messages.{
  initialized_screen, initialized_idt, initialized_pic, enabled_interrupts, no_keyboard,
}

-- All that is printed.
abbrev pub told : List ℕ
told =
    initialized_screen
    ++ (initialized_idt ++ (initialized_pic ++ (enabled_interrupts ++ no_keyboard)))

print_then :
    {A : Type 0} (a rest : List ℕ) (s : Screen) (byte : ℕ → ℕ) (k : Screen × (ℕ → ℕ) → Option A)
    → (screen_print a s byte >>= λ r. screen_print rest r.0 r.1 >>= k)
      ≡ (screen_print (a ++ rest) s byte >>= k)
print_then a rest s byte k =
    sym (bind_assoc (screen_print a s byte) (λ r. screen_print rest r.0 r.1) k)
    ∙ ap (λ o. o >>= k) (sym (screen_print-append a rest s byte))

module _ {D : Type 0} (io : Ports D) where
  -- The retries of the first command run out.
  disable-silent :
      (d : D)
      → ((j : ℕ) → j < 3 → reply io disable_scanning j d ≡ kbd_resp_resend)
      → keyboard_disable_scanning io d ≡ (negsuc 0, after io disable_scanning 3 d)
  unfolding keyboard_disable_scanning sent
  disable-silent d silent = elim (send-Sent io 3 disable_scanning d) [
    | answered n lt before last at ↦ absurd (last (silent n lt))
    | exhausted before at ↦ ap (λ r. (sent r.0, r.1)) at
  ]

  keyboard_init-silent :
      (fuel : ℕ) (d : D)
      → ((j : ℕ) → j < 3 → reply io disable_scanning j d ≡ kbd_resp_resend)
      → keyboard_init io fuel d ≡ some (negsuc 0, false, after io disable_scanning 3 d)
  unfolding keyboard_init is_ok
  keyboard_init-silent fuel d silent = rw (disable-silent d silent) refl

module _ {D : Type 0} (io : Ports D) (fuel walk : ℕ) (image : Image) (entries : List MemmapEntry)
    (offset : ℕ) (m : Machine io)
    (silent : (j : ℕ)
      → j < 3
      → reply io disable_scanning j (pic_init io m.device) ≡ kbd_resp_resend) where
  say_then :
      {A : Type 0} (str : List ℕ) (m : Machine io) (f : Machine io → Option A)
      → (say io fuel walk image str m >>= f)
        ≡ (screen_print str m.screen m.byte >>= λ r. f (record m { screen = r.0; byte = r.1 }))
  unfolding say
  say_then str m f =
      bind_assoc (screen_print str m.screen m.byte)
        (λ r. some (record m { screen = r.0; byte = r.1 })) f

  abbrev pub final : Idtr × List IdtEntry → Screen × (ℕ → ℕ) → Machine io
  final t r = record m {
    screen = r.0;
    byte = r.1;
    device = after io disable_scanning 3 (pic_init io m.device);
    idtr = t.0;
    idt_entries = t.1;
    keyboard_handler = false;
  }

  -- The end of every run below.
  abbrev ending : Idtr × List IdtEntry → Screen × (ℕ → ℕ) → Option (End io)
  ending t r = some (halted (final t r))

  stop_keyboard :
      (t : Idtr × List IdtEntry) (r : Screen × (ℕ → ℕ))
      → start_keyboard io fuel walk image entries offset (record m {
        screen = r.0;
        byte = r.1;
        idtr = t.0;
        idt_entries = t.1;
        device = pic_init io m.device;
      })
        ≡ (screen_print no_keyboard r.0 r.1 >>= ending t)
  unfolding start_keyboard fail is_ok
  stop_keyboard t r =
      rw (keyboard_init-silent io fuel (pic_init io m.device) silent)
        (say_then no_keyboard (final t r) (λ m'. some (halted m')))

  -- One message before the others.
  tell :
      (a rest : List ℕ) (t : Idtr × List IdtEntry) (m0 : Machine io)
      (f : Machine io → Option (End io))
      → ((r : Screen × (ℕ → ℕ))
          → f (record m0 { screen = r.0; byte = r.1 }) ≡ (screen_print rest r.0 r.1 >>= ending t))
      → (say io fuel walk image a m0 >>= f)
        ≡ (screen_print (a ++ rest) m0.screen m0.byte >>= ending t)
  tell a rest t m0 f h =
      say_then a m0 f
      ∙ bind_ext (screen_print a m0.screen m0.byte) _ _ h
      ∙ print_then a rest m0.screen m0.byte (ending t)

  interrupts_told :
      (t : Idtr × List IdtEntry) (r : Screen × (ℕ → ℕ))
      → idt_init image.idt image.isr_stub_table m.idt_entries ≡ some t
      → start_interrupts io fuel walk image entries offset (record m { screen = r.0; byte = r.1 })
        ≡ (screen_print
              (initialized_idt ++ (initialized_pic ++ (enabled_interrupts ++ no_keyboard)))
              r.0
              r.1
            >>= ending t)
  unfolding start_interrupts
  interrupts_told t r set = rw set (
      tell initialized_idt _ t
        (record m { screen = r.0; byte = r.1; idtr = t.0; idt_entries = t.1 }) _
        (λ r1.
          tell initialized_pic _ t
            (record m {
              screen = r1.0;
              byte = r1.1;
              idtr = t.0;
              idt_entries = t.1;
              device = pic_init io m.device;
            })
            _
            (λ r2.
              tell enabled_interrupts no_keyboard t
                (record m {
                  screen = r2.0;
                  byte = r2.1;
                  idtr = t.0;
                  idt_entries = t.1;
                  device = pic_init io m.device;
                })
                _ (λ r3. stop_keyboard t r3))))

  screen_told :
      (fb : Framebuffer) (t : Idtr × List IdtEntry)
      → idt_init image.idt image.isr_stub_table m.idt_entries ≡ some t
      → start_screen io fuel walk image entries offset fb m
        ≡ (screen_print told (screen_set_font_scale (pos 2) (screen_init fb)) m.byte >>= ending t)
  unfolding start_screen
  screen_told fb t set =
      tell initialized_screen _ t
        (record m { screen = screen_set_font_scale (pos 2) (screen_init fb) }) _
        (λ r. interrupts_told t r set)

set_vectors-defined :
    (left first : ℕ) (isr_stub_table : List ℕ) (entries : List IdtEntry)
    → first + left ≤ length isr_stub_table
    → (entries' : List IdtEntry) × (set_vectors first left isr_stub_table entries ≡ some entries')
unfolding set_vectors
set_vectors-defined zero first isr_stub_table entries le = (entries, refl)
set_vectors-defined (suc left) first isr_stub_table entries le =
    let next = idt_set_descriptor first (get_or isr_stub_table first 0) 0x8E entries in
    let (entries', runs) = set_vectors-defined left (first + 1) isr_stub_table next (omega arith) in
    (entries', rw (get_elem?-eq-get_or isr_stub_table first 0 (omega arith)) runs)

idt_init-defined :
    (table : ℕ) (isr_stub_table : List ℕ) (entries : List IdtEntry)
    → 48 ≤ length isr_stub_table
    → (t : Idtr × List IdtEntry) × (idt_init table isr_stub_table entries ≡ some t)
unfolding idt_init
idt_init-defined table isr_stub_table entries le =
    let (entries', runs) = set_vectors-defined 48 0 isr_stub_table entries (omega arith) in
    ((record { limit = 4095; base = table }, entries'), rw runs refl)

-- The top left corner.
first_cell :
    (fb : Framebuffer) (cols rows : ℕ)
    → fb.width ≡ cols * 16
    → fb.height ≡ rows * 16
    → 0 < cols
    → 0 < rows
    → At (screen_set_font_scale (pos 2) (screen_init fb)) 2 cols rows 0 0
unfolding screen_set_font_scale screen_init
first_cell fb cols rows wide tall c r = record {
  scale = refl;
  visible = omega arith;
  small = omega arith;
  width = wide;
  height = tall;
  column = c;
  line = r;
  cursor_x = refl;
  cursor_y = refl;
}

kept_fb : (fb : Framebuffer) → (screen_set_font_scale (pos 2) (screen_init fb)).screen_fb ≡ fb
unfolding screen_set_font_scale screen_init
kept_fb fb = refl

-- Where the boot loader answers all requests, with a usable frame buffer of whole characters of 16 by
-- 16 pixels and at least one, with a table of at least 48 interrupt stubs, and with a keyboard that
-- answers each of the first three bytes after the set-up of the interrupt controllers by a request to
-- send it again: kmain prints the four messages of the parts that are set up and the one of the
-- failure, and stops. No byte outside the frame buffer differs, and neither the allocators nor the
-- variables of the disk driver and of the partition table do.
pub kmain-silent :
    {D : Type 0} (io : Ports D) (fuel walk : ℕ) (image : Image) (requests : Requests)
    (entries : List MemmapEntry) (offset cols rows : ℕ) (fb : Framebuffer) (m : Machine io)
    → requests.base_revision_supported ≡ true
    → requests.memory_map ≡ some entries
    → requests.hhdm ≡ some offset
    → requests.framebuffer ≡ some fb
    → IsUsable fb
    → fb.width ≡ cols * 16
    → fb.height ≡ rows * 16
    → 0 < cols
    → 0 < rows
    → 48 ≤ length image.isr_stub_table
    → ((j : ℕ) → j < 3 → reply io disable_scanning j (pic_init io m.device) ≡ kbd_resp_resend)
    → (m' : Machine io) × (kmain io fuel walk image requests m ≡ some (halted m'))
      × (screen_print told (screen_set_font_scale (pos 2) (screen_init fb)) m.byte
          ≡ some (m'.screen, m'.byte))
      × KeepsRest fb m.byte m'.byte
      × (m'.heap ≡ m.heap)
      × (m'.identify_data_block ≡ m.identify_data_block)
      × (m'.gpt ≡ m.gpt)
unfolding kmain with_responses
kmain-silent io fuel walk image requests entries offset cols rows fb m supported map hhdm frame
      usable wide tall c r stubs silent =
    let (t, set) = idt_init-defined image.idt image.isr_stub_table m.idt_entries stubs in
    let s0 = screen_set_font_scale (pos 2) (screen_init fb) in
    let (s', byte', runs, at, keeps) =
      screen_print-At told 2 cols rows 0 0 s0 m.byte (subst IsUsable (sym (kept_fb fb)) usable)
        (first_cell fb cols rows wide tall c r) refl in
    (
      final io fuel walk image entries offset m silent t (s', byte'),
      rw (supported, map, hhdm, frame)
          (screen_told io fuel walk image entries offset m silent fb t set
            ∙ ap
                (λ o.
                  o >>= λ r. some (halted (final io fuel walk image entries offset m silent t r)))
                runs),
      runs,
      subst (λ f. KeepsRest f m.byte byte') (kept_fb fb) keeps,
      refl,
      refl,
      refl,
    )
