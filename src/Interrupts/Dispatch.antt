-- ===== src/Interrupts/Dispatch.antt =====
-- From an interrupt request to its driver, and the end of the interrupt.
use ssos.Base.{ℕ, ◌%◌, ◌<◌, ◌≡◌, sym, ap, arith, ◌∙◌}
use ssos.Base.{List, some, ltb, ◌==◌, if◌then◌else◌, if_true, if_false, ==_refl, ==_ne}
use ssos.Base.{
  length, get_or, set, length-set, set?-eq-set, get_elem?-eq-get_or, get_or-set_self, get_or-set_ne,
}
use native.Mathlib.Decide.{ℕ_discrete}
use ssos.Ports.{Ports}
use ssos.Interrupts.{InterruptFrame, Driver, pic_send_eoi, idt_default_irq_handler}
use ssos.Interrupts.{idt_install_irq_driver, idt_irq_handler}

module _ {D : Type 0} (io : Ports D) where
  -- The requests 0 to 7 are the master's. The others come from the slave through the master, and both
  -- wait for the command that ends an interrupt.
  abbrev pub ended : ℕ → D → D
  ended irq d = if ltb irq 8 then io.outb 0x20 0x20 d else io.outb 0x20 0x20 (io.outb 0xA0 0x20 d)

  pic_send_eoi-ended : (irq : ℕ) (d : D) → irq < 16 → pic_send_eoi io (irq % 256) d ≡ ended irq d
  unfolding pic_send_eoi
  pic_send_eoi-ended irq d lt = let same : irq % 256 ≡ irq = omega arith in rw same (ground arith)

  handled :
      (frame : InterruptFrame) (irq : ℕ) (drivers : List (Driver io)) (d : D)
      → irq < 16
      → length drivers ≡ 16
      → idt_irq_handler io frame irq drivers d
        ≡ some (ended irq (get_or drivers irq (idt_default_irq_handler io) frame irq d))
  unfolding idt_irq_handler
  handled frame irq drivers d lt size =
      rw (get_elem?-eq-get_or drivers irq (idt_default_irq_handler io) (omega arith))
        (ap some (pic_send_eoi-ended irq _ lt))

  -- A driver installed for one of the 16 requests, in the table of the 16 drivers: from then on that
  -- request is handled by it, every other one by its driver of before, and behind either the interrupt is
  -- ended, at the slave too where the request is 8 or more.
  pub idt_irq_handler-installed :
      (irq_num : ℕ) (handler : Driver io) (drivers : List (Driver io))
      → irq_num < 16
      → length drivers ≡ 16
      → (drivers' : List (Driver io)) × (idt_install_irq_driver io irq_num handler drivers
          ≡ some drivers')
        × (length drivers' ≡ 16)
        × ((irq : ℕ) (frame : InterruptFrame) (d : D)
            → irq < 16
            → idt_irq_handler io frame irq drivers' d
              ≡ some (
                  ended irq (
                    if irq_num == irq
                    then handler frame irq d
                    else get_or drivers irq (idt_default_irq_handler io) frame irq d)))
  unfolding idt_install_irq_driver
  idt_irq_handler-installed irq_num handler drivers lt size =
      let drivers' = set drivers irq_num handler in
      let same : length drivers' ≡ 16 = length-set drivers irq_num handler ∙ size in
      (
        drivers',
        set?-eq-set drivers irq_num handler (omega (arith, size)),
        same,
        λ irq frame d l.
            handled frame irq drivers' d l same ∙ ap (λ t. some (ended irq t)) (picked irq frame d),
      )
    where
      picked :
          (irq : ℕ) (frame : InterruptFrame) (d : D)
          → get_or (set drivers irq_num handler) irq (idt_default_irq_handler io) frame irq d ≡ (
              if irq_num == irq
              then handler frame irq d
              else get_or drivers irq (idt_default_irq_handler io) frame irq d)
      picked irq frame d = elim (ℕ_discrete irq_num irq) [
        | yes e ↦
            ap
              (λ i. get_or (set drivers irq_num handler) i (idt_default_irq_handler io) frame irq d)
              (sym e)
            ∙ ap (λ driver. driver frame irq d)
                (get_or-set_self drivers irq_num handler (idt_default_irq_handler io)
                  (omega (arith, size)))
            ∙ sym (if_true (irq_num == irq) (handler frame irq d) _ (==_refl irq_num irq e))
        | no ne ↦
            ap (λ driver. driver frame irq d)
              (get_or-set_ne drivers irq_num irq handler (idt_default_irq_handler io) ne)
            ∙ sym (if_false (irq_num == irq) (handler frame irq d) _ (==_ne irq_num irq ne))
      ]
