-- ===== src/Ports.antt =====
-- Port access (src/drivers/ports.c). The instructions `in` and `out` act on the device behind the ports,
-- of type D, which is a parameter.
use ssos.Base.{ℕ}

-- What a write does to the device, and what a read gives and does.
pub record Ports (D : Type 0) : Type 0 where
  pub outb : ℕ → ℕ → D → D
  pub inb : ℕ → D → ℕ × D
  pub outw : ℕ → ℕ → D → D
  pub inw : ℕ → D → ℕ × D

unfoldable pub io_wait : {D : Type 0} → Ports D → D → D
io_wait io d = io.outb 0x80 0 d
