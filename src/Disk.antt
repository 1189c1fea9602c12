-- ===== src/Disk.antt =====
-- The disk driver (src/drivers/disk.c), over ports of which the device behind them is a parameter. The
-- loops that wait for the drive take fuel, the number of times that they read its status.
pub mod Drive
pub mod TestDrive
pub mod Read
mod Tests
use ssos.Base.{ℕ, zero, suc, ◌+◌, ◌*◌, ◌/◌, ◌%◌, ◌^◌, Bool, true, false, not, ◌&&◌, ◌||◌}
use ssos.Base.{Option, none, some, ◌>>=◌, List, [], ◌∷◌, ◌++◌}
use ssos.Base.{ltb, leb, ◌==◌, if◌then◌else◌, bit_and, bit_or, ℤ, pos, negsuc}
use ssos.Ports.{Ports}
use ssos.Memory.{store_byte}
use ssos.Interrupts.{Driver, idt_install_irq_driver}

abbrev pub ata_reg_data : ℕ
ata_reg_data = 0x1F0

abbrev pub ata_reg_sector_count : ℕ
ata_reg_sector_count = 0x1F2

abbrev pub ata_reg_lba_low : ℕ
ata_reg_lba_low = 0x1F3

abbrev pub ata_reg_lba_mid : ℕ
ata_reg_lba_mid = 0x1F4

abbrev pub ata_reg_lba_high : ℕ
ata_reg_lba_high = 0x1F5

abbrev pub ata_reg_drive_head : ℕ
ata_reg_drive_head = 0x1F6

-- ATA_REG_STATUS and ATA_REG_COMMAND, which are one port.
abbrev pub ata_reg_status : ℕ
ata_reg_status = 0x1F7

abbrev pub ata_reg_alt_status : ℕ
ata_reg_alt_status = 0x3F6

-- `buff_cast[i] = word`, at the address of the word.
unfoldable pub store_u16 : ℕ → ℕ → (ℕ → ℕ) → ℕ → ℕ
unfolding store_byte
store_u16 addr word byte =
    store_byte (addr + 1) (word / 256 % 256) (store_byte addr (word % 256) byte)

module _ {D : Type 0} (io : Ports D) where
  -- `while (inb(ATA_REG_STATUS) & ATA_STATUS_BSY);`
  unfoldable pub wait_idle : ℕ → D → Option D
  wait_idle zero d = none
  wait_idle (suc fuel) d =
      let status = io.inb ata_reg_status d in
      let rest = wait_idle fuel status.1 in
      if bit_and status.0 0x80 == 0 then some status.1 else rest

  -- Four reads of the alternate status.
  unfoldable pub delay : D → D
  delay d =
      let d2 = (io.inb ata_reg_alt_status (io.inb ata_reg_alt_status d).1).1 in
      (io.inb ata_reg_alt_status (io.inb ata_reg_alt_status d2).1).1

  -- What `disk_read` and `disk_write` write to the registers before the command.
  unfoldable pub address_sectors : ℕ → ℕ → D → D
  unfolding delay
  address_sectors start_lba sector_count d =
      let d1 =
        delay (io.outb ata_reg_drive_head (bit_or 0xE0 (bit_and (start_lba / 2 ^ 24) 0x0F)) d) in
      let d2 = io.outb ata_reg_sector_count (if leb 256 sector_count then 0 else sector_count) d1 in
      let d3 = io.outb ata_reg_lba_low (bit_and start_lba 0xFF) d2 in
      let d4 = io.outb ata_reg_lba_mid (bit_and (start_lba / 2 ^ 8) 0xFF) d3 in
      io.outb ata_reg_lba_high (bit_and (start_lba / 2 ^ 16) 0xFF) d4

  -- The loop that waits for the data of a sector; false for an error.
  unfoldable pub wait_data : ℕ → D → Option (Bool × D)
  wait_data zero d = none
  wait_data (suc fuel) d =
      let status = io.inb ata_reg_status d in
      let rest = wait_data fuel status.1 in
      if not (bit_and status.0 0x01 == 0)
      then some (false, status.1)
      else if (bit_and status.0 0x80 == 0) && not (bit_and status.0 0x08 == 0)
      then some (true, status.1)
      else rest

  -- The words of a sector, with `n` to go.
  unfoldable pub read_words : ℕ → ℕ → (ℕ → ℕ) → D → (ℕ → ℕ) × D
  read_words zero addr byte d = (byte, d)
  read_words (suc n) addr byte d =
      let word = io.inw ata_reg_data d in
      read_words n (addr + 2) (store_u16 addr word.0 byte) word.1

  -- The sectors, with `n` to go.
  unfoldable pub read_sectors : ℕ → ℕ → ℕ → (ℕ → ℕ) → D → Option (ℤ × (ℕ → ℕ) × D)
  unfolding delay
  read_sectors fuel zero addr byte d = some (pos 0, byte, d)
  read_sectors fuel (suc n) addr byte d = wait_data fuel d >>= λ ready.
      let words = read_words 256 addr byte ready.1 in
      let rest = read_sectors fuel n (addr + 512) words.0 (delay words.1) in
      if ready.0 then rest else some (negsuc 0, byte, ready.1)

  unfoldable pub disk_read : ℕ → ℕ → ℕ → ℕ → (ℕ → ℕ) → D → Option (ℤ × (ℕ → ℕ) × D)
  unfolding address_sectors
  disk_read fuel start_lba sector_count buff byte d = wait_idle fuel d >>= λ d1.
      read_sectors fuel sector_count buff byte
        (io.outb ata_reg_status 0x20 (address_sectors start_lba sector_count d1))

  -- The words of a sector, with `n` to go.
  unfoldable pub write_words : ℕ → ℕ → (ℕ → ℕ) → D → D
  write_words zero addr byte d = d
  write_words (suc n) addr byte d =
      let sent = io.outw ata_reg_data (byte addr + byte (addr + 1) * 256) d in
      write_words n (addr + 2) byte (io.inb ata_reg_alt_status sent).1

  -- The sectors, with `n` to go, and the flush behind them.
  unfoldable pub write_sectors : ℕ → ℕ → ℕ → (ℕ → ℕ) → D → Option (ℤ × D)
  unfolding delay
  write_sectors fuel zero addr byte d =
      wait_idle fuel (io.outb ata_reg_status 0xE7 d) >>= λ d1. some (pos 0, d1)
  write_sectors fuel (suc n) addr byte d = wait_data fuel d >>= λ ready.
      let rest =
        write_sectors fuel n (addr + 512) byte (delay (write_words 256 addr byte ready.1)) in
      if ready.0 then rest else some (negsuc 0, ready.1)

  unfoldable pub disk_write : ℕ → ℕ → ℕ → ℕ → (ℕ → ℕ) → D → Option (ℤ × D)
  unfolding address_sectors
  disk_write fuel start_lba sector_count buff byte d = wait_idle fuel d >>= λ d1.
      write_sectors fuel sector_count buff byte
        (io.outb ata_reg_status 0x30 (address_sectors start_lba sector_count d1))

  -- The loop that waits for the identification; false for an error.
  unfoldable pub wait_identify : ℕ → D → Option (Bool × D)
  wait_identify zero d = none
  wait_identify (suc fuel) d =
      let status = io.inb ata_reg_status d in
      let again = io.inb ata_reg_status status.1 in
      let rest = wait_identify fuel again.1 in
      if not (bit_and status.0 0x08 == 0)
      then some (true, status.1)
      else if not (bit_and again.0 0x01 == 0)
      then some (false, again.1)
      else rest

  -- The words of `identify_data_block`, with `n` to go.
  unfoldable pub identify_words : ℕ → D → List ℕ × D
  identify_words zero d = ([], d)
  identify_words (suc n) d =
      let word = io.inw ata_reg_data d in
      let rest = identify_words n word.1 in (word.0 ∷ rest.0, rest.1)

  unfoldable pub disk_irq_handler : Driver io
  disk_irq_handler frame irq_num d = d

  -- From the IDENTIFY command on, behind the test for a drive.
  unfoldable pub identify :
      ℕ → List ℕ → List (Driver io) → D → Option (ℤ × List ℕ × List (Driver io) × D)
  unfolding disk_irq_handler
  identify fuel identify_data_block drivers d = wait_idle fuel d >>= λ d1.
      let mid = io.inb ata_reg_lba_mid d1 in
      let high = io.inb ata_reg_lba_high mid.1 in
      let found = wait_identify fuel high.1 >>= λ ready.
      let block = identify_words 256 ready.1 in
      let installed = idt_install_irq_driver io 14 disk_irq_handler drivers >>= λ drivers'.
      some (pos 0, block.0, drivers', block.1) in
      if ready.0 then installed else some (negsuc 2, identify_data_block, drivers, ready.1) in
      if not (mid.0 == 0)
      then some (negsuc 1, identify_data_block, drivers, mid.1)
      else if not (high.0 == 0)
      then some (negsuc 1, identify_data_block, drivers, high.1)
      else found

  -- The error code, the data block, the interrupt drivers and the device.
  unfoldable pub disk_init :
      ℕ → List ℕ → List (Driver io) → D → Option (ℤ × List ℕ × List (Driver io) × D)
  unfolding delay identify
  disk_init fuel identify_data_block drivers d =
      let d1 = delay (io.outb ata_reg_drive_head 0xA0 d) in
      let d2 = io.outb ata_reg_lba_low 0 (io.outb ata_reg_sector_count 0 d1) in
      let d3 = io.outb ata_reg_lba_high 0 (io.outb ata_reg_lba_mid 0 d2) in
      let status = io.inb ata_reg_status (io.outb ata_reg_status 0xEC d3) in
      if status.0 == 0
      then some (negsuc 0, identify_data_block, drivers, status.1)
      else identify fuel identify_data_block drivers status.1
