-- ===== src/Gpt.antt =====
-- The partition table (src/fs/gpt.c): the check of the header, over the allocator, the disk driver and the
-- checksum.
pub mod Header
pub mod Detect
pub mod Init
mod Tests
use ssos.Base.{
  ℕ, zero, suc, ◌+◌, ◌*◌, Bool, true, false, not, Option, none, some, ◌>>=◌, List, [], ◌∷◌,
}
use ssos.Base.{◌==◌, if◌then◌else◌, ℤ, pos, negsuc}
use ssos.BitMath.{calculate_ccitt32_ansi_crc32}
use ssos.Kalloc.{Kalloc, kmalloc, kfree}
use ssos.Memory.{memset}
use ssos.Ports.{Ports}
use ssos.Disk.{disk_read}

-- The static variables.
pub record Gpt : Type 0 where
  pub backup_lba : ℕ
  pub first_usable_lba : ℕ
  pub last_usable_lba : ℕ
  pub disk_guid : List ℕ
  pub partition_entries_lba : ℕ
  pub num_partition_entries : ℕ
  pub partition_entry_size : ℕ
  pub crc32_partition_array : ℕ

-- The integer that `memcpy` of `n` bytes from `addr` gives, the low byte first.
unfoldable pub read_le : ℕ → ℕ → (ℕ → ℕ) → ℕ
read_le zero addr byte = 0
read_le (suc n) addr byte = byte addr + 256 * read_le n (addr + 1) byte

-- The `n` bytes from `addr` on.
unfoldable pub bytes_at : ℕ → ℕ → (ℕ → ℕ) → List ℕ
bytes_at zero addr byte = []
bytes_at (suc n) addr byte = byte addr ∷ bytes_at n (addr + 1) byte

-- What is read of the header behind the checksum, which is 0 by then.
unfoldable pub read_gpt : ℕ → (ℕ → ℕ) → Gpt
read_gpt gpt_header byte = record {
  backup_lba = read_le 8 (gpt_header + 0x20) byte;
  first_usable_lba = read_le 8 (gpt_header + 0x28) byte;
  last_usable_lba = read_le 8 (gpt_header + 0x30) byte;
  disk_guid = bytes_at 16 (gpt_header + 0x38) byte;
  partition_entries_lba = read_le 8 (gpt_header + 0x48) byte;
  num_partition_entries = read_le 4 (gpt_header + 0x50) byte;
  partition_entry_size = read_le 4 (gpt_header + 0x54) byte;
  crc32_partition_array = read_le 4 (gpt_header + 0x58) byte;
}

-- The tests of the header, given its bytes when they were read and when the checksum is 0.
unfoldable pub check_header : ℕ → (ℕ → ℕ) → (ℕ → ℕ) → ℤ
check_header gpt_header byte zeroed =
    let signature = read_le 8 (gpt_header + 0x00) byte in
    let gpt_revision = read_le 4 (gpt_header + 0x08) byte in
    let header_size = read_le 4 (gpt_header + 0x0C) byte in
    let crc32_header = read_le 4 (gpt_header + 0x10) byte in
    let curr_lba = read_le 8 (gpt_header + 0x18) zeroed in
    if not (signature == 0x5452415020494645)
    then negsuc 2
    else if not (gpt_revision == 0x00010000)
    then negsuc 3
    else if not (header_size == 92)
    then negsuc 4
    else if not
        (calculate_ccitt32_ansi_crc32 (bytes_at header_size gpt_header zeroed) == crc32_header)
    then negsuc 5
    else if not (curr_lba == 1)
    then negsuc 6
    else pos 0

-- What a call leaves: its result, the variables, the allocator, memory and the device.
pub record Result (D : Type 0) : Type 0 where
  pub ret : ℤ
  pub gpt : Gpt
  pub heap : Kalloc
  pub byte : ℕ → ℕ
  pub device : D

unfoldable pub is_zero : ℤ → Bool
is_zero (pos n) = n == 0
is_zero (negsuc n) = false

-- `walk` bounds the length of the allocator's free lists, `fuel` the waiting for the drive. The header is
-- freed on every path.
unfoldable pub gpt_init :
    {D : Type 0} → Ports D → ℕ → ℕ → Kalloc → Gpt → (ℕ → ℕ) → D → Option (Result D)
unfolding read_gpt check_header is_zero
gpt_init io walk fuel heap gpt byte d = kmalloc 512 heap >>= λ r.
    let gpt_header = r.0 in
    let served = disk_read io fuel 1 1 gpt_header byte d >>= λ t.
    let zeroed = memset (gpt_header + 0x10) 0 4 t.1 in
    let failed = kfree walk gpt_header r.1 >>= λ heap'.
    some (record { ret = negsuc 1; gpt = gpt; heap = heap'; byte = t.1; device = t.2 }) in
    let checked = kfree walk gpt_header r.1 >>= λ heap'. some (record {
      ret = check_header gpt_header t.1 zeroed;
      gpt = read_gpt gpt_header zeroed;
      heap = heap';
      byte = zeroed;
      device = t.2;
    }) in
    if is_zero t.0 then checked else failed in
    if gpt_header == 0
    then some (record { ret = negsuc 0; gpt = gpt; heap = r.1; byte = byte; device = d })
    else served
