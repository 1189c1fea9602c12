-- ===== src/Gpt/Tests.antt =====
-- Runs of the check of the header: on a disk that holds one, and on bytes that are one.
use ssos.Base.{
  ap, ℕ, zero, suc, ◌+◌, ◌*◌, ◌⊎◌, negsuc, bit_and, ◌-◌, ◌^◌, ◌≡◌, ◌↔◌, refl, arith, some, pos, [],
  ◌∷◌, replicate, set,
}
use ssos.Base.{
  ◌<◌, ◌≤◌, ◌≢◌, inl, inr, List, get_or, length, true, ltb, ltb→lt, ◌==◌, if◌then◌else◌, all_below,
  all_below_sound, Bool-cases,
}
use ssos.Paging.{Paging}
use ssos.Kalloc.{Kalloc}
use ssos.Kalloc.Undo.Lists.{lone}
use ssos.Kalloc.Undo.Page.{IsFresh}
use ssos.Disk.Drive.{Drive, Misled}
use ssos.Disk.TestDrive.{drive, at_work, empty, drive-IsAta}
use ssos.Gpt.{Gpt, Result, gpt_init, check_header, read_le, bytes_at}
use ssos.Gpt.Header.{IsHeader, check_header_iff}
use ssos.Gpt.Detect.{check_header-changed}
use ssos.BitMath.{calculate_ccitt32_ansi_crc32, crc_loop, crc_rounds, crc_round}
use ssos.Memory.{memset, store_byte}
use ssos.Gpt.Init.{header_byte, checksum_cleared, gpt_init-IsHeader}

abbrev frames : Paging
frames = record {
  paging_hhdm_start = 0xFFFF800000000000;
  pages = (2 ^ 30 - 1) ∷ replicate 39 0;
  paging_phys_page_base = 0x1000000;
  paging_kernel_pml4 = 0xFFFF800000001000;
  paging_present_page_count = 30;
  paging_curr_free_page_table = 0;
  word = λ a. 0;
}

-- One free page, at 2 MiB.
abbrev one_page : Kalloc
one_page = record {
  mem_blocks = set (replicate 34 0) 18 0x200000;
  highest_block_size = 0x200000;
  highest_level = 18;
  block = λ a. lone 18;
  paging = frames;
}

one_page-IsFresh : IsFresh 0x200000 frames one_page
one_page-IsFresh = record {
  common = record { size = refl; level = refl; block_size = refl; frames = refl };
  heads = refl;
  page = refl;
}

abbrev unread : Gpt
unread = record {
  backup_lba = 0;
  first_usable_lba = 0;
  last_usable_lba = 0;
  disk_guid = replicate 16 0;
  partition_entries_lba = 0;
  num_partition_entries = 0;
  partition_entry_size = 0;
  crc32_partition_array = 0;
}

-- A valid header, whose other fields are 0, at the address 0.
abbrev header : List ℕ
header =
    0x45 ∷ 0x46 ∷ 0x49 ∷ 0x20 ∷ 0x50 ∷ 0x41 ∷ 0x52 ∷ 0x54 ∷ 0x00 ∷ 0x00 ∷ 0x01 ∷ 0x00 ∷ 0x5C ∷ 0x00
    ∷ 0x00 ∷ 0x00 ∷ 0x5A ∷ 0xCE ∷ 0x7F ∷ 0x53 ∷ 0x00 ∷ 0x00 ∷ 0x00 ∷ 0x00 ∷ 0x01 ∷ 0x00 ∷ 0x00
    ∷ 0x00 ∷ 0x00 ∷ 0x00 ∷ 0x00 ∷ 0x00 ∷ []

abbrev memory : ℕ → ℕ
memory a = get_or header a 0

-- A disk with the header in its sector 1.
abbrev gpt_disk : ℕ → ℕ
gpt_disk w = get_or header (2 * (w - 256)) 0 + 256 * get_or header (2 * (w - 256) + 1) 0

accepted_on_disk :
    check_header 0 (header_byte gpt_disk) (memset 0x10 0 4 (header_byte gpt_disk)) ≡ pos 0
unfolding check_header read_le bytes_at memset store_byte calculate_ccitt32_ansi_crc32 crc_loop
    crc_rounds crc_round
accepted_on_disk = refl

-- The header on the disk is valid.
gpt_disk-IsHeader : IsHeader (header_byte gpt_disk)
gpt_disk-IsHeader =
    let h = header_byte gpt_disk in
    (check_header_iff 0 h h (memset 0x10 0 4 h) (λ k lt. ap h (omega arith))
        (checksum_cleared 0 h h (λ k lt. ap h (omega arith)))).0
      accepted_on_disk

gpt_init-IsHeader_example :
    (r : Result Drive) × (gpt_init (drive gpt_disk) 8 3 one_page unread empty at_work ≡ some r)
    × IsFresh 0x200000 frames r.heap
    × (((r.ret ≡ pos 0) ↔ IsHeader (header_byte gpt_disk))
        ⊎ ((r.ret ≡ negsuc 1) × Misled (drive gpt_disk) (λ v. v) r.device))
gpt_init-IsHeader_example =
    gpt_init-IsHeader (drive gpt_disk) (λ v. v) gpt_disk 1 8 3 0x200000 frames one_page unread empty
      at_work (omega arith) refl (omega arith) one_page-IsFresh (drive-IsAta gpt_disk) (omega arith)
      (omega arith)

-- This drive sets no other bit than BSY while it is busy, so that the header is accepted.
read_from_disk :
    (r : Result Drive) × (gpt_init (drive gpt_disk) 8 3 one_page unread empty at_work ≡ some r)
    × (r.ret ≡ pos 0)
read_from_disk =
    let (r, runs, again, outcome) = gpt_init-IsHeader_example in
    (
      r,
      runs,
      elim outcome [
        | inl valid ↦ valid.1 gpt_disk-IsHeader
        | inr (failed, misled) ↦
            absurd (misled.error (quiet misled.asked misled.asked.busy refl misled.is_busy))
      ],
    )
  where
    quiet :
        (v : Drive) (b : ℕ) → v.busy ≡ b → b ≢ 0 → bit_and ((drive gpt_disk).inb 0x1F7 v).0 0x01 ≡ 0
    quiet v zero e ne = absurd (ne refl)
    quiet v (suc b) e ne = rw e refl

-- The same with a byte of the identifier of the disk changed.
abbrev damaged : ℕ → ℕ
damaged a = if a == 0x3A then 1 else memory a

all_bytes : all_below 92 (λ a. ltb (memory a) 256) ≡ true
unfolding all_below
all_bytes = refl

memory-lt : (a : ℕ) → memory a < 256
memory-lt a = elim (Bool-cases (ltb a 92)) [
  | inl e ↦
      ltb→lt (memory a) 256
        (all_below_sound 92 (λ b. ltb (memory b) 256) a all_bytes (ltb→lt a 92 e))
  | inr e ↦ short header a (ground (arith, e))
]
  where
    short : (l : List ℕ) (a : ℕ) → length l ≤ a → get_or l a 0 < 256
    short [] a le = omega arith
    short (x ∷ l) ℕ.zero le = absurd (omega arith)
    short (x ∷ l) (ℕ.suc a) le = short l a (omega arith)

damaged-lt : (a : ℕ) → damaged a < 256
damaged-lt a = ground (arith, memory-lt a)

accepted : check_header 0 memory (memset 0x10 0 4 memory) ≡ pos 0
unfolding check_header read_le bytes_at memset store_byte calculate_ccitt32_ansi_crc32 crc_loop
    crc_rounds crc_round
accepted = refl

check_header-changed_example : check_header 0 damaged (memset 0x10 0 4 damaged) ≢ pos 0
check_header-changed_example =
    check_header-changed 0 0x3A memory damaged memory-lt damaged-lt (omega arith)
      (λ a ne. ground (arith, ne)) (omega arith) accepted
