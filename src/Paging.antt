-- ===== src/Paging.antt =====
-- The page frame allocator (src/mem/paging.h and paging.c). Its static variables, and the words
-- of memory that it reads and writes as page tables, are one state.
pub mod Tables
pub mod Init
pub mod Frames
pub mod Bitmap
pub mod Take
pub mod Alloc
pub mod Free
pub mod Present
mod Tests
use ssos.Base.{ℕ, List}

-- PAGE_SIZE
abbrev pub page_size : ℕ
page_size = 0x200000

-- MAX_PAGES
abbrev pub max_pages : ℕ
max_pages = 2560

-- BUCKET_SIZE
abbrev pub bucket_size : ℕ
bucket_size = 64

-- TOTAL_BUCKET_COUNT
abbrev pub total_bucket_count : ℕ
total_bucket_count = 40

-- `word` gives the uint64_t at each virtual address.
pub record Paging : Type 0 where
  pub paging_hhdm_start : ℕ
  pub pages : List ℕ
  pub paging_phys_page_base : ℕ
  pub paging_kernel_pml4 : ℕ
  pub paging_present_page_count : ℕ
  pub paging_curr_free_page_table : ℕ
  pub word : ℕ → ℕ
