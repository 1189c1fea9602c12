-- ===== src/Paging/Init.antt =====
-- `paging_init_frame_allocator` (src/mem/paging.c): the largest usable region of the memory map.
use ssos.Base.{ℕ, zero, suc, ◌+◌, ◌-◌, ◌/◌, ◌%◌, ◌^◌, Bool, true, false, ◌&&◌, ◌||◌, not}
use ssos.Base.{Option, none, some, List, [], ◌∷◌, ◌>>=◌, bit_or, u64, ltb, leb, ◌==◌, if◌then◌else◌}
use ssos.Base.{get_elem?, set?}
use ssos.BitMath.{align_up, align_down}
use ssos.Paging.{Paging, page_size, max_pages, bucket_size}

-- `struct limine_memmap_entry`
pub record MemmapEntry : Type 0 where
  pub base : ℕ
  pub length : ℕ
  pub kind : ℕ

-- LIMINE_MEMMAP_USABLE
abbrev pub limine_memmap_usable : ℕ
limine_memmap_usable = 0

-- `usable_block_found`, `best_base` and `best_len`.
pub record Best : Type 0 where
  pub usable_block_found : Bool
  pub best_base : ℕ
  pub best_len : ℕ

-- The part of `[region_start, region_end)` that the kernel's pages `[kstart, kend)` leave usable:
-- the larger side, the one before on a tie.
unfoldable pub usable_subregion : ℕ → ℕ → ℕ → ℕ → ℕ × ℕ
usable_subregion region_start region_end kstart kend =
    if ltb region_start kend && ltb kstart region_end
    then (let size_before = if ltb region_start kstart then kstart - region_start else 0 in
        let size_after = if ltb kend region_end then region_end - kend else 0 in
        if leb size_after size_before then (region_start, kstart) else (kend, region_end))
    else (region_start, region_end)

-- The update of the largest usable block by a region that is not empty.
unfoldable pub consider_region : ℕ → ℕ → Best → Best
consider_region usable_start usable_end best =
    if leb usable_end (u64 (usable_start + page_size))
    then best
    else (let usable_length = usable_end - usable_start in
        if not best.usable_block_found || ltb best.best_len usable_length
        then record {
          usable_block_found = true;
          best_base = usable_start;
          best_len = usable_length;
        }
        else best)

-- The body of the loop over the entries. `kernel_start` and `kernel_end` are what is read as
-- `virt_kernel_start` and `virt_kernel_end`.
unfoldable pub consider_entry : ℕ → ℕ → ℕ → MemmapEntry → Best → Best
unfolding align_up align_down usable_subregion consider_region
consider_entry kernel_start kernel_end hhdm entry best =
    if entry.kind == limine_memmap_usable
    then (let region_start = align_up entry.base page_size in
        let region_end = align_down (u64 (entry.base + entry.length)) page_size in
        if leb region_end region_start
        then best
        else (let kstart = align_up (u64 (kernel_start + 2 ^ 64 - hhdm)) page_size in
            let kend = align_down (u64 (kernel_end + 2 ^ 64 - hhdm)) page_size in
            let usable = usable_subregion region_start region_end kstart kend in
            consider_region usable.0 usable.1 best))
    else best

unfoldable pub best_region : ℕ → ℕ → ℕ → List MemmapEntry → Best → Best
unfolding consider_entry
best_region kernel_start kernel_end hhdm [] best = best
best_region kernel_start kernel_end hhdm (entry ∷ rest) best =
    best_region kernel_start kernel_end hhdm rest
      (consider_entry kernel_start kernel_end hhdm entry best)

-- `1 << n` on int, which is undefined from the sign bit on.
unfoldable pub int_shift_one : ℕ → Option ℕ
int_shift_one n = if ltb n 31 then some (2 ^ n) else none

-- `pages[page_idx / BUCKET_SIZE] |= 1 << (page_idx % BUCKET_SIZE)`, for `n` pages from `page_idx`.
unfoldable pub mark_present : ℕ → ℕ → List ℕ → Option (List ℕ)
unfolding int_shift_one
mark_present zero page_idx pages = some pages
mark_present (suc n) page_idx pages = do
  bucket ← get_elem? pages (page_idx / bucket_size)
  mask ← int_shift_one (page_idx % bucket_size)
  pages' ← set? pages (page_idx / bucket_size) (bit_or bucket mask)
  mark_present n (page_idx + 1) pages'

-- The return value is 0, or -1 (`none` inside) with no usable block; the outer `none` is undefined
-- behaviour. `cr3` is what the processor's register holds.
unfoldable pub paging_init_frame_allocator :
    ℕ → ℕ → ℕ → List MemmapEntry → ℕ → Paging → Option (Bool × Paging)
paging_init_frame_allocator kernel_start kernel_end cr3 mmap_entries hh_off s =
    let s' : Paging = record s {
      paging_kernel_pml4 = u64 (cr3 + hh_off);
      paging_hhdm_start = hh_off;
    } in
    let best =
      best_region kernel_start kernel_end hh_off mmap_entries
        (record { usable_block_found = false; best_base = 0; best_len = 0 }) in
    if not best.usable_block_found
    then some (false, s')
    else (let page_count = best.best_len / page_size in
        let present = if ltb max_pages page_count then max_pages else page_count in
        do
          pages ← mark_present present 0 s'.pages
          some (
            true,
            record s' {
              pages = pages;
              paging_phys_page_base = best.best_base;
              paging_present_page_count = present;
            },
          ))
