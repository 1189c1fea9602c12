-- ===== src/Paging/Tables.antt =====
-- `paging_get_page_entry_with_alloc` and `paging_map_page` (src/mem/paging.c).
use ssos.Base.{ℕ, ◌+◌, ◌-◌, ◌*◌, ◌/◌, ◌^◌, ◌≡◌, ◌∙◌, arith, Bool, true, false, ◌&&◌}
use ssos.Base.{bit_and, bit_or, u64, ltb, leb, ◌==◌, if◌then◌else◌}
use ssos.Paging.{Paging}

abbrev pub page_present : ℕ
page_present = 2 ^ 0

abbrev pub page_rw : ℕ
page_rw = 2 ^ 1

-- PAGE_ADDR_MASK
abbrev pub page_addr_mask : ℕ
page_addr_mask = 0x000FFFFFFFFFF000

abbrev flag : Bool → ℕ → ℕ
flag b k = if b then 2 ^ k else 0

-- The flags of an entry: present, rw, user, pwt, accessed, dirty, global, execute_disable.
unfoldable pub page_flags : Bool → Bool → Bool → Bool → Bool → Bool → Bool → Bool → ℕ
page_flags present rw user pwt accessed dirty global execute_disable =
    bit_or
      (bit_or
        (bit_or
          (bit_or (bit_or (bit_or (bit_or (flag present 0) (flag rw 1)) (flag user 2)) (flag pwt 3))
            (flag accessed 5))
          (flag dirty 6))
        (flag global 8))
      (flag execute_disable 63)

-- `memset(addr, 0, 0x1000)`, on words.
unfoldable pub clear_table : ℕ → (ℕ → ℕ) → ℕ → ℕ
clear_table addr word a = if leb addr a && ltb a (addr + 0x1000) then 0 else word a

-- `*addr = v`
unfoldable pub store_word : ℕ → ℕ → (ℕ → ℕ) → ℕ → ℕ
store_word addr v word a = if a == addr then v else word a

-- The entry, and the state with one reserved table used up; the end of the reserved space is not
-- checked.
unfoldable pub paging_get_page_entry_with_alloc :
    Bool → Bool → Bool → Bool → Bool → Bool → Bool → Bool → Paging → ℕ × Paging
unfolding clear_table page_flags
paging_get_page_entry_with_alloc present rw user pwt accessed dirty global execute_disable s =
    let flags = page_flags present rw user pwt accessed dirty global execute_disable in
    let virt = s.paging_curr_free_page_table in
    let phys = u64 (virt + 2 ^ 64 - s.paging_hhdm_start) in
    (
      bit_or flags (u64 (phys * 2 ^ 12)),
      record s {
        word = clear_table virt s.word;
        paging_curr_free_page_table = u64 (virt + 0x1000);
      },
    )

-- `if (!(*addr & PAGE_PRESENT)) *addr = paging_get_page_entry_with_alloc(true, true, false, …);`
unfoldable pub ensure_entry : ℕ → Paging → Paging
unfolding paging_get_page_entry_with_alloc store_word
ensure_entry addr s =
    if bit_and (s.word addr) page_present == 0
    then (let (entry, s') =
          paging_get_page_entry_with_alloc true true false false false false false false s in
        record s' { word = store_word addr entry s'.word })
    else s

-- `(*addr & PAGE_ADDR_MASK) | paging_hhdm_start`
unfoldable pub table_at : ℕ → Paging → ℕ
table_at addr s = bit_or (bit_and (s.word addr) page_addr_mask) s.paging_hhdm_start

-- The address of entry `(virt >> shift) & 0x1FF` of a table.
unfoldable pub entry_addr : ℕ → ℕ → ℕ → ℕ
entry_addr table virt shift = u64 (table + 8 * bit_and (virt / 2 ^ shift) 0x1FF)

unfoldable pub paging_map_page : ℕ → ℕ → Paging → Paging
unfolding store_word
paging_map_page phys_page_addr pml4_addr s0 =
    let virt = u64 (phys_page_addr + s0.paging_hhdm_start) in
    let pml4_entry = entry_addr pml4_addr virt 39 in
    let s1 = ensure_entry pml4_entry s0 in
    let pdpt_entry = entry_addr (table_at pml4_entry s1) virt 30 in
    let s2 = ensure_entry pdpt_entry s1 in
    let pd_entry = entry_addr (table_at pdpt_entry s2) virt 21 in
    let s3 = ensure_entry pd_entry s2 in
    let pt_entry = entry_addr (table_at pd_entry s3) virt 12 in
    let leaf = bit_or (bit_or (bit_and phys_page_addr page_addr_mask) page_present) page_rw in
    record s3 { word = store_word pt_entry leaf s3.word }

-- What the mapping of pages leaves alone.
pub record SameFrames (s s' : Paging) : Type 0 where
  pub hhdm : s'.paging_hhdm_start ≡ s.paging_hhdm_start
  pub pages : s'.pages ≡ s.pages
  pub base : s'.paging_phys_page_base ≡ s.paging_phys_page_base
  pub pml4 : s'.paging_kernel_pml4 ≡ s.paging_kernel_pml4
  pub present : s'.paging_present_page_count ≡ s.paging_present_page_count

ensure_entry-SameFrames : (addr : ℕ) (s : Paging) → SameFrames s (ensure_entry addr s)
unfolding ensure_entry
ensure_entry-SameFrames addr s = ground arith

SameFrames-trans : {s t u : Paging} → SameFrames s t → SameFrames t u → SameFrames s u
SameFrames-trans p q = record {
  hhdm = q.hhdm ∙ p.hhdm;
  pages = q.pages ∙ p.pages;
  base = q.base ∙ p.base;
  pml4 = q.pml4 ∙ p.pml4;
  present = q.present ∙ p.present;
}

SameFrames-word :
    {s t : Paging} (word : ℕ → ℕ) → SameFrames s t → SameFrames s (record t { word = word })
SameFrames-word word p = record {
  hhdm = p.hhdm;
  pages = p.pages;
  base = p.base;
  pml4 = p.pml4;
  present = p.present;
}

pub paging_map_page-SameFrames :
    (phys pml4 : ℕ) (s : Paging) → SameFrames s (paging_map_page phys pml4 s)
unfolding paging_map_page
paging_map_page-SameFrames phys pml4 s = SameFrames-word _ (
    SameFrames-trans (SameFrames-trans (ensure_entry-SameFrames _ _) (ensure_entry-SameFrames _ _))
      (ensure_entry-SameFrames _ _))
