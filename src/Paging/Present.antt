-- ===== src/Paging/Present.antt =====
-- How `paging_init_frame_allocator` marks the present pages, with `1 << n` on int.
use native.Mathlib.Decide.{dec_lt}
use ssos.Base.{ℕ, zero, suc, ◌+◌, ◌%◌, ◌/◌, ◌^◌, ◌≤◌, ◌<◌, ◌≡◌, refl, arith, ap, ◌∙◌}
use ssos.Base.{true, false, none, some, List, ltb, u64, if◌then◌else◌}
use ssos.Base.{length, ◌>>=◌, get_elem?-eq-get_or, ltb_ge, ltb_lt}
use ssos.Paging.{Paging, page_size}
use ssos.Paging.Init.{MemmapEntry, Best, best_region, int_shift_one, mark_present}
use ssos.Paging.Init.{paging_init_frame_allocator}
use ssos.Paging.Frames.{set_page}
use ssos.Paging.Bitmap.{set_page-IsChanged}
use ssos.Paging.Free.{Released}

int_shift_one-some : (i : ℕ) → i < 31 → int_shift_one (i % 64) ≡ some (2 ^ (i % 64))
unfolding int_shift_one
int_shift_one-some i h = rw (int_shift_one, ltb_lt (i % 64) 31 (omega arith)) refl

-- Below the sign bit a round of the loop is `set_page`.
mark_present-set_page :
    (n i : ℕ) (pages : List ℕ)
    → length pages ≡ 40
    → i < 31
    → mark_present (suc n) i pages ≡ (set_page i pages >>= λ pages'. mark_present n (i + 1) pages')
unfolding mark_present set_page
mark_present-set_page n i pages size h =
    rw (get_elem?-eq-get_or pages (i / 64) 0 (omega arith), int_shift_one-some i h) refl

mark_present-Released :
    (n i limit : ℕ) (pages : List ℕ)
    → length pages ≡ 40
    → i + n ≡ limit
    → limit ≤ 31
    → (pages' : List ℕ) × (mark_present n i pages ≡ some pages') × Released i limit pages pages'
mark_present-Released zero i limit pages size ends fits =
    (pages, unfold mark_present in refl, record { size = size; bits = λ j. ground arith })
mark_present-Released (suc n) i limit pages size ends fits =
    let (pages1, sets, size1, bits1) = set_page-IsChanged pages i size (omega arith) in
    let (pages2, runs, rest) =
      mark_present-Released n (i + 1) limit pages1 size1 (omega arith) fits in
    (
      pages2,
      mark_present-set_page n i pages size (omega arith)
          ∙ ap (λ r. r >>= λ pages'. mark_present n (i + 1) pages') sets
          ∙ runs,
      record { size = rest.size; bits = λ j. ground (arith, rest.bits j, bits1 j) },
    )

mark_present-none :
    (n i : ℕ) (pages : List ℕ)
    → length pages ≡ 40
    → i ≤ 31
    → 31 < i + n
    → mark_present n i pages ≡ none
mark_present-none zero i pages size le lt = absurd (omega arith)
mark_present-none (suc n) i pages size le lt = elim (dec_lt i 31) [
  | yes below ↦
      let (pages1, sets, size1, bits1) = set_page-IsChanged pages i size (omega arith) in
      mark_present-set_page n i pages size below
      ∙ ap (λ r. r >>= λ pages'. mark_present n (i + 1) pages') sets
      ∙ mark_present-none n (i + 1) pages1 size1 (omega arith) (omega arith)
  | no top ↦ at_sign_bit i (omega arith)
]
  where
    at_sign_bit : (i : ℕ) → i ≡ 31 → mark_present (suc n) i pages ≡ none
    at_sign_bit i e =
        unfold mark_present in rw (e, get_elem?-eq-get_or pages 0 0 (omega arith)) refl

module _ (kernel_start kernel_end cr3 hh_off : ℕ) (entries : List MemmapEntry) (s : Paging)
    (size : length s.pages ≡ 40) where
  -- The block that the search of the memory map settles on.
  abbrev pub best : Best
  best =
      best_region kernel_start kernel_end hh_off entries
        (record { usable_block_found = false; best_base = 0; best_len = 0 })

  abbrev page_count : ℕ
  page_count = best.best_len / page_size

  abbrev present_count : ℕ
  present_count = if ltb 2560 page_count then 2560 else page_count

  -- The state that a call ends in.
  abbrev initialised : List ℕ → Paging
  initialised pages = record s {
    paging_kernel_pml4 = u64 (cr3 + hh_off);
    paging_hhdm_start = hh_off;
    pages = pages;
    paging_phys_page_base = best.best_base;
    paging_present_page_count = present_count;
  }

  init_marks :
      best.usable_block_found ≡ true
      → paging_init_frame_allocator kernel_start kernel_end cr3 entries hh_off s
        ≡ (mark_present present_count 0 s.pages >>= λ pages. some (true, initialised pages))
  unfolding paging_init_frame_allocator
  init_marks found = rw found refl

  -- With an array of 40 buckets, and where the search settles on a block of at most 31 pages,
  -- `paging_init_frame_allocator` succeeds, takes the base and the page count of the block, and marks
  -- exactly its pages as free besides those that were.
  pub paging_init_frame_allocator-present :
      best.usable_block_found ≡ true
      → best.best_len / page_size ≤ 31
      → (s' : Paging) × (paging_init_frame_allocator kernel_start kernel_end cr3 entries hh_off s
          ≡ some (true, s'))
        × (s'.paging_phys_page_base ≡ best.best_base)
        × (s'.paging_hhdm_start ≡ hh_off)
        × (s'.paging_present_page_count ≡ best.best_len / page_size)
        × Released 0 (best.best_len / page_size) s.pages s'.pages
  paging_init_frame_allocator-present found small =
      let counted : present_count ≡ page_count = rw (ltb_ge 2560 page_count (omega arith)) refl in
      let (pages', runs, released) =
        mark_present-Released page_count 0 page_count s.pages size (omega arith) small in
      (
        initialised pages',
        init_marks found
            ∙ ap (λ n. mark_present n 0 s.pages >>= λ pages. some (true, initialised pages)) counted
            ∙ ap (λ r. r >>= λ pages. some (true, initialised pages)) runs,
        refl,
        refl,
        counted,
        released,
      )

  -- With an array of 40 buckets, and where the search settles on a block of 32 pages (64 MiB) or more,
  -- the call is undefined: it shifts a 1 of type int into the sign bit.
  pub paging_init_frame_allocator-none :
      best.usable_block_found ≡ true
      → 32 ≤ best.best_len / page_size
      → paging_init_frame_allocator kernel_start kernel_end cr3 entries hh_off s ≡ none
  paging_init_frame_allocator-none found large =
      init_marks found
      ∙ ap (λ r. r >>= λ pages. some (true, initialised pages))
          (mark_present-none present_count 0 s.pages size (omega arith) (ground arith))
