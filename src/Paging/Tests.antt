-- ===== src/Paging/Tests.antt =====
-- Runs of the frame allocator at single states.
use ssos.Base.{ℕ, zero, suc, ◌+◌, ◌-◌, ◌*◌, ◌/◌, ◌^◌, ◌<◌, ◌≡◌, refl, ap, arith, true, false}
use ssos.Base.{some, none, List, [], ◌∷◌, replicate, u64, min}
use ssos.BitMath.{align_up, align_down}
use ssos.Paging.{Paging, page_size}
use ssos.Paging.Init.{MemmapEntry, Best, best_region, consider_entry, usable_subregion}
use ssos.Paging.Init.{consider_region, paging_init_frame_allocator}
use ssos.Paging.Frames.{paging_alloc_pages, paging_free_pages}
use ssos.Paging.Bitmap.{page_bit}
use ssos.Paging.Take.{IsSound, Taken}
use ssos.Paging.Alloc.Search.{Outcome, paging_alloc_pages-Outcome}
use ssos.Paging.Alloc.First.{paging_alloc_pages-run, paging_alloc_pages-twice}
use ssos.Paging.Free.{Released, paging_free_pages-Released}
use ssos.Paging.Present.{
  best, paging_init_frame_allocator-present, paging_init_frame_allocator-none,
}

-- A machine with 30 pages from 16 MiB on, of which the free ones are the ones of the bucket.
abbrev machine : ℕ → Paging
machine bucket = record {
  paging_hhdm_start = 0xFFFF800000000000;
  pages = bucket ∷ replicate 39 0;
  paging_phys_page_base = 0x1000000;
  paging_kernel_pml4 = 0xFFFF800000001000;
  paging_present_page_count = 30;
  paging_curr_free_page_table = 0;
  word = λ a. 0;
}

machine-IsSound : (bucket : ℕ) → IsSound (machine bucket)
machine-IsSound bucket = record { size = refl; no_wrap = omega arith }

paging_alloc_pages-Outcome_example :
    Outcome 3 (machine (2 ^ 30 - 1)) (paging_alloc_pages 3 (machine (2 ^ 30 - 1)))
paging_alloc_pages-Outcome_example =
    paging_alloc_pages-Outcome 3 (machine (2 ^ 30 - 1)) (machine-IsSound (2 ^ 30 - 1))

two_free : (j : ℕ) → j < 2 → page_bit (machine 3).pages j ≡ 1
two_free zero lt = refl
two_free (suc zero) lt = refl
two_free (suc (suc j)) lt = absurd (omega arith)

paging_alloc_pages-run_example :
    (s' : Paging) × (paging_alloc_pages 2 (machine 3)
      ≡ some (u64 (0x1000000 + 0xFFFF800000000000), s'))
    × Taken 0 2 (machine 3) s'
paging_alloc_pages-run_example =
    paging_alloc_pages-run (machine 3) (machine-IsSound 3) 2 (omega arith) (omega arith) two_free

paging_alloc_pages-twice_example :
    let page = u64 (0x1000000 + 0xFFFF800000000000) in
    (s1 : Paging) × (s2 : Paging) × (paging_alloc_pages 1 (machine 3) ≡ some (page, s1))
    × (paging_alloc_pages 1 s1 ≡ some (page, s2))
paging_alloc_pages-twice_example =
    paging_alloc_pages-twice (machine 3) (machine-IsSound 3) refl refl

paging_free_pages-Released_example :
    (pages' : List ℕ) × (paging_free_pages
        (u64 (0x1000000 + 2 * page_size + 0xFFFF800000000000))
        5
        (machine 0)
      ≡ some (record (machine 0) { pages = pages' }))
    × Released 2 (min 5 30) (machine 0).pages pages'
paging_free_pages-Released_example =
    paging_free_pages-Released 2 5 (u64 (0x1000000 + 2 * page_size + 0xFFFF800000000000))
      (machine 0) (machine-IsSound 0) (omega arith) refl (omega arith) refl (omega arith)

-- A memory map with one usable region of `n` pages from 16 MiB on; the kernel's pages lie above.
abbrev memory_map : ℕ → List MemmapEntry
memory_map n = record { base = 0x1000000; length = n * page_size; kind = 0 } ∷ []

abbrev kernel_start : ℕ
kernel_start = 0xFFFF800040000000

abbrev kernel_end : ℕ
kernel_end = 0xFFFF800040400000

abbrev start : Best
start = record { usable_block_found = false; best_base = 0; best_len = 0 }

abbrev settled : ℕ → Best
settled n = record { usable_block_found = true; best_base = 0x1000000; best_len = n * page_size }

settled_30 :
    best_region kernel_start kernel_end 0xFFFF800000000000 (memory_map 30) start ≡ settled 30
unfolding best_region consider_entry usable_subregion consider_region align_up align_down
settled_30 = refl

settled_40 :
    best_region kernel_start kernel_end 0xFFFF800000000000 (memory_map 40) start ≡ settled 40
unfolding best_region consider_entry usable_subregion consider_region align_up align_down
settled_40 = refl

-- The block that the search settles on, for a region of `n` pages.
abbrev best_of : ℕ → Best
best_of n = best kernel_start kernel_end 0x1000 0xFFFF800000000000 (memory_map n) (machine 0) refl

paging_init_frame_allocator-present_example :
    (s' : Paging) × (paging_init_frame_allocator kernel_start kernel_end 0x1000
        (memory_map 30)
        0xFFFF800000000000
        (machine 0)
      ≡ some (true, s'))
    × (s'.paging_phys_page_base ≡ (best_of 30).best_base)
    × (s'.paging_hhdm_start ≡ 0xFFFF800000000000)
    × (s'.paging_present_page_count ≡ (best_of 30).best_len / page_size)
    × Released 0 ((best_of 30).best_len / page_size) (machine 0).pages s'.pages
paging_init_frame_allocator-present_example =
    paging_init_frame_allocator-present kernel_start kernel_end 0x1000 0xFFFF800000000000
      (memory_map 30) (machine 0) refl (ap (λ (b : Best). b.usable_block_found) settled_30)
      (rw settled_30 (omega arith))

paging_init_frame_allocator-none_example :
    paging_init_frame_allocator kernel_start kernel_end 0x1000
      (memory_map 40)
      0xFFFF800000000000
      (machine 0)
    ≡ none
paging_init_frame_allocator-none_example =
    paging_init_frame_allocator-none kernel_start kernel_end 0x1000 0xFFFF800000000000
      (memory_map 40) (machine 0) refl (ap (λ (b : Best). b.usable_block_found) settled_40)
      (rw settled_40 (omega arith))
