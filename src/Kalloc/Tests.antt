-- ===== src/Kalloc/Tests.antt =====
-- Runs of the allocator at single states.
use ssos.Base.{ℕ, ◌+◌, ◌-◌, ◌*◌, ◌^◌, ◌≤◌, ◌<◌, ◌≡◌, refl, arith, false, some, none, ◌⊎◌, ◌∷◌}
use ssos.Base.{replicate, set}
use ssos.Paging.{Paging}
use ssos.Paging.Take.{IsSound}
use ssos.Kalloc.{MemBlock, Kalloc, unused, kalloc_init, kmalloc, kfree, target_level_of}
use ssos.Kalloc.Level.{target_level_of_lem}
use ssos.Kalloc.Grow.{IsWhole, Returns}
use ssos.Kalloc.Split.{Served, kmalloc-Returns}
use ssos.Kalloc.Undo.Lists.{lone}
use ssos.Kalloc.Undo.Page.{IsFresh, kfree-kmalloc}
use ssos.Kalloc.Undo.Wrap.{kmalloc-wrapped}
use ssos.Kalloc.Start.{Initial, kalloc_init-Returns}

-- A machine with 30 free pages from 16 MiB on.
abbrev frames : Paging
frames = record {
  paging_hhdm_start = 0xFFFF800000000000;
  pages = (2 ^ 30 - 1) ∷ replicate 39 0;
  paging_phys_page_base = 0x1000000;
  paging_kernel_pml4 = 0xFFFF800000001000;
  paging_present_page_count = 30;
  paging_curr_free_page_table = 0;
  word = λ a. 0;
}

frames-IsSound : IsSound frames
frames-IsSound = record { size = refl; no_wrap = omega arith }

abbrev no_blocks : ℕ → MemBlock
no_blocks a = record { next = 0; level = 0; is_free = false }

abbrev heap : Kalloc
heap = record {
  mem_blocks = replicate 34 0;
  highest_block_size = 0x200000;
  highest_level = 18;
  block = no_blocks;
  paging = frames;
}

heap-IsWhole : IsWhole heap
heap-IsWhole = record {
  heads = refl;
  low = omega arith;
  high = omega arith;
  size = refl;
  frames = frames-IsSound;
}

kmalloc-Returns_example : Returns Served (kmalloc 5000000 heap)
kmalloc-Returns_example = kmalloc-Returns 5000000 heap heap-IsWhole (omega arith)

kalloc_init-Returns_example : Returns Initial (kalloc_init (unused no_blocks frames))
kalloc_init-Returns_example = kalloc_init-Returns no_blocks frames frames-IsSound

target_level_of_example :
    (level : ℕ) × (target_level_of 116 ≡ some level)
    × (116 ≤ 2 ^ (level + 3))
    × (2 ^ (level + 3) < 2 * 116)
    × (level ≤ 28)
target_level_of_example = target_level_of_lem 116 (omega arith) (omega arith)

-- One free page, at 2 MiB.
abbrev one_page : Kalloc
one_page = record {
  mem_blocks = set (replicate 34 0) 18 0x200000;
  highest_block_size = 0x200000;
  highest_level = 18;
  block = λ a. lone 18;
  paging = frames;
}

one_page-IsFresh : IsFresh 0x200000 frames one_page
one_page-IsFresh = record {
  common = record { size = refl; level = refl; block_size = refl; frames = refl };
  heads = refl;
  page = refl;
}

kfree-kmalloc_example :
    (p : ℕ) × (s1 : Kalloc) × (s2 : Kalloc) × (kmalloc 100 one_page ≡ some (p, s1))
    × (0x200000 + 16 ≤ p)
    × (p + 100 ≤ 0x200000 + 2 ^ 21)
    × (kfree 8 p s1 ≡ some s2)
    × IsFresh 0x200000 frames s2
kfree-kmalloc_example =
    kfree-kmalloc 0x200000 frames (omega arith) refl (omega arith) 8 100 one_page one_page-IsFresh
      (omega arith) (omega arith)

kmalloc-wrapped_example :
    ((2 ^ 64 - 1 < 2 ^ 64 - 11) × (kmalloc (2 ^ 64 - 1) one_page ≡ none))
    ⊎ ((2 ^ 64 - 11 ≤ 2 ^ 64 - 1)
        × (p : ℕ) × (s' : Kalloc) × (kmalloc (2 ^ 64 - 1) one_page ≡ some (p, s'))
        × (0x200000 + 2 ^ 21 ≤ p))
kmalloc-wrapped_example =
    kmalloc-wrapped 0x200000 frames (omega arith) refl (omega arith) (2 ^ 64 - 1) one_page
      one_page-IsFresh (omega arith) (omega arith)
