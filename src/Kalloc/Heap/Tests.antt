-- ===== src/Kalloc/Heap/Tests.antt =====
-- Runs of `kmalloc` and `kfree` on a page with several blocks.
use ssos.Base.{ℕ, ◌+◌, ◌*◌, ◌^◌, ◌≤◌, ◌<◌, ◌≡◌, ◌⊎◌, inr, refl, ap, arith}
use ssos.Base.{false, Option, none, some, replicate, set, get_or-replicate, []}
use ssos.BitMath.{align_up, round_pow2_boundary, smear, logb, clz, leading_zeros}
use ssos.Kalloc.{
  Kalloc, kmalloc, kfree, grow, allocate, target_level_of, split_loop, take_head, push_half,
  set_head, set_block, meta_size,
}
use ssos.Kalloc.{remove_buddy, unlink_behind, merge_loop}
use ssos.Kalloc.Undo.Lists.{lone}
use ssos.Kalloc.Undo.Page.{IsFresh}
use ssos.Kalloc.Heap.Tree.{free, used, size, look, Leaf, leaf_cases}
use ssos.Kalloc.Heap.Serve.{Heap, Outcome}
use ssos.Kalloc.Heap.Request.{kmalloc-Outcome}
use ssos.Kalloc.Heap.Alloc.{in_use}
use ssos.Kalloc.Heap.Release.{Released, kfree-Released}
use ssos.Kalloc.Heap.Empty.{IsFresh-Heap}
use ssos.Kalloc.Heap.Client.{Live, IsNew, obtained, given_up}
use ssos.Kalloc.Heap.Reach.{Reach, start, alloc, release, Reach-apart, Reach-defined, Reach-IsFresh}

-- One free page, at 2 MiB.
abbrev one_page : Kalloc
one_page = record {
  mem_blocks = set (replicate 34 0) 18 0x200000;
  highest_block_size = 0x200000;
  highest_level = 18;
  block = λ a. lone 18;
  paging = record {
    paging_hhdm_start = 0xFFFF800000000000;
    pages = replicate 40 0;
    paging_phys_page_base = 0x1000000;
    paging_kernel_pml4 = 0xFFFF800000001000;
    paging_present_page_count = 30;
    paging_curr_free_page_table = 0;
    word = λ a. 0;
  };
}

one_page-IsFresh : IsFresh 0x200000 one_page.paging one_page
one_page-IsFresh = record {
  common = record { size = refl; level = refl; block_size = refl; frames = refl };
  heads = refl;
  page = refl;
}

abbrev state_of : Option (ℕ × Kalloc) → Kalloc
state_of none = one_page
state_of (some (p, s)) = s

abbrev first : Kalloc
first = state_of (kmalloc 1000000 one_page)

first_run : kmalloc 1000000 one_page ≡ some (0x300010, first)
unfolding kmalloc grow allocate target_level_of split_loop take_head push_half set_head set_block
    meta_size align_up round_pow2_boundary smear logb clz leading_zeros
first_run = refl

abbrev second : Kalloc
second = state_of (kmalloc 500 first)

second_run : kmalloc 500 first ≡ some (0x2FFC10, second)
unfolding kmalloc grow allocate target_level_of split_loop take_head push_half set_head set_block
    meta_size align_up round_pow2_boundary smear logb clz leading_zeros
second_run = refl

-- Fuel for a free list as long as the page.
abbrev walk : ℕ
walk = 2 ^ 21 + 1

abbrev freed : Option Kalloc → Kalloc
freed none = one_page
freed (some s) = s

abbrev third : Kalloc
third = freed (kfree walk 0x300010 first)

third_run : kfree walk 0x300010 first ≡ some third
unfolding kmalloc grow allocate target_level_of split_loop take_head push_half set_head set_block
    meta_size align_up round_pow2_boundary smear logb clz leading_zeros kfree merge_loop
    remove_buddy unlink_behind
third_run = refl

abbrev nothing : Live
nothing p = none

one_block : Reach walk one_page first (obtained 0x300010 1000000 nothing)
one_block = alloc one_page nothing 1000000 0x300010 first start (omega arith) first_run

two_blocks : Reach walk one_page second (obtained 0x2FFC10 500 (obtained 0x300010 1000000 nothing))
two_blocks =
    alloc first (obtained 0x300010 1000000 nothing) 500 0x2FFC10 second one_block (omega arith)
      second_run

given_back : Reach walk one_page third (given_up 0x300010 (obtained 0x300010 1000000 nothing))
given_back =
    release first (obtained 0x300010 1000000 nothing) 0x300010 third one_block (inr (1000000, refl))
      third_run

Reach-apart_example :
    (0x200000 + 16 ≤ 0x2FFC10)
    × (0x2FFC10 + 500 ≤ 0x200000 + 2 ^ 21)
    × ((◌≡◌ {A = ℕ} 0x2FFC10 0x300010)
        ⊎ ((0x2FFC10 + 500 + 16 ≤ 0x300010) ⊎ (0x300010 + 1000000 + 16 ≤ 0x2FFC10)))
Reach-apart_example =
    Reach-apart 0x200000 one_page.paging (omega arith) (omega arith) refl walk (omega arith)
      one_page second (obtained 0x2FFC10 500 (obtained 0x300010 1000000 nothing)) one_page-IsFresh
      two_blocks 0x2FFC10 500 0x300010 1000000 refl refl

Reach-defined_example :
    ((q : ℕ) × (s' : Kalloc) × (kmalloc 300 second ≡ some (q, s'))
      × IsNew q (obtained 0x2FFC10 500 (obtained 0x300010 1000000 nothing)))
    × ((s' : Kalloc) × (kfree walk 0x300010 second ≡ some s'))
Reach-defined_example =
    Reach-defined 0x200000 one_page.paging (omega arith) (omega arith) refl walk (omega arith)
      one_page second (obtained 0x2FFC10 500 (obtained 0x300010 1000000 nothing)) one_page-IsFresh
      two_blocks 300 0x300010 (omega arith) (inr (1000000, refl))

all_given_back : (p : ℕ) → given_up 0x300010 (obtained 0x300010 1000000 nothing) p ≡ none
all_given_back p = ground arith

Reach-IsFresh_example : IsFresh 0x200000 one_page.paging third
Reach-IsFresh_example =
    Reach-IsFresh 0x200000 one_page.paging (omega arith) (omega arith) refl walk (omega arith)
      one_page third (given_up 0x300010 (obtained 0x300010 1000000 nothing)) one_page-IsFresh
      given_back all_given_back

one_page-Heap : Heap 0x200000 one_page.paging free one_page
one_page-Heap = IsFresh-Heap 0x200000 one_page.paging (omega arith) one_page one_page-IsFresh

kmalloc-Outcome_example :
    (level : ℕ) × (500 + 16 ≤ size level)
    × (size level < 2 * (500 + 16))
    × (level ≤ 18)
    × Outcome 0x200000 one_page.paging level free one_page (kmalloc 500 one_page)
kmalloc-Outcome_example =
    kmalloc-Outcome 0x200000 one_page.paging (omega arith) (omega arith) free one_page one_page-Heap
      500 (omega arith) (omega arith)

-- The page as one block in use.
abbrev taken_page : Kalloc
taken_page = record one_page {
  mem_blocks = replicate 34 0;
  block = λ a. record { next = 0; level = 18; is_free = false };
}

taken_page-Heap : Heap 0x200000 one_page.paging used taken_page
unfolding look
taken_page-Heap = record {
  rep = record {
    common = record { size = refl; level = refl; block_size = refl; frames = refl };
    lists = λ j. [];
    inside =
        λ y p e. let (at, _) = leaf_cases 18 0x200000 y false p e in (omega arith, omega arith);
    headers = λ y p e.
        let (_, is) = leaf_cases 18 0x200000 y false p e in
        (ap (λ (q : Leaf). q.0) is, ap (λ (q : Leaf). q.1) is);
    chains = λ j lt. get_or-replicate 34 0 j;
    counts = λ j y lt. ground arith;
  };
  merged = tt;
}

in_use_page : in_use (look 18 used 0x200000 0x200000) ≡ some 18
unfolding look
in_use_page = refl

kfree-Released_example :
    Released 0x200000 one_page.paging used 0x200000 (kfree walk 0x200010 taken_page)
kfree-Released_example =
    kfree-Released 0x200000 one_page.paging (omega arith) (omega arith) refl walk (omega arith) used
      taken_page 0x200000 18 taken_page-Heap in_use_page
