-- ===== src/Kalloc/Undo/Merge.antt =====
-- The loop of `kfree` that merges a block with the lower halves of its page.
use ssos.Base.{ℕ, zero, suc, ◌+◌, ◌%◌, ◌^◌, ◌<◌, ◌≡◌, refl, ap, arith, ◌∙◌, bit_xor}
use ssos.Base.{true, false, ◌&&◌, some, length, get_or, set}
use ssos.Base.{get_elem?-eq-get_or, ◌==◌, ==_refl, if◌then◌else◌, if_true, ltb, ltb_lt, ltb_ge}
use ssos.Base.{length-set}
use mathlib.Core.Path.{subst}
use ssos.Paging.{Paging}
use ssos.Kalloc.{MemBlock, Kalloc, set_block, remove_buddy, merge_loop}
use ssos.Kalloc.Grow.{set_head_lem}
use ssos.Kalloc.Undo.Buddy.{place, place_lt, buddy_place}
use ssos.Kalloc.Undo.Lists.{lone, Lows, get_or-set, set_block_self, set_block-Lows}

-- One round that merges, and the end of the loop at the highest level.
module _ (walk fuel block level : ℕ) (s : Kalloc) (at_level : (s.block block).level ≡ level) where
  pub merge_round :
      (buddy lower : ℕ) (s' : Kalloc)
      → bit_xor block (2 ^ (level + 3)) ≡ buddy
      → ltb level s.highest_level ≡ true
      → ((s.block buddy).is_free && (s.block buddy).level == level) ≡ true
      → (if ltb buddy block then buddy else block) ≡ lower
      → remove_buddy walk level buddy s ≡ some s'
      → merge_loop walk (suc fuel) block s
        ≡ merge_loop walk fuel lower
            (set_block lower (record (s'.block lower) { level = (s'.block lower).level + 1 }) s')
  unfolding merge_loop
  merge_round buddy lower s' e1 e2 e3 e4 e5 = rw (at_level, e1, e2, e3, e4, e5) refl

  pub merge_end :
      ltb level s.highest_level ≡ false → merge_loop walk (suc fuel) block s ≡ some (block, s)
  unfolding merge_loop
  merge_end e = rw (at_level, e) refl

-- The buddy stands at the head of its list.
pub remove_head :
    (walk level buddy next : ℕ) (s : Kalloc)
    → length s.mem_blocks ≡ 34
    → level < 34
    → get_or s.mem_blocks level 0 ≡ buddy
    → (s.block buddy).next ≡ next
    → remove_buddy walk level buddy s ≡ some (record s { mem_blocks = set s.mem_blocks level next })
unfolding remove_buddy
remove_head walk level buddy next s size lt head e =
    rw (get_elem?-eq-get_or s.mem_blocks level 0 (omega arith), head, ==_refl buddy buddy refl, e)
      (set_head_lem level next s size lt)

-- The block at the end of the page has been given back at level `c`.
pub record Freed (base : ℕ) (paging : Paging) (c : ℕ) (s : Kalloc) : Type 0 where
  pub lows : Lows base paging c s
  pub level : (s.block (place base c)).level ≡ c
  pub is_free : (s.block (place base c)).is_free ≡ true

module _ (base : ℕ) (paging : Paging) (aligned : base % 2 ^ 21 ≡ 0) where
  -- The lists without the buddy, and its header a level higher.
  merged-Freed :
      (c : ℕ) (s : Kalloc)
      → c < 18
      → Freed base paging c s
      → Freed base paging (suc c) (
          set_block
            (place base (suc c))
            (lone (c + 1))
            (record s { mem_blocks = set s.mem_blocks c 0 }))
  merged-Freed c s lt f =
      let s' : Kalloc = record s { mem_blocks = set s.mem_blocks c 0 } in
      let own = set_block_self (place base (suc c)) (lone (c + 1)) s' in
      record {
        lows = set_block-Lows base paging (suc c) (omega arith) (lone (c + 1)) s' (record {
          common = record {
            size = length-set s.mem_blocks c 0 ∙ f.lows.common.size;
            level = f.lows.common.level;
            block_size = f.lows.common.block_size;
            frames = f.lows.common.frames;
          };
          heads = λ j h.
              get_or-set s.mem_blocks c 0 j f.lows.common.size (omega arith)
              ∙ ground (arith, f.lows.heads j h);
          free = λ j le h. f.lows.free j (omega arith) h;
        });
        level = ap (λ (b : MemBlock). b.level) own ∙ omega arith;
        is_free = ap (λ (b : MemBlock). b.is_free) own;
      }

  merge_step :
      (walk fuel c : ℕ) (s : Kalloc)
      → c < 18
      → Freed base paging c s
      → (s' : Kalloc) × (merge_loop walk (suc fuel) (place base c) s
          ≡ merge_loop walk fuel (place base (suc c)) s')
        × Freed base paging (suc c) s'
  merge_step walk fuel c s lt f =
      let buddy = place base (suc c) in
      let s' : Kalloc = record s { mem_blocks = set s.mem_blocks c 0 } in
      let lone_buddy : s.block buddy ≡ lone c = f.lows.free c (omega arith) lt in
      let below : buddy < place base c = place_lt base c (suc c) (omega arith) (omega arith) in
      (
        set_block buddy (lone (c + 1)) s',
        merge_round walk fuel (place base c) c s f.level buddy buddy s'
              (buddy_place base c aligned lt)
              (ltb_lt c s.highest_level (omega (arith, f.lows.common.level)))
              (ap (λ (b : MemBlock). b.is_free && b.level == c) lone_buddy ∙ ==_refl c c refl)
              (if_true (ltb buddy (place base c)) buddy (place base c)
                (ltb_lt buddy (place base c) below))
              (remove_head walk c buddy 0 s f.lows.common.size (omega arith)
                (f.lows.heads c (omega arith) ∙ ground arith)
                (ap (λ (b : MemBlock). b.next) lone_buddy))
            ∙ ap
                (λ b.
                  merge_loop walk fuel buddy
                    (set_block buddy (record b { level = b.level + 1 }) s'))
                lone_buddy,
        merged-Freed c s lt f,
      )

  -- The loop merges up to the whole page.
  pub merge_loop-Freed :
      (walk fuel left c : ℕ) (s : Kalloc)
      → c + left ≡ 18
      → left < fuel
      → Freed base paging c s
      → (s' : Kalloc) × (merge_loop walk fuel (place base c) s ≡ some (place base 18, s'))
        × Freed base paging 18 s'
  merge_loop-Freed walk zero left c s sum enough f = absurd (omega arith)
  merge_loop-Freed walk (suc fuel) zero c s sum enough f =
      let top : c ≡ 18 = omega arith in
      subst
        (λ k.
          (s' : Kalloc) × (merge_loop walk (suc fuel) (place base c) s ≡ some (place base k, s'))
          × Freed base paging k s')
        top
        (
          s,
          merge_end walk fuel (place base c) c s f.level
              (ltb_ge c s.highest_level (omega (arith, f.lows.common.level))),
          f,
        )
  merge_loop-Freed walk (suc fuel) (suc left) c s sum enough f =
      let (s1, step, f1) = merge_step walk fuel c s (omega arith) f in
      let (s2, runs, f2) =
        merge_loop-Freed walk fuel left (suc c) s1 (omega arith) (omega arith) f1 in
      (s2, step ∙ runs, f2)
