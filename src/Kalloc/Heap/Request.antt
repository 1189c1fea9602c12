-- ===== src/Kalloc/Heap/Request.antt =====
-- A request of `kmalloc` on the tree of a page, from the list that is asked for and from the lists above it.
use native.Mathlib.Decide.{ℕ_discrete}
use ssos.Base.{
  ℕ, zero, suc, ◌+◌, ◌-◌, ◌*◌, ◌^◌, ◌≤◌, ◌<◌, ◌≡◌, ◌≢◌, inl, inr, refl, sym, ap, arith, ◌∙◌, u64,
}
use ssos.Base.{true, false, some, ◌==◌, ==_ne}
use ssos.Base.{get_or, get_elem?-eq-get_or, get_elem?, Bool-cases, ltb_ge}
use ssos.BitMath.{align_up}
use ssos.Paging.{Paging}
use ssos.Kalloc.{Kalloc, grow, take_head, split_loop, meta_size, target_level_of, allocate, kmalloc}
use ssos.Kalloc.Grow.{grow-done}
use ssos.Kalloc.Split.{split_loop-zero, split_loop-pass}
use ssos.Kalloc.Undo.Page.{small_level, allocate_take, allocate_split}
use ssos.Kalloc.Heap.Tree.{Tree, size, look, look-Within, address}
use ssos.Kalloc.Heap.Focus.{Focus, focus}
use ssos.Kalloc.Heap.Lists.{head_free, none_free}
use ssos.Kalloc.Heap.Alloc.{split_loop-Split, take_head-Split, Split-step}
use ssos.Kalloc.Heap.Serve.{Heap, Outcome, refused, Outcome-step, at_list_head, serve}

module _ (base : ℕ) (paging : Paging) (real : 0 < base) (fits : base + 2 ^ 21 < 2 ^ 64)
    (t : Tree 18) (s : Kalloc) (heap : Heap base paging t s) where
  head_at : (k : ℕ) → k ≤ 18 → get_elem? s.mem_blocks k ≡ some (get_or s.mem_blocks k 0)
  head_at k le = get_elem?-eq-get_or s.mem_blocks k 0 (omega (arith, heap.rep.common.size))

  -- The block at the head of a list.
  block_at_head :
      (k : ℕ)
      → k ≤ 18
      → (get_or s.mem_blocks k 0 == 0) ≡ false
      → Focus base t (look 18 t base) (get_or s.mem_blocks k 0) (k, true)
  block_at_head k le block =
      focus base t (look 18 t base) (get_or s.mem_blocks k 0) (k, true) (λ y. refl)
        (head_free base paging (look 18 t base) k s (omega arith) heap.rep block)

  -- No free block of a level above `k`.
  abbrev NoneAbove : ℕ → Type 0
  NoneAbove k = (y j : ℕ) → k < j → look 18 t base y ≢ some (j, true)

  below :
      (k k' : ℕ) → k ≤ 18 → k ≤ suc k' → get_or s.mem_blocks k 0 ≡ 0 → NoneAbove k → NoneAbove k'
  below k k' le next empty above y j lt e = elim (ℕ_discrete j k) [
    | yes same ↦
        none_free base paging (look 18 t base) k y s (omega arith) heap.rep empty
          (e ∙ ap (λ n. some (n, true)) same)
    | no ne ↦ above y j (omega arith) e
  ]

  -- One level of the loop: the block at the head of the list is split, or there is none.
  at_head :
      (level more k : ℕ)
      → 16 < size level
      → k ≡ level + more
      → k ≤ 18
      → (get_or s.mem_blocks k 0 ≡ 0 → Outcome base paging level t s (split_loop level more s))
      → Outcome base paging level t s (split_loop level (suc more) s)
  at_head level more k large e le rest =
      let h = get_or s.mem_blocks k 0 in
      let head : get_elem? s.mem_blocks (level + more) ≡ some h =
        ap (get_elem? s.mem_blocks) (sym e) ∙ head_at k le in
      elim (Bool-cases (h == 0)) [
        | inl empty ↦
            Outcome-step (split_loop-pass level more s h head empty) (rest (ground (arith, empty)))
        | inr block ↦
            let f = block_at_head k le block in
            serve base paging real fits t s heap level k h (split_loop level (suc more) s) f large (
              split_loop-Split base paging real fits level more f.level f.context s (f.is_level ∙ e)
                (at_list_head base paging real fits t s heap k h f refl))
      ]

  descend :
      (level more k : ℕ)
      → 16 < size level
      → k ≡ level + more
      → k ≤ 18
      → NoneAbove k
      → Outcome base paging level t s (split_loop level (suc more) s)
  descend level zero k large e le above = at_head level zero k large e le (λ empty.
      refused 0 s (split_loop-zero level s) (record {
        null = refl;
        same = refl;
        no_block = λ y j ge at. elim (ℕ_discrete j k) [
          | yes same ↦
              none_free base paging (look 18 t base) k y s (omega arith) heap.rep empty
                (at ∙ ap (λ n. some (n, true)) same)
          | no ne ↦ above y j (omega arith) at
        ];
      }))
  descend level (suc more) k large e le above = at_head level (suc more) k large e le (λ empty.
      descend level more (level + more) large refl (omega arith)
        (below k (level + more) le (omega arith) empty above))

  -- The part behind the loop that grows the heap.
  allocate-Outcome :
      (needed level : ℕ)
      → 16 < size level
      → level ≤ 18
      → target_level_of needed ≡ some level
      → Outcome base paging level t s (allocate needed s)
  allocate-Outcome needed level large le found =
      let h = get_or s.mem_blocks level 0 in
      elim (Bool-cases (h == 0)) [
        | inl empty ↦
            Outcome-step
              (allocate_split needed level s found (suc (18 - level))
                (head_at level le ∙ ap some (ground (arith, empty)))
                (omega (arith, heap.rep.common.level)))
              (descend level (18 - level) 18 large (omega arith) (omega arith)
                (λ y j lt at. absurd (omega (arith, (look-Within 18 t base y (j, true) at).level))))
        | inr block ↦
            let f = block_at_head level le block in
            Outcome-step (allocate_take needed level s found h (head_at level le) block) (
              serve base paging real fits t s heap level level h (take_head level h s) f large (
                Split-step base paging real fits level f.level f.context s (take_head level h s)
                  (take_head level (address base f.level f.context) s)
                  (ap (λ a. take_head level a s) (sym f.here))
                  (take_head-Split base paging real fits level f.level f.context s f.is_level
                    (at_list_head base paging real fits t s heap level h f refl))))
      ]

  -- On a page at a base other than 0, with base + 2^21 below 2^64, whose headers and free lists stand for
  -- a tree of blocks without two free halves of one block, every request of 1 to 2^21 - 16 bytes is
  -- defined. It is for blocks of a level that holds the request and a header of 16 bytes and is less
  -- than twice as large. Either the result stands 16 bytes behind the start of a block of that level
  -- that was not in use and is now, all other blocks in use are as before, and the headers and free
  -- lists stand for the new tree, again without two free halves; or the page has no free block of that
  -- level or above, the result is NULL and the state is as before.
  pub kmalloc-Outcome :
      (bytes : ℕ)
      → 0 < bytes
      → bytes + 16 ≤ 2 ^ 21
      → (level : ℕ) × (bytes + 16 ≤ size level)
        × (size level < 2 * (bytes + 16))
        × (level ≤ 18)
        × Outcome base paging level t s (kmalloc bytes s)
  unfolding kmalloc meta_size align_up
  kmalloc-Outcome bytes pos small =
      let needed : u64 (bytes + 16) ≡ bytes + 16 = omega arith in
      let grown : grow 34 (bytes + 16) s ≡ some (true, s) =
        grow-done 33 (bytes + 16) s
          (ltb_ge s.highest_block_size (bytes + 16) (omega (arith, heap.rep.common.block_size))) in
      let (level, found, holds, close, le) = small_level (bytes + 16) (omega arith) small in
      (
        level,
        holds,
        close,
        le,
        Outcome-step (rw (==_ne bytes 0 (omega arith), needed, grown) refl)
            (allocate-Outcome (bytes + 16) level (omega arith) le found),
      )
