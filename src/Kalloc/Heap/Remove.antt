-- ===== src/Kalloc/Heap/Remove.antt =====
-- A buddy taken off the free list of its level, at the head or behind another block.
use native.Mathlib.Decide.{ℕ_discrete}
use ssos.Base.{ℕ, ◌+◌, ◌^◌, ◌≤◌, ◌<◌, ◌≡◌, ◌≢◌, inl, inr, refl, sym, ap, arith, ◌∙◌}
use ssos.Base.{
  true, false, Option, none, some, ◌==◌, if◌then◌else◌, ==_refl, ==_ne, if_true, if_false,
}
use ssos.Base.{List, ◌∷◌, length, get_or, set, get_elem?-eq-get_or, get_elem?, Bool-cases}
use ssos.Paging.{Paging}
use ssos.Kalloc.{MemBlock, Kalloc, set_block, remove_buddy, unlink_behind}
use ssos.Kalloc.Undo.Lists.{set_block_self, set_block_ne}
use ssos.Kalloc.Undo.Merge.{remove_head}
use ssos.Kalloc.Heap.Tree.{Leaf}
use ssos.Kalloc.Heap.Chain.{
  count, Chain, Chain-set_block, without, count-without, unlink_behind-Chain, length-inside,
}
use ssos.Kalloc.Heap.Rep.{free_at, add, add_self, Rep}
use ssos.Kalloc.Heap.Lists.{
  at_level, chains_at, head_cases, empty_list, free_at_one, fewer, others, Rep-pop,
}

-- The levels and the states of the headers stay.
pub record SameHeaders (s s' : Kalloc) : Type 0 where
  pub levels : (y : ℕ) → (s'.block y).level ≡ (s.block y).level
  pub frees : (y : ℕ) → (s'.block y).is_free ≡ (s.block y).is_free

relink-SameHeaders :
    (q n : ℕ) (s : Kalloc) → SameHeaders s (set_block q (record (s.block q) { next = n }) s)
relink-SameHeaders q n s = record {
  levels = λ y. same y (λ m. m.level) refl;
  frees = λ y. same y (λ m. m.is_free) refl;
}
  where
    same :
        {A : Type 0} (y : ℕ) (f : MemBlock → A)
        → f (record (s.block q) { next = n }) ≡ f (s.block q)
        → f ((set_block q (record (s.block q) { next = n }) s).block y) ≡ f (s.block y)
    same y f e = elim (ℕ_discrete y q) [
      | yes at ↦
          ap (λ a. f ((set_block q (record (s.block q) { next = n }) s).block a)) at
          ∙ ap f (set_block_self q (record (s.block q) { next = n }) s)
          ∙ e
          ∙ ap (λ a. f (s.block a)) (sym at)
      | no ne ↦ ap f (set_block_ne q y (record (s.block q) { next = n }) s ne)
    ]

free_at_le : (j : ℕ) (o : Option Leaf) → free_at j o ≤ 1
free_at_le j none = omega arith
free_at_le j (some p) = ground arith

module _ (base : ℕ) (paging : Paging) (view : ℕ → Option Leaf) (a j : ℕ) (small : j < 34)
    (out : view a ≡ none) where
  Rep-unlink :
      (s : Kalloc) (q : ℕ) (l : List ℕ)
      → (r : Rep base paging (add a (j, true) view) s) → count q (r.lists j) ≡ 1
      → Chain
          (set_block q (record (s.block q) { next = (s.block a).next }) s).block
          (get_or s.mem_blocks j 0)
          l
      → ((y : ℕ) → count y l + (if y == a then 1 else 0) ≡ count y (r.lists j))
      → Rep base paging view (set_block q (record (s.block q) { next = (s.block a).next }) s)
  unfolding set_block
  Rep-unlink s q l r on chain less =
      let b : MemBlock = record (s.block q) { next = (s.block a).next } in
      let heads = relink-SameHeaders q (s.block a).next s in
      let listed : add a (j, true) view q ≡ some (j, true) =
        free_at_one j (add a (j, true) view q) (omega (arith, r.counts j q small)) in
      record {
        common = record {
          size = r.common.size;
          level = r.common.level;
          block_size = r.common.block_size;
          frames = r.common.frames;
        };
        lists = at_level j l r.lists;
        inside = λ y p e. r.inside y p (others base paging view a j small out y p e ∙ e);
        headers = λ y p e.
            let (k, f) = r.headers y p (others base paging view a j small out y p e ∙ e) in
            (heads.levels y ∙ k, heads.frees y ∙ f);
        chains =
            chains_at (set_block q b s).block (λ i. get_or s.mem_blocks i 0)
              (λ i. get_or s.mem_blocks i 0) r.lists j (get_or s.mem_blocks j 0) l (λ i lt. own i)
              chain
              (λ i lt ne.
                Chain-set_block q b s (get_or s.mem_blocks i 0) (r.lists i)
                  (r.counts i q lt ∙ ap (free_at i) listed ∙ ground (arith, ne)) (r.chains i lt));
        counts = fewer base paging view a j small out r.lists l r.counts less;
      }
    where
      own :
          (i : ℕ)
          → get_or s.mem_blocks i 0
            ≡ (if i == j then get_or s.mem_blocks j 0 else get_or s.mem_blocks i 0)
      own i = elim (ℕ_discrete i j) [
        | yes e ↦
            ap (λ n. get_or s.mem_blocks n 0) e
            ∙ sym (
                if_true (i == j) (get_or s.mem_blocks j 0) (get_or s.mem_blocks i 0)
                  (==_refl i j e))
        | no ne ↦
            sym
              (if_false (i == j) (get_or s.mem_blocks j 0) (get_or s.mem_blocks i 0) (==_ne i j ne))
      ]

  unlink_here :
      (walk : ℕ) (s : Kalloc)
      → 2 ^ 21 < walk
      → (r : Rep base paging (add a (j, true) view) s) → (rest : List ℕ)
      → r.lists j ≡ get_or s.mem_blocks j 0 ∷ rest
      → Chain s.block (get_or s.mem_blocks j 0) (get_or s.mem_blocks j 0 ∷ rest)
      → get_or s.mem_blocks j 0 ≢ a
      → (s' : Kalloc) × (unlink_behind walk (get_or s.mem_blocks j 0) a s ≡ some s')
        × Rep base paging view s'
        × SameHeaders s s'
  unlink_here walk s enough r rest l c far =
      let h = get_or s.mem_blocks j 0 in
      let on_list : (y : ℕ) → count y (h ∷ rest) ≡ free_at j (add a (j, true) view y) =
        λ y. sym (ap (count y) l) ∙ r.counts j y small in
      let distinct : (y : ℕ) → count y (h ∷ rest) ≤ 1 =
        λ y. omega (arith, on_list y, free_at_le j (add a (j, true) view y)) in
      let inside : (y : ℕ) → 0 < count y (h ∷ rest) → (base ≤ y) × (y < base + 2 ^ 21) = λ y lt.
        r.inside y (j, true) (free_at_one j (add a (j, true) view y) (omega (arith, on_list y))) in
      let short : length (h ∷ rest) ≤ 2 ^ 21 =
        length-inside base (2 ^ 21) (h ∷ rest) inside distinct in
      let mine : count a (h ∷ rest) ≡ 1 =
        on_list a ∙ ap (free_at j) (add_self a a (j, true) view refl) ∙ ground arith in
      let in_rest : count a rest ≡ 1 = ground (arith, mine, far) in
      let (q, in_list, runs, chain) =
        unlink_behind-Chain walk a h rest s (ground (arith, short, enough)) distinct far in_rest
          c in
      (
        set_block q (record (s.block q) { next = (s.block a).next }) s,
        runs,
        Rep-unlink s q (h ∷ without a rest) r (ap (count q) l ∙ in_list) chain
            (λ y. omega (arith, count-without y a rest (omega arith), ap (count y) l)),
        relink-SameHeaders q (s.block a).next s,
      )

  remove_behind :
      (walk h : ℕ) (s s' : Kalloc)
      → get_elem? s.mem_blocks j ≡ some h
      → (h == a) ≡ false
      → unlink_behind walk h a s ≡ some s'
      → remove_buddy walk j a s ≡ some s'
  unfolding remove_buddy
  remove_behind walk h s s' head far runs = rw (head, far) runs

  -- A free block of the page is taken off the list it is on, with fuel for as many blocks as the page
  -- has bytes.
  pub remove_buddy-Rep :
      (walk : ℕ) (s : Kalloc)
      → 2 ^ 21 < walk
      → (a == 0) ≡ false
      → Rep base paging (add a (j, true) view) s
      → (s' : Kalloc) × (remove_buddy walk j a s ≡ some s')
        × Rep base paging view s'
        × SameHeaders s s'
  remove_buddy-Rep walk s enough real r =
      let h = get_or s.mem_blocks j 0 in
      let head : get_elem? s.mem_blocks j ≡ some h =
        get_elem?-eq-get_or s.mem_blocks j 0 (omega (arith, r.common.size)) in
      elim (ℕ_discrete h a) [
        | yes e ↦ (
          record s { mem_blocks = set s.mem_blocks j (s.block a).next },
          remove_head walk j a (s.block a).next s r.common.size small e refl,
          Rep-pop base paging view a j small out s e real r,
          record { levels = λ y. refl; frees = λ y. refl },
        )
        | no far ↦ elim (Bool-cases (h == 0)) [
          | inl e ↦
              let l = empty_list s.block (r.lists j) h (r.chains j small) (ground (arith, e)) in
              let mine : count a (r.lists j) ≡ 1 =
                r.counts j a small
                ∙ ap (free_at j) (add_self a a (j, true) view refl)
                ∙ ground arith in
              absurd (omega (arith, mine, ap (count a) l))
          | inr ne ↦
              let (rest, l, c) = head_cases s.block h (r.lists j) (r.chains j small) ne in
              let (s', runs, rep, same) = unlink_here walk s enough r rest l (refl, ne, c) far in
              (s', remove_behind walk h s s' head (==_ne h a far) runs, rep, same)
        ]
      ]
