-- ===== src/Kalloc/Heap/Empty.antt =====
-- The page as it is set up, and as it is left when nothing is in use.
use mathlib.Core.Path.{subst}
use native.Mathlib.Decide.{ℕ_discrete}
use ssos.Base.{ℕ, suc, ◌+◌, ◌<◌, ◌≡◌, inl, inr, refl, sym, ap, arith, ◌∙◌}
use ssos.Base.{
  true, false, Bool-cases, Option, none, some, ◌==◌, if◌then◌else◌, ==_refl, ==_ne, if_true,
  if_false,
}
use ssos.Base.{List, [], ◌∷◌, get_or, get_or_ext, set, replicate}
use ssos.Paging.{Paging}
use ssos.Kalloc.{MemBlock, Kalloc}
use ssos.Kalloc.Undo.Lists.{lone}
use ssos.Kalloc.Undo.Page.{IsFresh, fresh_head}
use ssos.Kalloc.Heap.Tree.{Tree, free, used, node, size, Leaf, or_else, look, leaf_cases, apart}
use ssos.Kalloc.Heap.Merged.{Merged, is_free_tree}
use ssos.Kalloc.Heap.Chain.{count, Chain}
use ssos.Kalloc.Heap.Rep.{free_at, Rep}
use ssos.Kalloc.Heap.Lists.{head_free, none_free, head_cases, free_at_one}
use ssos.Kalloc.Heap.Alloc.{in_use}
use ssos.Kalloc.Heap.Serve.{Heap}

in_use_left : (o o' : Option Leaf) → in_use (or_else o o') ≡ none → in_use o ≡ none
in_use_left none o' e = refl
in_use_left (some p) o' e = e

-- Where nothing is in use, a tree without free halves is one free block.
pub nothing_in_use :
    (k : ℕ) (t : Tree k) (a : ℕ)
    → Merged k t
    → ((y : ℕ) → in_use (look k t a y) ≡ none)
    → is_free_tree t ≡ true
unfolding look
nothing_in_use k free a m e = refl
nothing_in_use k used a m e = absurd (
    ground
      (arith, e a, if_true {A = Option Leaf} (a == a) (some (k, false)) none (==_refl a a refl)))
nothing_in_use (suc k) (node l r) a (alone, ml, mr) e =
    let in_left : (y : ℕ) → in_use (look k l a y) ≡ none =
      λ y. in_use_left (look k l a y) (look k r (a + size k) y) (e y) in
    let in_right : (y : ℕ) → in_use (look k r (a + size k) y) ≡ none = λ y. elim (apart k l r a y) [
      | inl gone ↦ ap in_use (ap (λ o. or_else o (look k r (a + size k) y)) (sym gone)) ∙ e y
      | inr gone ↦ ap in_use gone
    ] in
    let free_left = nothing_in_use k l a ml in_left in
    let free_right = nothing_in_use k r (a + size k) mr in_right in
    absurd (ground (arith, alone, free_left, free_right))

pub is_free_tree-free : (t : Tree 18) → is_free_tree t ≡ true → t ≡ free
is_free_tree-free free e = refl
is_free_tree-free used e = absurd (ground (arith, e))
is_free_tree-free (node l r) e = absurd (ground (arith, e))

module _ (base : ℕ) (paging : Paging) (real : 0 < base) where
  fresh_list : ℕ → List ℕ
  fresh_list j = if j == 18 then base ∷ [] else []

  pub IsFresh-Heap : (s : Kalloc) → IsFresh base paging s → Heap base paging free s
  unfolding look fresh_list
  IsFresh-Heap s f = record {
    rep = record {
      common = f.common;
      lists = fresh_list;
      inside = λ y p e. let (at, _) = leaf_cases 18 base y true p e in (omega arith, omega arith);
      headers = λ y p e.
          let (at, is) = leaf_cases 18 base y true p e in
          let own : s.block y ≡ lone 18 = ap s.block at ∙ f.page in
          (
            ap (λ (m : MemBlock). m.level) own ∙ ap (λ (q : Leaf). q.0) is,
            ap (λ (m : MemBlock). m.is_free) own ∙ ap (λ (q : Leaf). q.1) is,
          );
      chains = λ j lt. chains j (ap (λ l. get_or l j 0) f.heads ∙ fresh_head base j);
      counts = λ j y lt. ground arith;
    };
    merged = tt;
  }
    where
      chains :
          (j : ℕ)
          → get_or s.mem_blocks j 0 ≡ (if j == 18 then base else 0)
          → Chain s.block (get_or s.mem_blocks j 0) (fresh_list j)
      chains j e = elim (ℕ_discrete j 18) [
        | yes same ↦
            subst (λ l. Chain s.block (get_or s.mem_blocks j 0) l)
              (sym (if_true (j == 18) (base ∷ []) [] (==_refl j 18 same)))
              (
                e ∙ if_true (j == 18) base 0 (==_refl j 18 same),
                ==_ne base 0 (omega arith),
                ap (λ (m : MemBlock). m.next) f.page,
              )
        | no ne ↦
            subst (λ l. Chain s.block (get_or s.mem_blocks j 0) l)
              (sym (if_false (j == 18) (base ∷ []) [] (==_ne j 18 ne)))
              (e ∙ if_false (j == 18) base 0 (==_ne j 18 ne))
      ]

  fresh_heads :
      (s : Kalloc)
      → Rep base paging (look 18 free base) s
      → (j : ℕ) → j < 34
      → get_or s.mem_blocks j 0 ≡ (if j == 18 then base else 0)
  unfolding look
  fresh_heads s r j lt =
      let h = get_or s.mem_blocks j 0 in
      elim (Bool-cases (h == 0)) [
        | inl empty ↦ elim (ℕ_discrete j 18) [
          | yes same ↦ absurd (
              none_free base paging (look 18 free base) j base s lt r (ground (arith, empty))
                (ground (arith, same)))
          | no ne ↦ ground (arith, empty, ne)
        ]
        | inr block ↦
            let (at, is) =
              leaf_cases 18 base h true (j, true)
                (head_free base paging (look 18 free base) j s lt r block) in
            let level : 18 ≡ j = ap (λ (q : Leaf). q.0) is in ground (arith, at, level)
      ]

  -- The list of the page has nothing behind the page.
  tail_empty :
      (rest : List ℕ)
      → ((y : ℕ) → count y (base ∷ rest) ≡ free_at 18 (look 18 free base y))
      → rest ≡ []
  unfolding look
  tail_empty [] counts = refl
  tail_empty (x ∷ rest) counts =
      let (at, _) =
        leaf_cases 18 base x true (18, true)
          (free_at_one 18 (look 18 free base x) (ground (arith, counts x))) in
      absurd (ground (arith, counts x, at))

  fresh_page : (s : Kalloc) → Rep base paging (look 18 free base) s → s.block base ≡ lone 18
  unfolding look
  fresh_page s r =
      let head = fresh_heads s r 18 (omega arith) in
      let (rest, l, c) =
        head_cases s.block base (r.lists 18)
          (subst (λ h. Chain s.block h (r.lists 18)) head (r.chains 18 (omega arith)))
          (==_ne base 0 (omega arith)) in
      let nothing = tail_empty rest (λ y. sym (ap (count y) l) ∙ r.counts 18 y (omega arith)) in
      let last : (s.block base).next ≡ 0 =
        subst (λ rest. Chain s.block (s.block base).next rest) nothing c in
      let (level, is_free) =
        r.headers base (18, true)
          (if_true {A = Option Leaf} (base == base) (some (18, true)) none
            (==_refl base base refl)) in
      λ i. record { next = last i; level = level i; is_free = is_free i }

  pub Heap-IsFresh : (s : Kalloc) → Heap base paging free s → IsFresh base paging s
  Heap-IsFresh s h = record {
    common = h.rep.common;
    heads = get_or_ext s.mem_blocks (set (replicate 34 0) 18 base) 0 h.rep.common.size (λ j lt.
        fresh_heads s h.rep j (omega (arith, h.rep.common.size)) ∙ sym (fresh_head base j));
    page = fresh_page s h.rep;
  }
