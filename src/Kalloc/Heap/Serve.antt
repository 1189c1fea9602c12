-- ===== src/Kalloc/Heap/Serve.antt =====
-- `kmalloc` on the tree of a page.
use mathlib.Core.Path.{subst}
use native.Mathlib.Decide.{ℕ_discrete}
use ssos.Base.{ℕ, ◌+◌, ◌^◌, ◌≤◌, ◌<◌, ◌≡◌, ◌≢◌, refl, sym, ap, arith, ◌∙◌}
use ssos.Base.{
  true, false, Option, none, some, ◌==◌, if◌then◌else◌, ==_refl, ==_ne, if_true, if_false,
}
use ssos.Base.{get_or}
use ssos.BitMath.{align_up}
use ssos.Paging.{Paging}
use ssos.Kalloc.{Kalloc, meta_size}
use ssos.Kalloc.Heap.Tree.{Tree, free, used, size, Leaf, look, address, around, plug, look-plug}
use ssos.Kalloc.Heap.Focus.{Focus}
use ssos.Kalloc.Heap.Merged.{Merged, plug-Merged, Merged-plug, no_sibling}
use ssos.Kalloc.Heap.Rep.{add, add_self, add_ne, Rep, Rep-same}
use ssos.Kalloc.Heap.Alloc.{in_use, in_use-free, Ready, own_none, Split, address_bounds}

-- The allocator is the page with the blocks of the tree, no two free halves of a block unmerged.
pub record Heap (base : ℕ) (paging : Paging) (t : Tree 18) (s : Kalloc) : Type 0 where
  pub rep : Rep base paging (look 18 t base) s
  pub merged : Merged 18 t

-- A block of the level has been handed out: it was not in use, and is now; the others stay as they are.
pub record Allocated (base : ℕ) (paging : Paging) (level : ℕ) (t : Tree 18) (p : ℕ) (s : Kalloc)
    : Type 0 where
  pub tree : Tree 18
  pub block : ℕ
  pub at : p ≡ block + 16
  pub heap : Heap base paging tree s
  pub new : in_use (look 18 t base block) ≡ none
  pub blocks :
      (y : ℕ)
      → in_use (look 18 tree base y)
        ≡ (if y == block then some level else in_use (look 18 t base y))

-- NULL: there was no free block of the level or above.
pub record Refused (base level : ℕ) (t : Tree 18) (p : ℕ) (s s' : Kalloc) : Type 0 where
  pub null : p ≡ 0
  pub same : s' ≡ s
  pub no_block : (y k : ℕ) → level ≤ k → look 18 t base y ≢ some (k, true)

pub data Outcome (base : ℕ) (paging : Paging) (level : ℕ) (t : Tree 18) (s : Kalloc)
    (call : Option (ℕ × Kalloc)) : Type 0 where
  allocated :
      (p : ℕ) (s' : Kalloc)
      → call ≡ some (p, s')
      → Allocated base paging level t p s'
      → Outcome base paging level t s call
  refused :
      (p : ℕ) (s' : Kalloc)
      → call ≡ some (p, s')
      → Refused base level t p s s'
      → Outcome base paging level t s call

pub Outcome-step :
    {base : ℕ} {paging : Paging} {level : ℕ} {t : Tree 18} {s : Kalloc}
    {call call' : Option (ℕ × Kalloc)}
    → call ≡ call'
    → Outcome base paging level t s call'
    → Outcome base paging level t s call
Outcome-step e (allocated p s' e' a) = allocated p s' (e ∙ e') a
Outcome-step e (refused p s' e' r) = refused p s' (e ∙ e') r

module _ (base : ℕ) (paging : Paging) (real : 0 < base) (fits : base + 2 ^ 21 < 2 ^ 64)
    (t : Tree 18) (s : Kalloc) (heap : Heap base paging t s) where
  view : ℕ → Option Leaf
  view = look 18 t base

  pub at_list_head :
      (k h : ℕ) (f : Focus base t (look 18 t base) h (k, true))
      → get_or s.mem_blocks k 0 ≡ h
      → Ready base paging real fits f.level f.context s
  at_list_head k h f head = record {
    rep =
        Rep-same base paging (look 18 t base)
          (add (address base f.level f.context) (f.level, true) (around base f.level f.context)) s
          (λ y. f.others y ∙ cc (f.here, f.is_level)) heap.rep;
    head = ap (λ l. get_or s.mem_blocks l 0) f.is_level ∙ head ∙ sym f.here;
  }

  -- What is in use does not change while blocks are split.
  before :
      (level k h : ℕ) (call : Option (ℕ × Kalloc)) (f : Focus base t (look 18 t base) h (k, true))
      → (split : Split base paging real fits level f.level f.context s call) → (y : ℕ)
      → in_use (look 18 t base y) ≡ in_use (around base level split.context y)
  before level k h call f split y =
      let rest = around base f.level f.context in
      ap in_use (f.others y)
      ∙ in_use-free h y k rest
          (ap rest (sym f.here) ∙ own_none base paging real fits f.level f.context)
      ∙ sym (split.same y)

  pub serve :
      (level k h : ℕ) (call : Option (ℕ × Kalloc)) (f : Focus base t (look 18 t base) h (k, true))
      → 16 < size level
      → Split base paging real fits level f.level f.context s call
      → Outcome base paging level t s call
  unfolding meta_size align_up look
  serve level k h call f large split =
      let c = split.context in
      let a = address base level c in
      let (lo, hi) = address_bounds base paging real fits level c in
      let others = around base level c in
      let tree = plug base level c used in
      let is : (y : ℕ) → look 18 tree base y ≡ add a (level, false) others y =
        λ y. look-plug base level c used y in
      let whole : Merged 18 (plug base f.level f.context free) =
        subst (λ t. Merged 18 t) (sym f.tree) heap.merged in
      let (_, around_f) = Merged-plug base f.level f.context free whole in
      allocated (a + 16) split.state (split.runs ∙ ap (λ n. some (n, split.state)) (omega arith))
        (record {
          tree = tree;
          block = a;
          at = refl;
          heap = record {
            rep =
                Rep-same base paging (add a (level, false) others) (look 18 tree base) split.state
                  (λ y. sym (is y)) split.rep;
            merged =
                plug-Merged base level c used tt (split.merged around_f)
                  (no_sibling level c used refl);
          };
          new =
              before level k h call f split a ∙ ap in_use (own_none base paging real fits level c);
          blocks =
              λ y. ap in_use (is y) ∙ handed level a y others (before level k h call f split y);
        })
    where
      handed :
          (level a y : ℕ) (others : ℕ → Option Leaf)
          → in_use (look 18 t base y) ≡ in_use (others y)
          → in_use (add a (level, false) others y)
            ≡ (if y == a then some level else in_use (look 18 t base y))
      handed level a y others e = elim (ℕ_discrete y a) [
        | yes at ↦
            ap in_use (add_self a y (level, false) others at)
            ∙ sym (if_true (y == a) (some level) (in_use (look 18 t base y)) (==_refl y a at))
        | no ne ↦
            ap in_use (add_ne a y (level, false) others ne)
            ∙ sym e
            ∙ sym (if_false (y == a) (some level) (in_use (look 18 t base y)) (==_ne y a ne))
      ]
