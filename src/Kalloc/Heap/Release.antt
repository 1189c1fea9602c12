-- ===== src/Kalloc/Heap/Release.antt =====
-- `kfree` on the tree of a page.
use mathlib.Core.Path.{subst}
use native.Mathlib.Decide.{ℕ_discrete}
use ssos.Base.{ℕ, ◌+◌, ◌%◌, ◌^◌, ◌<◌, ◌≡◌, refl, sym, ap, arith, ◌∙◌}
use ssos.Base.{
  true, false, Option, none, some, ◌==◌, if◌then◌else◌, ==_refl, ==_ne, if_true, if_false,
}
use ssos.Base.{get_or, get_elem?-eq-get_or}
use ssos.BitMath.{align_up}
use ssos.Paging.{Paging}
use ssos.Kalloc.{MemBlock, Kalloc, set_block, kfree, meta_size}
use ssos.Kalloc.Grow.{set_head_lem}
use ssos.Kalloc.Undo.Lists.{set_block_self, pushed_on}
use ssos.Kalloc.Undo.Page.{kfree_end, header_of}
use ssos.Kalloc.Heap.Tree.{
  Tree, free, used, Context, size-pos, Leaf, look, address, around, plug, look-plug,
}
use ssos.Kalloc.Heap.Focus.{focus, level_le}
use ssos.Kalloc.Heap.Merged.{Merged, MergedAround, plug-Merged, Merged-plug}
use ssos.Kalloc.Heap.Rep.{add, add_self, add_ne, Rep, Rep-set_block, Rep-hide, Rep-same}
use ssos.Kalloc.Heap.Lists.{Rep-push}
use ssos.Kalloc.Heap.Alloc.{in_use, in_use-free, address_bounds, own_none, real_address}
use ssos.Kalloc.Heap.Serve.{Heap}
use ssos.Kalloc.Heap.Merge.{Hidden}
use ssos.Kalloc.Heap.Free.{merge_loop-Freed}

-- The page without the block, in use as before elsewhere.
record Without (base : ℕ) (paging : Paging) (k : ℕ) (c : Context k) (call : Option Kalloc)
    : Type 0 where
  state : Kalloc
  runs : call ≡ some state
  tree : Tree 18
  heap : Heap base paging tree state
  blocks : (y : ℕ) → in_use (look 18 tree base y) ≡ in_use (around base k c y)

-- A block in use at `a` has been given back; the others in use stay as they are.
pub record Released (base : ℕ) (paging : Paging) (t : Tree 18) (a : ℕ) (call : Option Kalloc)
    : Type 0 where
  pub state : Kalloc
  pub runs : call ≡ some state
  pub tree : Tree 18
  pub heap : Heap base paging tree state
  pub blocks :
      (y : ℕ) → in_use (look 18 tree base y) ≡ (if y == a then none else in_use (look 18 t base y))

pub in_use-some : (o : Option Leaf) (k : ℕ) → in_use o ≡ some k → o ≡ some (k, false)
in_use-some none k e = absurd (ground (arith, e))
in_use-some (some (j, true)) k e = absurd (ground (arith, e))
in_use-some (some (j, false)) k e = ap (λ o. named o) e
  where
    named : Option ℕ → Option Leaf
    named none = none
    named (some k) = some (k, false)

module _ (base : ℕ) (paging : Paging) (real : 0 < base) (fits : base + 2 ^ 21 < 2 ^ 64)
    (aligned : base % 2 ^ 21 ≡ 0) (walk : ℕ) (enough : 2 ^ 21 < walk) where
  hide :
      (k : ℕ) (c : Context k) (s : Kalloc)
      → Rep base paging (add (address base k c) (k, false) (around base k c)) s
      → Hidden base paging
          (around base k c)
          k
          (address base k c)
          (set_block (address base k c) (record (s.block (address base k c)) { is_free = true }) s)
  hide k c s r =
      let a = address base k c in
      let rest = around base k c in
      let out = own_none base paging real fits k c in
      let b : MemBlock = record (s.block a) { is_free = true } in
      let own = set_block_self a b s in
      let (level, _) = r.headers a (k, false) (add_self a a (k, false) rest refl) in
      record {
        rep = Rep-set_block base paging rest a b s out (Rep-hide base paging rest a k s out r);
        level = ap (λ (m : MemBlock). m.level) own ∙ level;
        is_free = ap (λ (m : MemBlock). m.is_free) own;
      }

  release_at :
      (k : ℕ) (c : Context k) (s : Kalloc)
      → Rep base paging (add (address base k c) (k, false) (around base k c)) s
      → MergedAround k c
      → Without base paging k c (kfree walk (address base k c + 16) s)
  unfolding set_block meta_size align_up look
  release_at k c s r around_c =
      let a = address base k c in
      let (lo, hi) = address_bounds base paging real fits k c in
      let s0 = set_block a (record (s.block a) { is_free = true }) s in
      let f =
        merge_loop-Freed base paging real fits aligned walk enough 34 k c s0 (omega arith)
          (hide k c s r) in
      let m = address base f.level f.context in
      let (lo', hi') = address_bounds base paging real fits f.level f.context in
      let le = level_le base f.level f.context in
      let rest = around base f.level f.context in
      let out = own_none base paging real fits f.level f.context in
      let h = get_or f.state.mem_blocks f.level 0 in
      let size34 = f.hidden.rep.common.size in
      let tree = plug base f.level f.context free in
      let s2 : Kalloc = pushed_on f.level m h f.state in
      record {
        state = s2;
        runs =
            kfree_end walk (a + 16) a m h
              (record { next = (f.state.block m).next; level = f.level; is_free = true }) s f.state
              s2 (==_ne (a + 16) 0 (omega arith)) (omega (arith, size-pos k)) f.runs
              (header_of (f.state.block m) f.level f.hidden.level f.hidden.is_free)
              (get_elem?-eq-get_or f.state.mem_blocks f.level 0 (omega arith))
              (set_head_lem f.level m
                (set_block m (record { next = h; level = f.level; is_free = true }) f.state) size34
                (omega arith));
        tree = tree;
        heap = record {
          rep =
              Rep-same base paging (add m (f.level, true) rest) (look 18 tree base) s2
                (λ y. sym (look-plug base f.level f.context free y))
                (Rep-push base paging rest m f.level (omega arith) out f.state
                  (real_address base paging real fits f.level f.context) lo'
                  (omega (arith, size-pos f.level)) f.hidden.rep);
          merged = plug-Merged base f.level f.context free tt (f.merged around_c) f.alone;
        };
        blocks = λ y.
            ap in_use (look-plug base f.level f.context free y)
            ∙ in_use-free m y f.level rest out
            ∙ f.same y;
      }

  -- On a page at a base other than 0 that is a multiple of 2^21, with base + 2^21 below 2^64, whose
  -- headers and free lists stand for a tree of blocks without two free halves of one block: kfree of
  -- the address 16 bytes behind the start of a block in use, with fuel above 2^21 for its walks,
  -- returns. The block is no longer in use, all others are as before, and the headers and free lists
  -- stand for the new tree, again without two free halves: the block has been merged as far as it goes.
  pub kfree-Released :
      (t : Tree 18) (s : Kalloc) (a k : ℕ)
      → Heap base paging t s
      → in_use (look 18 t base a) ≡ some k
      → Released base paging t a (kfree walk (a + 16) s)
  kfree-Released t s a k heap taken =
      let f =
        focus base t (look 18 t base) a (k, false) (λ y. refl)
          (in_use-some (look 18 t base a) k taken) in
      let rest = around base f.level f.context in
      let whole : Merged 18 (plug base f.level f.context used) =
        subst (λ t. Merged 18 t) (sym f.tree) heap.merged in
      let (_, around_f) = Merged-plug base f.level f.context used whole in
      let r =
        release_at f.level f.context s
          (Rep-same base paging (look 18 t base)
            (add (address base f.level f.context) (f.level, false) rest) s
            (λ y. f.others y ∙ cc (f.here, f.is_level)) heap.rep)
          around_f in
      record {
        state = r.state;
        runs = ap (λ n. kfree walk (n + 16) s) (sym f.here) ∙ r.runs;
        tree = r.tree;
        heap = r.heap;
        blocks = λ y.
            r.blocks y
            ∙ given_back y (look 18 t base y) rest (f.others y)
                (ap rest (sym f.here) ∙ own_none base paging real fits f.level f.context);
      }
    where
      given_back :
          (y : ℕ) (o : Option Leaf) (rest : ℕ → Option Leaf)
          → o ≡ add a (k, false) rest y
          → rest a ≡ none
          → in_use (rest y) ≡ (if y == a then none else in_use o)
      given_back y o rest e out = elim (ℕ_discrete y a) [
        | yes at ↦
            ap in_use (ap rest at ∙ out) ∙ sym (if_true (y == a) none (in_use o) (==_refl y a at))
        | no ne ↦
            ap in_use (sym (add_ne a y (k, false) rest ne) ∙ sym e)
            ∙ sym (if_false (y == a) none (in_use o) (==_ne y a ne))
      ]
