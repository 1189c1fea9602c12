-- ===== src/Kalloc/Heap/Rep.antt =====
-- The headers and free lists of a page stand for its blocks.
use mathlib.Core.Path.{subst}
use native.Mathlib.Decide.{ℕ_discrete}
use ssos.Base.{ℕ, ◌+◌, ◌^◌, ◌≤◌, ◌<◌, ◌≡◌, ◌≢◌, sym, ap, arith, ◌∙◌}
use ssos.Base.{
  false, ◌&&◌, Option, none, some, ◌==◌, if◌then◌else◌, ==_refl, ==_ne, if_true, if_false,
}
use ssos.Base.{List, get_or}
use ssos.Paging.{Paging}
use ssos.Kalloc.{MemBlock, Kalloc, set_block}
use ssos.Kalloc.Undo.Lists.{Common, set_block_ne}
use ssos.Kalloc.Heap.Tree.{Leaf, or_else}
use ssos.Kalloc.Heap.Focus.{only}
use ssos.Kalloc.Heap.Chain.{count, Chain, Chain-set_block}

-- Whether a block stands on the list of a level.
abbrev pub free_at : ℕ → Option Leaf → ℕ
free_at j none = 0
free_at j (some p) = if p.1 && p.0 == j then 1 else 0

-- One block more.
abbrev pub add : ℕ → Leaf → (ℕ → Option Leaf) → ℕ → Option Leaf
add a p view y = or_else (only a p y) (view y)

pub add_self : (a y : ℕ) (p : Leaf) (view : ℕ → Option Leaf) → y ≡ a → add a p view y ≡ some p
add_self a y p view e =
    ap (λ o. or_else o (view y)) (if_true (y == a) (some p) none (==_refl y a e))

pub add_ne : (a y : ℕ) (p : Leaf) (view : ℕ → Option Leaf) → y ≢ a → add a p view y ≡ view y
add_ne a y p view ne = ap (λ o. or_else o (view y)) (if_false (y == a) (some p) none (==_ne y a ne))

-- A block in use is on no list.
uncounted :
    (a k : ℕ) (view : ℕ → Option Leaf)
    → view a ≡ none
    → (j y : ℕ) → free_at j (add a (k, false) view y) ≡ free_at j (view y)
uncounted a k view out j y = elim (ℕ_discrete y a) [
  | yes at ↦ cc (add_self a y (k, false) view at, ap view at, out)
  | no ne ↦ ap (free_at j) (add_ne a y (k, false) view ne)
]

module _ (base : ℕ) (paging : Paging) where
  -- Every block of the view is in the page and has its level and its state in its header; the list of
  -- a level is a chain of headers, and has each free block of the level once and no other.
  pub record Rep (view : ℕ → Option Leaf) (s : Kalloc) : Type 0 where
    pub common : Common paging s
    pub lists : ℕ → List ℕ
    pub inside : (y : ℕ) (p : Leaf) → view y ≡ some p → (base ≤ y) × (y < base + 2 ^ 21)
    pub headers :
        (y : ℕ) (p : Leaf)
        → view y ≡ some p
        → ((s.block y).level ≡ p.0) × ((s.block y).is_free ≡ p.1)
    pub chains : (j : ℕ) → j < 34 → Chain s.block (get_or s.mem_blocks j 0) (lists j)
    pub counts : (j y : ℕ) → j < 34 → count y (lists j) ≡ free_at j (view y)

  pub Rep-same :
      (view view' : ℕ → Option Leaf) (s : Kalloc)
      → ((y : ℕ) → view y ≡ view' y)
      → Rep view s
      → Rep view' s
  Rep-same view view' s e r = subst (λ (v : ℕ → Option Leaf). Rep v s) (λ i y. e y i) r

  -- A change of a header that is of no block.
  pub Rep-set_block :
      (view : ℕ → Option Leaf) (a : ℕ) (b : MemBlock) (s : Kalloc)
      → view a ≡ none
      → Rep view s
      → Rep view (set_block a b s)
  unfolding set_block
  Rep-set_block view a b s out r = record {
    common = record {
      size = r.common.size;
      level = r.common.level;
      block_size = r.common.block_size;
      frames = r.common.frames;
    };
    lists = r.lists;
    inside = r.inside;
    headers = λ y p e.
        let same : (set_block a b s).block y ≡ s.block y =
          set_block_ne a y b s (λ at. absurd (ground (arith, ap view at, e, out))) in
        let (l, f) = r.headers y p e in
        (ap (λ (m : MemBlock). m.level) same ∙ l, ap (λ (m : MemBlock). m.is_free) same ∙ f);
    chains = λ j lt.
        Chain-set_block a b s (get_or s.mem_blocks j 0) (r.lists j)
          (r.counts j a lt ∙ ap (free_at j) out) (r.chains j lt);
    counts = r.counts;
  }

  -- A block in use is of no list.
  pub Rep-hide :
      (view : ℕ → Option Leaf) (a k : ℕ) (s : Kalloc)
      → view a ≡ none
      → Rep (add a (k, false) view) s
      → Rep view s
  Rep-hide view a k s out r = record {
    common = r.common;
    lists = r.lists;
    inside = λ y p e. r.inside y p (kept y p e ∙ e);
    headers = λ y p e. r.headers y p (kept y p e ∙ e);
    chains = r.chains;
    counts = λ j y lt. r.counts j y lt ∙ uncounted a k view out j y;
  }
    where
      kept : (y : ℕ) (p : Leaf) → view y ≡ some p → add a (k, false) view y ≡ view y
      kept y p e = add_ne a y (k, false) view (λ at. absurd (ground (arith, ap view at, e, out)))

  pub Rep-use :
      (view : ℕ → Option Leaf) (a k : ℕ) (s : Kalloc)
      → view a ≡ none
      → base ≤ a
      → a < base + 2 ^ 21
      → (s.block a).level ≡ k
      → (s.block a).is_free ≡ false
      → Rep view s
      → Rep (add a (k, false) view) s
  Rep-use view a k s out lo hi level used r = record {
    common = r.common;
    lists = r.lists;
    inside = λ y p e. elim (ℕ_discrete y a) [
      | yes at ↦ (omega arith, omega arith)
      | no ne ↦ r.inside y p (sym (add_ne a y (k, false) view ne) ∙ e)
    ];
    headers = λ y p e. elim (ℕ_discrete y a) [
      | yes at ↦
          let is : some (k, false) ≡ some p = sym (add_self a y (k, false) view at) ∙ e in
          ground (arith, at, is, level, used)
      | no ne ↦ r.headers y p (sym (add_ne a y (k, false) view ne) ∙ e)
    ];
    chains = r.chains;
    counts = λ j y lt. r.counts j y lt ∙ sym (uncounted a k view out j y);
  }
