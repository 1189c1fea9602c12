-- ===== src/Kalloc/Heap/Lists.antt =====
-- Blocks put on a free list and taken from it.
use mathlib.Core.Path.{subst}
use native.Mathlib.Decide.{ℕ_discrete}
use ssos.Base.{ℕ, ◌+◌, ◌^◌, ◌≤◌, ◌<◌, ◌≡◌, ◌≢◌, refl, sym, ap, arith, ◌∙◌}
use ssos.Base.{
  true, false, Option, none, some, ◌==◌, if◌then◌else◌, ==_refl, ==_ne, if_true, if_false,
}
use ssos.Base.{List, [], ◌∷◌, length, get_or, set}
use ssos.Base.{length-set}
use ssos.Paging.{Paging}
use ssos.Kalloc.{MemBlock, Kalloc, set_block}
use ssos.Kalloc.Undo.Lists.{get_or-set, pushed_on, set_block_self, set_block_ne}
use ssos.Kalloc.Heap.Tree.{Leaf, some_eq}
use ssos.Kalloc.Heap.Chain.{count, Chain, Chain-set_block}
use ssos.Kalloc.Heap.Rep.{free_at, add, add_self, add_ne, Rep}

-- The list of one level replaced.
abbrev pub at_level : ℕ → List ℕ → (ℕ → List ℕ) → ℕ → List ℕ
at_level j l lists i = if i == j then l else lists i

pub chains_at :
    (block : ℕ → MemBlock) (heads heads' : ℕ → ℕ) (lists : ℕ → List ℕ) (j v : ℕ) (l : List ℕ)
    → ((i : ℕ) → i < 34 → heads' i ≡ (if i == j then v else heads i))
    → Chain block v l
    → ((i : ℕ) → i < 34 → i ≢ j → Chain block (heads i) (lists i))
    → (i : ℕ) → i < 34
    → Chain block (heads' i) (at_level j l lists i)
chains_at block heads heads' lists j v l are new old i lt = elim (ℕ_discrete i j) [
  | yes e ↦
      subst (λ (h : ℕ). Chain block h (at_level j l lists i))
        (sym (are i lt ∙ if_true (i == j) v (heads i) (==_refl i j e)))
        (subst (λ (m : List ℕ). Chain block v m)
          (sym (if_true (i == j) l (lists i) (==_refl i j e))) new)
  | no ne ↦
      subst (λ (h : ℕ). Chain block h (at_level j l lists i))
        (sym (are i lt ∙ if_false (i == j) v (heads i) (==_ne i j ne)))
        (subst (λ (m : List ℕ). Chain block (heads i) m)
          (sym (if_false (i == j) l (lists i) (==_ne i j ne))) (old i lt ne))
]

chains_set :
    (block : ℕ → MemBlock) (heads : List ℕ) (lists : ℕ → List ℕ) (j v : ℕ) (l : List ℕ)
    → length heads ≡ 34
    → j < 34
    → Chain block v l
    → ((i : ℕ) → i < 34 → i ≢ j → Chain block (get_or heads i 0) (lists i))
    → (i : ℕ) → i < 34
    → Chain block (get_or (set heads j v) i 0) (at_level j l lists i)
chains_set block heads lists j v l size small =
    chains_at block (λ i. get_or heads i 0) (λ i. get_or (set heads j v) i 0) lists j v l
      (λ i lt. get_or-set heads j v i size small)

-- The head of a list that has one, and a list without.
pub head_cases :
    (block : ℕ → MemBlock) (h : ℕ) (l : List ℕ)
    → Chain block h l
    → (h == 0) ≡ false
    → (rest : List ℕ) × (l ≡ h ∷ rest) × Chain block (block h).next rest
head_cases block h [] c real = absurd (ground (arith, c, real))
head_cases block h (x ∷ rest) (at, ne, c) real = (
  rest,
  ap (λ (a : ℕ). a ∷ rest) (sym at),
  subst (λ (a : ℕ). Chain block (block a).next rest) (sym at) c,
)

pub empty_list : (block : ℕ → MemBlock) (l : List ℕ) (h : ℕ) → Chain block h l → h ≡ 0 → l ≡ []
empty_list block [] h c e = refl
empty_list block (x ∷ rest) h (at, ne, c) e = absurd (ground (arith, at, ne, e))

pub free_at_one : (j : ℕ) (o : Option Leaf) → 0 < free_at j o → o ≡ some (j, true)
free_at_one j none lt = absurd (omega arith)
free_at_one j (some (k, false)) lt = absurd (omega arith)
free_at_one j (some (k, true)) lt = elim (ℕ_discrete k j) [
  | yes e ↦ ap (λ (m : ℕ). some (m, true)) e
  | no ne ↦ absurd (ground (arith, lt, ne))
]

module _ (base : ℕ) (paging : Paging) where
  pub head_free :
      (view : ℕ → Option Leaf) (j : ℕ) (s : Kalloc)
      → j < 34
      → Rep base paging view s
      → (get_or s.mem_blocks j 0 == 0) ≡ false
      → view (get_or s.mem_blocks j 0) ≡ some (j, true)
  head_free view j s lt r real =
      let h = get_or s.mem_blocks j 0 in
      let (rest, l, c) = head_cases s.block h (r.lists j) (r.chains j lt) real in
      free_at_one j (view h) (omega (arith, r.counts j h lt, ap (count h) l, own h rest))
    where
      own : (h : ℕ) (rest : List ℕ) → 0 < count h (h ∷ rest)
      own h rest = ground arith

  pub none_free :
      (view : ℕ → Option Leaf) (j y : ℕ) (s : Kalloc)
      → j < 34
      → Rep base paging view s
      → get_or s.mem_blocks j 0 ≡ 0
      → view y ≢ some (j, true)
  none_free view j y s lt r e at =
      let l = empty_list s.block (r.lists j) (get_or s.mem_blocks j 0) (r.chains j lt) e in
      absurd (ground (arith, r.counts j y lt, ap (count y) l, ap (free_at j) at))

  -- The lists once one of them has a block less.
  module _ (view : ℕ → Option Leaf) (a j : ℕ) (small : j < 34) (out : view a ≡ none) where
    pub fewer :
        (lists : ℕ → List ℕ) (l : List ℕ)
        → ((i y : ℕ) → i < 34 → count y (lists i) ≡ free_at i (add a (j, true) view y))
        → ((y : ℕ) → count y l + (if y == a then 1 else 0) ≡ count y (lists j))
        → (i y : ℕ) → i < 34
        → count y (at_level j l lists i) ≡ free_at i (view y)
    fewer lists l counts less i y lt = elim (ℕ_discrete i j) [
      | yes e ↦ elim (ℕ_discrete y a) [
        | yes at ↦
            let was = counts i y lt ∙ ap (free_at i) (add_self a y (j, true) view at) in
            let gone = ap (free_at i) (ap view at ∙ out) in ground (arith, was, gone, less y, e, at)
        | no ne ↦
            let was = counts i y lt ∙ ap (free_at i) (add_ne a y (j, true) view ne) in
            ground (arith, was, less y, e, ne)
      ]
      | no far ↦ elim (ℕ_discrete y a) [
        | yes at ↦
            let was = counts i y lt ∙ ap (free_at i) (add_self a y (j, true) view at) in
            let gone = ap (free_at i) (ap view at ∙ out) in ground (arith, was, gone, far)
        | no ne ↦
            let was = counts i y lt ∙ ap (free_at i) (add_ne a y (j, true) view ne) in
            ground (arith, was, far)
      ]
    ]

    pub others : (y : ℕ) (p : Leaf) → view y ≡ some p → add a (j, true) view y ≡ view y
    others y p e = add_ne a y (j, true) view (λ at. absurd (ground (arith, ap view at, e, out)))

    pub Rep-pop :
        (s : Kalloc)
        → get_or s.mem_blocks j 0 ≡ a
        → (a == 0) ≡ false
        → Rep base paging (add a (j, true) view) s
        → Rep base paging view (record s { mem_blocks = set s.mem_blocks j (s.block a).next })
    Rep-pop s head real r =
        let (rest, l, c) =
          head_cases s.block a (r.lists j)
            (subst (λ (h : ℕ). Chain s.block h (r.lists j)) head (r.chains j small)) real in
        record {
          common = record {
            size = length-set s.mem_blocks j (s.block a).next ∙ r.common.size;
            level = r.common.level;
            block_size = r.common.block_size;
            frames = r.common.frames;
          };
          lists = at_level j rest r.lists;
          inside = λ y p e. r.inside y p (others y p e ∙ e);
          headers = λ y p e. r.headers y p (others y p e ∙ e);
          chains =
              chains_set s.block s.mem_blocks r.lists j (s.block a).next rest r.common.size small c
                (λ i lt ne. r.chains i lt);
          counts = fewer r.lists rest r.counts (λ y. ground (arith, ap (count y) l));
        }

    -- The lists once one of them has a block more.
    more :
        (lists : ℕ → List ℕ)
        → ((i y : ℕ) → i < 34 → count y (lists i) ≡ free_at i (view y))
        → (i y : ℕ) → i < 34
        → count y (at_level j (a ∷ lists j) lists i) ≡ free_at i (add a (j, true) view y)
    more lists counts i y lt = elim (ℕ_discrete y a) [
      | yes at ↦
          let was = counts i y lt ∙ ap (free_at i) (ap view at ∙ out) in
          let now = ap (free_at i) (add_self a y (j, true) view at) in
          elim (ℕ_discrete i j) [
            | yes e ↦ ground (arith, was, now, e, at)
            | no far ↦ ground (arith, was, now, far)
          ]
      | no ne ↦
          let was = counts i y lt in
          let now = ap (free_at i) (add_ne a y (j, true) view ne) in
          elim (ℕ_discrete i j) [
            | yes e ↦ ground (arith, was, now, e, ne)
            | no far ↦ ground (arith, was, now, far)
          ]
    ]

    pub Rep-push :
        (s : Kalloc)
        → (a == 0) ≡ false
        → base ≤ a
        → a < base + 2 ^ 21
        → Rep base paging view s
        → Rep base paging (add a (j, true) view) (pushed_on j a (get_or s.mem_blocks j 0) s)
    unfolding set_block
    Rep-push s real lo hi r =
        let h = get_or s.mem_blocks j 0 in
        let b : MemBlock = record { next = h; level = j; is_free = true } in
        let own = set_block_self a b s in
        record {
          common = record {
            size = length-set s.mem_blocks j a ∙ r.common.size;
            level = r.common.level;
            block_size = r.common.block_size;
            frames = r.common.frames;
          };
          lists = at_level j (a ∷ r.lists j) r.lists;
          inside = λ y p e. elim (ℕ_discrete y a) [
            | yes at ↦ (omega arith, omega arith)
            | no ne ↦ r.inside y p (sym (add_ne a y (j, true) view ne) ∙ e)
          ];
          headers = λ y p e. elim (ℕ_discrete y a) [
            | yes at ↦
                let is : (j, true) ≡ p =
                  some_eq (j, true) p (sym (add_self a y (j, true) view at) ∙ e) in
                let mine : (pushed_on j a h s).block y ≡ b =
                  ap (pushed_on j a h s).block at ∙ own in
                (
                  ap (λ (m : MemBlock). m.level) mine ∙ ap (λ (q : Leaf). q.0) is,
                  ap (λ (m : MemBlock). m.is_free) mine ∙ ap (λ (q : Leaf). q.1) is,
                )
            | no ne ↦
                let same : (pushed_on j a h s).block y ≡ s.block y = set_block_ne a y b s ne in
                let (l, f) = r.headers y p (sym (add_ne a y (j, true) view ne) ∙ e) in
                (ap (λ (m : MemBlock). m.level) same ∙ l, ap (λ (m : MemBlock). m.is_free) same ∙ f)
          ];
          chains =
              chains_set (set_block a b s).block s.mem_blocks r.lists j a (a ∷ r.lists j)
                r.common.size small
                (
                  refl,
                  real,
                  subst (λ (m : MemBlock). Chain (set_block a b s).block m.next (r.lists j))
                      (sym own)
                      (Chain-set_block a b s h (r.lists j) (r.counts j a small ∙ ap (free_at j) out)
                        (r.chains j small)),
                )
                (λ i lt ne.
                  Chain-set_block a b s (get_or s.mem_blocks i 0) (r.lists i)
                    (r.counts i a lt ∙ ap (free_at i) out) (r.chains i lt));
          counts = λ i y lt. more r.lists r.counts i y lt;
        }
