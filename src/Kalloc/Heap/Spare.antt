-- ===== src/Kalloc/Heap/Spare.antt =====
-- A page with one block in use, which is not the whole page: half the page is free.
use native.Mathlib.Decide.{dec_le, dec_lt}
use ssos.Base.{ℕ, ◌+◌, ◌*◌, ◌^◌, ◌≤◌, ◌<◌, ◌≡◌, ◌≢◌, inl, inr, refl, ap, arith, ◌∙◌, pow_le}
use ssos.Base.{true, false, Option, none, some, Option-cases, ◌==◌, if_true, ==_refl}
use ssos.Paging.{Paging}
use ssos.Kalloc.{Kalloc, kmalloc}
use ssos.Kalloc.Heap.Tree.{
  Tree, free, used, node, size, size-pos, Leaf, or_else, look, look-Within, look_outside,
}
use ssos.Kalloc.Heap.Merged.{Merged, is_free_tree}
use ssos.Kalloc.Heap.Alloc.{in_use}
use ssos.Kalloc.Heap.Serve.{Outcome, allocated, refused}
use ssos.Kalloc.Heap.Request.{kmalloc-Outcome}
use ssos.Kalloc.Heap.Client.{Live, obtained, Agrees, Allocated-Agrees, Allocated-IsNew}
use ssos.Kalloc.Heap.Empty.{nothing_in_use}

free_leaf : (k : ℕ) (t : Tree k) (a : ℕ) → is_free_tree t ≡ true → look k t a a ≡ some (k, true)
unfolding look
free_leaf k free a e = if_true {A = Option Leaf} (a == a) (some (k, true)) none (==_refl a a refl)
free_leaf k used a e = absurd (ground (arith, e))
free_leaf k (node l r) a e = absurd (ground (arith, e))

in_use-or_else : (o o' : Option Leaf) (k : ℕ) → in_use o ≡ some k → in_use (or_else o o') ≡ some k
in_use-or_else none o' k e = absurd (ground (arith, e))
in_use-or_else (some p) o' k e = e

-- A block in use is a block.
some_leaf : (o : Option Leaf) (k : ℕ) → in_use o ≡ some k → (p : Leaf) × (o ≡ some p)
some_leaf none k e = absurd (ground (arith, e))
some_leaf (some p) k e = (p, refl)

module _ (base : ℕ) where
  -- At most the block at `x` is in use, and it is not the whole page.
  abbrev pub OnlyAt : ℕ → Tree 18 → Type 0
  OnlyAt x t = (y k : ℕ) → in_use (look 18 t base y) ≡ some k → (y ≡ x) × (k ≤ 17)

  -- The half of the page without the block in use.
  upper_free :
      (l r : Tree 17) (x : ℕ)
      → Merged 17 r
      → OnlyAt x (node l r)
      → x < base + size 17
      → is_free_tree r ≡ true
  unfolding look
  upper_free l r x merged only below = nothing_in_use 17 r (base + size 17) merged (λ y.
      elim (Option-cases (in_use (look 17 r (base + size 17) y))) [
        | inl e ↦ e
        | inr (k, e) ↦
            let (p, e') = some_leaf (look 17 r (base + size 17) y) k e in
            let w = look-Within 17 r (base + size 17) y p e' in
            let beside = look_outside 17 l base y (inr w.from) in
            let (at, _) =
              only y k (ap (λ o. in_use (or_else o (look 17 r (base + size 17) y))) beside ∙ e) in
            absurd (omega (arith, w.from))
      ])

  lower_free :
      (l r : Tree 17) (x : ℕ)
      → Merged 17 l
      → OnlyAt x (node l r)
      → base + size 17 ≤ x
      → is_free_tree l ≡ true
  unfolding look
  lower_free l r x merged only above = nothing_in_use 17 l base merged (λ y.
      elim (Option-cases (in_use (look 17 l base y))) [
        | inl e ↦ e
        | inr (k, e) ↦
            let (p, e') = some_leaf (look 17 l base y) k e in
            let w = look-Within 17 l base y p e' in
            let (at, _) =
              only y k (in_use-or_else (look 17 l base y) (look 17 r (base + size 17) y) k e) in
            absurd (omega (arith, w.to, size-pos p.0))
      ])

  spare :
      (t : Tree 18) (x : ℕ)
      → Merged 18 t
      → OnlyAt x t
      → (y j : ℕ) × (17 ≤ j) × (look 18 t base y ≡ some (j, true))
  unfolding look
  spare free x merged only = (base, 18, omega arith, free_leaf 18 free base refl)
  spare used x merged only =
      let (_, le) = only base 18 (
        ap in_use (
          if_true {A = Option Leaf} (base == base) (some (18, false)) none
            (==_refl base base refl))) in
      absurd (omega (arith, le))
  spare (node l r) x (_, ml, mr) only = elim (dec_lt x (base + size 17)) [
    | yes below ↦ (
      base + size 17,
      17,
      omega arith,
      ap (λ o. or_else o (look 17 r (base + size 17) (base + size 17)))
            (look_outside 17 l base (base + size 17) (inr (omega arith)))
          ∙ free_leaf 17 r (base + size 17) (upper_free l r x mr only below),
    )
    | no above ↦ (
      base,
      17,
      omega arith,
      ap (λ o. or_else o (look 17 r (base + size 17) base))
          (free_leaf 17 l base (lower_free l r x ml only (omega arith))),
    )
  ]

  module _ (paging : Paging) (real : 0 < base) (fits : base + 2 ^ 21 < 2 ^ 64) where
    -- The client's view of a call of `kmalloc` that is not refused.
    abbrev pub Supplied : ℕ → Live → Option (ℕ × Kalloc) → Type 0
    Supplied bytes live call =
        (p : ℕ) × (s : Kalloc) × (call ≡ some (p, s))
        × (p ≢ 0)
        × (live p ≡ none)
        × Agrees base paging (obtained p bytes live) s

    -- A client that holds at most one block, less than the page, gets half the page or less.
    pub kmalloc-Supplied :
        (bytes x : ℕ) (live : Live) (s : Kalloc)
        → 0 < bytes
        → bytes + 16 ≤ 2 ^ 20
        → (g : Agrees base paging live s) → OnlyAt x g.tree
        → Supplied bytes live (kmalloc bytes s)
    kmalloc-Supplied bytes x live s pos small g only =
        let (level, room, close, _, outcome) =
          kmalloc-Outcome base paging real fits g.tree s g.heap bytes pos (omega arith) in
        let (y, j, high, is_free) = spare g.tree x g.heap.merged only in
        answer level room close outcome y j
          (elim (dec_le level 17) [
            | yes le ↦ omega arith
            | no gt ↦ absurd (omega (arith, pow_le 21 (level + 3) (omega arith)))
          ])
          is_free
      where
        answer :
            (level : ℕ)
            → bytes + 16 ≤ size level
            → size level < 2 * (bytes + 16)
            → Outcome base paging level g.tree s (kmalloc bytes s)
            → (y j : ℕ) → level ≤ j
            → look 18 g.tree base y ≡ some (j, true)
            → Supplied bytes live (kmalloc bytes s)
        answer level room close (allocated p s' e a) y j le is_free = (
          p,
          s',
          e,
          λ null. absurd (omega (arith, a.at)),
          Allocated-IsNew base paging real fits level p live s s' g a,
          Allocated-Agrees base paging real fits bytes level p live s s' room close g a,
        )
        answer level room close (refused p s' e r) y j le is_free =
            absurd (r.no_block y j le is_free)
