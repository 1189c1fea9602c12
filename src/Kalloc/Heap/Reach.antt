-- ===== src/Kalloc/Heap/Reach.antt =====
-- The states that calls of `kmalloc` and `kfree` lead to, in any order, from the page as it is set up.
use mathlib.Core.Path.{subst}
use native.Mathlib.Decide.{ℕ_discrete}
use ssos.Base.{ℕ, ◌+◌, ◌%◌, ◌^◌, ◌≤◌, ◌<◌, ◌≡◌, ◌≢◌, ◌⊎◌, inl, inr, refl, sym, ap, arith, ◌∙◌}
use ssos.Base.{false, Option, none, some, Option-cases}
use ssos.Paging.{Paging}
use ssos.Kalloc.{Kalloc, kmalloc, kfree}
use ssos.Kalloc.Undo.Page.{IsFresh}
use ssos.Kalloc.Heap.Tree.{Tree, free, look, look-Within}
use ssos.Kalloc.Heap.Alloc.{in_use}
use ssos.Kalloc.Heap.Serve.{Heap}
use ssos.Kalloc.Heap.Release.{kfree-Released, in_use-some}
use ssos.Kalloc.Heap.Blocks.{blocks_apart}
use ssos.Kalloc.Heap.Empty.{nothing_in_use, is_free_tree-free, IsFresh-Heap, Heap-IsFresh}
use ssos.Kalloc.Heap.Client.{
  Live, obtained, given_up, not_both, given_up_self, given_up_ne, IsNew, Held, Agrees,
  kmalloc-Obtained, Released-Agrees,
}

-- What a client may give back: NULL, or an address that it holds.
abbrev pub Holds : ℕ → Live → Type 0
Holds p live = (p ≡ 0) ⊎ ((bytes : ℕ) × (live p ≡ some bytes))

pub data Reach (walk : ℕ) (s0 : Kalloc) : Kalloc → Live → Type 0 where
  start : Reach walk s0 s0 (λ p. none)
  alloc :
      (s : Kalloc) (live : Live) (bytes p : ℕ) (s' : Kalloc)
      → Reach walk s0 s live
      → bytes + 16 ≤ 2 ^ 21
      → kmalloc bytes s ≡ some (p, s')
      → Reach walk s0 s' (obtained p bytes live)
  release :
      (s : Kalloc) (live : Live) (p : ℕ) (s' : Kalloc)
      → Reach walk s0 s live
      → Holds p live
      → kfree walk p s ≡ some s'
      → Reach walk s0 s' (given_up p live)

abbrev value : {A : Type 0} → Option A → A → A
value none d = d
value (some x) d = x

pub some_inj : {A : Type 0} (x y : A) → some x ≡ some y → x ≡ y
some_inj x y e = ap (λ o. value o x) e

module _ (base : ℕ) (paging : Paging) (real : 0 < base) (fits : base + 2 ^ 21 < 2 ^ 64)
    (aligned : base % 2 ^ 21 ≡ 0) (walk : ℕ) (enough : 2 ^ 21 < walk) where
  kfree-null : (s : Kalloc) → kfree walk 0 s ≡ some s
  unfolding kfree
  kfree-null s = refl

  -- A call of `kfree` by a client.
  pub kfree-Agrees :
      (p : ℕ) (live : Live) (s : Kalloc)
      → Holds p live
      → Agrees base paging live s
      → (s' : Kalloc) × (kfree walk p s ≡ some s') × Agrees base paging (given_up p live) s'
  kfree-Agrees p live s (inl e) g = (
    s,
    ap (λ n. kfree walk n s) e ∙ kfree-null s,
    record {
      tree = g.tree;
      heap = g.heap;
      held = λ q n at. elim (ℕ_discrete q p) [
        | yes same ↦ absurd (not_both (given_up p live q) n (given_up_self p q live same) at)
        | no ne ↦ g.held q n (sym (given_up_ne p q live ne) ∙ at)
      ];
      kept = λ y k at.
          let (n, on) = g.kept y k at in
          (n, given_up_ne p (y + 16) live (λ z. absurd (omega arith)) ∙ on);
    },
  )
  kfree-Agrees p live s (inr (bytes, e)) g =
      let h = g.held p bytes e in
      let r =
        kfree-Released base paging real fits aligned walk enough g.tree s h.block h.level g.heap
          h.taken in
      (
        r.state,
        ap (λ n. kfree walk n s) h.at ∙ r.runs,
        Released-Agrees base paging real fits walk p bytes live s g h r,
      )

  pub IsFresh-Agrees : (s0 : Kalloc) → IsFresh base paging s0 → Agrees base paging (λ p. none) s0
  unfolding look
  IsFresh-Agrees s0 f = record {
    tree = free;
    heap = IsFresh-Heap base paging real s0 f;
    held = λ p n e. absurd (not_both none n refl e);
    kept = λ y k e. absurd (not_both (in_use (look 18 free base y)) k (free_page y) e);
  }
    where
      free_page : (y : ℕ) → in_use (look 18 free base y) ≡ none
      free_page y = ground arith

  -- Where nothing is held, the page is one free block.
  pub Agrees-IsFresh :
      (s : Kalloc) (live : Live)
      → Agrees base paging live s
      → ((p : ℕ) → live p ≡ none)
      → IsFresh base paging s
  Agrees-IsFresh s live g nothing =
      let unused : (y : ℕ) → in_use (look 18 g.tree base y) ≡ none = λ y.
        elim (Option-cases (in_use (look 18 g.tree base y))) [
          | inl e ↦ e
          | inr (k, e) ↦
              let (n, on) = g.kept y k e in
              absurd (not_both (live (y + 16)) n (nothing (y + 16)) on)
        ] in
      let whole : g.tree ≡ free =
        is_free_tree-free g.tree (nothing_in_use 18 g.tree base g.heap.merged unused) in
      Heap-IsFresh base paging real s (subst (λ t. Heap base paging t s) whole g.heap)

  Reach-Agrees :
      (s0 s : Kalloc) (live : Live)
      → IsFresh base paging s0
      → Reach walk s0 s live
      → Agrees base paging live s
  Reach-Agrees s0 s live f start = IsFresh-Agrees s0 f
  Reach-Agrees s0 s live f (alloc before held bytes p s' r small e) =
      let (p', s'', e', _, g) =
        kmalloc-Obtained base paging real fits bytes held before small
          (Reach-Agrees s0 before held f r) in
      let same : (p', s'') ≡ (p, s) = some_inj (p', s'') (p, s) (sym e' ∙ e) in
      subst (λ (c : ℕ × Kalloc). Agrees base paging (obtained c.0 bytes held) c.1) same g
  Reach-Agrees s0 s live f (release before held p s' r holds e) =
      let (s'', e', g) = kfree-Agrees p held before holds (Reach-Agrees s0 before held f r) in
      subst (λ c. Agrees base paging (given_up p held) c) (some_inj s'' s (sym e' ∙ e)) g

  -- Two blocks that a client holds.
  pub Held-apart :
      (t : Tree 18) (p n q m : ℕ)
      → Held base t p n
      → Held base t q m
      → p ≢ q
      → (p + n + 16 ≤ q) ⊎ (q + m + 16 ≤ p)
  Held-apart t p n q m h h' ne =
      let e = in_use-some (look 18 t base h.block) h.level h.taken in
      let e' = in_use-some (look 18 t base h'.block) h'.level h'.taken in
      elim (blocks_apart 18 t base h.block h'.block (h.level, false) (h'.level, false) e e'
        (λ at. absurd (ne (omega (arith, h.at, h'.at))))) [
          | inl le ↦ inl (omega (arith, le, h.at, h'.at, h.room))
          | inr le ↦ inr (omega (arith, le, h.at, h'.at, h'.room))
        ]

  module _ (s0 s : Kalloc) (live : Live) (f : IsFresh base paging s0)
      (r : Reach walk s0 s live) where
    agrees : Agrees base paging live s
    agrees = Reach-Agrees s0 s live f r

    -- On a page at a base other than 0 that is a multiple of 2^21, with base + 2^21 below 2^64, and with
    -- fuel above 2^21 for the walks of kfree: after any calls, in any order, of kmalloc for up to
    -- 2^21 - 16 bytes and of kfree for NULL or an address that the client holds, from the page as one
    -- free block, the bytes that the client holds at p lie in the page, with 16 bytes for a header in
    -- front; and of two different addresses that it holds, the one that is higher is at least 16 bytes
    -- behind the bytes at the other.
    pub Reach-apart :
        (p n q m : ℕ)
        → live p ≡ some n
        → live q ≡ some m
        → (base + 16 ≤ p)
          × (p + n ≤ base + 2 ^ 21)
          × ((p ≡ q) ⊎ ((p + n + 16 ≤ q) ⊎ (q + m + 16 ≤ p)))
    Reach-apart p n q m e e' =
        let g = agrees in
        let h = g.held p n e in
        let w =
          look-Within 18 g.tree base h.block (h.level, false)
            (in_use-some (look 18 g.tree base h.block) h.level h.taken) in
        (
          omega (arith, h.at, w.from),
          omega (arith, h.at, w.to, h.room),
          elim (ℕ_discrete p q) [
            | yes same ↦ inl same
            | no ne ↦ inr (Held-apart g.tree p n q m h (g.held q m e') ne)
          ],
        )

    -- On the same page and in every state that is reached so, both a further call of kmalloc for up
    -- to 2^21 - 16 bytes and a further call of kfree for NULL or an address that the client holds are
    -- defined and return: no list or array is left, and the loops end. What kmalloc returns is NULL or an
    -- address that the client does not hold.
    pub Reach-defined :
        (bytes p : ℕ)
        → bytes + 16 ≤ 2 ^ 21
        → Holds p live
        → ((q : ℕ) × (s' : Kalloc) × (kmalloc bytes s ≡ some (q, s')) × IsNew q live)
          × ((s' : Kalloc) × (kfree walk p s ≡ some s'))
    Reach-defined bytes p small holds =
        let (q, s', e, new, _) = kmalloc-Obtained base paging real fits bytes live s small agrees in
        let (s'', e', _) = kfree-Agrees p live s holds agrees in ((q, s', e, new), (s'', e'))

    -- On the same page and in every state that is reached so, if the client holds nothing then the heap
    -- is the page as one free block again: all blocks have been merged.
    pub Reach-IsFresh : ((p : ℕ) → live p ≡ none) → IsFresh base paging s
    Reach-IsFresh nothing = Agrees-IsFresh s live agrees nothing
