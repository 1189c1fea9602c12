-- ===== src/Kalloc/Heap/Client.antt =====
-- What a client of `kmalloc` and `kfree` can rely on, whatever calls it makes.
use native.Mathlib.Decide.{ℕ_discrete}
use ssos.Base.{◌⊎◌, inl, inr, Option-cases, ap}
use ssos.Base.{ℕ, zero, suc, ◌+◌, ◌*◌, ◌^◌, ◌≤◌, ◌<◌, ◌≡◌, ◌≢◌, refl, sym, arith, ◌∙◌}
use ssos.Base.{Option, none, some, ◌==◌, if◌then◌else◌, ==_refl, ==_ne, if_true, if_false}
use ssos.Paging.{Paging}
use ssos.Kalloc.{Kalloc, kmalloc, kfree}
use ssos.Kalloc.Heap.Tree.{Tree, size, look}
use ssos.Kalloc.Heap.Alloc.{in_use}
use ssos.Kalloc.Heap.Serve.{Heap, Outcome, Allocated, allocated, refused}
use ssos.Kalloc.Heap.Request.{kmalloc-Outcome}
use ssos.Kalloc.Heap.Release.{Released}

-- The addresses that a client holds, with the bytes it asked for.
abbrev pub Live : Type 0
Live = ℕ → Option ℕ

-- After a call of `kmalloc` that returned `p`.
abbrev pub obtained : ℕ → ℕ → Live → Live
obtained p bytes live q = if p == 0 then live q else if q == p then some bytes else live q

-- After a call of `kfree` with `p`.
abbrev pub given_up : ℕ → Live → Live
given_up p live q = if q == p then none else live q

pub obtained_self :
    (p bytes q : ℕ) (live : Live) → p ≢ 0 → q ≡ p → obtained p bytes live q ≡ some bytes
obtained_self p bytes q live real same = ground (arith, real, same)

pub obtained_ne : (p bytes q : ℕ) (live : Live) → q ≢ p → obtained p bytes live q ≡ live q
obtained_ne p bytes q live ne = ground (arith, ne)

pub given_up_self : (p q : ℕ) (live : Live) → q ≡ p → given_up p live q ≡ none
given_up_self p q live same = if_true (q == p) none (live q) (==_refl q p same)

pub given_up_ne : (p q : ℕ) (live : Live) → q ≢ p → given_up p live q ≡ live q
given_up_ne p q live ne = if_false (q == p) none (live q) (==_ne q p ne)

pub not_both : (o : Option ℕ) (n : ℕ) → o ≡ none → o ≢ some n
not_both o n e e' = absurd (ground (arith, e, e'))

-- NULL, or an address that the client does not hold.
abbrev pub IsNew : ℕ → Live → Type 0
IsNew p live = (p ≡ 0) ⊎ (live p ≡ none)

-- An address that a client holds is 16 bytes behind the start of a block in use that is large enough,
-- and less than twice as large as it needs to be.
pub record Held (base : ℕ) (t : Tree 18) (p bytes : ℕ) : Type 0 where
  pub block : ℕ
  pub level : ℕ
  pub at : p ≡ block + 16
  pub taken : in_use (look 18 t base block) ≡ some level
  pub room : bytes + 16 ≤ size level
  pub close : size level < 2 * (bytes + 16)

-- The blocks in use are those that the client holds.
pub record Agrees (base : ℕ) (paging : Paging) (live : Live) (s : Kalloc) : Type 0 where
  pub tree : Tree 18
  pub heap : Heap base paging tree s
  pub held : (p bytes : ℕ) → live p ≡ some bytes → Held base tree p bytes
  pub kept :
      (y k : ℕ) → in_use (look 18 tree base y) ≡ some k → (bytes : ℕ) × (live (y + 16) ≡ some bytes)

module _ (base : ℕ) (paging : Paging) (real : 0 < base) (fits : base + 2 ^ 21 < 2 ^ 64) where
  -- The client's view of a call of `kmalloc`.
  abbrev pub Obtained : ℕ → Live → Option (ℕ × Kalloc) → Type 0
  Obtained bytes live call =
      (p : ℕ) × (s : Kalloc) × (call ≡ some (p, s))
      × IsNew p live
      × Agrees base paging (obtained p bytes live) s

  pub Allocated-Agrees :
      (bytes level p : ℕ) (live : Live) (s s' : Kalloc)
      → bytes + 16 ≤ size level
      → size level < 2 * (bytes + 16)
      → (g : Agrees base paging live s) → Allocated base paging level g.tree p s'
      → Agrees base paging (obtained p bytes live) s'
  Allocated-Agrees bytes level p live s s' room close g a = record {
    tree = a.tree;
    heap = a.heap;
    held = λ q n e. elim (ℕ_discrete q p) [
      | yes same ↦
          let is : some bytes ≡ some n =
            sym (obtained_self p bytes q live (λ z. absurd (omega (arith, a.at))) same) ∙ e in
          record {
            block = a.block;
            level = level;
            at = same ∙ a.at;
            taken =
                a.blocks a.block ∙ if_true (a.block == a.block) _ _ (==_refl a.block a.block refl);
            room = ground (arith, is, room);
            close = ground (arith, is, close);
          }
      | no ne ↦
          let h = g.held q n (sym (obtained_ne p bytes q live ne) ∙ e) in
          record {
            block = h.block;
            level = h.level;
            at = h.at;
            taken =
                a.blocks h.block
                ∙ if_false (h.block == a.block) _ _
                    (==_ne h.block a.block (λ e. absurd (ne (omega (arith, h.at, a.at)))))
                ∙ h.taken;
            room = h.room;
            close = h.close;
          }
    ];
    kept = λ y k e. elim (ℕ_discrete y a.block) [
      | yes same ↦ (
        bytes,
        obtained_self p bytes (y + 16) live (λ z. absurd (omega (arith, a.at)))
            (omega (arith, a.at)),
      )
      | no ne ↦
          let (n, e') =
            g.kept y k (sym (a.blocks y ∙ if_false (y == a.block) _ _ (==_ne y a.block ne)) ∙ e) in
          (n, obtained_ne p bytes (y + 16) live (λ z. absurd (ne (omega (arith, a.at)))) ∙ e')
    ];
  }

  pub Allocated-IsNew :
      (level p : ℕ) (live : Live) (s s' : Kalloc)
      → (g : Agrees base paging live s) → Allocated base paging level g.tree p s'
      → live p ≡ none
  Allocated-IsNew level p live s s' g a = elim (Option-cases (live p)) [
    | inl e ↦ e
    | inr (n, e) ↦
        let h = g.held p n e in
        let same : h.block ≡ a.block = omega (arith, h.at, a.at) in
        absurd (
          not_both (in_use (look 18 g.tree base a.block)) h.level a.new
            (ap (λ b. in_use (look 18 g.tree base b)) (sym same) ∙ h.taken))
  ]

  -- NULL leaves the client with what it had.
  null-Agrees :
      (bytes : ℕ) (live : Live) (s : Kalloc)
      → Agrees base paging live s
      → Agrees base paging (obtained 0 bytes live) s
  null-Agrees bytes live s g = record { tree = g.tree; heap = g.heap; held = g.held; kept = g.kept }

  pub kmalloc-Obtained :
      (bytes : ℕ) (live : Live) (s : Kalloc)
      → bytes + 16 ≤ 2 ^ 21
      → Agrees base paging live s
      → Obtained bytes live (kmalloc bytes s)
  unfolding kmalloc
  kmalloc-Obtained zero live s small g = (0, s, refl, inl refl, null-Agrees 0 live s g)
  kmalloc-Obtained (suc n) live s small g =
      let (level, room, close, _, outcome) =
        kmalloc-Outcome base paging real fits g.tree s g.heap (suc n) (omega arith) small in
      answer level room close outcome
    where
      answer :
          (level : ℕ)
          → suc n + 16 ≤ size level
          → size level < 2 * (suc n + 16)
          → Outcome base paging level g.tree s (kmalloc (suc n) s)
          → Obtained (suc n) live (kmalloc (suc n) s)
      answer level room close (allocated p s' e a) = (
        p,
        s',
        e,
        inr (Allocated-IsNew level p live s s' g a),
        Allocated-Agrees (suc n) level p live s s' room close g a,
      )
      answer level room close (refused p s' e r) =
          (0, s, e ∙ (λ i. some (r.null i, r.same i)), inl refl, null-Agrees (suc n) live s g)

  pub Released-Agrees :
      (walk p bytes : ℕ) (live : Live) (s : Kalloc)
      → (g : Agrees base paging live s) → (h : Held base g.tree p bytes)
      → (r : Released base paging g.tree h.block (kfree walk (h.block + 16) s))
      → Agrees base paging (given_up p live) r.state
  Released-Agrees walk p bytes live s g h r = record {
    tree = r.tree;
    heap = r.heap;
    held = λ q n e. elim (ℕ_discrete q p) [
      | yes same ↦ absurd (not_both (given_up p live q) n (given_up_self p q live same) e)
      | no ne ↦
          let h' = g.held q n (sym (given_up_ne p q live ne) ∙ e) in
          record {
            block = h'.block;
            level = h'.level;
            at = h'.at;
            taken =
                r.blocks h'.block
                ∙ if_false (h'.block == h.block) _ _
                    (==_ne h'.block h.block (λ e. absurd (ne (omega (arith, h.at, h'.at)))))
                ∙ h'.taken;
            room = h'.room;
            close = h'.close;
          }
    ];
    kept = λ y k e. elim (ℕ_discrete y h.block) [
      | yes same ↦ absurd (
          not_both (in_use (look 18 r.tree base y)) k
            (r.blocks y ∙ if_true (y == h.block) _ _ (==_refl y h.block same)) e)
      | no ne ↦
          let (n, e') =
            g.kept y k (sym (r.blocks y ∙ if_false (y == h.block) _ _ (==_ne y h.block ne)) ∙ e) in
          (n, given_up_ne p (y + 16) live (λ z. absurd (ne (omega (arith, h.at)))) ∙ e')
    ];
  }
