-- ===== src/Kalloc/Heap/Alloc.antt =====
-- The loop of `kmalloc` that splits blocks, on the tree of a page.
use mathlib.Core.Path.{subst}
use native.Mathlib.Decide.{ℕ_discrete}
use ssos.Base.{ℕ, zero, suc, ◌+◌, ◌-◌, ◌/◌, ◌^◌, ◌≤◌, ◌<◌, ◌≡◌, refl, sym, ap, arith, ◌∙◌, u64}
use ssos.Base.{true, false, Option, none, some, ◌==◌, ==_refl, ==_ne, if_true}
use ssos.Base.{get_or, set, get_elem?-eq-get_or, get_elem?}
use ssos.Paging.{Paging}
use ssos.Kalloc.{MemBlock, Kalloc, set_block, set_head, push_half, take_head, split_loop, meta_size}
use ssos.Kalloc.Grow.{set_head_lem}
use ssos.Kalloc.Split.{taken, take_head_lem, split_loop-take, split_loop-split}
use ssos.Kalloc.Undo.Lists.{set_block_self, push_half_at, pushed_on, get_or-set}
use ssos.Kalloc.Heap.Tree.{
  free, Context, page, left, right, size, size_suc, size-pos, Leaf, look, address, around,
  around_inside,
}
use ssos.Kalloc.Heap.Focus.{level_le}
use ssos.Kalloc.Heap.Merged.{MergedAround}
use ssos.Kalloc.Heap.Rep.{add, add_self, add_ne, Rep, Rep-set_block, Rep-use}
use ssos.Kalloc.Heap.Lists.{Rep-pop, Rep-push}

-- The level of a block in use.
abbrev pub in_use : Option Leaf → Option ℕ
in_use none = none
in_use (some (k, true)) = none
in_use (some (k, false)) = some k

pub in_use-free :
    (a y k : ℕ) (view : ℕ → Option Leaf)
    → view a ≡ none
    → in_use (add a (k, true) view y) ≡ in_use (view y)
in_use-free a y k view out = elim (ℕ_discrete y a) [
  | yes at ↦ ap in_use (add_self a y (k, true) view at) ∙ sym (ap in_use (ap view at ∙ out))
  | no ne ↦ ap in_use (add_ne a y (k, true) view ne)
]

module _ (base : ℕ) (paging : Paging) (real : 0 < base) (fits : base + 2 ^ 21 < 2 ^ 64) where
  -- A block of the page lies in it.
  pub address_bounds :
      (k : ℕ) (c : Context k)
      → (base ≤ address base k c) × (address base k c + size k ≤ base + 2 ^ 21)
  unfolding address
  address_bounds k (page e) = (omega arith, omega (arith, ap size e))
  address_bounds k (left t c) =
      let (lo, hi) = address_bounds (suc k) c in (omega arith, omega (arith, size_suc k))
  address_bounds k (right t c) =
      let (lo, hi) = address_bounds (suc k) c in (omega arith, omega (arith, size_suc k))

  pub own_none : (k : ℕ) (c : Context k) → around base k c (address base k c) ≡ none
  own_none k c = around_inside base k c (address base k c) (omega arith) (omega (arith, size-pos k))

  -- The block at `c` is in use, at level `k`.
  abbrev pub InUse : (k : ℕ) → Context k → Kalloc → Type 0
  InUse k c s = Rep base paging (add (address base k c) (k, false) (around base k c)) s

  -- The block at `c` is free and at the head of its list.
  pub record Ready (k : ℕ) (c : Context k) (s : Kalloc) : Type 0 where
    pub rep : Rep base paging (add (address base k c) (k, true) (around base k c)) s
    pub head : get_or s.mem_blocks k 0 ≡ address base k c

  pub real_address : (k : ℕ) (c : Context k) → (address base k c == 0) ≡ false
  real_address k c = let (lo, hi) = address_bounds k c in ==_ne (address base k c) 0 (omega arith)

  taken-InUse :
      (k : ℕ) (c : Context k) (s : Kalloc) → Ready k c s → InUse k c (taken k (address base k c) s)
  unfolding set_block
  taken-InUse k c s r =
      let a = address base k c in
      let (lo, hi) = address_bounds k c in
      let le = level_le base k c in
      let b : MemBlock = record (s.block a) { is_free = false; next = 0 } in
      let s1 : Kalloc = record s { mem_blocks = set s.mem_blocks k (s.block a).next } in
      let popped =
        Rep-pop base paging (around base k c) a k (omega arith) (own_none k c) s r.head
          (real_address k c) r.rep in
      let own = set_block_self a b s1 in
      let (level, f) = r.rep.headers a (k, true) (add_self a a (k, true) (around base k c) refl) in
      Rep-use base paging (around base k c) a k (set_block a b s1) (own_none k c) lo
        (omega (arith, size-pos k)) (ap (λ (m : MemBlock). m.level) own ∙ level)
        (ap (λ (m : MemBlock). m.is_free) own)
        (Rep-set_block base paging (around base k c) a b s1 (own_none k c) popped)

  head_of :
      (k : ℕ) (c : Context k) (s : Kalloc)
      → Ready k c s
      → get_elem? s.mem_blocks k ≡ some (address base k c)
  head_of k c s r =
      get_elem?-eq-get_or s.mem_blocks k 0 (omega (arith, r.rep.common.size, level_le base k c))
      ∙ ap some r.head

  half_way :
      (a d : ℕ) → a + size (suc d) ≤ base + 2 ^ 21 → u64 (a + 2 ^ (suc d + 3) / 2) ≡ a + size d
  half_way a d hi = omega (arith, size_suc d, size-pos d)

  -- One level further down: the upper half comes to the head of the list, in front of the lower one.
  split_Ready :
      (d : ℕ) (c : Context (suc d)) (s : Kalloc)
      → Ready (suc d) c s
      → (s1 : Kalloc) × (s2 : Kalloc) × (s3 : Kalloc) × (set_head
            (suc d)
            (s.block (address base (suc d) c)).next
            s
          ≡ some s1)
        × (push_half d (address base (suc d) c) s1 ≡ some s2)
        × (push_half d (u64 (address base (suc d) c + 2 ^ (suc d + 3) / 2)) s2 ≡ some s3)
        × Ready d (right free c) s3
  unfolding address around look
  split_Ready d c s r =
      let a = address base (suc d) c in
      let up = a + size d in
      let (lo, hi) = address_bounds (suc d) c in
      let le = level_le base (suc d) c in
      let pos = size-pos d in
      let twice = size_suc d in
      let rest = around base (suc d) c in
      let s1 : Kalloc = record s { mem_blocks = set s.mem_blocks (suc d) (s.block a).next } in
      let rep1 =
        Rep-pop base paging rest a (suc d) (omega arith) (own_none (suc d) c) s r.head
          (real_address (suc d) c) r.rep in
      let h1 = get_or s1.mem_blocks d 0 in
      let s2 : Kalloc = pushed_on d a h1 s1 in
      let rep2 =
        Rep-push base paging rest a d (omega arith) (own_none (suc d) c) s1 (real_address (suc d) c)
          lo (omega arith) rep1 in
      let h2 = get_or s2.mem_blocks d 0 in
      let out : add a (d, true) rest up ≡ none =
        add_ne a up (d, true) rest (λ e. absurd (omega arith))
        ∙ around_inside base (suc d) c up (omega arith) (omega arith) in
      let rep3 =
        Rep-push base paging (add a (d, true) rest) up d (omega arith) out s2
          (==_ne up 0 (omega arith)) (omega arith) (omega arith) rep2 in
      (
        s1,
        s2,
        pushed_on d up h2 s2,
        set_head_lem (suc d) (s.block a).next s r.rep.common.size (omega arith),
        push_half_at base paging d (omega arith) s1 a h1 rep1.common refl,
        ap (λ u. push_half d u s2) (half_way a d hi)
            ∙ push_half_at base paging d (omega arith) s2 up h2 rep2.common refl,
        record {
          rep = rep3;
          head =
              get_or-set s2.mem_blocks d up d rep2.common.size (omega arith)
              ∙ if_true (d == d) up (get_or s2.mem_blocks d 0) (==_refl d d refl);
        },
      )

  -- From a block at the head of its list the loop comes down to a block of level `t` in it, which was not in use.
  pub record Split (t k : ℕ) (c : Context k) (s : Kalloc) (call : Option (ℕ × Kalloc))
      : Type 0 where
    pub context : Context t
    pub state : Kalloc
    pub runs : call ≡ some (u64 (address base t context + meta_size), state)
    pub rep : InUse t context state
    pub same : (y : ℕ) → in_use (around base t context y) ≡ in_use (around base k c y)
    pub merged : MergedAround k c → MergedAround t context

  lower_half :
      (d : ℕ) (c : Context (suc d)) (y : ℕ)
      → in_use (around base d (right free c) y) ≡ in_use (around base (suc d) c y)
  unfolding around look
  lower_half d c y =
      in_use-free (address base (suc d) c) y d (around base (suc d) c) (own_none (suc d) c)

  take_Split :
      (t : ℕ) (c : Context t) (s : Kalloc)
      → Ready t c s
      → Split t t c s (take_head t (address base t c) s)
  take_Split t c s r =
      let le = level_le base t c in
      record {
        context = c;
        state = taken t (address base t c) s;
        runs = take_head_lem t (address base t c) s r.rep.common.size (omega arith);
        rep = taken-InUse t c s r;
        same = λ y. refl;
        merged = λ m. m;
      }

  -- The block at the head of the list asked for is taken.
  pub take_head-Split :
      (t k : ℕ) (c : Context k) (s : Kalloc)
      → k ≡ t
      → Ready k c s
      → Split t k c s (take_head t (address base k c) s)
  take_head-Split t k c s same r =
      subst (λ k. (c : Context k) → Ready k c s → Split t k c s (take_head t (address base k c) s))
        (sym same) (λ c r. take_Split t c s r) c r

  pub Split-step :
      (t k : ℕ) (c : Context k) (s : Kalloc) (call call' : Option (ℕ × Kalloc))
      → call ≡ call'
      → Split t k c s call'
      → Split t k c s call
  Split-step t k c s call call' e split = subst (λ o. Split t k c s o) (sym e) split

  pub split_loop-Split :
      (t more k : ℕ) (c : Context k) (s : Kalloc)
      → k ≡ t + more
      → Ready k c s
      → Split t k c s (split_loop t (suc more) s)
  split_loop-Split t zero k c s e r =
      let at : t + 0 ≡ k = sym e in
      let a = address base k c in
      Split-step t k c s (split_loop t 1 s) (take_head t a s)
        (split_loop-take t 0 s a (ap (get_elem? s.mem_blocks) at ∙ head_of k c s r)
            (real_address k c) refl
          ∙ ap (λ l. take_head l a s) none_more)
        (take_head-Split t k c s (omega arith) r)
    where
      none_more : t + 0 ≡ t
      none_more = omega arith
  split_loop-Split t (suc more) zero c s e r = absurd (omega arith)
  split_loop-Split t (suc more) (suc d) c s e r =
      let at : t + suc more ≡ suc d = sym e in
      let below : t + suc more - 1 ≡ d = omega arith in
      let a = address base (suc d) c in
      let (s1, s2, s3, e1, e2, e3, r3) = split_Ready d c s r in
      let rest = split_loop-Split t more d (right free c) s3 (omega arith) r3 in
      record {
        context = rest.context;
        state = rest.state;
        runs =
            split_loop-split t (suc more) s a
              (ap (get_elem? s.mem_blocks) at ∙ head_of (suc d) c s r) s1 s2 s3
              (real_address (suc d) c) (==_ne (suc more) 0 (omega arith))
              (ap (λ l. set_head l (s.block a).next s) at ∙ e1)
              (ap (λ l. push_half l a s1) below ∙ e2)
              (ap (λ l. push_half l (u64 (a + 2 ^ (t + suc more + 3) / 2)) s2) below
                ∙ ap (λ l. push_half d (u64 (a + 2 ^ (l + 3) / 2)) s2) at
                ∙ e3)
            ∙ rest.runs;
        rep = rest.rep;
        same = λ y. rest.same y ∙ lower_half d c y;
        merged = λ m. rest.merged (tt, m);
      }
