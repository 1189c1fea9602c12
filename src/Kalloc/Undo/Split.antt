-- ===== src/Kalloc/Undo/Split.antt =====
-- The loop of `kmalloc` that splits a free page down to one level.
use mathlib.Core.Path.{subst}
use native.Mathlib.Nat.{pow-suc, one-le-pow}
use ssos.Base.{ℕ, zero, suc, ◌+◌, ◌-◌, ◌/◌, ◌^◌, ◌≤◌, ◌<◌, ◌≡◌, refl, sym, ap, arith, ◌∙◌}
use ssos.Base.{false, some, ◌>>=◌, get_elem?, set, u64}
use ssos.Base.{get_elem?-eq-get_or, ==_ne}
use ssos.Paging.{Paging}
use ssos.Kalloc.{MemBlock, Kalloc, set_block, set_head, push_half, take_head, split_loop, meta_size}
use ssos.Kalloc.Grow.{set_head_lem}
use ssos.Kalloc.Split.{split_loop-take, split_loop-split}
use ssos.Kalloc.Undo.Buddy.{place, place_suc}
use ssos.Kalloc.Undo.Lists.{low, Lows, Pushed, popped-Lows, push_half_at, pushed_on}
use ssos.Kalloc.Undo.Lists.{pushed_on-Lows, pushed_on-Pushed, set_block_self, set_block-Lows}

-- The block at the end of the page is in use at level `t`.
pub record InUse (base : ℕ) (paging : Paging) (t : ℕ) (s : Kalloc) : Type 0 where
  pub lows : Lows base paging t s
  pub used : s.block (place base t) ≡ record { next = 0; level = t; is_free = false }

module _ (base : ℕ) (paging : Paging) (real : 0 < base) (fits : base + 2 ^ 21 < 2 ^ 64) where
  pub head_of :
      (c : ℕ) (s : Kalloc)
      → c ≤ 18
      → Pushed base paging c s
      → get_elem? s.mem_blocks c ≡ some (place base c)
  head_of c s le p =
      get_elem?-eq-get_or s.mem_blocks c 0 (omega (arith, p.common.size))
      ∙ ap some (p.heads c (omega arith) ∙ ground arith)

  -- The block is taken where the loop has come down to the level asked for.
  pub take_at :
      (t : ℕ) (s : Kalloc)
      → t ≤ 18
      → Pushed base paging t s
      → (s' : Kalloc) × (take_head t (place base t) s ≡ some (u64 (place base t + meta_size), s'))
        × InUse base paging t s'
  unfolding take_head
  take_at t s le p =
      let a = place base t in
      let s1 : Kalloc = record s { mem_blocks = set s.mem_blocks t (low base t t) } in
      let lows : Lows base paging t s1 = popped-Lows base paging t le s p in
      (
        set_block a in_use s1,
        ap
              (λ b. set_head t b.next s >>= λ s'.
                some (u64 (a + meta_size), set_block a (record b { is_free = false; next = 0 }) s'))
              p.top
            ∙ rw (set_head_lem t (low base t t) s p.common.size (omega arith)) refl,
        record {
          lows = set_block-Lows base paging t le in_use s1 lows;
          used = set_block_self a in_use s1;
        },
      )
    where
      in_use : MemBlock
      in_use = record { next = 0; level = t; is_free = false }

  -- One level further down.
  split_at :
      (d : ℕ) (s : Kalloc)
      → d < 18
      → Pushed base paging (suc d) s
      → (s1 : Kalloc) × (s2 : Kalloc) × (s3 : Kalloc) × (set_head
            (suc d)
            (s.block (place base (suc d))).next
            s
          ≡ some s1)
        × (push_half d (place base (suc d)) s1 ≡ some s2)
        × (push_half d (u64 (place base (suc d) + 2 ^ (suc d + 3) / 2)) s2 ≡ some s3)
        × Pushed base paging d s3
  split_at d s lt p =
      let s1 : Kalloc = record s {
        mem_blocks = set s.mem_blocks (suc d) (low base (suc d) (suc d));
      } in
      let lows1 : Lows base paging (suc d) s1 = popped-Lows base paging (suc d) (omega arith) s p in
      let lows2 = pushed_on-Lows base paging d lt s1 lows1 in
      let s2 : Kalloc = pushed_on d (place base (suc d)) 0 s1 in
      let upper : u64 (place base (suc d) + 2 ^ (suc d + 3) / 2) ≡ place base d =
        half_way d (suc d + 3) lt (omega arith) in
      (
        s1,
        s2,
        pushed_on d (place base d) (place base (suc d)) s2,
        ap (λ b. set_head (suc d) b.next s) p.top
            ∙ set_head_lem (suc d) (low base (suc d) (suc d)) s p.common.size (omega arith),
        push_half_at base paging d (omega arith) s1 (place base (suc d)) 0 lows1.common
            (lows1.heads d (omega arith) ∙ ground arith),
        ap (λ a. push_half d a s2) upper
            ∙ push_half_at base paging d (omega arith) s2 (place base d) (place base (suc d))
                lows2.common (lows2.heads d (omega arith) ∙ ground arith),
        pushed_on-Pushed base paging d lt s2 lows2,
      )
    where
      half_way :
          (d k : ℕ) → d < 18 → k ≡ suc (d + 3) → u64 (place base (suc d) + 2 ^ k / 2) ≡ place base d
      half_way d k lt e =
          rw e (omega (arith, pow-suc 2 (d + 3), place_suc base d lt, one-le-pow (d + 3) 2))

  -- From a page on the list of its level, the loop comes down to level `t` and hands out the block
  -- at the end of the page.
  pub split_loop-InUse :
      (t left c : ℕ) (s : Kalloc)
      → c ≡ t + left
      → c ≤ 18
      → Pushed base paging c s
      → (s' : Kalloc) × (split_loop t (suc left) s ≡ some (u64 (place base t + meta_size), s'))
        × InUse base paging t s'
  split_loop-InUse t zero c s e le p =
      let at : t + 0 ≡ c = sym e in
      let same : c ≡ t = omega arith in
      let (s', runs, used) = take_at c s le p in
      subst
        (λ t'.
          (s' : Kalloc) × (split_loop t 1 s ≡ some (u64 (place base t' + meta_size), s'))
          × InUse base paging t' s')
        same
        (
          s',
          split_loop-take t 0 s (place base c) (ap (get_elem? s.mem_blocks) at ∙ head_of c s le p)
                (==_ne (place base c) 0 (omega arith)) refl
              ∙ ap (λ l. take_head l (place base c) s) at
              ∙ runs,
          used,
        )
  split_loop-InUse t (suc left) zero s e le p = absurd (omega arith)
  split_loop-InUse t (suc left) (suc d) s e le p =
      let at : t + suc left ≡ suc d = sym e in
      let below : t + suc left - 1 ≡ d = omega arith in
      let (s1, s2, s3, e1, e2, e3, p3) = split_at d s (omega arith) p in
      let (s', runs, used) = split_loop-InUse t left d s3 (omega arith) (omega arith) p3 in
      (
        s',
        split_loop-split t (suc left) s (place base (suc d))
              (ap (get_elem? s.mem_blocks) at ∙ head_of (suc d) s le p) s1 s2 s3
              (==_ne (place base (suc d)) 0 (omega arith)) (==_ne (suc left) 0 (omega arith))
              (ap (λ l. set_head l (s.block (place base (suc d))).next s) at ∙ e1)
              (ap (λ l. push_half l (place base (suc d)) s1) below ∙ e2)
              (ap (λ l. push_half l (u64 (place base (suc d) + 2 ^ (t + suc left + 3) / 2)) s2)
                  below
                ∙ ap (λ l. push_half d (u64 (place base (suc d) + 2 ^ (l + 3) / 2)) s2) at
                ∙ e3)
            ∙ runs,
        used,
      )
