-- ===== src/Kalloc/Undo/Page.antt =====
-- `kmalloc` and then `kfree` on a heap of one free page.
use mathlib.Core.Path.{subst}
use native.Mathlib.Nat.{one-le-pow}
use native.Mathlib.Decide.{ℕ_discrete, dec_le}
use ssos.Base.{ℕ, suc, ◌+◌, ◌-◌, ◌*◌, ◌%◌, ◌^◌, ◌≤◌, ◌<◌, ◌≡◌, refl, sym, ap, arith, ◌∙◌}
use ssos.Base.{true, false, some, length, get_elem?, get_or, set}
use ssos.Base.{get_elem?-eq-get_or, ◌==◌, ==_ne, if◌then◌else◌, ltb_ge, length-set}
use ssos.Base.{replicate, get_or-replicate, get_or_ext, u64, pow_le}
use ssos.BitMath.{align_up}
use ssos.Paging.{Paging}
use ssos.Kalloc.{MemBlock, Kalloc, set_block, set_head, take_head, split_loop, grow, allocate}
use ssos.Kalloc.{target_level_of, kmalloc, merge_loop, kfree, meta_size}
use ssos.Kalloc.Level.{target_level_of_lem}
use ssos.Kalloc.Grow.{set_head_lem, grow-done}
use ssos.Kalloc.Undo.Buddy.{place}
use ssos.Kalloc.Undo.Lists.{lone, Common, Lows, Pushed, get_or-set, set_block_self}
use ssos.Kalloc.Undo.Lists.{set_block-Lows}
use ssos.Kalloc.Undo.Split.{InUse, head_of, take_at, split_loop-InUse}
use ssos.Kalloc.Undo.Merge.{merge_loop-Freed}

-- What `kalloc_init` leaves: one page at `base`, free, and nothing else.
pub record IsFresh (base : ℕ) (paging : Paging) (s : Kalloc) : Type 0 where
  pub common : Common paging s
  pub heads : s.mem_blocks ≡ set (replicate 34 0) 18 base
  pub page : s.block base ≡ lone 18

pub fresh_head :
    (base j : ℕ) → get_or (set (replicate 34 0) 18 base) j 0 ≡ (if j == 18 then base else 0)
fresh_head base j =
    get_or-set (replicate 34 0) 18 base j refl (omega arith)
    ∙ ap (λ (v : ℕ). if j == 18 then base else v) (get_or-replicate 34 0 j)

pub IsFresh-Pushed :
    (base : ℕ) (paging : Paging) (s : Kalloc) → IsFresh base paging s → Pushed base paging 18 s
IsFresh-Pushed base paging s f =
    let whole : place base 18 ≡ base = omega arith in
    record {
      common = f.common;
      heads = λ j lt. ap (λ l. get_or l j 0) f.heads ∙ fresh_head base j ∙ ground arith;
      free = λ j le lt. absurd (omega arith);
      top =
          ap s.block whole
          ∙ f.page
          ∙ ap (λ n. record { next = n; level = 18; is_free = true }) (ground arith);
    }

-- The level that a request within a page is served from.
pub small_level :
    (needed : ℕ)
    → 16 < needed
    → needed ≤ 2 ^ 21
    → (t : ℕ) × (target_level_of needed ≡ some t)
      × (needed ≤ 2 ^ (t + 3))
      × (2 ^ (t + 3) < 2 * needed)
      × (t ≤ 18)
small_level needed lo hi =
    let (t, found, ge, close, _) = target_level_of_lem needed (omega arith) (omega arith) in
    (
      t,
      found,
      ge,
      close,
      elim (dec_le t 18) [
        | yes le ↦ le
        | no gt ↦ absurd (omega (arith, pow_le 22 (t + 3) (omega arith)))
      ],
    )

-- The two ways out of the part behind the loop that grows the heap.
module _ (needed t : ℕ) (s : Kalloc) (found : target_level_of needed ≡ some t) where
  pub allocate_take :
      (a : ℕ)
      → get_elem? s.mem_blocks t ≡ some a
      → (a == 0) ≡ false
      → allocate needed s ≡ take_head t a s
  unfolding allocate
  allocate_take a head real = rw (found, head, real) refl

  pub allocate_split :
      (left : ℕ)
      → get_elem? s.mem_blocks t ≡ some 0
      → s.highest_level + 1 - t ≡ left
      → allocate needed s ≡ split_loop t left s
  unfolding allocate
  allocate_split left head rounds = rw (found, head, rounds) refl

module _ (base : ℕ) (paging : Paging) (real : 0 < base) (fits : base + 2 ^ 21 < 2 ^ 64) where
  pub allocate-InUse :
      (needed t : ℕ) (s : Kalloc)
      → target_level_of needed ≡ some t
      → t ≤ 18
      → Pushed base paging 18 s
      → (s' : Kalloc) × (allocate needed s ≡ some (u64 (place base t + meta_size), s'))
        × InUse base paging t s'
  allocate-InUse needed t s found le p = elim (ℕ_discrete t 18) [
    | yes top ↦
        let p' : Pushed base paging t s = subst (λ k. Pushed base paging k s) (sym top) p in
        let (s', runs, used) = take_at base paging real fits t s le p' in
        (
          s',
          allocate_take needed t s found (place base t) (head_of base paging real fits t s le p')
                (==_ne (place base t) 0 (omega arith))
              ∙ runs,
          used,
        )
    | no below ↦
        let (s', runs, used) =
          split_loop-InUse base paging real fits t (18 - t) 18 s (omega arith) (omega arith) p in
        (
          s',
          allocate_split needed t s found (suc (18 - t))
                (get_elem?-eq-get_or s.mem_blocks t 0 (omega (arith, p.common.size))
                  ∙ ap some (p.heads t (omega arith) ∙ ground arith))
                (omega (arith, p.common.level))
              ∙ runs,
          used,
        )
  ]

  -- No growth is needed, and the block is handed out.
  kmalloc-InUse :
      (bytes t : ℕ) (s : Kalloc)
      → 0 < bytes
      → bytes + 16 ≤ 2 ^ 21
      → bytes + 16 ≤ 2 ^ (t + 3)
      → target_level_of (bytes + 16) ≡ some t
      → t ≤ 18
      → Pushed base paging 18 s
      → (s' : Kalloc) × (kmalloc bytes s ≡ some (place base t + 16, s')) × InUse base paging t s'
  unfolding kmalloc meta_size align_up
  kmalloc-InUse bytes t s pos small holds found le p =
      let needed : u64 (bytes + 16) ≡ bytes + 16 = omega arith in
      let grown : grow 34 (bytes + 16) s ≡ some (true, s) =
        grow-done 33 (bytes + 16) s
          (ltb_ge s.highest_block_size (bytes + 16) (omega (arith, p.common.block_size))) in
      let (s', runs, used) = allocate-InUse (bytes + 16) t s found le p in
      let address : u64 (place base t + 16) ≡ place base t + 16 =
        omega (arith, pow_le (t + 3) 21 (omega arith)) in
      (
        s',
        rw (==_ne bytes 0 (omega arith), needed, grown) (runs ∙ ap (λ a. some (a, s')) address),
        used,
      )

-- The end of `kfree`, given what its loop has come to.
pub kfree_end :
    (walk mem block merged head : ℕ) (b : MemBlock) (s s1 s2 : Kalloc)
    → (mem == 0) ≡ false
    → u64 (mem + 2 ^ 64 - meta_size) ≡ block
    → merge_loop walk 34 block (set_block block (record (s.block block) { is_free = true }) s)
      ≡ some (merged, s1)
    → s1.block merged ≡ b
    → get_elem? s1.mem_blocks b.level ≡ some head
    → set_head b.level merged (set_block merged (record b { next = head }) s1) ≡ some s2
    → kfree walk mem s ≡ some s2
unfolding kfree
kfree_end walk mem block merged head b s s1 s2 e1 e2 e3 e4 e5 e6 = rw (e1, e2, e3, e4, e5) e6

pub header_of :
    (b : MemBlock) (l : ℕ)
    → b.level ≡ l
    → b.is_free ≡ true
    → b ≡ record { next = b.next; level = l; is_free = true }
header_of b l e f = λ i. record { next = b.next; level = e i; is_free = f i }

module _ (base : ℕ) (paging : Paging) (real : 0 < base) (aligned : base % 2 ^ 21 ≡ 0)
    (fits : base + 2 ^ 21 < 2 ^ 64) where
  closed-IsFresh :
      (s1 : Kalloc)
      → Lows base paging 18 s1
      → IsFresh base paging (record (set_block (place base 18) (lone 18) s1) {
        mem_blocks = set s1.mem_blocks 18 (place base 18);
      })
  unfolding set_block
  closed-IsFresh s1 l =
      let top = place base 18 in
      let whole : top ≡ base = omega arith in
      let size : length (set s1.mem_blocks 18 top) ≡ 34 =
        length-set s1.mem_blocks 18 top ∙ l.common.size in
      record {
        common = record {
          size = size;
          level = l.common.level;
          block_size = l.common.block_size;
          frames = l.common.frames;
        };
        heads = get_or_ext (set s1.mem_blocks 18 top) (set (replicate 34 0) 18 base) 0 size (λ j lt.
            get_or-set s1.mem_blocks 18 top j l.common.size (omega arith)
            ∙ ground (arith, l.heads j)
            ∙ sym (fresh_head base j));
        page = ap (set_block top (lone 18) s1).block (sym whole) ∙ set_block_self top (lone 18) s1;
      }

  kfree-InUse :
      (walk t : ℕ) (s : Kalloc)
      → t ≤ 18
      → InUse base paging t s
      → (s' : Kalloc) × (kfree walk (place base t + 16) s ≡ some s') × IsFresh base paging s'
  unfolding set_block meta_size align_up
  kfree-InUse walk t s le u =
      let a = place base t in
      let given : MemBlock = record { next = 0; level = t; is_free = true } in
      let s0 = set_block a given s in
      let own = set_block_self a given s in
      let (s1, runs, f) =
        merge_loop-Freed base paging aligned walk 34 (18 - t) t s0 (omega arith) (omega arith)
          (record {
            lows = set_block-Lows base paging t le given s u.lows;
            level = ap (λ (b : MemBlock). b.level) own;
            is_free = ap (λ (b : MemBlock). b.is_free) own;
          }) in
      let top = place base 18 in
      let b : MemBlock = record { next = (s1.block top).next; level = 18; is_free = true } in
      let s2 : Kalloc = set_block top (lone 18) s1 in
      (
        record s2 { mem_blocks = set s1.mem_blocks 18 top },
        kfree_end walk (a + 16) a top 0 b s s1 (record s2 { mem_blocks = set s1.mem_blocks 18 top })
            (==_ne (a + 16) 0 (omega arith)) (address t)
            (ap (λ b. merge_loop walk 34 a (set_block a (record b { is_free = true }) s)) u.used
              ∙ runs)
            (header_of (s1.block top) 18 f.level f.is_free)
            (get_elem?-eq-get_or s1.mem_blocks 18 0 (omega (arith, f.lows.common.size))
              ∙ ap some (f.lows.heads 18 (omega arith)))
            (set_head_lem 18 top s2 f.lows.common.size (omega arith)),
        closed-IsFresh s1 f.lows,
      )
    where
      address : (t : ℕ) → u64 (place base t + 16 + 2 ^ 64 - 16) ≡ place base t
      address t = omega (arith, one-le-pow (t + 3) 2)

  -- On a heap that is one free page of 2 MiB, at a `base` other than 0 that is a multiple of 2^21 and with
  -- base + 2^21 below 2^64, every request of 1 to 2^21 - 16 bytes is served from within the page, behind a header of 16 bytes; and `kfree` of the result
  -- leaves the heap as it was: the page free as a whole, all its blocks merged again.
  pub kfree-kmalloc :
      (walk bytes : ℕ) (s : Kalloc)
      → IsFresh base paging s
      → 0 < bytes
      → bytes + 16 ≤ 2 ^ 21
      → (p : ℕ) × (s1 : Kalloc) × (s2 : Kalloc) × (kmalloc bytes s ≡ some (p, s1))
        × (base + 16 ≤ p)
        × (p + bytes ≤ base + 2 ^ 21)
        × (kfree walk p s1 ≡ some s2)
        × IsFresh base paging s2
  kfree-kmalloc walk bytes s f pos small =
      let (t, found, holds, _, le) = small_level (bytes + 16) (omega arith) small in
      let (s1, served, used) =
        kmalloc-InUse base paging real fits bytes t s pos small holds found le
          (IsFresh-Pushed base paging s f) in
      let (s2, freed, fresh) = kfree-InUse walk t s1 le used in
      (
        place base t + 16,
        s1,
        s2,
        served,
        omega arith,
        omega (arith, pow_le (t + 3) 21 (omega arith)),
        freed,
        fresh,
      )
