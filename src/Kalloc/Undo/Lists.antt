-- ===== src/Kalloc/Undo/Lists.antt =====
-- The free lists of a page that has been split down to one level.
use ssos.Base.{ℕ, suc, ◌^◌, ◌≤◌, ◌<◌, ◌≡◌, ◌≢◌, refl, ap, arith, ◌∙◌, ◌&&◌}
use ssos.Base.{true, some, List, length, get_or, set}
use ssos.Base.{get_or-set_self, get_or-set_ne, get_elem?-eq-get_or, length-set, ltb, leb, ◌==◌}
use ssos.Base.{==_refl, ==_ne, if◌then◌else◌, if_true, if_false}
use native.Mathlib.Decide.{ℕ_discrete}
use ssos.Paging.{Paging}
use ssos.Kalloc.{MemBlock, Kalloc, set_block, push_half}
use ssos.Kalloc.Grow.{set_head_lem}
use ssos.Kalloc.Undo.Buddy.{place, place_lt}

-- The heads of the free lists, given that the levels from `c` up to 17 each have a block.
abbrev pub low : ℕ → ℕ → ℕ → ℕ
low base c j = if leb c j && ltb j 18 then place base (suc j) else 0

-- A free block of level `j` with no other behind it.
abbrev pub lone : ℕ → MemBlock
lone j = record { next = 0; level = j; is_free = true }

-- What stays the same in a page that is split and merged.
pub record Common (paging : Paging) (s : Kalloc) : Type 0 where
  pub size : length s.mem_blocks ≡ 34
  pub level : s.highest_level ≡ 18
  pub block_size : s.highest_block_size ≡ 2 ^ 21
  pub frames : s.paging ≡ paging

-- Each level from `c` up to 17 has one free block, the lower half of what was split there; the other
-- levels have none.
pub record Lows (base : ℕ) (paging : Paging) (c : ℕ) (s : Kalloc) : Type 0 where
  pub common : Common paging s
  pub heads : (j : ℕ) → j < 34 → get_or s.mem_blocks j 0 ≡ low base c j
  pub free : (j : ℕ) → c ≤ j → j < 18 → s.block (place base (suc j)) ≡ lone j

-- The same, with the upper half of level `c` in front of its list.
pub record Pushed (base : ℕ) (paging : Paging) (c : ℕ) (s : Kalloc) : Type 0 where
  pub common : Common paging s
  pub heads :
      (j : ℕ) → j < 34 → get_or s.mem_blocks j 0 ≡ (if j == c then place base c else low base c j)
  pub free : (j : ℕ) → c ≤ j → j < 18 → s.block (place base (suc j)) ≡ lone j
  pub top : s.block (place base c) ≡ record { next = low base c c; level = c; is_free = true }

pub set_block_self : (a : ℕ) (b : MemBlock) (s : Kalloc) → (set_block a b s).block a ≡ b
unfolding set_block
set_block_self a b s = if_true (a == a) b (s.block a) (==_refl a a refl)

pub set_block_ne :
    (a a' : ℕ) (b : MemBlock) (s : Kalloc) → a' ≢ a → (set_block a b s).block a' ≡ s.block a'
unfolding set_block
set_block_ne a a' b s ne = if_false (a' == a) b (s.block a') (==_ne a' a ne)

-- A head that was written, and the others.
pub get_or-set :
    (heads : List ℕ) (c v j : ℕ)
    → length heads ≡ 34
    → c < 34
    → get_or (set heads c v) j 0 ≡ (if j == c then v else get_or heads j 0)
get_or-set heads c v j size lt =
    ground (arith, get_or-set_self heads c v 0, get_or-set_ne heads c j v 0)

-- The state once block `a` stands on the list of level `c`, in front of `h`.
abbrev pub pushed_on : ℕ → ℕ → ℕ → Kalloc → Kalloc
pushed_on c a h s = record (set_block a (record { next = h; level = c; is_free = true }) s) {
  mem_blocks = set s.mem_blocks c a;
}

module _ (base : ℕ) (paging : Paging) (c : ℕ) (le : c ≤ 18) (s : Kalloc) where
  pub popped-Lows :
      Pushed base paging c s
      → Lows base paging c (record s { mem_blocks = set s.mem_blocks c (low base c c) })
  popped-Lows p = record {
    common = record {
      size = length-set s.mem_blocks c (low base c c) ∙ p.common.size;
      level = p.common.level;
      block_size = p.common.block_size;
      frames = p.common.frames;
    };
    heads = λ j lt.
        get_or-set s.mem_blocks c (low base c c) j p.common.size (omega arith)
        ∙ ground (arith, p.heads j lt);
    free = p.free;
  }

  -- A block is pushed on the list of level `c`.
  pub push_half_at :
      (a h : ℕ)
      → Common paging s
      → get_or s.mem_blocks c 0 ≡ h
      → push_half c a s ≡ some (pushed_on c a h s)
  unfolding push_half set_block
  push_half_at a h common at =
      rw (get_elem?-eq-get_or s.mem_blocks c 0 (omega (arith, common.size)), at)
        (set_head_lem c a (set_block a (record { next = h; level = c; is_free = true }) s)
          common.size (omega arith))

pushed_on-Common :
    (paging : Paging) (c a h : ℕ) (s : Kalloc) → Common paging s → Common paging (pushed_on c a h s)
unfolding set_block
pushed_on-Common paging c a h s common = record {
  size = length-set s.mem_blocks c a ∙ common.size;
  level = common.level;
  block_size = common.block_size;
  frames = common.frames;
}

-- The lower half of a block of level `c + 1`, and the upper half behind it.
module _ (base : ℕ) (paging : Paging) (c : ℕ) (lt : c < 18) (s : Kalloc) where
  pub pushed_on-Lows :
      Lows base paging (suc c) s → Lows base paging c (pushed_on c (place base (suc c)) 0 s)
  pushed_on-Lows l = record {
    common = pushed_on-Common paging c (place base (suc c)) 0 s l.common;
    heads = λ j h.
        get_or-set s.mem_blocks c (place base (suc c)) j l.common.size (omega arith)
        ∙ ground (arith, l.heads j h);
    free = λ j le h. free j le h;
  }
    where
      free :
          (j : ℕ)
          → c ≤ j
          → j < 18
          → (pushed_on c (place base (suc c)) 0 s).block (place base (suc j)) ≡ lone j
      free j le h = elim (ℕ_discrete j c) [
        | yes e ↦ rw e (set_block_self (place base (suc c)) (lone c) s)
        | no ne ↦
            set_block_ne (place base (suc c)) (place base (suc j)) (lone c) s
              (λ e. omega (arith, place_lt base (suc c) (suc j) (omega arith) (omega arith)))
            ∙ l.free j (omega arith) h
      ]

  pub pushed_on-Pushed :
      Lows base paging c s
      → Pushed base paging c (pushed_on c (place base c) (place base (suc c)) s)
  pushed_on-Pushed l = record {
    common = pushed_on-Common paging c (place base c) (place base (suc c)) s l.common;
    heads = λ j h.
        get_or-set s.mem_blocks c (place base c) j l.common.size (omega arith)
        ∙ ground (arith, l.heads j h);
    free = λ j le h.
        set_block_ne (place base c) (place base (suc j))
          (record { next = place base (suc c); level = c; is_free = true }) s
          (λ e. omega (arith, place_lt base c (suc j) (omega arith) (omega arith)))
        ∙ l.free j le h;
    top =
        set_block_self (place base c)
          (record { next = place base (suc c); level = c; is_free = true }) s
        ∙ ap (λ n. record { next = n; level = c; is_free = true }) (ground arith);
  }

-- A change of the header at the end of the page leaves the lists alone.
pub set_block-Lows :
    (base : ℕ) (paging : Paging) (c : ℕ)
    → c ≤ 18
    → (b : MemBlock) (s : Kalloc) → Lows base paging c s
    → Lows base paging c (set_block (place base c) b s)
unfolding set_block
set_block-Lows base paging c le b s l = record {
  common = record {
    size = l.common.size;
    level = l.common.level;
    block_size = l.common.block_size;
    frames = l.common.frames;
  };
  heads = l.heads;
  free = λ j low h.
      set_block_ne (place base c) (place base (suc j)) b s
        (λ e. omega (arith, place_lt base c (suc j) (omega arith) (omega arith)))
      ∙ l.free j low h;
}
