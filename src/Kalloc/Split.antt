-- ===== src/Kalloc/Split.antt =====
-- What `kmalloc` does behind the loop that grows the heap, and what a call of it promises.
use ssos.Base.{ℕ, zero, suc, ◌+◌, ◌-◌, ◌/◌, ◌^◌, ◌≤◌, ◌<◌, ◌≡◌, refl, arith, ap, ◌∙◌}
use ssos.Base.{Bool, true, false, Bool-cases, if_true, ◌⊎◌, inl, inr, some, ◌>>=◌}
use ssos.Base.{length, get_elem?, get_or, set, length-set, get_elem?-eq-get_or, u64}
use ssos.Base.{branch, ◌==◌, ==_refl, if◌then◌else◌}
use ssos.BitMath.{align_up}
use ssos.Kalloc.{MemBlock, Kalloc, set_block, set_head, grow, take_head, push_half, split_loop}
use ssos.Kalloc.{allocate, kmalloc, target_level_of, meta_size}
use ssos.Kalloc.Level.{target_level_of_lem}
use ssos.Kalloc.Grow.{IsWhole, Returns, returns, Returns-step, set_head_lem, set_block-IsWhole}
use ssos.Kalloc.Grow.{grow-Returns, Grown}

-- The address returned is NULL, or stands 16 bytes behind the header of a block in use.
abbrev pub Served : ℕ → Kalloc → Type 0
Served p s = (p ≡ 0) ⊎ ((b : ℕ) × (p ≡ u64 (b + 16)) × ((s.block b).is_free ≡ false))

set_head-IsWhole :
    (level addr : ℕ) (s : Kalloc)
    → IsWhole s
    → IsWhole (record s { mem_blocks = set s.mem_blocks level addr })
set_head-IsWhole level addr s whole = record {
  heads = length-set s.mem_blocks level addr ∙ whole.heads;
  low = whole.low;
  high = whole.high;
  size = whole.size;
  frames = whole.frames;
}

-- The state after the block was taken out.
abbrev pub taken : ℕ → ℕ → Kalloc → Kalloc
taken level free_block s =
    set_block free_block (record (s.block free_block) { is_free = false; next = 0 })
      (record s { mem_blocks = set s.mem_blocks level (s.block free_block).next })

pub take_head_lem :
    (level free_block : ℕ) (s : Kalloc)
    → length s.mem_blocks ≡ 34
    → level < 34
    → take_head level free_block s ≡ some (u64 (free_block + meta_size), taken level free_block s)
unfolding take_head
take_head_lem level free_block s size lt =
    rw (set_head_lem level (s.block free_block).next s size lt) refl

taken-Served :
    (level free_block : ℕ) (s : Kalloc)
    → Served (u64 (free_block + meta_size)) (taken level free_block s)
unfolding set_block meta_size align_up
taken-Served level free_block s = inr (
  free_block,
  refl,
  ap (λ (b : MemBlock). b.is_free)
      (if_true (free_block == free_block)
        (record (s.block free_block) { is_free = false; next = 0 }) (s.block free_block)
        (==_refl free_block free_block refl)),
)

take_head-Returns :
    (level free_block : ℕ) (s : Kalloc)
    → IsWhole s
    → level < 34
    → Returns Served (take_head level free_block s)
take_head-Returns level free_block s whole lt =
    returns (u64 (free_block + meta_size)) (taken level free_block s)
      (take_head_lem level free_block s whole.heads lt)
      (set_block-IsWhole free_block (record (s.block free_block) { is_free = false; next = 0 }) _
        (set_head-IsWhole level (s.block free_block).next s whole))
      (taken-Served level free_block s)

push_half_lem :
    (level addr : ℕ) (s : Kalloc)
    → IsWhole s
    → level < 34
    → (s' : Kalloc) × (push_half level addr s ≡ some s')
      × IsWhole s'
      × (s'.highest_level ≡ s.highest_level)
unfolding push_half set_block
push_half_lem level addr s whole lt = (
  _,
  rw (get_elem?-eq-get_or s.mem_blocks level 0 (omega (arith, whole.heads))) (
      set_head_lem level addr
        (set_block addr
          (record { next = get_or s.mem_blocks level 0; level = level; is_free = true }) s)
        whole.heads lt),
  set_head-IsWhole level addr _ (
      set_block-IsWhole addr
        (record { next = get_or s.mem_blocks level 0; level = level; is_free = true }) s whole),
  refl,
)

pub split_loop-zero : (target_level : ℕ) (s : Kalloc) → split_loop target_level 0 s ≡ some (0, s)
unfolding split_loop
split_loop-zero target_level s = refl

module _ (target_level left : ℕ) (s : Kalloc) (free_block : ℕ)
    (head : get_elem? s.mem_blocks (target_level + left) ≡ some free_block) where
  pub split_loop-pass :
      (free_block == 0) ≡ true
      → split_loop target_level (suc left) s ≡ split_loop target_level left s
  unfolding split_loop
  split_loop-pass empty = rw (head, empty) refl

  pub split_loop-take :
      (free_block == 0) ≡ false
      → (left == 0) ≡ true
      → split_loop target_level (suc left) s ≡ take_head (target_level + left) free_block s
  unfolding split_loop
  split_loop-take block last = rw (head, block, last) refl

  pub split_loop-split :
      (s1 s2 s3 : Kalloc)
      → (free_block == 0) ≡ false
      → (left == 0) ≡ false
      → set_head (target_level + left) (s.block free_block).next s ≡ some s1
      → push_half (target_level + left - 1) free_block s1 ≡ some s2
      → push_half
          (target_level + left - 1)
          (u64 (free_block + 2 ^ (target_level + left + 3) / 2))
          s2
        ≡ some s3
      → split_loop target_level (suc left) s ≡ split_loop target_level left s3
  unfolding split_loop
  split_loop-split s1 s2 s3 block more e1 e2 e3 = rw (head, block, more, e1, e2, e3) refl

-- A split leaves the rest of the loop with a whole allocator.
split-Returns :
    (target_level left : ℕ) (s : Kalloc) (free_block : ℕ)
    → get_elem? s.mem_blocks (target_level + left) ≡ some free_block
    → IsWhole s
    → target_level + left < 34
    → (free_block == 0) ≡ false
    → (left == 0) ≡ false
    → ((s' : Kalloc) → IsWhole s' → Returns Served (split_loop target_level left s'))
    → Returns Served (split_loop target_level (suc left) s)
split-Returns target_level left s free_block head whole lt block more rest =
    let next = (s.block free_block).next in
    let s1 : Kalloc = record s { mem_blocks = set s.mem_blocks (target_level + left) next } in
    let whole1 = set_head-IsWhole (target_level + left) next s whole in
    let (s2, e2, whole2, _) =
      push_half_lem (target_level + left - 1) free_block s1 whole1 (omega arith) in
    let (s3, e3, whole3, _) =
      push_half_lem (target_level + left - 1) (u64 (free_block + 2 ^ (target_level + left + 3) / 2))
        s2 whole2 (omega arith) in
    Returns-step
      (split_loop-split target_level left s free_block head s1 s2 s3 block more
        (set_head_lem (target_level + left) next s whole.heads lt) e2 e3)
      (rest s3 whole3)

head_at :
    (level : ℕ) (s : Kalloc)
    → IsWhole s
    → level < 34
    → get_elem? s.mem_blocks level ≡ some (get_or s.mem_blocks level 0)
head_at level s whole lt = get_elem?-eq-get_or s.mem_blocks level 0 (omega (arith, whole.heads))

-- The loop is defined at every level of the array, whichever lists are empty.
split_loop-Returns :
    (target_level left : ℕ) (s : Kalloc)
    → IsWhole s
    → target_level + left ≤ 34
    → Returns Served (split_loop target_level left s)
split_loop-Returns target_level zero s whole le =
    returns 0 s (split_loop-zero target_level s) whole (inl refl)
split_loop-Returns target_level (suc left) s whole le =
    let lt : target_level + left < 34 = omega arith in
    let free_block = get_or s.mem_blocks (target_level + left) 0 in
    let head = head_at (target_level + left) s whole lt in
    elim (Bool-cases (free_block == 0)) [
      | inl empty ↦
          Returns-step (split_loop-pass target_level left s free_block head empty)
            (split_loop-Returns target_level left s whole (omega arith))
      | inr block ↦ elim (Bool-cases (left == 0)) [
        | inl last ↦
            Returns-step (split_loop-take target_level left s free_block head block last)
              (take_head-Returns (target_level + left) free_block s whole lt)
        | inr more ↦
            split-Returns target_level left s free_block head whole lt block more
              (λ s' whole'. split_loop-Returns target_level left s' whole' (omega arith))
      ]
    ]

allocate-Returns :
    (needed level : ℕ) (s : Kalloc)
    → IsWhole s
    → target_level_of needed ≡ some level
    → level ≤ 28
    → Returns Served (allocate needed s)
unfolding allocate
allocate-Returns needed level s whole found le =
    rw (found, head_at level s whole (omega arith))
      (branch (Returns Served) (get_or s.mem_blocks level 0 == 0)
        (λ e.
          split_loop-Returns level (s.highest_level + 1 - level) s whole
            (omega (arith, whole.high, whole.low)))
        (λ e. take_head-Returns level (get_or s.mem_blocks level 0) s whole (omega arith)))

-- A request of up to 2^31 bytes, the 16 of its header included, is defined in every whole allocator
-- and leaves it whole; the loops end; and the result is NULL or stands 16 bytes behind the header of
-- a block that is marked as in use.
pub kmalloc-Returns :
    (bytes : ℕ) (s : Kalloc) → IsWhole s → bytes + 16 ≤ 2 ^ 31 → Returns Served (kmalloc bytes s)
unfolding kmalloc meta_size align_up
kmalloc-Returns bytes s whole le =
    branch (Returns Served) (bytes == 0) (λ e. returns 0 s refl whole (inl refl))
      (λ e. grown (grow-Returns 34 (u64 (bytes + 16)) s whole (omega (arith, whole.low))))
  where
    served :
        (done : Bool) (s' : Kalloc)
        → IsWhole s'
        → Returns Served (if done then allocate (u64 (bytes + 16)) s' else some (0, s'))
    served false s' whole' = returns 0 s' refl whole' (inl refl)
    served true s' whole' =
        let (level, found, _, _, small) =
          target_level_of_lem (u64 (bytes + 16)) (omega arith) (omega arith) in
        allocate-Returns (u64 (bytes + 16)) level s' whole' found small

    grown :
        Returns (Grown (u64 (bytes + 16))) (grow 34 (u64 (bytes + 16)) s)
        → Returns Served (
            grow 34 (u64 (bytes + 16)) s >>= λ r.
            if r.0 then allocate (u64 (bytes + 16)) r.1 else some (0, r.1))
    grown (returns done s' e whole' _) =
        Returns-step
          (ap (λ r. r >>= λ r. if r.0 then allocate (u64 (bytes + 16)) r.1 else some (0, r.1)) e)
          (served done s' whole')
