-- ===== src/Kalloc/Grow.antt =====
-- A request within the bound never runs into undefined behaviour, and ends.
use native.Mathlib.Nat.{pow-suc}
use mathlib.Core.Bool.{true≢false}
use ssos.Base.{ℕ, zero, suc, ◌+◌, ◌*◌, ◌/◌, ◌^◌, ◌≤◌, ◌<◌, ◌≡◌, refl, sym, arith, ◌∙◌}
use ssos.Base.{
  Bool, true, false, Bool-cases, if_true, if_false, inl, inr, Option, some, ◌>>=◌, length,
}
use ssos.Base.{set, set?-eq-set, length-set, u64}
use ssos.Base.{ltb, leb, ◌==◌, if◌then◌else◌, pow_le}
use ssos.Paging.{Paging, page_size}
use ssos.Paging.Frames.{paging_alloc_pages}
use ssos.Paging.Take.{IsSound, Taken-IsSound}
use ssos.Paging.Alloc.Search.{Outcome, null, placed, paging_alloc_pages-Outcome}
use ssos.Kalloc.{MemBlock, Kalloc, set_block, set_head, grow}

-- The array of levels has its 34 entries, the highest level is one of them, no lower than that of a
-- page, and has blocks of the highest size, and the frame allocator is sound.
pub record IsWhole (s : Kalloc) : Type 0 where
  pub heads : length s.mem_blocks ≡ 34
  pub low : 18 ≤ s.highest_level
  pub high : s.highest_level < 34
  pub size : s.highest_block_size ≡ 2 ^ (s.highest_level + 3)
  pub frames : IsSound s.paging

-- A call that is defined and leaves the allocator whole, with its value in `P`.
pub data Returns {A : Type 0} (P : A → Kalloc → Type 0) (call : Option (A × Kalloc)) : Type 0 where
  returns : (a : A) (s : Kalloc) → call ≡ some (a, s) → IsWhole s → P a s → Returns P call

pub Returns-step :
    {A : Type 0} {P : A → Kalloc → Type 0} {call call' : Option (A × Kalloc)}
    → call ≡ call'
    → Returns P call'
    → Returns P call
Returns-step e (returns a s e' whole p) = returns a s (e ∙ e') whole p

-- A call of the frame allocator is defined, and leaves it sound.
pub alloc_sound :
    (count : ℕ) (s : Paging)
    → IsSound s
    → (p : ℕ) × (s' : Paging) × (paging_alloc_pages count s ≡ some (p, s')) × IsSound s'
alloc_sound count s sound = go (paging_alloc_pages-Outcome count s sound)
  where
    go :
        Outcome count s (paging_alloc_pages count s)
        → (p : ℕ) × (s' : Paging) × (paging_alloc_pages count s ≡ some (p, s')) × IsSound s'
    go (null e) = (0, s, e, sound)
    go (placed a s' e fits taken) = (_, s', e, Taken-IsSound sound taken)

pub set_head_lem :
    (level addr : ℕ) (s : Kalloc)
    → length s.mem_blocks ≡ 34
    → level < 34
    → set_head level addr s ≡ some (record s { mem_blocks = set s.mem_blocks level addr })
unfolding set_head
set_head_lem level addr s heads lt = rw (set?-eq-set s.mem_blocks level addr (omega arith)) refl

-- What `grow` promises: a block size that is large enough where it ends by its test.
abbrev pub Grown : ℕ → Bool → Kalloc → Type 0
Grown bytes done s = done ≡ true → bytes ≤ s.highest_block_size

-- One round of the loop.
abbrev grow_round : ℕ → ℕ → Kalloc → Option (Bool × Kalloc)
grow_round fuel bytes s =
    let level = s.highest_level + 1 in
    let size = u64 (s.highest_block_size * 2) in
    paging_alloc_pages (size / page_size) s.paging >>= λ r.
    set_head level r.0 (record s { highest_block_size = size; highest_level = level; paging = r.1 })
    >>= λ s'.
        if r.0 == 0
        then some (false, s')
        else grow fuel bytes (set_block r.0 (record { next = 0; level = level; is_free = true }) s')

pub leb_not : (a b : ℕ) → leb a b ≡ false → b < a
leb_not a b h = ground arith

pub ltb_not : (a b : ℕ) → ltb a b ≡ false → b ≤ a
ltb_not a b h = ground arith

pub grow-done :
    (fuel bytes : ℕ) (s : Kalloc)
    → ltb s.highest_block_size bytes ≡ false
    → grow (suc fuel) bytes s ≡ some (true, s)
unfolding grow
grow-done fuel bytes s done = rw done refl

grow-full :
    (fuel bytes : ℕ) (s : Kalloc)
    → ltb s.highest_block_size bytes ≡ true
    → leb 34 (s.highest_level + 1) ≡ true
    → grow (suc fuel) bytes s ≡ some (false, s)
unfolding grow
grow-full fuel bytes s more full = rw (more, full) refl

grow-step :
    (fuel bytes : ℕ) (s : Kalloc)
    → ltb s.highest_block_size bytes ≡ true
    → leb 34 (s.highest_level + 1) ≡ false
    → grow (suc fuel) bytes s ≡ grow_round fuel bytes s
unfolding grow
grow-step fuel bytes s more room = rw (more, room) refl

-- The state after the level was raised, with the block at `p` in it.
abbrev raised : ℕ → Paging → Kalloc → Kalloc
raised p paging s = record s {
  mem_blocks = set s.mem_blocks (s.highest_level + 1) p;
  highest_block_size = u64 (s.highest_block_size * 2);
  highest_level = s.highest_level + 1;
  paging = paging;
}

grow_round_lem :
    (fuel bytes : ℕ) (s : Kalloc) (p : ℕ) (paging : Paging)
    → length s.mem_blocks ≡ 34
    → s.highest_level + 1 < 34
    → paging_alloc_pages (u64 (s.highest_block_size * 2) / page_size) s.paging ≡ some (p, paging)
    → grow_round fuel bytes s ≡ (
        if p == 0
        then some (false, raised p paging s)
        else grow fuel bytes (
            set_block p
              (record { next = 0; level = s.highest_level + 1; is_free = true })
              (raised p paging s)))
grow_round_lem fuel bytes s p paging heads lt run =
    rw
      (
        run,
        set_head_lem (s.highest_level + 1) p
            (record s {
              highest_block_size = u64 (s.highest_block_size * 2);
              highest_level = s.highest_level + 1;
              paging = paging;
            })
            heads lt,
      )
      refl

pub set_block-IsWhole : (p : ℕ) (b : MemBlock) (s : Kalloc) → IsWhole s → IsWhole (set_block p b s)
unfolding set_block
set_block-IsWhole p b s whole = record {
  heads = whole.heads;
  low = whole.low;
  high = whole.high;
  size = whole.size;
  frames = whole.frames;
}

doubled : (size k k' : ℕ) → k' ≡ suc k → k ≤ 40 → size ≡ 2 ^ k → u64 (size * 2) ≡ 2 ^ k'
doubled size k k' e le h =
    let twice : 2 ^ k' ≡ 2 * 2 ^ k = rw (e, pow-suc 2 k) (omega arith) in
    omega (arith, pow_le k 40 le)

raised-IsWhole :
    (p : ℕ) (paging : Paging) (s : Kalloc)
    → IsWhole s
    → s.highest_level + 1 < 34
    → IsSound paging
    → IsWhole (raised p paging s)
raised-IsWhole p paging s whole lt sound = record {
  heads = length-set s.mem_blocks (s.highest_level + 1) p ∙ whole.heads;
  low = omega (arith, whole.low);
  high = lt;
  size =
      doubled s.highest_block_size (s.highest_level + 3) (s.highest_level + 1 + 3) (omega arith)
        (omega (arith, whole.high)) whole.size;
  frames = sound;
}

grow_round-Returns :
    (fuel bytes : ℕ) (s : Kalloc)
    → IsWhole s
    → s.highest_level + 1 < 34
    → ((s' : Kalloc)
        → IsWhole s'
        → s'.highest_level ≡ s.highest_level + 1
        → Returns (Grown bytes) (grow fuel bytes s'))
    → Returns (Grown bytes) (grow_round fuel bytes s)
unfolding set_block
grow_round-Returns fuel bytes s whole lt rest =
    let (p, paging, run, sound) =
      alloc_sound (u64 (s.highest_block_size * 2) / page_size) s.paging whole.frames in
    let whole' = raised-IsWhole p paging s whole lt sound in
    let step = grow_round_lem fuel bytes s p paging whole.heads lt run in
    elim (Bool-cases (p == 0)) [
      | inl missing ↦
          returns false (raised p paging s) (step ∙ if_true (p == 0) _ _ missing) whole'
            (λ e. absurd (true≢false (sym e)))
      | inr real ↦ Returns-step (step ∙ if_false (p == 0) _ _ real) (
          rest _
            (set_block-IsWhole p (record { next = 0; level = s.highest_level + 1; is_free = true })
              (raised p paging s) whole')
            refl)
    ]

pub grow-Returns :
    (fuel bytes : ℕ) (s : Kalloc)
    → IsWhole s
    → 34 ≤ s.highest_level + fuel
    → Returns (Grown bytes) (grow fuel bytes s)
grow-Returns zero bytes s whole enough = absurd (omega (arith, whole.high))
grow-Returns (suc fuel) bytes s whole enough = elim (Bool-cases (ltb s.highest_block_size bytes)) [
  | inl more ↦ elim (Bool-cases (leb 34 (s.highest_level + 1))) [
    | inl full ↦
        returns false s (grow-full fuel bytes s more full) whole (λ e. absurd (true≢false (sym e)))
    | inr room ↦ Returns-step (grow-step fuel bytes s more room) (
        grow_round-Returns fuel bytes s whole (omega (arith, leb_not 34 (s.highest_level + 1) room))
          (λ s' whole' level. grow-Returns fuel bytes s' whole' (omega arith)))
  ]
  | inr done ↦
      returns true s (grow-done fuel bytes s done) whole
        (λ e. ltb_not s.highest_block_size bytes done)
]
