-- ===== src/Kalloc/Undo/Wrap.antt =====
-- Requests of `kmalloc` so large that the header makes their size wrap round.
use ssos.Base.{ℕ, ◌+◌, ◌-◌, ◌%◌, ◌^◌, ◌≤◌, ◌<◌, ◌≡◌, ◌⊎◌, inl, inr, refl, arith, ◌∙◌}
use ssos.Base.{Bool, true, false, Option, some, none, ==_ne, ltb_ge, u64, pow_le}
use ssos.Base.{all_below, all_below_sound}
use native.Mathlib.Decide.{dec_le, dec_lt}
use ssos.BitMath.{round_pow2_boundary, logb, clz, leading_zeros, align_up}
use ssos.Paging.{Paging}
use ssos.Kalloc.{Kalloc, grow, allocate, target_level_of, kmalloc, meta_size}
use ssos.Kalloc.Level.{target_level_of_lem}
use ssos.Kalloc.Grow.{grow-done}
use ssos.Kalloc.Undo.Buddy.{place}
use ssos.Kalloc.Undo.Page.{IsFresh, IsFresh-Pushed, allocate-InUse}

abbrev is_none : Option ℕ → Bool
is_none none = true
is_none (some level) = false

below_five : all_below 5 (λ needed. is_none (target_level_of needed)) ≡ true
unfolding all_below target_level_of round_pow2_boundary logb clz leading_zeros
below_five = refl

target_level_of-none : (n : ℕ) → n < 5 → target_level_of n ≡ none
target_level_of-none n lt =
    absent (target_level_of n)
      (all_below_sound 5 (λ needed. is_none (target_level_of needed)) n below_five lt)
  where
    absent : (o : Option ℕ) → is_none o ≡ true → o ≡ none
    absent none e = refl
    absent (some level) e = absurd (ground (arith, e))

-- The level of a request of 5 to 15 bytes, its header included.
least_level : (n : ℕ) → 5 ≤ n → n < 16 → (t : ℕ) × (target_level_of n ≡ some t) × (t ≤ 1)
least_level n lo hi =
    let (t, found, _, close, _) = target_level_of_lem n lo (omega arith) in
    (
      t,
      found,
      elim (dec_le t 1) [
        | yes le ↦ le
        | no gt ↦ absurd (omega (arith, pow_le 5 (t + 3) (omega arith)))
      ],
    )

module _ (base : ℕ) (paging : Paging) (real : 0 < base) (aligned : base % 2 ^ 21 ≡ 0)
    (fits : base + 2 ^ 21 < 2 ^ 64) where
  -- The header and the bytes behind it wrap round, and the heap does not grow.
  wrapped_step :
      (bytes : ℕ) (s : Kalloc)
      → IsFresh base paging s
      → 2 ^ 64 - 16 ≤ bytes
      → bytes < 2 ^ 64
      → kmalloc bytes s ≡ allocate (bytes + 16 - 2 ^ 64) s
  unfolding kmalloc meta_size align_up
  wrapped_step bytes s f lo hi =
      let n = bytes + 16 - 2 ^ 64 in
      let needed : u64 (bytes + 16) ≡ n = omega arith in
      let grown : grow 34 n s ≡ some (true, s) =
        grow-done 33 n s (ltb_ge s.highest_block_size n (omega (arith, f.common.block_size))) in
      rw (==_ne bytes 0 (omega arith), needed, grown) refl

  -- On a heap that is one free page of 2 MiB, at a `base` other than 0 that is a multiple of
  -- 2^21 and with base + 2^21 below 2^64, `kmalloc` of 2^64 - 16 bytes or more does not refuse, though the page is far too small. Below
  -- 2^64 - 11 bytes it faults, on a level below 0; from 2^64 - 11 bytes on it returns an address at the
  -- end of the page or behind it.
  pub kmalloc-wrapped :
      (bytes : ℕ) (s : Kalloc)
      → IsFresh base paging s
      → 2 ^ 64 - 16 ≤ bytes
      → bytes < 2 ^ 64
      → ((bytes < 2 ^ 64 - 11) × (kmalloc bytes s ≡ none))
        ⊎ ((2 ^ 64 - 11 ≤ bytes)
            × (p : ℕ) × (s' : Kalloc) × (kmalloc bytes s ≡ some (p, s'))
            × (base + 2 ^ 21 ≤ p))
  kmalloc-wrapped bytes s f lo hi = elim (dec_lt bytes (2 ^ 64 - 11)) [
    | yes lt ↦ inl (lt, wrapped_step bytes s f lo hi ∙ faults (bytes + 16 - 2 ^ 64) s (omega arith))
    | no ge ↦
        let (t, found, le) = least_level (bytes + 16 - 2 ^ 64) (omega arith) (omega arith) in
        let (s', served, used) =
          allocate-InUse base paging real fits (bytes + 16 - 2 ^ 64) t s found (omega arith)
            (IsFresh-Pushed base paging s f) in
        inr (
          omega arith,
          u64 (place base t + meta_size),
          s',
          wrapped_step bytes s f lo hi ∙ served,
          behind t le,
        )
  ]
    where
      faults : (n : ℕ) (s : Kalloc) → n < 5 → allocate n s ≡ none
      faults n s lt = unfold allocate in rw (target_level_of-none n lt) refl

      behind : (t : ℕ) → t ≤ 1 → base + 2 ^ 21 ≤ u64 (place base t + meta_size)
      behind t le =
          unfold meta_size align_up in
          omega (arith, pow_le (t + 3) 4 (omega arith), pow_le 3 (t + 3) (omega arith))
