-- ===== src/Kalloc/Level.antt =====
-- The level that `kmalloc` takes a block from.
use native.Mathlib.Decide.{dec_le}
use ssos.Base.{ℕ, ◌+◌, ◌-◌, ◌*◌, ◌^◌, ◌≤◌, ◌<◌, ◌≡◌, refl, arith}
use ssos.Base.{some, ltb_ge}
use ssos.Base.{pow_le}
use ssos.BitMath.Pow2.{round_pow2_boundary_lem, logb-pow}
use ssos.Kalloc.{target_level_of}

-- A request that needs from 5 bytes up to 2^31, its header included, goes to the level whose blocks
-- hold it, and which are less than twice as large.
pub target_level_of_lem :
    (needed : ℕ)
    → 5 ≤ needed
    → needed ≤ 2 ^ 31
    → (level : ℕ) × (target_level_of needed ≡ some level)
      × (needed ≤ 2 ^ (level + 3))
      × (2 ^ (level + 3) < 2 * needed)
      × (level ≤ 28)
unfolding target_level_of
target_level_of_lem needed lo hi =
    let (k, few, rounds, ge, close) = round_pow2_boundary_lem needed (omega arith) (omega arith) in
    let high : 3 ≤ k = at_least_three k ge in
    let low : k ≤ 31 = at_most_31 k close in
    let same : k - 3 + 3 ≡ k = omega arith in
    (
      k - 3,
      rw (rounds, logb-pow k (omega arith), ltb_ge k 3 high) refl,
      rw same ge,
      rw same close,
      omega arith,
    )
  where
    at_least_three : (k : ℕ) → needed ≤ 2 ^ k → 3 ≤ k
    at_least_three k ge = elim (dec_le 3 k) [
      | yes le ↦ le
      | no gt ↦ absurd (omega (arith, pow_le k 2 (omega arith)))
    ]

    at_most_31 : (k : ℕ) → 2 ^ k < 2 * needed → k ≤ 31
    at_most_31 k close = elim (dec_le k 31) [
      | yes le ↦ le
      | no gt ↦ absurd (omega (arith, pow_le 32 k (omega arith)))
    ]
