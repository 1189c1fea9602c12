-- ===== src/Kalloc/Undo/Buddy.antt =====
-- The addresses of the blocks that `kmalloc` splits off one aligned page, and their buddies.
use native.Mathlib.Nat.{pow-suc, one-le-pow}
use ssos.Base.{ℕ, zero, suc, ◌+◌, ◌-◌, ◌*◌, ◌/◌, ◌%◌, ◌^◌, ◌≤◌, ◌<◌, ◌≡◌, ap, arith, ◌∙◌}
use native.Mathlib.Decide.{ℕ_discrete}
use ssos.Base.{bit_xor, bit, bit-lt, bit-zero, bit-bit_xor, bit_xor_step, bit_ext, pow_le}

bit_xor-zero : (a : ℕ) → bit_xor a 0 ≡ a
bit_xor-zero a =
    bit_ext (bit_xor a 0) a (λ i. omega (arith, bit-bit_xor a 0 i, bit-zero i, bit-lt a i))

-- Where a digit is set, exclusive or with it takes it away.
pub bit_xor-pow : (a k : ℕ) → bit a k ≡ 1 → bit_xor a (2 ^ k) + 2 ^ k ≡ a
bit_xor-pow a zero h = omega (arith, bit_xor_step a 1, bit_xor-zero (a / 2))
bit_xor-pow a (suc k) h =
    let half : 2 ^ suc k / 2 ≡ 2 ^ k = omega (arith, pow-suc 2 k) in
    let rest : bit_xor (a / 2) (2 ^ suc k / 2) + 2 ^ k ≡ a / 2 =
      rw half (bit_xor-pow (a / 2) k h) in
    omega (arith, rest, pow-suc 2 k, bit_xor_step a (2 ^ suc k))

-- Below a multiple of 2^(k+1) by 2^k, digit `k` is set.
pub bit_below : (k q : ℕ) → 0 < q → bit (q * 2 ^ suc k - 2 ^ k) k ≡ 1
bit_below zero q pos = omega (arith, ap (λ (t : ℕ). q * t) (pow-suc 2 0))
bit_below (suc k) q pos =
    let half : (q * 2 ^ suc (suc k) - 2 ^ suc k) / 2 ≡ q * 2 ^ suc k - 2 ^ k =
      omega (arith, ap (λ (t : ℕ). q * t) (pow-suc 2 (suc k)), pow-suc 2 k) in
    rw half (bit_below k q pos)

pub pow_divides : (j n : ℕ) → j ≤ n → (m : ℕ) × (2 ^ n ≡ m * 2 ^ j) × (0 < m)
pow_divides zero n h = (2 ^ n, omega arith, omega (arith, one-le-pow n 2))
pow_divides (suc j) zero h = absurd (omega arith)
pow_divides (suc j) (suc n) h =
    let (m, e, pos) = pow_divides j n (omega arith) in
    (m, omega (arith, e, pow-suc 2 n, ap (λ (t : ℕ). m * t) (pow-suc 2 j)), pos)

-- The block of level `k` at the end of the page.
abbrev pub place : ℕ → ℕ → ℕ
place base k = base + (2 ^ 21 - 2 ^ (k + 3))

pub place_suc : (base k : ℕ) → k < 18 → place base (suc k) + 2 ^ (k + 3) ≡ place base k
place_suc base k lt =
    let e : suc k + 3 ≡ suc (k + 3) = omega arith in
    rw e (omega (arith, pow-suc 2 (k + 3), pow_le (suc (k + 3)) 21 (omega arith)))

pub place_lt : (base j k : ℕ) → j < k → k ≤ 18 → place base k < place base j
place_lt base j zero lt le = absurd (omega arith)
place_lt base j (suc k) lt le =
    let step = place_suc base k (omega arith) in
    let pos = one-le-pow (k + 3) 2 in
    elim (ℕ_discrete j k) [
      | yes e ↦ rw e (omega arith)
      | no ne ↦ omega (arith, place_lt base j k (omega arith) (omega arith))
    ]

-- The buddy of such a block is the one of the next level.
pub buddy_place :
    (base k : ℕ)
    → base % 2 ^ 21 ≡ 0
    → k < 18
    → bit_xor (place base k) (2 ^ (k + 3)) ≡ place base (suc k)
buddy_place base k aligned lt =
    let (m, e, pos) = pow_divides (suc (k + 3)) 21 (omega arith) in
    let q = (base / 2 ^ 21 + 1) * m in
    let whole : base + 2 ^ 21 ≡ q * 2 ^ suc (k + 3) =
      grind (arith, ap (λ (t : ℕ). (base / 2 ^ 21 + 1) * t) e) in
    let at : place base k ≡ q * 2 ^ suc (k + 3) - 2 ^ (k + 3) =
      omega (arith, pow_le (k + 3) 21 (omega arith)) in
    let digit : bit (place base k) (k + 3) ≡ 1 =
      ap (λ a. bit a (k + 3)) at ∙ bit_below (k + 3) q (grind arith) in
    omega (arith, bit_xor-pow (place base k) (k + 3) digit, place_suc base k lt)
