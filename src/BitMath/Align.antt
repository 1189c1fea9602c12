-- ===== src/BitMath/Align.antt =====
-- ALIGN_UP and ALIGN_DOWN to a power of two.
use native.Mathlib.Nat.{pow-suc, one-le-pow}
use ssos.Base.{ℕ, zero, suc, ◌+◌, ◌-◌, ◌*◌, ◌/◌, ◌%◌, ◌^◌, ◌≤◌, ◌<◌, ◌≡◌, sym, ◌∙◌, arith, ap}
use ssos.Base.{bit_and, bit_and_step, bit_and-zero, pow_le, u64}
use ssos.BitMath.{align_up, align_down, not64}

-- A mask of ones changes nothing.
bit_and-ones : (w x : ℕ) → x < 2 ^ w → bit_and x (2 ^ w - 1) ≡ x
bit_and-ones zero x lt = omega (arith, bit_and-zero x)
bit_and-ones (suc w) x lt =
    let half : (2 ^ suc w - 1) / 2 ≡ 2 ^ w - 1 = omega (arith, pow-suc 2 w, one-le-pow w 2) in
    let rest : bit_and (x / 2) ((2 ^ suc w - 1) / 2) ≡ x / 2 =
      rw half (bit_and-ones w (x / 2) (omega (arith, pow-suc 2 w))) in
    omega (arith, bit_and_step x (2 ^ suc w - 1), rest, pow-suc 2 w, one-le-pow w 2)

-- A mask of all but the `k` lowest of `w` digits clears those.
bit_and_high :
    (w k q r : ℕ)
    → k ≤ w
    → r < 2 ^ k
    → q * 2 ^ k + r < 2 ^ w
    → bit_and (q * 2 ^ k + r) (2 ^ w - 2 ^ k) ≡ q * 2 ^ k
bit_and_high w zero q r h lt fits =
    let plain : q * 2 ^ 0 + r ≡ q = omega arith in
    rw plain (omega (arith, bit_and-ones w q (omega arith)))
bit_and_high zero (suc k) q r h lt fits = absurd (omega arith)
bit_and_high (suc w) (suc k) q r h lt fits =
    let double : q * 2 ^ suc k ≡ 2 * (q * 2 ^ k) =
      omega (arith, ap (λ (t : ℕ). q * t) (pow-suc 2 k)) in
    let half : (q * 2 ^ suc k + r) / 2 ≡ q * 2 ^ k + r / 2 = omega (arith, double) in
    let mask : (2 ^ suc w - 2 ^ suc k) / 2 ≡ 2 ^ w - 2 ^ k =
      omega (arith, pow-suc 2 w, pow-suc 2 k) in
    let rest : bit_and ((q * 2 ^ suc k + r) / 2) ((2 ^ suc w - 2 ^ suc k) / 2) ≡ q * 2 ^ k =
      rw (half, mask)
        (bit_and_high w k q (r / 2) (omega arith) (omega (arith, pow-suc 2 k))
          (omega (arith, pow-suc 2 w, double))) in
    omega (
      arith,
      bit_and_step (q * 2 ^ suc k + r) (2 ^ suc w - 2 ^ suc k),
      rest,
      double,
      pow-suc 2 w,
      pow-suc 2 k,
    )

-- ALIGN_DOWN to 2^k, for k up to 64 and `x` in 64 bits, is the greatest multiple of 2^k that is at
-- most `x`, written as the quotient times 2^k.
align_down_lem : (k x : ℕ) → k ≤ 64 → x < 2 ^ 64 → align_down x (2 ^ k) ≡ x / 2 ^ k * 2 ^ k
unfolding align_down
align_down_lem k x h lt =
    let parts : x / 2 ^ k * 2 ^ k + x % 2 ^ k ≡ x = ground (arith, one-le-pow k 2) in
    let mask : not64 (2 ^ k - 1) ≡ 2 ^ 64 - 2 ^ k = omega (arith, one-le-pow k 2, pow_le k 64 h) in
    let cut : bit_and (x / 2 ^ k * 2 ^ k + x % 2 ^ k) (2 ^ 64 - 2 ^ k) ≡ x / 2 ^ k * 2 ^ k =
      bit_and_high 64 k (x / 2 ^ k) (x % 2 ^ k) h (ground (arith, one-le-pow k 2)) (rw parts lt) in
    rw mask (ap (λ y. bit_and y (2 ^ 64 - 2 ^ k)) (sym parts) ∙ cut)

-- ALIGN_UP to 2^k, for k up to 64 and x + 2^k up to 2^64, is the least multiple of 2^k that is at
-- least `x`: a multiple that is at least `x` and below x + 2^k.
align_up_lem :
    (k x : ℕ)
    → k ≤ 64
    → x + 2 ^ k ≤ 2 ^ 64
    → (q : ℕ) × (align_up x (2 ^ k) ≡ q * 2 ^ k) × (x ≤ q * 2 ^ k) × (q * 2 ^ k < x + 2 ^ k)
unfolding align_up
align_up_lem k x h fits =
    let y : ℕ = x + (2 ^ k - 1) in
    let whole : u64 (x + (2 ^ k - 1)) ≡ y = omega (arith, one-le-pow k 2) in
    let down = align_down_lem k y h (omega (arith, one-le-pow k 2)) in
    let parts : y / 2 ^ k * 2 ^ k + y % 2 ^ k ≡ y = ground (arith, one-le-pow k 2) in
    let small : y % 2 ^ k < 2 ^ k = ground (arith, one-le-pow k 2) in
    (
      y / 2 ^ k,
      rw whole (unfold align_down in down),
      omega (arith, parts, small, one-le-pow k 2),
      omega (arith, parts, small, one-le-pow k 2),
    )
