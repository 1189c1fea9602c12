-- ===== src/Base/Bits.antt =====
-- The bit operations at variables: the digit `bit w i` of each result.
use Prim.Native.Nat.{ℕ, zero, suc, ◌+◌, ◌-◌, ◌*◌, ◌/◌, ◌%◌, ◌^◌, ◌≤◌, ◌<◌, min, max}
use Prim.Native.Nat.{differ, bit_and, bit_or, bit_xor, digits, bitwise}
use Prim.Native.Nat.{bit_and-bitwise, bit_or-bitwise, bit_xor-bitwise}
use mathlib.Core.Path.{◌≡◌, refl, ap, ◌∙◌}
use native.Mathlib.Nat.{
  mod-lt, mod-eq_of_lt, add-mul-mod_self_left, div-add-mod, mul_assoc, le_refl, pow-suc, one-le-pow,
}
use mathlib.Core.Logic.{◌≢◌}
use native.Mathlib.Omega.{arith}

pub pow_mono : (j k : ℕ) → j < k → 2 * 2 ^ j ≤ 2 ^ k
pow_mono j zero h = absurd (omega arith)
pow_mono zero (suc k) h = omega (arith, pow-suc 2 k, one-le-pow k 2)
pow_mono (suc j) (suc k) h = omega (arith, pow-suc 2 k, pow-suc 2 j, pow_mono j k (omega arith))

pub pow_le : (j k : ℕ) → j ≤ k → 2 ^ j ≤ 2 ^ k
pow_le j zero h = let e : j ≡ 0 = omega arith in rw e (omega arith)
pow_le zero (suc k) h = omega (arith, one-le-pow (suc k) 2)
pow_le (suc j) (suc k) h = omega (arith, pow-suc 2 k, pow-suc 2 j, pow_le j k (omega arith))

ran_out : (z : ℕ → ℕ) (f : ℕ → ℕ → ℕ) (rounds b : ℕ) → digits z f rounds 0 b ≡ z b
ran_out z f zero b = refl
ran_out z f (suc rounds) b = refl

-- More rounds than `a` asks for change nothing.
enough_digits :
    (z : ℕ → ℕ) (f : ℕ → ℕ → ℕ) (k rounds a b : ℕ)
    → a ≤ rounds
    → digits z f (rounds + k) a b ≡ digits z f rounds a b
enough_digits z f k rounds zero b h = rw (ran_out z f (rounds + k) b, ran_out z f rounds b) refl
enough_digits z f k zero (suc a) b h = absurd (omega arith)
enough_digits z f k (suc rounds) (suc a) b h =
    let shift : suc rounds + k ≡ suc (rounds + k) = omega arith in
    rw (shift, enough_digits z f k rounds (suc a / 2) (b / 2) (omega arith)) refl

-- The lowest digit of an operation, and the operation on the others.
lowest_digit :
    (z : ℕ → ℕ) (f : ℕ → ℕ → ℕ) (n b : ℕ)
    → bitwise z f (suc n) b ≡ f (suc n % 2) (b % 2) + 2 * bitwise z f (suc n / 2) (b / 2)
lowest_digit z f n b =
    let split : suc n / 2 + (n - suc n / 2) ≡ n = omega arith in
    let rest : digits z f n (suc n / 2) (b / 2) ≡ bitwise z f (suc n / 2) (b / 2) =
      rw split at (enough_digits z f (n - suc n / 2) (suc n / 2) (suc n / 2) (b / 2) (le_refl _)) in
    omega (arith, rest)

-- Digit by digit: the least of two digits for `&`, the greatest for `|`, their sum without a carry
-- for `^`.
pub bit_and_step : (a b : ℕ) → bit_and a b ≡ min (a % 2) (b % 2) + 2 * bit_and (a / 2) (b / 2)
bit_and_step zero b = simp bit_and-bitwise (omega arith)
bit_and_step (suc n) b = simp bit_and-bitwise (lowest_digit (λ y. 0) min n b)

pub bit_or_step : (a b : ℕ) → bit_or a b ≡ max (a % 2) (b % 2) + 2 * bit_or (a / 2) (b / 2)
bit_or_step zero b = simp bit_or-bitwise (omega arith)
bit_or_step (suc n) b = simp bit_or-bitwise (lowest_digit (λ y. y) max n b)

differ-mod : (a b : ℕ) → a < 2 → b < 2 → differ a b ≡ (a + b) % 2
differ-mod zero b p q = omega arith
differ-mod (suc zero) zero p q = refl
differ-mod (suc zero) (suc zero) p q = refl
differ-mod (suc zero) (suc (suc b)) p q = absurd (omega arith)
differ-mod (suc (suc a)) b p q = absurd (omega arith)

pub bit_xor_step : (a b : ℕ) → bit_xor a b ≡ bit_xor (a / 2) (b / 2) * 2 + (a % 2 + b % 2) % 2
bit_xor_step zero b = simp bit_xor-bitwise (omega arith)
bit_xor_step (suc a) b =
    rw (← differ-mod (suc a % 2) (b % 2) (omega arith) (omega arith))
      (simp bit_xor-bitwise (omega (arith, lowest_digit (λ y. y) differ a b)))

-- The binary digit of `w` at position `i`.
abbrev pub bit : ℕ → ℕ → ℕ
bit w zero = w % 2
bit w (suc i) = bit (w / 2) i

pub bit-lt : (w i : ℕ) → bit w i < 2
bit-lt w zero = omega arith
bit-lt w (suc i) = bit-lt (w / 2) i

pub bit-bit_and : (a b i : ℕ) → bit (bit_and a b) i ≡ min (bit a i) (bit b i)
bit-bit_and a b zero = omega (arith, bit_and_step a b)
bit-bit_and a b (suc i) =
    let half : bit_and a b / 2 ≡ bit_and (a / 2) (b / 2) = omega (arith, bit_and_step a b) in
    rw half (bit-bit_and (a / 2) (b / 2) i)

pub bit-bit_or : (a b i : ℕ) → bit (bit_or a b) i ≡ max (bit a i) (bit b i)
bit-bit_or a b zero = omega (arith, bit_or_step a b)
bit-bit_or a b (suc i) =
    let half : bit_or a b / 2 ≡ bit_or (a / 2) (b / 2) = omega (arith, bit_or_step a b) in
    rw half (bit-bit_or (a / 2) (b / 2) i)

pub bit-bit_xor : (a b i : ℕ) → bit (bit_xor a b) i ≡ (bit a i + bit b i) % 2
bit-bit_xor a b zero = omega (arith, bit_xor_step a b)
bit-bit_xor a b (suc i) =
    let half : bit_xor a b / 2 ≡ bit_xor (a / 2) (b / 2) = omega (arith, bit_xor_step a b) in
    rw half (bit-bit_xor (a / 2) (b / 2) i)

pub bit-zero : (i : ℕ) → bit 0 i ≡ 0
bit-zero zero = refl
bit-zero (suc i) = bit-zero i

pub bit_and-zero : (a : ℕ) → bit_and a 0 ≡ 0
bit_and-zero a = fuelled a a (omega arith)
  where
    step : (f a : ℕ) → ((b : ℕ) → b ≤ f → bit_and b 0 ≡ 0) → a ≤ suc f → bit_and a 0 ≡ 0
    step f a ih h = omega (arith, bit_and_step a 0, ih (a / 2) (omega arith))

    fuelled : (f a : ℕ) → a ≤ f → bit_and a 0 ≡ 0
    fuelled zero zero h = refl
    fuelled zero (suc a) h = absurd (omega arith)
    fuelled (suc f) a h = step f a (fuelled f) h

-- The digits of a power of two.
pub bit-pow_self : (i : ℕ) → bit (2 ^ i) i ≡ 1
bit-pow_self zero = refl
bit-pow_self (suc i) =
    let half : 2 ^ suc i / 2 ≡ 2 ^ i = omega (arith, pow-suc 2 i) in rw half (bit-pow_self i)

pub bit-pow_ne : (j i : ℕ) → i ≢ j → bit (2 ^ j) i ≡ 0
bit-pow_ne zero zero h = absurd (h refl)
bit-pow_ne zero (suc i) h = bit-zero i
bit-pow_ne (suc j) zero h = omega (arith, pow-suc 2 j)
bit-pow_ne (suc j) (suc i) h =
    let half : 2 ^ suc j / 2 ≡ 2 ^ j = omega (arith, pow-suc 2 j) in
    rw half (bit-pow_ne j i (omega arith))

-- A test of one digit.
pub bit_and-pow : (w i : ℕ) → bit_and w (2 ^ i) ≡ bit w i * 2 ^ i
bit_and-pow w zero = omega (arith, bit_and_step w 1, bit_and-zero (w / 2))
bit_and-pow w (suc i) =
    let half : 2 ^ suc i / 2 ≡ 2 ^ i = omega (arith, pow-suc 2 i) in
    let go : bit_and (w / 2) (2 ^ suc i / 2) ≡ bit (w / 2) i * 2 ^ i =
      rw half (bit_and-pow (w / 2) i) in
    omega (
      arith,
      go,
      pow-suc 2 i,
      bit_and_step w (2 ^ suc i),
      ap (λ (t : ℕ). bit (w / 2) i * t) (pow-suc 2 i),
    )

-- The digits of the complement of a power of two, among `k` digits.
pub bit-ones : (k i : ℕ) → i < k → bit (2 ^ k - 1) i ≡ 1
bit-ones zero i h = absurd (omega arith)
bit-ones (suc k) zero h = omega (arith, pow-suc 2 k, one-le-pow k 2)
bit-ones (suc k) (suc i) h =
    let half : (2 ^ suc k - 1) / 2 ≡ 2 ^ k - 1 = omega (arith, pow-suc 2 k, one-le-pow k 2) in
    rw half (bit-ones k i (omega arith))

pub bit-complement_self : (k j : ℕ) → j < k → bit (2 ^ k - 1 - 2 ^ j) j ≡ 0
bit-complement_self zero j h = absurd (omega arith)
bit-complement_self (suc k) zero h = omega (arith, pow-suc 2 k, one-le-pow k 2)
bit-complement_self (suc k) (suc j) h =
    let half : (2 ^ suc k - 1 - 2 ^ suc j) / 2 ≡ 2 ^ k - 1 - 2 ^ j =
      omega (arith, pow-suc 2 k, pow-suc 2 j, one-le-pow k 2) in
    rw half (bit-complement_self k j (omega arith))

pub bit-complement_ne : (k j i : ℕ) → j < k → i < k → i ≢ j → bit (2 ^ k - 1 - 2 ^ j) i ≡ 1
bit-complement_ne zero j i h l n = absurd (omega arith)
bit-complement_ne (suc k) zero zero h l n = absurd (n refl)
bit-complement_ne (suc k) zero (suc i) h l n =
    let half : (2 ^ suc k - 1 - 2 ^ 0) / 2 ≡ 2 ^ k - 1 =
      omega (arith, pow-suc 2 k, one-le-pow k 2) in
    rw half (bit-ones k i (omega arith))
bit-complement_ne (suc k) (suc j) zero h l n =
    omega (arith, pow-suc 2 k, pow-suc 2 j, one-le-pow k 2, pow_mono j k (omega arith))
bit-complement_ne (suc k) (suc j) (suc i) h l n =
    let half : (2 ^ suc k - 1 - 2 ^ suc j) / 2 ≡ 2 ^ k - 1 - 2 ^ j =
      omega (arith, pow-suc 2 k, pow-suc 2 j, one-le-pow k 2) in
    rw half (bit-complement_ne k j i (omega arith) (omega arith) (omega arith))

-- Digits above the length of a number are 0, and its highest is 1.
pub bit-eq-zero : (k i w : ℕ) → w < 2 ^ k → k ≤ i → bit w i ≡ 0
bit-eq-zero zero i zero lt le = bit-zero i
bit-eq-zero zero i (suc w) lt le = absurd (omega arith)
bit-eq-zero (suc k) zero w lt le = absurd (omega arith)
bit-eq-zero (suc k) (suc i) w lt le =
    bit-eq-zero k i (w / 2) (omega (arith, pow-suc 2 k)) (omega arith)

pub bit_top : (k w : ℕ) → 2 ^ k ≤ w → w < 2 ^ suc k → bit w k ≡ 1
bit_top zero w le lt = omega (arith, pow-suc 2 0)
bit_top (suc k) w le lt =
    bit_top k (w / 2) (omega (arith, pow-suc 2 k, pow-suc 2 (suc k)))
      (omega (arith, pow-suc 2 k, pow-suc 2 (suc k)))

-- Numbers with the same digits are equal.
bit_ext_fuel : (f a b : ℕ) → a ≤ f → b ≤ f → ((i : ℕ) → bit a i ≡ bit b i) → a ≡ b
bit_ext_fuel zero a b p q h = omega arith
bit_ext_fuel (suc f) a b p q h =
    omega (arith, h 0, bit_ext_fuel f (a / 2) (b / 2) (omega arith) (omega arith) (λ i. h (suc i)))

pub bit_ext : (a b : ℕ) → ((i : ℕ) → bit a i ≡ bit b i) → a ≡ b
bit_ext a b = bit_ext_fuel (a + b) a b (omega arith) (omega arith)

mod_double : (x m : ℕ) → 0 < m → x % (2 * m) ≡ x % 2 + 2 * (x / 2 % m)
mod_double x m positive =
    let r = x % 2 + 2 * (x / 2 % m) in
    let small : r < 2 * m = omega (arith, mod-lt (x / 2) positive) in
    let parts : x ≡ r + 2 * m * (x / 2 / m) =
      omega (arith, div-add-mod (x / 2) m, mul_assoc 2 m (x / 2 / m)) in
    ap (λ (t : ℕ). t % (2 * m)) parts
    ∙ add-mul-mod_self_left r (2 * m) (x / 2 / m)
    ∙ mod-eq_of_lt small

-- The lowest `k` digits.
pub bit_and-ones_mod : (k x : ℕ) → bit_and x (2 ^ k - 1) ≡ x % 2 ^ k
bit_and-ones_mod zero x = omega (arith, bit_and-zero x)
bit_and-ones_mod (suc k) x =
    let half : (2 ^ suc k - 1) / 2 ≡ 2 ^ k - 1 = omega (arith, pow-suc 2 k, one-le-pow k 2) in
    let rest : bit_and (x / 2) ((2 ^ suc k - 1) / 2) ≡ x / 2 % 2 ^ k =
      rw half (bit_and-ones_mod k (x / 2)) in
    let double : x % 2 ^ suc k ≡ x % (2 * 2 ^ k) =
      ap (λ (t : ℕ). x % t) (omega (arith, pow-suc 2 k)) in
    omega (
      arith,
      rest,
      double,
      mod_double x (2 ^ k) (omega (arith, one-le-pow k 2)),
      bit_and_step x (2 ^ suc k - 1),
      pow-suc 2 k,
      one-le-pow k 2,
    )
