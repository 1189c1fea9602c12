-- ===== src/BitMath/Pow2.antt =====
-- `round_pow2_boundary` and `logb`: on which values they are the next power of two and its
-- exponent.
use native.Mathlib.Nat.{pow-suc, one-le-pow}
use native.Mathlib.Decide.{dec_le, ℕ_discrete}
use ssos.Base.{ℕ, zero, suc, ◌+◌, ◌-◌, ◌*◌, ◌/◌, ◌%◌, ◌^◌, ◌≤◌, ◌<◌, ◌≡◌, refl, sym, arith, ap, ◌∙◌}
use ssos.Base.{bit, bit-lt, bit-bit_or, bit-ones, bit-eq-zero, bit_top, bit_ext, pow_mono, pow_le}
use ssos.Base.{some, none, leb_le, leb_gt, ==_ne, u64}
use ssos.BitMath.{leading_zeros, clz, logb, smear, round_pow2_boundary}

-- A shift moves the digits, for the five distances of the code.
bit-shift_1 : (w i : ℕ) → bit (w / 2) i ≡ bit w (i + 1)
bit-shift_1 w i = let e : i + 1 ≡ suc i = omega arith in rw e refl

module _ (a b : ℕ) (shift : (w i : ℕ) → bit (w / a) i ≡ bit w (i + b)) where
  twice_as_far : (w i : ℕ) → bit (w / a / a) i ≡ bit w (i + (b + b))
  twice_as_far w i =
      let e : i + b + b ≡ i + (b + b) = omega arith in
      shift (w / a) i ∙ shift w (i + b) ∙ ap (bit w) e

bit-shift_2 : (w i : ℕ) → bit (w / 4) i ≡ bit w (i + 2)
bit-shift_2 w i = let e : w / 4 ≡ w / 2 / 2 = omega arith in rw e (twice_as_far 2 1 bit-shift_1 w i)

bit-shift_4 : (w i : ℕ) → bit (w / 16) i ≡ bit w (i + 4)
bit-shift_4 w i =
    let e : w / 16 ≡ w / 4 / 4 = omega arith in rw e (twice_as_far 4 2 bit-shift_2 w i)

bit-shift_8 : (w i : ℕ) → bit (w / 256) i ≡ bit w (i + 8)
bit-shift_8 w i =
    let e : w / 256 ≡ w / 16 / 16 = omega arith in rw e (twice_as_far 16 4 bit-shift_4 w i)

bit-shift_16 : (w i : ℕ) → bit (w / 65536) i ≡ bit w (i + 16)
bit-shift_16 w i =
    let e : w / 65536 ≡ w / 256 / 256 = omega arith in rw e (twice_as_far 256 8 bit-shift_8 w i)

-- `w` has `k` digits, of which the top `m` are ones.
record Tops (k m w : ℕ) : Type 0 where
  above : (i : ℕ) → k ≤ i → bit w i ≡ 0
  ones : (i : ℕ) → i < k → k ≤ i + m → bit w i ≡ 1

smear-Tops :
    (s k m w : ℕ)
    → ((i : ℕ) → bit (w / 2 ^ s) i ≡ bit w (i + s))
    → s ≤ m
    → Tops k m w
    → Tops k (m + s) (smear s w)
unfolding smear
smear-Tops s k m w shift le t = record {
  above = λ i h. ground (arith, bit-bit_or w (w / 2 ^ s) i, shift i, t.above i, t.above (i + s));
  ones = λ i lt h. ground (
    arith,
    bit-bit_or w (w / 2 ^ s) i,
    shift i,
    t.ones i,
    t.ones (i + s),
    bit-lt w i,
    bit-lt w (i + s),
  );
}

-- The number of digits of a number.
digit_count : (n y : ℕ) → y < 2 ^ n → (k : ℕ) × (k ≤ n) × (y < 2 ^ k) × (2 ^ k ≤ 2 * y + 1)
digit_count zero y h = (0, omega arith, h, omega arith)
digit_count (suc n) y h = elim (dec_le (2 ^ n) y) [
  | yes le ↦ (suc n, omega arith, h, omega (arith, pow-suc 2 n))
  | no lt ↦ let (k, a, b, c) = digit_count n y (omega arith) in (k, omega arith, b, c)
]

Tops-start : (k y : ℕ) → y < 2 ^ k → 2 ^ k ≤ 2 * y + 1 → Tops k 1 y
Tops-start k y lt le = record {
  above = λ i h. bit-eq-zero k i y lt h;
  ones = λ i h h'. top k i lt le (omega arith);
}
  where
    top : (k i : ℕ) → y < 2 ^ k → 2 ^ k ≤ 2 * y + 1 → k ≡ suc i → bit y i ≡ 1
    top zero i lt le e = absurd (omega arith)
    top (suc k) i lt le e =
        let same : i ≡ k = omega arith in
        ap (bit y) same ∙ bit_top k y (omega (arith, pow-suc 2 k)) lt

all_ones : (k w : ℕ) → k ≤ 32 → Tops k 32 w → w + 1 ≡ 2 ^ k
all_ones k w le t = omega (arith, one-le-pow k 2, bit_ext w (2 ^ k - 1) same)
  where
    same : (i : ℕ) → bit w i ≡ bit (2 ^ k - 1) i
    same i = elim (dec_le k i) [
      | yes out ↦
          t.above i out ∙ sym (bit-eq-zero k i (2 ^ k - 1) (omega (arith, one-le-pow k 2)) out)
      | no inside ↦ t.ones i (omega arith) (omega arith) ∙ sym (bit-ones k i (omega arith))
    ]

smeared :
    (k y : ℕ) → k ≤ 32 → Tops k 1 y → smear 16 (smear 8 (smear 4 (smear 2 (smear 1 y)))) + 1 ≡ 2 ^ k
smeared k y le t = all_ones k (smear 16 (smear 8 (smear 4 (smear 2 (smear 1 y))))) le (
    smear-Tops 16 k 16 _ (bit-shift_16 _) (omega arith) (
      smear-Tops 8 k 8 _ (bit-shift_8 _) (omega arith) (
        smear-Tops 4 k 4 _ (bit-shift_4 _) (omega arith) (
          smear-Tops 2 k 2 _ (bit-shift_2 _) (omega arith)
            (smear-Tops 1 k 1 y (bit-shift_1 y) (omega arith) t)))))

-- For `x` from 1 to 2^32 the result is the least power of two that is at least `x`.
pub round_pow2_boundary_lem :
    (x : ℕ)
    → 1 ≤ x
    → x ≤ 2 ^ 32
    → (k : ℕ) × (k ≤ 32) × (round_pow2_boundary x ≡ 2 ^ k) × (x ≤ 2 ^ k) × (2 ^ k < 2 * x)
unfolding round_pow2_boundary
round_pow2_boundary_lem x pos le =
    let (k, few, lt, ge) = digit_count 32 (x - 1) (omega arith) in
    let start : u64 (x + 2 ^ 64 - 1) ≡ x - 1 = omega arith in
    (
      k,
      few,
      rw start (fits k _ few (smeared k (x - 1) few (Tops-start k (x - 1) lt ge))),
      omega arith,
      omega arith,
    )
  where
    fits : (k w : ℕ) → k ≤ 32 → w + 1 ≡ 2 ^ k → u64 (w + 1) ≡ 2 ^ k
    fits k w few e = omega (arith, pow_le k 32 few)

leading_zeros-pow : (w k : ℕ) → k < w → leading_zeros w (2 ^ k) + k + 1 ≡ w
unfolding leading_zeros
leading_zeros-pow zero k h = absurd (omega arith)
leading_zeros-pow (suc w) k h = elim (ℕ_discrete k w) [
  | yes e ↦ rw (e, leb_le (2 ^ w) (2 ^ w) (omega arith)) (omega arith)
  | no ne ↦
      rw (leb_gt (2 ^ w) (2 ^ k) (omega (arith, pow_mono k w (omega arith), one-le-pow k 2)))
        (omega (arith, leading_zeros-pow w k (omega arith)))
]

-- `logb` gives the exponent of every power of two below 2^32.
pub logb-pow : (k : ℕ) → k < 32 → logb (2 ^ k) ≡ some k
unfolding logb clz
logb-pow k h =
    let small : 2 ^ k % 2 ^ 32 ≡ 2 ^ k = omega (arith, pow_mono k 32 h) in
    let result : (31 + 2 ^ 32 - leading_zeros 32 (2 ^ k)) % 2 ^ 32 ≡ k =
      omega (arith, leading_zeros-pow 32 k h) in
    rw (small, ==_ne (2 ^ k) 0 (omega (arith, one-le-pow k 2)), result) refl

-- For `x` above 2^31, up to 2^32, the logarithm of the rounded value is undefined: it is cut to 32
-- bits, which leaves 0.
pub logb-round_none : (x : ℕ) → 2 ^ 31 < x → x ≤ 2 ^ 32 → logb (round_pow2_boundary x) ≡ none
unfolding logb clz
logb-round_none x lt le =
    let (k, few, rounds, ge, close) = round_pow2_boundary_lem x (omega arith) le in
    rw (rounds ∙ ap (λ j. 2 ^ j) (last k few lt ge)) refl
  where
    last : (k : ℕ) → k ≤ 32 → 2 ^ 31 < x → x ≤ 2 ^ k → k ≡ 32
    last k few lt ge = elim (dec_le k 31) [
      | yes le ↦ absurd (omega (arith, pow_le k 31 le))
      | no gt ↦ omega arith
    ]
