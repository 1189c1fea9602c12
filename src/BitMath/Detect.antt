-- ===== src/BitMath/Detect.antt =====
-- The checksum tells apart data that differ in one byte.
use native.Mathlib.Nat.{pow-suc}
use ssos.Base.{ℕ, zero, suc, ◌/◌, ◌%◌, ◌^◌, ◌<◌, ◌≡◌, ◌≢◌, refl, sym, ap, arith, ◌∙◌, bit_xor}
use ssos.Base.{
  bit, bit-lt, bit-bit_xor, bit_xor_step, bit_ext, bit-eq-zero, bit_and-pow, List, [], ◌∷◌,
}
use ssos.Base.{◌++◌, inl, inr, ◌⊎◌}
use ssos.BitMath.{crc_round, crc_rounds, crc_loop, calculate_ccitt32_ansi_crc32}

xor_cancel : (x y c : ℕ) → bit_xor x c ≡ bit_xor y c → x ≡ y
xor_cancel x y c h = bit_ext x y (λ i.
    let e = ap (λ w. bit w i) h in
    omega (arith, bit-bit_xor x c i, bit-bit_xor y c i, e, bit-lt x i, bit-lt y i, bit-lt c i))

xor_bound : (k a b : ℕ) → a < 2 ^ k → b < 2 ^ k → bit_xor a b < 2 ^ k
xor_bound zero zero zero p q = omega arith
xor_bound zero zero (suc b) p q = absurd (omega arith)
xor_bound zero (suc a) b p q = absurd (omega arith)
xor_bound (suc k) a b p q = omega (
  arith,
  pow-suc 2 k,
  bit_xor_step a b,
  xor_bound k (a / 2) (b / 2) (omega (arith, pow-suc 2 k)) (omega (arith, pow-suc 2 k)),
)

parity : (x : ℕ) → (x % 2 ≡ 0) ⊎ (x % 2 ≡ 1)
parity x = ground arith

round_even : (x : ℕ) → x % 2 ≡ 0 → crc_round x ≡ x / 2
unfolding crc_round
round_even x h = ground (arith, bit_and-pow x 0)

round_odd : (x : ℕ) → x % 2 ≡ 1 → crc_round x ≡ bit_xor (x / 2) 0xEDB88320
unfolding crc_round
round_odd x h = ground (arith, bit_and-pow x 0)

round_bound : (x : ℕ) → x < 2 ^ 32 → crc_round x < 2 ^ 32
round_bound x lt = elim (parity x) [
  | inl e ↦ rw (round_even x e) (omega arith)
  | inr e ↦ rw (round_odd x e) (xor_bound 32 (x / 2) 0xEDB88320 (omega arith) (omega arith))
]

-- The highest digit of a round's result is the lowest of what went into it.
top_digit : (x : ℕ) → x < 2 ^ 32 → bit (crc_round x) 31 ≡ x % 2
top_digit x lt = elim (parity x) [
  | inl e ↦ rw (round_even x e, e) (bit-eq-zero 31 31 (x / 2) (omega arith) (omega arith))
  | inr e ↦
      let above : bit (x / 2) 31 ≡ 0 = bit-eq-zero 31 31 (x / 2) (omega arith) (omega arith) in
      let mask : bit 0xEDB88320 31 ≡ 1 = refl in
      rw (round_odd x e, e, bit-bit_xor (x / 2) 0xEDB88320 31, above, mask) refl
]

round_injective : (x y : ℕ) → x < 2 ^ 32 → y < 2 ^ 32 → crc_round x ≡ crc_round y → x ≡ y
round_injective x y p q h =
    let same : x % 2 ≡ y % 2 = sym (top_digit x p) ∙ ap (λ w. bit w 31) h ∙ top_digit y q in
    elim (parity x) [
      | inl e ↦
          let half : x / 2 ≡ y / 2 = sym (round_even x e) ∙ h ∙ round_even y (omega arith) in
          omega arith
      | inr e ↦
          let half : x / 2 ≡ y / 2 =
            xor_cancel (x / 2) (y / 2) 0xEDB88320
              (sym (round_odd x e) ∙ h ∙ round_odd y (omega arith)) in
          omega arith
    ]

rounds_bound : (n x : ℕ) → x < 2 ^ 32 → crc_rounds n x < 2 ^ 32
unfolding crc_rounds
rounds_bound zero x lt = lt
rounds_bound (suc n) x lt = rounds_bound n (crc_round x) (round_bound x lt)

rounds_injective : (n x y : ℕ) → x < 2 ^ 32 → y < 2 ^ 32 → crc_rounds n x ≡ crc_rounds n y → x ≡ y
unfolding crc_rounds
rounds_injective zero x y p q h = h
rounds_injective (suc n) x y p q h =
    round_injective x y p q
      (rounds_injective n (crc_round x) (crc_round y) (round_bound x p) (round_bound y q) h)

-- The entries are bytes.
pub data IsBytes : List ℕ → Type 0 where
  no_bytes : IsBytes []
  more_bytes : {b : ℕ} {l : List ℕ} → b < 256 → IsBytes l → IsBytes (b ∷ l)

loop_bound : (l : List ℕ) (c : ℕ) → IsBytes l → c < 2 ^ 32 → crc_loop l c < 2 ^ 32
unfolding crc_loop
loop_bound [] c bytes lt = lt
loop_bound (b ∷ l) c (more_bytes small rest) lt =
    loop_bound l (crc_rounds 8 (bit_xor c b)) rest
      (rounds_bound 8 (bit_xor c b) (xor_bound 32 c b lt (omega arith)))

loop_injective :
    (l : List ℕ) (c c' : ℕ)
    → IsBytes l
    → c < 2 ^ 32
    → c' < 2 ^ 32
    → crc_loop l c ≡ crc_loop l c'
    → c ≡ c'
unfolding crc_loop
loop_injective [] c c' bytes p q h = h
loop_injective (b ∷ l) c c' (more_bytes small rest) p q h =
    let lt = xor_bound 32 c b p (omega arith) in
    let lt' = xor_bound 32 c' b q (omega arith) in
    xor_cancel c c' b (
      rounds_injective 8 (bit_xor c b) (bit_xor c' b) lt lt' (
        loop_injective l (crc_rounds 8 (bit_xor c b)) (crc_rounds 8 (bit_xor c' b)) rest
          (rounds_bound 8 (bit_xor c b) lt) (rounds_bound 8 (bit_xor c' b) lt') h))

loop_append : (l m : List ℕ) (c : ℕ) → crc_loop (l ++ m) c ≡ crc_loop m (crc_loop l c)
unfolding crc_loop
loop_append [] m c = refl
loop_append (b ∷ l) m c = loop_append l m (crc_rounds 8 (bit_xor c b))

bit_xor_comm : (a b : ℕ) → bit_xor a b ≡ bit_xor b a
bit_xor_comm a b =
    bit_ext (bit_xor a b) (bit_xor b a) (λ i. omega (arith, bit-bit_xor a b i, bit-bit_xor b a i))

same_byte :
    (l m : List ℕ) (a b : ℕ)
    → IsBytes l
    → IsBytes m
    → a < 256
    → b < 256
    → calculate_ccitt32_ansi_crc32 (l ++ a ∷ m) ≡ calculate_ccitt32_ansi_crc32 (l ++ b ∷ m)
    → a ≡ b
unfolding calculate_ccitt32_ansi_crc32 crc_loop
same_byte l m a b bl bm pa pb h =
    let c = crc_loop l 0xFFFFFFFF in
    let lt : c < 2 ^ 32 = loop_bound l 0xFFFFFFFF bl (omega arith) in
    let lta = xor_bound 32 c a lt (omega arith) in
    let ltb' = xor_bound 32 c b lt (omega arith) in
    let same =
      sym (loop_append l (a ∷ m) 0xFFFFFFFF)
      ∙ xor_cancel (crc_loop (l ++ a ∷ m) 0xFFFFFFFF) (crc_loop (l ++ b ∷ m) 0xFFFFFFFF) 0xFFFFFFFF
          h
      ∙ loop_append l (b ∷ m) 0xFFFFFFFF in
    let before = rounds_injective 8 (bit_xor c a) (bit_xor c b) lta ltb' (
      loop_injective m (crc_rounds 8 (bit_xor c a)) (crc_rounds 8 (bit_xor c b)) bm
        (rounds_bound 8 (bit_xor c a) lta) (rounds_bound 8 (bit_xor c b) ltb') same) in
    xor_cancel a b c (bit_xor_comm a c ∙ before ∙ bit_xor_comm c b)

-- The checksums of two sequences of bytes that differ in just one place differ: every change of a
-- single byte is detected, wherever it stands.
pub calculate_ccitt32_ansi_crc32-ne :
    (l m : List ℕ) (a b : ℕ)
    → IsBytes l
    → IsBytes m
    → a < 256
    → b < 256
    → a ≢ b
    → calculate_ccitt32_ansi_crc32 (l ++ a ∷ m) ≢ calculate_ccitt32_ansi_crc32 (l ++ b ∷ m)
calculate_ccitt32_ansi_crc32-ne l m a b bl bm pa pb ne h = ne (same_byte l m a b bl bm pa pb h)
