-- ===== src/BitMath/Tests.antt =====
-- Runs of the bit arithmetic at single values.
use ssos.Base.{ℕ, ◌+◌, ◌*◌, ◌^◌, ◌≤◌, ◌<◌, ◌≡◌, ◌≢◌, ◌++◌, refl, arith, none, [], ◌∷◌}
use ssos.BitMath.{logb, round_pow2_boundary, calculate_ccitt32_ansi_crc32}
use ssos.BitMath.{smear, crc_loop, crc_rounds, crc_round}
use ssos.BitMath.Pow2.{round_pow2_boundary_lem, logb-round_none}
use ssos.BitMath.Detect.{no_bytes, more_bytes, calculate_ccitt32_ansi_crc32-ne}

-- The check value of the CRC-32 that it computes: the digits 1 to 9.
check_value :
    calculate_ccitt32_ansi_crc32 (0x31 ∷ 0x32 ∷ 0x33 ∷ 0x34 ∷ 0x35 ∷ 0x36 ∷ 0x37 ∷ 0x38 ∷ 0x39 ∷ [])
    ≡ 0xCBF43926
unfolding calculate_ccitt32_ansi_crc32 crc_loop crc_rounds crc_round
check_value = refl

round_100 : round_pow2_boundary 100 ≡ 128
unfolding round_pow2_boundary smear
round_100 = refl

round_pow2_boundary_example :
    (k : ℕ) × (k ≤ 32) × (round_pow2_boundary 100 ≡ 2 ^ k) × (100 ≤ 2 ^ k) × (2 ^ k < 2 * 100)
round_pow2_boundary_example = round_pow2_boundary_lem 100 (omega arith) (omega arith)

logb-round_none_example : logb (round_pow2_boundary (2 ^ 31 + 1)) ≡ none
logb-round_none_example = logb-round_none (2 ^ 31 + 1) (omega arith) (omega arith)

calculate_ccitt32_ansi_crc32-ne_example :
    calculate_ccitt32_ansi_crc32 ((0x45 ∷ []) ++ 0x46 ∷ 0x49 ∷ [])
    ≢ calculate_ccitt32_ansi_crc32 ((0x45 ∷ []) ++ 0x47 ∷ 0x49 ∷ [])
calculate_ccitt32_ansi_crc32-ne_example =
    calculate_ccitt32_ansi_crc32-ne (0x45 ∷ []) (0x49 ∷ []) 0x46 0x47
      (more_bytes (omega arith) no_bytes) (more_bytes (omega arith) no_bytes) (omega arith)
      (omega arith) (omega arith)
