-- ===== src/BitMath.antt =====
-- Bit arithmetic (src/misc/bit_math.h and bit_math.c), on values of uint64_t and uint32_t.
pub mod Pow2
pub mod Align
pub mod Detect
mod Tests
use ssos.Base.{ℕ, zero, suc, ◌+◌, ◌-◌, ◌*◌, ◌/◌, ◌%◌, ◌^◌, Bool, true, false, Option, none, some}
use ssos.Base.{List, [], ◌∷◌, bit_and, bit_or, bit_xor, u64, ltb, leb, ◌==◌, if◌then◌else◌, ◌>>=◌}

-- `~n` on 64 bits.
abbrev pub not64 : ℕ → ℕ
not64 n = 2 ^ 64 - 1 - n

-- ALIGN_UP
unfoldable pub align_up : ℕ → ℕ → ℕ
align_up x align = bit_and (u64 (x + (align - 1))) (not64 (align - 1))

-- ALIGN_DOWN
unfoldable pub align_down : ℕ → ℕ → ℕ
align_down x align = bit_and x (not64 (align - 1))

-- The zeros above the highest one of `x` among `w` digits.
unfoldable pub leading_zeros : ℕ → ℕ → ℕ
leading_zeros zero x = 0
leading_zeros (suc w) x = if leb (2 ^ w) x then 0 else suc (leading_zeros w x)

-- `__builtin_clz`: its argument is an unsigned int, and at 0 it is undefined (`none`).
unfoldable pub clz : ℕ → Option ℕ
clz x = if x % 2 ^ 32 == 0 then none else some (leading_zeros 32 (x % 2 ^ 32))

-- `31U - __builtin_clz(x)`, on unsigned int.
unfoldable pub logb : ℕ → Option ℕ
logb x = do n ← clz x; some ((31 + 2 ^ 32 - n) % 2 ^ 32)

-- `x |= x >> s`
unfoldable pub smear : ℕ → ℕ → ℕ
smear s x = bit_or x (x / 2 ^ s)

unfoldable pub round_pow2_boundary : ℕ → ℕ
unfolding smear
round_pow2_boundary x =
    u64 (smear 16 (smear 8 (smear 4 (smear 2 (smear 1 (u64 (x + 2 ^ 64 - 1)))))) + 1)

-- One round of the inner loop of the checksum.
unfoldable pub crc_round : ℕ → ℕ
crc_round crc = if bit_and crc 1 == 0 then crc / 2 else bit_xor (crc / 2) 0xEDB88320

unfoldable pub crc_rounds : ℕ → ℕ → ℕ
unfolding crc_round
crc_rounds zero crc = crc
crc_rounds (suc n) crc = crc_rounds n (crc_round crc)

-- The loop over the bytes.
unfoldable pub crc_loop : List ℕ → ℕ → ℕ
unfolding crc_rounds
crc_loop [] crc = crc
crc_loop (byte ∷ rest) crc = crc_loop rest (crc_rounds 8 (bit_xor crc byte))

-- The argument `length` is the length of the list.
unfoldable pub calculate_ccitt32_ansi_crc32 : List ℕ → ℕ
unfolding crc_loop
calculate_ccitt32_ansi_crc32 bytes = bit_xor (crc_loop bytes 0xFFFFFFFF) 0xFFFFFFFF
