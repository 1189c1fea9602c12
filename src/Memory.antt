-- ===== src/Memory.antt =====
-- The memory routines (src/mem/mem.c: `memcpy`, `memset`, `memmove`, `memcmp`, `strlen`) over the byte
-- at each address. Addresses inside an object are not wrapped: C has no pointers past an object.
pub mod Move
mod Compare
mod Tests
use ssos.Base.{ℕ, zero, suc, ◌+◌, ◌%◌, Option, none, some, ltb, ◌==◌, if◌then◌else◌, ℤ, pos, negsuc}

-- `*addr = c`
unfoldable pub store_byte : ℕ → ℕ → (ℕ → ℕ) → ℕ → ℕ
store_byte addr c byte a = if a == addr then c else byte a

-- With `n` bytes to go, from the first on.
unfoldable pub memcpy : ℕ → ℕ → ℕ → (ℕ → ℕ) → ℕ → ℕ
unfolding store_byte
memcpy dest src zero byte = byte
memcpy dest src (suc n) byte = memcpy (dest + 1) (src + 1) n (store_byte dest (byte src) byte)

unfoldable pub memset : ℕ → ℕ → ℕ → (ℕ → ℕ) → ℕ → ℕ
unfolding store_byte
memset s c zero byte = byte
memset s c (suc n) byte = memset (s + 1) c n (store_byte s (c % 256) byte)

-- The second loop of `memmove`, from the last byte down.
unfoldable pub copy_down : ℕ → ℕ → ℕ → (ℕ → ℕ) → ℕ → ℕ
unfolding store_byte
copy_down dest src zero byte = byte
copy_down dest src (suc n) byte = copy_down dest src n (store_byte (dest + n) (byte (src + n)) byte)

-- The first loop is that of `memcpy`.
unfoldable pub memmove : ℕ → ℕ → ℕ → (ℕ → ℕ) → ℕ → ℕ
memmove dest src n byte =
    if ltb dest src
    then memcpy dest src n byte
    else if ltb src dest
    then copy_down dest src n byte
    else byte

unfoldable pub memcmp : ℕ → ℕ → ℕ → (ℕ → ℕ) → ℤ
memcmp s1 s2 zero byte = pos 0
memcmp s1 s2 (suc n) byte =
    let rest = memcmp (s1 + 1) (s2 + 1) n byte in
    if byte s1 == byte s2 then rest else if ltb (byte s1) (byte s2) then negsuc 0 else pos 1

-- The loop of `strlen`, with fuel for the bytes that it looks at.
unfoldable pub strlen_loop : ℕ → ℕ → ℕ → (ℕ → ℕ) → Option ℕ
strlen_loop zero str len byte = none
strlen_loop (suc fuel) str len byte =
    let rest = strlen_loop fuel (str + 1) (len + 1) byte in if byte str == 0 then some len else rest

unfoldable pub strlen : ℕ → ℕ → (ℕ → ℕ) → Option ℕ
unfolding strlen_loop
strlen fuel str byte = strlen_loop fuel str 0 byte
