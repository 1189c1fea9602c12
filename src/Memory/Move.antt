-- ===== src/Memory/Move.antt =====
-- What the routines that write leave in memory.
use ssos.Base.{ℕ, zero, suc, ◌+◌, ◌-◌, ◌%◌, ◌≤◌, ◌≡◌, ◌⊎◌, arith}
use ssos.Base.{◌&&◌, leb, ltb, if◌then◌else◌}
use ssos.Memory.{store_byte, memcpy, memset, copy_down, memmove}

-- Memory in which the `n` bytes from `dest` on are the bytes that stood from `src` on.
abbrev pub copied : ℕ → ℕ → ℕ → (ℕ → ℕ) → ℕ → ℕ
copied dest src n byte a =
    if leb dest a && ltb a (dest + n) then byte (src + (a - dest)) else byte a

-- Upwards, with the destination below the source or apart from it.
pub memcpy_lem :
    (dest src n : ℕ) (byte : ℕ → ℕ) (a : ℕ)
    → (dest ≤ src) ⊎ (src + n ≤ dest)
    → memcpy dest src n byte a ≡ copied dest src n byte a
unfolding memcpy
memcpy_lem dest src zero byte a apart = ground arith
memcpy_lem dest src (suc n) byte a apart =
    ground (arith, memcpy_lem (dest + 1) (src + 1) n (store_byte dest (byte src) byte) a)

-- Downwards, with the source below the destination.
copy_down_lem :
    (dest src n : ℕ) (byte : ℕ → ℕ) (a : ℕ)
    → src ≤ dest
    → copy_down dest src n byte a ≡ copied dest src n byte a
unfolding copy_down
copy_down_lem dest src zero byte a le = ground arith
copy_down_lem dest src (suc n) byte a le =
    ground (arith, copy_down_lem dest src n (store_byte (dest + n) (byte (src + n)) byte) a)

-- However the two ranges overlap, `memmove` leaves in the destination what stood in the source before
-- the call, and changes no other byte.
pub memmove_lem :
    (dest src n : ℕ) (byte : ℕ → ℕ) (a : ℕ) → memmove dest src n byte a ≡ copied dest src n byte a
unfolding memmove
memmove_lem dest src n byte a =
    ground (arith, memcpy_lem dest src n byte a, copy_down_lem dest src n byte a)

pub memset_lem :
    (s c n : ℕ) (byte : ℕ → ℕ) (a : ℕ)
    → memset s c n byte a ≡ (if leb s a && ltb a (s + n) then c % 256 else byte a)
unfolding memset
memset_lem s c zero byte a = ground arith
memset_lem s c (suc n) byte a =
    ground (arith, memset_lem (s + 1) c n (store_byte s (c % 256) byte) a)
