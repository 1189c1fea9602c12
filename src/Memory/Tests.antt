-- ===== src/Memory/Tests.antt =====
-- Runs of the memory routines on a few bytes.
use ssos.Base.{◌+◌, ◌≡◌, refl, some, if◌then◌else◌, ◌==◌, [], ◌∷◌, get_or, negsuc}
use ssos.Memory.{memmove, memcmp, copy_down, store_byte, strlen, strlen_loop}
use ssos.Memory.Move.{copied, memmove_lem}

-- A move by one byte towards higher addresses, over itself.
memmove_example : memmove 1 0 5 (λ a. a + 7) 3 ≡ copied 1 0 5 (λ a. a + 7) 3
memmove_example = memmove_lem 1 0 5 (λ a. a + 7) 3

moved : memmove 1 0 5 (λ a. a + 7) 3 ≡ 9
unfolding memmove copy_down store_byte
moved = refl

-- The bytes 2 and 3 are the same, the bytes 3 and 4 are not.
ordered : memcmp 2 3 2 (λ a. if a == 4 then 9 else 5) ≡ negsuc 0
unfolding memcmp
ordered = refl

counted : strlen 8 0 (λ a. get_or (0x68 ∷ 0x69 ∷ []) a 0) ≡ some 2
unfolding strlen strlen_loop
counted = refl
