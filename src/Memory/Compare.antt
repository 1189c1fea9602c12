-- ===== src/Memory/Compare.antt =====
-- What the routines that read find.
use ssos.Base.{ℕ, zero, suc, ◌+◌, ◌<◌, ◌≡◌, ◌≢◌, inl, inr, refl, ap, arith, ◌∙◌, true, false}
use ssos.Base.{
  some, ltb, ◌==◌, ==_iff, if◌then◌else◌, ℤ, pos, negsuc, Bool-cases, if_true, if_false,
}
use ssos.Memory.{memcmp, strlen_loop, strlen}

-- The verdict of `memcmp` on `n` bytes: they are the same; or the first that differ, behind `k` that are
-- the same, decide by their order.
data Compared (s1 s2 n : ℕ) (byte : ℕ → ℕ) (r : ℤ) : Type 0 where
  same : ((j : ℕ) → j < n → byte (s1 + j) ≡ byte (s2 + j)) → r ≡ pos 0 → Compared s1 s2 n byte r
  less :
      (k : ℕ)
      → k < n
      → ((j : ℕ) → j < k → byte (s1 + j) ≡ byte (s2 + j))
      → byte (s1 + k) < byte (s2 + k)
      → r ≡ negsuc 0
      → Compared s1 s2 n byte r
  greater :
      (k : ℕ)
      → k < n
      → ((j : ℕ) → j < k → byte (s1 + j) ≡ byte (s2 + j))
      → byte (s2 + k) < byte (s1 + k)
      → r ≡ pos 1
      → Compared s1 s2 n byte r

agree :
    (s1 s2 k : ℕ) (byte : ℕ → ℕ)
    → byte s1 ≡ byte s2
    → ((j : ℕ) → j < k → byte (s1 + 1 + j) ≡ byte (s2 + 1 + j))
    → (j : ℕ) → j < suc k
    → byte (s1 + j) ≡ byte (s2 + j)
agree s1 s2 k byte e h zero lt = ground arith
agree s1 s2 k byte e h (suc j) lt = ground (arith, h j)

next :
    (s1 s2 k : ℕ) (byte : ℕ → ℕ)
    → byte (s1 + 1 + k) < byte (s2 + 1 + k)
    → byte (s1 + suc k) < byte (s2 + suc k)
next s1 s2 k byte lt = ground arith

first_lt :
    (s1 s2 : ℕ) (byte : ℕ → ℕ) → ltb (byte s1) (byte s2) ≡ true → byte (s1 + 0) < byte (s2 + 0)
first_lt s1 s2 byte l = ground arith

first_gt :
    (s1 s2 : ℕ) (byte : ℕ → ℕ)
    → (byte s1 == byte s2) ≡ false
    → ltb (byte s1) (byte s2) ≡ false
    → byte (s2 + 0) < byte (s1 + 0)
first_gt s1 s2 byte e l = ground arith

behind :
    (s1 s2 n : ℕ) (byte : ℕ → ℕ) (r : ℤ)
    → byte s1 ≡ byte s2
    → Compared (s1 + 1) (s2 + 1) n byte r
    → Compared s1 s2 (suc n) byte r
behind s1 s2 n byte r e (same h v) = same (agree s1 s2 n byte e h) v
behind s1 s2 n byte r e (less k lt h d v) =
    less (suc k) (omega arith) (agree s1 s2 k byte e h) (next s1 s2 k byte d) v
behind s1 s2 n byte r e (greater k lt h d v) =
    greater (suc k) (omega arith) (agree s1 s2 k byte e h) (next s2 s1 k byte d) v

-- The verdict of `memcmp`, for all bytes and lengths, is the one of the first bytes that differ: 0 where
-- there are none, -1 where the first object's is the lower one, 1 where it is the higher one.
memcmp-Compared : (s1 s2 n : ℕ) (byte : ℕ → ℕ) → Compared s1 s2 n byte (memcmp s1 s2 n byte)
unfolding memcmp
memcmp-Compared s1 s2 zero byte = same (λ j lt. absurd (omega arith)) refl
memcmp-Compared s1 s2 (suc n) byte = elim (Bool-cases (byte s1 == byte s2)) [
  | inl e ↦
      rw
        (if_true _ (memcmp (s1 + 1) (s2 + 1) n byte)
          (if ltb (byte s1) (byte s2) then negsuc 0 else pos 1) e)
        (behind s1 s2 n byte _ ((==_iff (byte s1) (byte s2)).0 e)
          (memcmp-Compared (s1 + 1) (s2 + 1) n byte))
  | inr e ↦ elim (Bool-cases (ltb (byte s1) (byte s2))) [
    | inl l ↦
        less 0 (omega arith) (λ j lt. absurd (omega arith)) (first_lt s1 s2 byte l) (ground arith)
    | inr l ↦
        greater 0 (omega arith) (λ j lt. absurd (omega arith)) (first_gt s1 s2 byte e l)
          (ground arith)
  ]
]

at_suc : (s j : ℕ) (byte : ℕ → ℕ) → byte (s + 1 + j) ≡ 0 → byte (s + suc j) ≡ 0
at_suc s j byte e = ground arith

after_suc : (s j : ℕ) (byte : ℕ → ℕ) → byte (s + suc j) ≡ 0 → byte (s + 1 + j) ≡ 0
after_suc s j byte e = ground arith

-- A string of `n` bytes other than 0, and the 0 that ends it.
pub strlen_loop-terminated :
    (fuel str n len : ℕ) (byte : ℕ → ℕ)
    → n < fuel
    → ((j : ℕ) → j < n → byte (str + j) ≢ 0)
    → byte (str + n) ≡ 0
    → strlen_loop fuel str len byte ≡ some (len + n)
unfolding strlen_loop
strlen_loop-terminated zero str n len byte f h e = absurd (omega arith)
strlen_loop-terminated (suc fuel) str zero len byte f h e = ground arith
strlen_loop-terminated (suc fuel) str (suc n) len byte f h e =
    let first : byte (str + 0) ≢ 0 = h 0 (omega arith) in
    let rest : strlen_loop fuel (str + 1) (len + 1) byte ≡ some (len + 1 + n) =
      strlen_loop-terminated fuel (str + 1) n (len + 1) byte (omega arith)
        (λ j lt z. h (suc j) (omega arith) (at_suc str j byte z)) (after_suc str n byte e) in
    rw (rest, if_false (byte str == 0) (some len) (some (len + 1 + n)) (ground arith))
      (ground arith)

-- `strlen`, with fuel for the string and its end, is the number of the bytes other than 0 before the
-- first 0.
strlen-terminated :
    (fuel str n : ℕ) (byte : ℕ → ℕ)
    → n < fuel
    → ((j : ℕ) → j < n → byte (str + j) ≢ 0)
    → byte (str + n) ≡ 0
    → strlen fuel str byte ≡ some n
unfolding strlen
strlen-terminated fuel str n byte f h e =
    strlen_loop-terminated fuel str n 0 byte f h e ∙ ap some (omega arith)
