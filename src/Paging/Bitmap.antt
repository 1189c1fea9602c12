-- ===== src/Paging/Bitmap.antt =====
-- The bitmap of free pages: page `i` is bit `i % 64` of bucket `i / 64`.
use native.Mathlib.Nat.{one-le-pow}
use native.Mathlib.Decide.{ℕ_discrete}
use ssos.Base.{ℕ, ◌*◌, ◌/◌, ◌%◌, ◌^◌, ◌<◌, ◌≡◌, refl, arith, ◌∙◌}
use ssos.Base.{true, false, Option, some, List, ◌==◌, if◌then◌else◌}
use ssos.Base.{
  bit, bit-lt, bit-bit_and, bit-bit_or, bit_and-pow, bit-pow_self, bit-pow_ne, bit_and, bit_or,
}
use ssos.Base.{bit-complement_self, bit-complement_ne, length, get_or, set, set?-eq-set, length-set}
use ssos.Base.{get_elem?-eq-get_or, get_or-set_self, get_or-set_ne}
use ssos.BitMath.{not64}
use ssos.Paging.Frames.{is_page_free, clear_page, set_page}

-- 1 if page `i` is free, else 0.
abbrev pub page_bit : List ℕ → ℕ → ℕ
page_bit pages i = bit (get_or pages (i / 64) 0) (i % 64)

pub is_page_free-bit : (w i : ℕ) → is_page_free w i ≡ (if bit w i == 0 then false else true)
unfolding is_page_free
is_page_free-bit w i = ground (arith, bit_and-pow w i, bit-lt w i, one-le-pow i 2, product)
  where
    product : bit w i ≡ 1 → bit w i * 2 ^ i ≡ 2 ^ i
    product e = rw e (omega arith)

-- The digits of a bucket with one of them cleared, or set.
bit-clear :
    (w i j : ℕ)
    → i < 64
    → j < 64
    → bit (bit_and w (not64 (2 ^ i))) j ≡ (if i == j then 0 else bit w j)
bit-clear w i j hi hj = ground (
  arith,
  bit-bit_and w (not64 (2 ^ i)) j,
  bit-complement_self 64 i,
  bit-complement_ne 64 i j,
  bit-lt w j,
)

bit-put : (w i j : ℕ) → i < 64 → j < 64 → bit (bit_or w (2 ^ i)) j ≡ (if i == j then 1 else bit w j)
bit-put w i j hi hj =
    ground (arith, bit-bit_or w (2 ^ i) j, bit-pow_self i, bit-pow_ne i j, bit-lt w j)

-- The array with bucket `i / 64` replaced, bit by bit.
put_bucket :
    (pages : List ℕ) (i v w : ℕ)
    → length pages ≡ 40
    → i < 2560
    → ((j : ℕ) → j < 64 → bit w j ≡ (if i % 64 == j then v else bit (get_or pages (i / 64) 0) j))
    → (j : ℕ) → page_bit (set pages (i / 64) w) j ≡ (if i == j then v else page_bit pages j)
put_bucket pages i v w size range digits j = elim (ℕ_discrete (i / 64) (j / 64)) [
  | yes same ↦ ground (arith, get_or-set_self pages (i / 64) w 0, digits (j % 64))
  | no other ↦ ground (arith, get_or-set_ne pages (i / 64) (j / 64) w 0 other)
]

-- `clear_page` and `set_page` at a page of the array change its bit alone.
abbrev pub IsChanged : List ℕ → ℕ → ℕ → Option (List ℕ) → Type 0
IsChanged pages i v result =
    (pages' : List ℕ) × (result ≡ some pages')
    × (length pages' ≡ 40)
    × ((j : ℕ) → page_bit pages' j ≡ (if i == j then v else page_bit pages j))

module _ (pages : List ℕ) (i : ℕ) (size : length pages ≡ 40) (range : i < 2560) where
  pub clear_page-IsChanged : IsChanged pages i 0 (clear_page i pages)
  unfolding clear_page
  clear_page-IsChanged =
      let w = bit_and (get_or pages (i / 64) 0) (not64 (2 ^ (i % 64))) in
      (
        set pages (i / 64) w,
        rw
            (
              get_elem?-eq-get_or pages (i / 64) 0 (omega arith),
              set?-eq-set pages (i / 64) w (omega arith),
            )
            refl,
        length-set pages (i / 64) w ∙ size,
        put_bucket pages i 0 w size range
            λ j lt. bit-clear (get_or pages (i / 64) 0) (i % 64) j (omega arith) lt,
      )

  pub set_page-IsChanged : IsChanged pages i 1 (set_page i pages)
  unfolding set_page
  set_page-IsChanged =
      let w = bit_or (get_or pages (i / 64) 0) (2 ^ (i % 64)) in
      (
        set pages (i / 64) w,
        rw
            (
              get_elem?-eq-get_or pages (i / 64) 0 (omega arith),
              set?-eq-set pages (i / 64) w (omega arith),
            )
            refl,
        length-set pages (i / 64) w ∙ size,
        put_bucket pages i 1 w size range
            λ j lt. bit-put (get_or pages (i / 64) 0) (i % 64) j (omega arith) lt,
      )
