-- ===== src/Paging/Free.antt =====
-- What `paging_free_pages` releases: the loop's end is `count` itself, not `count` pages further
-- on than its start.
use ssos.Base.{ℕ, zero, suc, ◌+◌, ◌-◌, ◌*◌, ◌%◌, ◌/◌, ◌^◌, ◌≤◌, ◌<◌, ◌≡◌, refl, arith, ap, ◌∙◌, min}
use ssos.Base.{some, List, ◌&&◌, leb, ltb, u64, if◌then◌else◌}
use ssos.Base.{length, ◌>>=◌, Bool-cases, inl, inr, ltb_ge}
use ssos.Paging.{Paging, page_size}
use ssos.Paging.Frames.{release_pages, paging_free_pages}
use ssos.Paging.Bitmap.{page_bit, set_page-IsChanged}
use ssos.Paging.Take.{IsSound}

-- The pages from `off` up to `limit` have been marked as free, and no other page's bit changed.
pub record Released (off limit : ℕ) (pages pages' : List ℕ) : Type 0 where
  pub size : length pages' ≡ 40
  pub bits :
      (j : ℕ) → page_bit pages' j ≡ (if leb off j && ltb j limit then 1 else page_bit pages j)

release_pages-Released :
    (fuel count present off : ℕ) (pages : List ℕ)
    → present ≤ off + fuel
    → present ≤ 2560
    → length pages ≡ 40
    → (pages' : List ℕ) × (release_pages fuel count present off pages ≡ some pages')
      × Released off (min count present) pages pages'
unfolding release_pages
release_pages-Released zero count present off pages enough fits size =
    (pages, refl, record { size = size; bits = λ j. ground arith })
release_pages-Released (suc fuel) count present off pages enough fits size =
    elim (Bool-cases (ltb off count && ltb off present)) [
      | inl on ↦
          let (pages1, sets, size1, bits1) = set_page-IsChanged pages off size (ground arith) in
          let (pages2, runs, rest) =
            release_pages-Released fuel count present (off + 1) pages1 (omega arith) fits size1 in
          (
            pages2,
            rw (on, sets) runs,
            record { size = rest.size; bits = λ j. ground (arith, rest.bits j, bits1 j) },
          )
      | inr off' ↦ (pages, rw off' refl, record { size = size; bits = λ j. ground arith })
    ]

module _ (p count addr : ℕ) (s : Paging) (sound : IsSound s) (in_array : p < 2560)
    (aligned : s.paging_phys_page_base % page_size ≡ 0) (hhdm : s.paging_hhdm_start < 2 ^ 64)
    (at_page : addr ≡ u64 (s.paging_phys_page_base + p * page_size + s.paging_hhdm_start)) where
  -- The guards pass, and the loop starts at page `p`.
  enters : paging_free_pages addr count s ≡ (
      release_pages s.paging_present_page_count count s.paging_present_page_count p s.pages
      >>= λ pages. some (record s { pages = pages }))
  unfolding paging_free_pages
  enters =
      let phys : u64 (addr + 2 ^ 64 - s.paging_hhdm_start)
          ≡ s.paging_phys_page_base + p * page_size =
        omega (arith, sound.no_wrap) in
      let off : (s.paging_phys_page_base + p * page_size - s.paging_phys_page_base) / page_size
          ≡ p =
        omega arith in
      let whole : (s.paging_phys_page_base + p * page_size) % page_size ≡ 0 = omega arith in
      rw
        (
          phys,
          whole,
          ltb_ge (s.paging_phys_page_base + p * page_size) s.paging_phys_page_base (omega arith),
          off,
        )
        refl

  -- On a sound state with an aligned base, an offset of the direct map in 64 bits and at most 2560
  -- present pages, and given the virtual address of page `p` of the array: `paging_free_pages` marks
  -- as free the pages from `p` up to the smaller of `count` and the number of present pages, and
  -- changes nothing else. That is `count` pages for the first page, fewer for the others, and none
  -- where `count` is at most `p`.
  pub paging_free_pages-Released :
      s.paging_present_page_count ≤ 2560
      → (pages' : List ℕ) × (paging_free_pages addr count s ≡ some (record s { pages = pages' }))
        × Released p (min count s.paging_present_page_count) s.pages pages'
  paging_free_pages-Released fits =
      let (pages', runs, released) =
        release_pages-Released s.paging_present_page_count count s.paging_present_page_count p
          s.pages (omega arith) fits sound.size in
      (pages', enters ∙ ap (λ r. r >>= λ pages. some (record s { pages = pages })) runs, released)
