-- ===== src/Paging/Alloc/First.antt =====
-- Allocations that end in the first bucket: which page is returned.
use ssos.Base.{◌≢◌}
use ssos.Base.{ℕ, zero, suc, ◌+◌, ◌*◌, ◌%◌, ◌/◌, ◌≤◌, ◌<◌, ◌≡◌, refl, sym, arith, ap, ◌∙◌}
use ssos.Base.{true, false, some, List, [], ◌∷◌, ==_ne, ==_refl, u64}
use ssos.Base.{length, bit, bit-zero}
use ssos.Paging.{Paging, page_size}
use ssos.Paging.Frames.{found, is_page_free, scan_bits, scan_bucket, scan_buckets}
use ssos.Paging.Frames.{paging_alloc_pages}
use ssos.Paging.Bitmap.{page_bit, is_page_free-bit}
use ssos.Paging.Take.{IsSound, Taken, Taken-IsSound, take_pages-Taken}

page_is_free : (w i : ℕ) → bit w i ≡ 1 → is_page_free w i ≡ true
page_is_free w i h = rw (is_page_free-bit w i, h) refl

page_is_used : (w i : ℕ) → bit w i ≡ 0 → is_page_free w i ≡ false
page_is_used w i h = rw (is_page_free-bit w i, h) refl

-- A run of free pages that completes the count.
scan_bits_run :
    (m left count w base i run c : ℕ)
    → m < left
    → run + suc m ≡ count
    → ((j : ℕ) → i ≤ j → j < i + suc m → bit w j ≡ 1)
    → scan_bits count w base left i run c ≡ found c
unfolding scan_bits
scan_bits_run m zero count w base i run c fits sum free = absurd (omega arith)
scan_bits_run zero (suc left) count w base i run c fits sum free =
    rw
      (page_is_free w i (free i (omega arith) (omega arith)), ==_refl (run + 1) count (omega arith))
      refl
scan_bits_run (suc m) (suc left) count w base i run c fits sum free =
    rw (page_is_free w i (free i (omega arith) (omega arith)), ==_ne (run + 1) count (omega arith))
      (scan_bits_run m left count w base (i + 1) (run + 1) c (omega arith) (omega arith)
        (λ j lo hi. free j (omega arith) (omega arith)))

-- One page is wanted, and `d` used pages stand before the first free one.
scan_bits_below :
    (d left w base i c : ℕ)
    → suc d < left
    → ((j : ℕ) → i ≤ j → j < i + suc d → bit w j ≡ 0)
    → bit w (i + suc d) ≡ 1
    → scan_bits 1 w base left i 0 c ≡ found (u64 (base + (i + d) * page_size))
unfolding scan_bits
scan_bits_below d zero w base i c fits used free = absurd (omega arith)
scan_bits_below zero (suc left) w base i c fits used free =
    rw (page_is_used w i (used i (omega arith) (omega arith))) (
      scan_bits_run 0 left 1 w base (i + 1) 0 (u64 (base + i * page_size)) (omega arith) refl
        (λ j lo hi. let at : j ≡ i + 1 = omega arith in ap (bit w) at ∙ free)
      ∙ ap (λ k. found (u64 (base + k * page_size))) (omega arith))
scan_bits_below (suc d) (suc left) w base i c fits used free =
    rw (page_is_used w i (used i (omega arith) (omega arith))) (
      scan_bits_below d left w base (i + 1) (u64 (base + i * page_size)) (omega arith)
        (λ j lo hi. used j (omega arith) (omega arith))
        (let at : i + 1 + suc d ≡ i + suc (suc d) = omega arith in ap (bit w) at ∙ free)
      ∙ ap (λ k. found (u64 (base + k * page_size))) (omega arith))

page_bit_first : (w : ℕ) (rest : List ℕ) (j : ℕ) → j < 64 → page_bit (w ∷ rest) j ≡ bit w j
page_bit_first w rest j h =
    let bucket : j / 64 ≡ 0 = omega arith in
    let digit : j % 64 ≡ j = omega arith in rw (bucket, digit) refl

ne_zero_of_bit : (w j : ℕ) → bit w j ≡ 1 → w ≢ 0
ne_zero_of_bit w j h e = omega (arith, rw e at h, bit-zero j)

scan_first_bucket :
    (count w : ℕ) (rest : List ℕ) (base c : ℕ)
    → w ≢ 0
    → scan_bits count w base 64 0 0 base ≡ found c
    → scan_buckets count (w ∷ rest) base 0 base ≡ some c
unfolding scan_buckets scan_bucket
scan_first_bucket count w rest base c ne finds =
    rw (scan_buckets, scan_bucket, ==_ne w 0 ne, finds) refl

search_run :
    (pages : List ℕ) (base m : ℕ)
    → length pages ≡ 40
    → m < 64
    → ((j : ℕ) → j < suc m → page_bit pages j ≡ 1)
    → scan_buckets (suc m) pages base 0 base ≡ some base
search_run [] base m size fits free = absurd (omega arith)
search_run (w ∷ rest) base m size fits free =
    let digit = λ (j : ℕ) (h : j < suc m). sym (page_bit_first w rest j (omega arith)) ∙ free j h in
    scan_first_bucket (suc m) w rest base base (ne_zero_of_bit w 0 (digit 0 (omega arith))) (
      scan_bits_run m 64 (suc m) w base 0 0 base fits (omega arith)
        (λ j lo hi. digit j (omega arith)))

search_below :
    (pages : List ℕ) (base d : ℕ)
    → length pages ≡ 40
    → suc d < 64
    → ((j : ℕ) → j < suc d → page_bit pages j ≡ 0)
    → page_bit pages (suc d) ≡ 1
    → scan_buckets 1 pages base 0 base ≡ some (u64 (base + d * page_size))
search_below [] base d size fits used free = absurd (omega arith)
search_below (w ∷ rest) base d size fits used free =
    let first : bit w (suc d) ≡ 1 = sym (page_bit_first w rest (suc d) fits) ∙ free in
    let here : 0 + suc d ≡ suc d = omega arith in
    scan_first_bucket 1 w rest base (u64 (base + d * page_size)) (ne_zero_of_bit w (suc d) first) (
      scan_bits_below d 64 w base 0 base fits
        (λ j lo hi. sym (page_bit_first w rest j (omega arith)) ∙ used j (omega arith))
        (ap (bit w) here ∙ first)
      ∙ ap (λ k. found (u64 (base + k * page_size))) (omega arith))

module _ (s : Paging) (sound : IsSound s) where
  -- The search's answer settles the call.
  placed_at :
      (count a c : ℕ)
      → scan_buckets count s.pages s.paging_phys_page_base 0 s.paging_phys_page_base ≡ some c
      → a + count ≤ 2560
      → c ≡ s.paging_phys_page_base + a * page_size
      → (s' : Paging) × (paging_alloc_pages count s ≡ some (u64 (c + s.paging_hhdm_start), s'))
        × Taken a count s s'
  placed_at count a c finds fits at_page =
      let (s', runs, taken) = take_pages-Taken count a c s sound fits at_page in
      (s', unfold paging_alloc_pages in rw (paging_alloc_pages, finds, runs) refl, taken)

  -- On a sound state where the first `count` pages of the array are free (from 1 up to a bucket of
  -- 64), a call returns the address of the first page and marks just those `count` as used.
  pub paging_alloc_pages-run :
      (count : ℕ)
      → 0 < count
      → count ≤ 64
      → ((j : ℕ) → j < count → page_bit s.pages j ≡ 1)
      → (s' : Paging) × (paging_alloc_pages count s
          ≡ some (u64 (s.paging_phys_page_base + s.paging_hhdm_start), s'))
        × Taken 0 count s s'
  paging_alloc_pages-run zero pos fits free = absurd (omega arith)
  paging_alloc_pages-run (suc m) pos fits free =
      placed_at (suc m) 0 s.paging_phys_page_base
        (search_run s.pages s.paging_phys_page_base m sound.size fits free) (omega arith)
        (omega arith)

  -- On a sound state where the first free page is page `d + 1` of the first bucket, a request for
  -- one page returns the address of page `d`, which is in use, and page `d + 1` stays marked as free.
  paging_alloc_pages-below :
      (d : ℕ)
      → suc d < 64
      → ((j : ℕ) → j < suc d → page_bit s.pages j ≡ 0)
      → page_bit s.pages (suc d) ≡ 1
      → (s' : Paging) × (paging_alloc_pages 1 s
          ≡ some (u64 (s.paging_phys_page_base + d * page_size + s.paging_hhdm_start), s'))
        × Taken d 1 s s'
        × (page_bit s'.pages (suc d) ≡ 1)
  paging_alloc_pages-below d fits used free =
      let wraps : u64 (s.paging_phys_page_base + d * page_size)
          ≡ s.paging_phys_page_base + d * page_size =
        omega (arith, sound.no_wrap) in
      let finds = search_below s.pages s.paging_phys_page_base d sound.size fits used free in
      let (s', runs, taken) =
        placed_at 1 d (s.paging_phys_page_base + d * page_size) (rw wraps at finds) (omega arith)
          refl in
      (s', runs, taken, ground (arith, taken.bits (suc d)))

-- On a sound state with the first two pages free, two requests for one page return the same
-- address: the second caller is handed the first caller's page.
pub paging_alloc_pages-twice :
    (s : Paging)
    → IsSound s
    → page_bit s.pages 0 ≡ 1
    → page_bit s.pages 1 ≡ 1
    → let page = u64 (s.paging_phys_page_base + s.paging_hhdm_start) in
      (s1 : Paging) × (s2 : Paging) × (paging_alloc_pages 1 s ≡ some (page, s1))
      × (paging_alloc_pages 1 s1 ≡ some (page, s2))
paging_alloc_pages-twice s sound first second =
    let (s1, runs1, taken) =
      paging_alloc_pages-run s sound 1 (omega arith) (omega arith)
        (λ j h. let at : j ≡ 0 = omega arith in ap (page_bit s.pages) at ∙ first) in
    let (s2, runs2, rest, still) =
      paging_alloc_pages-below s1 (Taken-IsSound sound taken) 0 (omega arith)
        (λ j h. let at : j ≡ 0 = omega arith in ground (arith, taken.bits j))
        (ground (arith, taken.bits 1)) in
    let same : u64 (s1.paging_phys_page_base + 0 * page_size + s1.paging_hhdm_start)
        ≡ u64 (s.paging_phys_page_base + s.paging_hhdm_start) =
      omega (arith, taken.base, taken.hhdm) in
    (s1, s2, runs1, runs2 ∙ ap (λ k. some (k, s2)) same)
