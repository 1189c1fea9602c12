-- ===== src/Paging/Take.antt =====
-- The loop of `paging_alloc_pages` that marks pages as used.
use ssos.Base.{ℕ, zero, suc, ◌+◌, ◌-◌, ◌*◌, ◌/◌, ◌^◌, ◌≤◌, ◌<◌, ◌≡◌, refl, ap, arith, ◌∙◌}
use ssos.Base.{◌&&◌, some, ltb, leb, u64, if◌then◌else◌, ◌>>=◌, length}
use ssos.Paging.{Paging, page_size}
use ssos.Paging.Tables.{paging_map_page, SameFrames, paging_map_page-SameFrames}
use ssos.Paging.Frames.{clear_page, take_pages}
use ssos.Paging.Bitmap.{page_bit, clear_page-IsChanged}

-- The array has its 40 buckets, and the addresses of its pages do not wrap.
pub record IsSound (s : Paging) : Type 0 where
  pub size : length s.pages ≡ 40
  pub no_wrap : s.paging_phys_page_base + 2560 * page_size < 2 ^ 64

-- From `s` to `s'` the `n` pages from page `a` on have been marked as used, and no other has
-- changed.
pub record Taken (a n : ℕ) (s s' : Paging) : Type 0 where
  pub hhdm : s'.paging_hhdm_start ≡ s.paging_hhdm_start
  pub base : s'.paging_phys_page_base ≡ s.paging_phys_page_base
  pub present : s'.paging_present_page_count ≡ s.paging_present_page_count
  pub size : length s'.pages ≡ 40
  pub bits :
      (j : ℕ) → page_bit s'.pages j ≡ (if leb a j && ltb j (a + n) then 0 else page_bit s.pages j)

-- One round of the loop.
take_page :
    (a curr_addr : ℕ) (s : Paging)
    → IsSound s
    → a < 2560
    → curr_addr ≡ s.paging_phys_page_base + a * page_size
    → (s' : Paging) × ((n : ℕ)
        → take_pages (suc n) curr_addr s ≡ take_pages n (u64 (curr_addr + page_size)) s')
      × Taken a 1 s s'
unfolding take_pages
take_page a curr_addr s sound fits at_page =
    let s1 = paging_map_page curr_addr s.paging_kernel_pml4 s in
    let same : SameFrames s s1 = paging_map_page-SameFrames curr_addr s.paging_kernel_pml4 s in
    let idx : u64 (curr_addr + 2 ^ 64 - s1.paging_phys_page_base) / page_size ≡ a =
      omega (arith, same.base, sound.no_wrap) in
    let (pages', clears, size, bits) =
      clear_page-IsChanged s1.pages a (ap length same.pages ∙ sound.size) (omega arith) in
    (
      record s1 { pages = pages' },
      λ n.
          ap
            (λ r. r >>= λ pages.
              take_pages n (u64 (curr_addr + page_size)) (record s1 { pages = pages }))
            (ap (λ k. clear_page k s1.pages) idx ∙ clears),
      record {
        hhdm = same.hhdm;
        base = same.base;
        present = same.present;
        size = size;
        bits = λ j. ground (arith, bits j, ap (λ p. page_bit p j) same.pages);
      },
    )

Taken-trans :
    {a n : ℕ} {s s1 s2 : Paging} → Taken a 1 s s1 → Taken (a + 1) n s1 s2 → Taken a (suc n) s s2
Taken-trans p q = record {
  hhdm = q.hhdm ∙ p.hhdm;
  base = q.base ∙ p.base;
  present = q.present ∙ p.present;
  size = q.size;
  bits = λ j. ground (arith, p.bits j, q.bits j);
}

pub Taken-IsSound : {a n : ℕ} {s s' : Paging} → IsSound s → Taken a n s s' → IsSound s'
Taken-IsSound sound t = record { size = t.size; no_wrap = omega (arith, t.base, sound.no_wrap) }

pub take_pages-Taken :
    (n a curr_addr : ℕ) (s : Paging)
    → IsSound s
    → a + n ≤ 2560
    → curr_addr ≡ s.paging_phys_page_base + a * page_size
    → (s' : Paging) × (take_pages n curr_addr s ≡ some s') × Taken a n s s'
take_pages-Taken zero a curr_addr s sound fits at_page = (
  s,
  unfold take_pages in refl,
  record { hhdm = refl; base = refl; present = refl; size = sound.size; bits = λ j. ground arith },
)
take_pages-Taken (suc n) a curr_addr s sound fits at_page =
    let (s1, step, taken) = take_page a curr_addr s sound (omega arith) at_page in
    let (s2, runs, rest) =
      take_pages-Taken n (a + 1) (u64 (curr_addr + page_size)) s1 (Taken-IsSound sound taken)
        (omega arith) (omega (arith, taken.base, sound.no_wrap)) in
    (s2, step n ∙ runs, Taken-trans taken rest)
