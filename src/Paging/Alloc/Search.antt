-- ===== src/Paging/Alloc/Search.antt =====
-- The search stays within the array, whatever the bitmap is.
use ssos.Base.{ℕ, zero, suc, ◌+◌, ◌*◌, ◌^◌, ◌≤◌, ◌<◌, ◌≡◌, ◌⊎◌, inl, inr, refl, arith, ap, ◌∙◌}
use ssos.Base.{Bool-cases, Option, none, some, Option-cases, List, [], ◌∷◌, ◌==◌, ==_iff, u64}
use ssos.Base.{length, branch}
use ssos.Paging.{Paging, page_size}
use ssos.Paging.Frames.{
  Scan, searching, found, is_page_free, scan_bits, scan_bucket, scan_buckets, paging_alloc_pages,
}
use ssos.Paging.Take.{IsSound, Taken, take_pages-Taken}

-- `c` is the address of a page, and the `n` pages from it on end at position `limit` or before.
record OnPage (base c n limit : ℕ) : Type 0 where
  page : ℕ
  address : c ≡ base + page * page_size
  ends : page + n ≤ limit

-- The search stands within the first `limit` pages.
data Within (base count limit : ℕ) : Scan → Type 0 where
  goes_on : {run c : ℕ} → OnPage base c run limit → Within base count limit (searching run c)
  stops : {c : ℕ} → OnPage base c count limit → Within base count limit (found c)

module _ (base count : ℕ) (no_wrap : base + 2560 * page_size < 2 ^ 64) where
  scan_bits-Within :
      (w b left i run c : ℕ)
      → b < 40
      → i + left ≡ 64
      → OnPage base c run (b * 64 + i)
      → Within base count (b * 64 + 64) (scan_bits count w (base + b * 64 * page_size) left i run c)
  unfolding scan_bits
  scan_bits-Within w b zero i run c hb turn p =
      goes_on (record { page = p.page; address = p.address; ends = omega (arith, p.ends) })
  scan_bits-Within w b (suc left) i run c hb turn p = elim (Bool-cases (is_page_free w i)) [
    | inl free ↦ rw free (
        branch (Within base count (b * 64 + 64)) (run + 1 == count)
          (λ e. stops (record {
            page = p.page;
            address = p.address;
            ends = omega (arith, p.ends, (==_iff _ _).0 e);
          }))
          λ e.
            scan_bits-Within w b left (i + 1) (run + 1) c hb (omega arith)
              (record { page = p.page; address = p.address; ends = omega (arith, p.ends) }))
    | inr used ↦ rw used (
        branch (Within base count (b * 64 + 64)) (0 == count)
          (λ e. stops (record {
            page = b * 64 + i;
            address = omega (arith, no_wrap);
            ends = omega (arith, (==_iff 0 count).0 e);
          }))
          λ e.
            scan_bits-Within w b left (i + 1) 0 (u64 (base + b * 64 * page_size + i * page_size)) hb
              (omega arith)
              (record { page = b * 64 + i; address = omega (arith, no_wrap); ends = omega arith }))
  ]

  scan_bucket-Within :
      (w b run c : ℕ)
      → b < 40
      → OnPage base c run (b * 64)
      → Within base count (b * 64 + 64) (scan_bucket count w (base + b * 64 * page_size) run c)
  unfolding scan_bucket
  scan_bucket-Within w b run c hb p =
      branch (Within base count (b * 64 + 64)) (w == 0)
        (λ e. goes_on (record { page = p.page; address = p.address; ends = omega (arith, p.ends) }))
        λ e.
          scan_bits-Within w b 64 0 run c hb refl
            (record { page = p.page; address = p.address; ends = omega (arith, p.ends) })

  -- A result of the search of the buckets is a page with room for the run behind it.
  abbrev IsPlaced : Option ℕ → Type 0
  IsPlaced r = (c : ℕ) → r ≡ some c → OnPage base c count 2560

  scan_buckets-IsPlaced :
      (buckets : List ℕ) (b base' run c : ℕ)
      → b + length buckets ≡ 40
      → (b < 40 → base' ≡ base + b * 64 * page_size)
      → OnPage base c run (b * 64)
      → IsPlaced (scan_buckets count buckets base' run c)
  unfolding scan_buckets
  scan_buckets-IsPlaced [] b base' run c long at p = λ c e. cc
  scan_buckets-IsPlaced (w ∷ rest) b base' run c long at p =
      let hb : b < 40 = omega arith in
      rw (at hb) (
        after (scan_bucket count w (base + b * 64 * page_size) run c)
          (scan_bucket-Within w b run c hb p)
          λ run' c' p'.
            scan_buckets-IsPlaced rest (b + 1) (u64 (base + b * 64 * page_size + 64 * page_size))
              run' c' (omega arith) (λ h. omega (arith, no_wrap))
              (record { page = p'.page; address = p'.address; ends = omega (arith, p'.ends) }))
    where
      after :
          (r : Scan)
          → Within base count (b * 64 + 64) r
          → ((run' c' : ℕ)
              → OnPage base c' run' (b * 64 + 64)
              → IsPlaced (
                  scan_buckets count rest
                    (u64 (base + b * 64 * page_size + 64 * page_size))
                    run'
                    c'))
          → IsPlaced (elim r [
            | found candidate ↦ some candidate
            | searching run' c' ↦
                scan_buckets count rest (u64 (base + b * 64 * page_size + 64 * page_size)) run' c'
          ])
      after (found c0) (stops q) next c1 e =
          let same : c1 ≡ c0 = cc in
          record { page = q.page; address = same ∙ q.address; ends = omega (arith, q.ends, long) }
      after (searching run' c') (goes_on q) next c1 e = next run' c' q c1 e

-- The two outcomes of a call: NULL, with nothing changed; or the address of `count` pages within
-- the array, which are marked as used, with no other page's bit changed.
pub data Outcome (count : ℕ) (s : Paging) (r : Option (ℕ × Paging)) : Type 0 where
  null : r ≡ some (0, s) → Outcome count s r
  placed :
      (a : ℕ) (s' : Paging)
      → r ≡ some (u64 (s.paging_phys_page_base + a * page_size + s.paging_hhdm_start), s')
      → a + count ≤ 2560
      → Taken a count s s'
      → Outcome count s r

-- On a sound state `paging_alloc_pages` never goes out of bounds, for any bitmap and any count. It
-- returns NULL and changes nothing; or it returns the virtual address of some page `a` with
-- `count` pages of the array from it on, and has cleared exactly the bits of those.
pub paging_alloc_pages-Outcome :
    (count : ℕ) (s : Paging) → IsSound s → Outcome count s (paging_alloc_pages count s)
unfolding paging_alloc_pages
paging_alloc_pages-Outcome count s sound = go (Option-cases found_at)
  where
    found_at : Option ℕ
    found_at = scan_buckets count s.pages s.paging_phys_page_base 0 s.paging_phys_page_base

    place : IsPlaced s.paging_phys_page_base count sound.no_wrap found_at
    place =
        scan_buckets-IsPlaced s.paging_phys_page_base count sound.no_wrap s.pages 0
          s.paging_phys_page_base 0 s.paging_phys_page_base (omega (arith, sound.size))
          (λ h. omega arith) (record { page = 0; address = omega arith; ends = omega arith })

    go :
        (found_at ≡ none) ⊎ ((c : ℕ) × (found_at ≡ some c))
        → Outcome count s (paging_alloc_pages count s)
    go (inl e) = null (rw (paging_alloc_pages, e) refl)
    go (inr (c, e)) =
        let p = place c e in
        let (s', runs, taken) = take_pages-Taken count p.page c s sound p.ends p.address in
        placed p.page s'
          (rw (paging_alloc_pages, e, runs)
            (ap (λ k. some (u64 (k + s.paging_hhdm_start), s')) p.address))
          p.ends taken
