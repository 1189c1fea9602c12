-- ===== src/Paging/Frames.antt =====
-- `paging_alloc_pages` and `paging_free_pages` (src/mem/paging.c). `none` is an access out of the
-- bounds of `pages`.
use ssos.Base.{ℕ, zero, suc, ◌+◌, ◌-◌, ◌*◌, ◌/◌, ◌%◌, ◌^◌, Bool, true, false, ◌&&◌}
use ssos.Base.{Option, none, some, List, [], ◌∷◌, ◌>>=◌, bit_and, bit_or, u64, ltb, ◌==◌}
use ssos.Base.{if◌then◌else◌, get_elem?, set?}
use ssos.BitMath.{not64}
use ssos.Paging.{Paging, page_size, bucket_size}
use ssos.Paging.Tables.{paging_map_page}

-- `pages[bucket_index] & (1ULL << bit_index)`
unfoldable pub is_page_free : ℕ → ℕ → Bool
is_page_free bucket bit_index = if bit_and bucket (2 ^ bit_index) == 0 then false else true

-- Where the search stands: `free_consecutive_count` and `candidate_addr`, or the address found.
pub data Scan : Type 0 where
  searching : ℕ → ℕ → Scan
  found : ℕ → Scan

-- The loop over the bits of a bucket, with `left` rounds to go.
unfoldable pub scan_bits : ℕ → ℕ → ℕ → ℕ → ℕ → ℕ → ℕ → Scan
unfolding is_page_free
scan_bits count bucket bucket_base_addr zero bit_index free_consecutive_count candidate_addr =
    searching free_consecutive_count candidate_addr
scan_bits count bucket bucket_base_addr (suc left) bit_index free_consecutive_count candidate_addr =
    let is_free = is_page_free bucket bit_index in
    let run = if is_free then free_consecutive_count + 1 else 0 in
    let candidate =
      if is_free then candidate_addr else u64 (bucket_base_addr + bit_index * page_size) in
    let rest = scan_bits count bucket bucket_base_addr left (bit_index + 1) run candidate in
    if run == count then found candidate else rest

-- The body of the loop over the buckets: a bucket with no free page is passed over.
unfoldable pub scan_bucket : ℕ → ℕ → ℕ → ℕ → ℕ → Scan
scan_bucket count bucket bucket_base_addr free_consecutive_count candidate_addr =
    if bucket == 0
    then searching free_consecutive_count candidate_addr
    else scan_bits count bucket bucket_base_addr 64 0 free_consecutive_count candidate_addr

-- The loop over the buckets; `none` is the end of the array.
unfoldable pub scan_buckets : ℕ → List ℕ → ℕ → ℕ → ℕ → Option ℕ
scan_buckets count [] bucket_base_addr free_consecutive_count candidate_addr = none
scan_buckets count (bucket ∷ rest) bucket_base_addr free_consecutive_count candidate_addr =
    elim (scan_bucket count bucket bucket_base_addr free_consecutive_count candidate_addr) [
      | found candidate ↦ some candidate
      | searching run candidate ↦
          scan_buckets count rest (u64 (bucket_base_addr + bucket_size * page_size)) run candidate
    ]

-- `pages[page_idx / BUCKET_SIZE] &= ~(1ULL << (page_idx % BUCKET_SIZE))`
unfoldable pub clear_page : ℕ → List ℕ → Option (List ℕ)
clear_page page_idx pages = do
  bucket ← get_elem? pages (page_idx / bucket_size)
  set? pages (page_idx / bucket_size) (bit_and bucket (not64 (2 ^ (page_idx % bucket_size))))

-- The loop that maps the pages and marks them as used.
unfoldable pub take_pages : ℕ → ℕ → Paging → Option Paging
unfolding clear_page
take_pages zero curr_addr s = some s
take_pages (suc n) curr_addr s =
    let s' = paging_map_page curr_addr s.paging_kernel_pml4 s in
    let page_idx = u64 (curr_addr + 2 ^ 64 - s'.paging_phys_page_base) / page_size in
    clear_page page_idx s'.pages >>= λ pages.
    take_pages n (u64 (curr_addr + page_size)) (record s' { pages = pages })

-- The address returned, 0 for NULL, and the new state.
unfoldable pub paging_alloc_pages : ℕ → Paging → Option (ℕ × Paging)
paging_alloc_pages count s =
    elim (scan_buckets count s.pages s.paging_phys_page_base 0 s.paging_phys_page_base) [
      | none ↦ some (0, s)
      | some candidate_addr ↦ take_pages count candidate_addr s >>= λ s'.
          some (u64 (candidate_addr + s.paging_hhdm_start), s')
    ]

-- `pages[i / BUCKET_SIZE] |= 1ULL << (i % BUCKET_SIZE)`
unfoldable pub set_page : ℕ → List ℕ → Option (List ℕ)
set_page i pages = do
  bucket ← get_elem? pages (i / bucket_size)
  set? pages (i / bucket_size) (bit_or bucket (2 ^ (i % bucket_size)))

-- The loop from `curr_page_off` while it is below both limits, with fuel: `present` rounds are
-- enough, since the offset rises.
unfoldable pub release_pages : ℕ → ℕ → ℕ → ℕ → List ℕ → Option (List ℕ)
unfolding set_page
release_pages zero count present curr_page_off pages = some pages
release_pages (suc fuel) count present curr_page_off pages =
    let rest = set_page curr_page_off pages >>= λ pages'.
    release_pages fuel count present (curr_page_off + 1) pages' in
    if ltb curr_page_off count && ltb curr_page_off present then rest else some pages

unfoldable pub paging_free_pages : ℕ → ℕ → Paging → Option Paging
unfolding release_pages
paging_free_pages addr count s =
    let phys_page_addr = u64 (addr + 2 ^ 64 - s.paging_hhdm_start) in
    if phys_page_addr % page_size == 0
    then (if ltb phys_page_addr s.paging_phys_page_base
        then some s
        else (let curr_page_off = (phys_page_addr - s.paging_phys_page_base) / page_size in
            do
              pages ←
                  release_pages s.paging_present_page_count count s.paging_present_page_count
                    curr_page_off s.pages
              some (record s { pages = pages })))
    else some s
