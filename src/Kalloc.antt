-- ===== src/Kalloc.antt =====
-- The kernel's buddy allocator (src/mem/mem.c: `kalloc_init`, `kmalloc`, `kfree`). The headers of
-- blocks are a store of their own beside the words of the page tables. `none` is what C leaves
-- undefined: an access out of the bounds of `mem_blocks`, or a logarithm of 0.
pub mod Level
pub mod Grow
pub mod Split
pub mod Start
pub mod Undo
pub mod Heap
mod Tests
use ssos.Base.{ℕ, zero, suc, ◌+◌, ◌-◌, ◌*◌, ◌/◌, ◌%◌, ◌^◌, Bool, true, false, not, ◌&&◌, List}
use ssos.Base.{Option, none, some, ◌>>=◌, get_elem?, set?, replicate, bit_xor, u64}
use ssos.Base.{ltb, leb, ◌==◌, if◌then◌else◌}
use ssos.BitMath.{align_up, round_pow2_boundary, logb}
use ssos.Paging.{Paging, page_size}
use ssos.Paging.Frames.{paging_alloc_pages}

-- KERNEL_MEM_ALIGNMENT
abbrev pub kernel_mem_alignment : ℕ
kernel_mem_alignment = 16

-- MEM_BLOCKS_MAX_LEVEL_COUNT
abbrev pub mem_blocks_max_level_count : ℕ
mem_blocks_max_level_count = 34

-- MEM_BLOCKS_BASE_LEVEL
abbrev pub mem_blocks_base_level : ℕ
mem_blocks_base_level = 3

-- `struct mem_block`; a NULL pointer is 0. Levels stay below 34, so they fit their byte.
pub record MemBlock : Type 0 where
  pub next : ℕ
  pub level : ℕ
  pub is_free : Bool

-- The static variables, the header at each address, and the state of the frame allocator.
pub record Kalloc : Type 0 where
  pub mem_blocks : List ℕ
  pub highest_block_size : ℕ
  pub highest_level : ℕ
  pub block : ℕ → MemBlock
  pub paging : Paging

-- The static variables as the kernel is loaded.
unfoldable pub unused : (ℕ → MemBlock) → Paging → Kalloc
unused block paging = record {
  mem_blocks = replicate 34 0;
  highest_block_size = page_size;
  highest_level = 21 - mem_blocks_base_level;
  block = block;
  paging = paging;
}

-- `*addr = b`
unfoldable pub set_block : ℕ → MemBlock → Kalloc → Kalloc
set_block addr b s = record s { block = λ a. if a == addr then b else s.block a }

-- `mem_blocks[level] = addr`
unfoldable pub set_head : ℕ → ℕ → Kalloc → Option Kalloc
set_head level addr s = do
  heads ← set? s.mem_blocks level addr
  some (record s { mem_blocks = heads })

-- `ALIGN_UP(sizeof(mem_block_t), KERNEL_MEM_ALIGNMENT)`, the size being 16 on x86-64.
unfoldable pub meta_size : ℕ
meta_size = align_up 16 kernel_mem_alignment

-- Returns whether there was a page (0) or not (-1).
unfoldable pub kalloc_init : Kalloc → Option (Bool × Kalloc)
unfolding set_block set_head
kalloc_init s = paging_alloc_pages 1 s.paging >>= λ r.
    let s' : Kalloc = record s { paging = r.1 } in
    if r.0 == 0
    then some (false, s')
    else (set_head s'.highest_level r.0 s' >>= λ s''.
        some (
          true,
          set_block r.0 (record { next = 0; level = s''.highest_level; is_free = true }) s'',
        ))

-- The loop that adds larger blocks, with fuel: whether it ended by its test (true) or the function
-- returns NULL (false). The level rises at each round, so that as many rounds as levels are enough.
unfoldable pub grow : ℕ → ℕ → Kalloc → Option (Bool × Kalloc)
grow zero bytes s = none
grow (suc fuel) bytes s =
    let level = s.highest_level + 1 in
    let size = u64 (s.highest_block_size * 2) in
    let round = paging_alloc_pages (size / page_size) s.paging >>= λ r.
    set_head level r.0 (record s { highest_block_size = size; highest_level = level; paging = r.1 })
    >>= λ s'.
        if r.0 == 0
        then some (false, s')
        else grow fuel bytes
            (set_block r.0 (record { next = 0; level = level; is_free = true }) s') in
    if ltb s.highest_block_size bytes
    then (if leb mem_blocks_max_level_count level then some (false, s) else round)
    else some (true, s)

-- `logb(round_pow2_boundary(bytes)) - MEM_BLOCKS_BASE_LEVEL`; a negative level is no index.
unfoldable pub target_level_of : ℕ → Option ℕ
target_level_of bytes = do
  exponent ← logb (round_pow2_boundary bytes)
  if ltb exponent mem_blocks_base_level then none else some (exponent - mem_blocks_base_level)

-- Takes the free block at the head of a level, which is not NULL, out of its list for the caller.
unfoldable pub take_head : ℕ → ℕ → Kalloc → Option (ℕ × Kalloc)
take_head level free_block s = do
  s' ← set_head level (s.block free_block).next s
  some (
    u64 (free_block + meta_size),
    set_block free_block (record (s.block free_block) { is_free = false; next = 0 }) s',
  )

-- Puts a half of a split block in front of the list of its level.
unfoldable pub push_half : ℕ → ℕ → Kalloc → Option Kalloc
push_half level addr s = do
  head ← get_elem? s.mem_blocks level
  set_head level addr (set_block addr (record { next = head; level = level; is_free = true }) s)

-- The loop that splits larger blocks: `left` rounds for the levels `target_level + left - 1` down
-- to `target_level`.
unfoldable pub split_loop : ℕ → ℕ → Kalloc → Option (ℕ × Kalloc)
split_loop target_level zero s = some (0, s)
split_loop target_level (suc left) s =
    let curr_level = target_level + left in
    let block_size = 2 ^ (curr_level + mem_blocks_base_level) in
    let pass = split_loop target_level left s in
    let split = λ (free_block : ℕ).
      (set_head curr_level (s.block free_block).next s >>= λ s1.
      push_half (curr_level - 1) free_block s1 >>= λ s2.
      push_half (curr_level - 1) (u64 (free_block + block_size / 2)) s2 >>= λ s3.
      split_loop target_level left s3) in
    get_elem? s.mem_blocks curr_level >>= λ free_block.
    if free_block == 0
    then pass
    else if left == 0
    then take_head curr_level free_block s
    else split free_block

-- The part behind the loop that grows the heap.
unfoldable pub allocate : ℕ → Kalloc → Option (ℕ × Kalloc)
allocate bytes s = target_level_of bytes >>= λ target_level.
    get_elem? s.mem_blocks target_level >>= λ free_block.
    if free_block == 0
    then split_loop target_level (s.highest_level + 1 - target_level) s
    else take_head target_level free_block s

-- The address returned, 0 for NULL.
unfoldable pub kmalloc : ℕ → Kalloc → Option (ℕ × Kalloc)
kmalloc bytes s =
    if bytes == 0
    then some (0, s)
    else (let needed = u64 (bytes + meta_size) in
        grow mem_blocks_max_level_count needed s >>= λ r.
        if r.0 then allocate needed r.1 else some (0, r.1))

-- The walk along a free list to the block before the buddy, with fuel.
unfoldable pub unlink_behind : ℕ → ℕ → ℕ → Kalloc → Option Kalloc
unlink_behind zero prev buddy s = none
unlink_behind (suc fuel) prev buddy s =
    let rest = unlink_behind fuel (s.block prev).next buddy s in
    if prev == 0
    then some s
    else if (s.block prev).next == buddy
    then some (set_block prev (record (s.block prev) { next = (s.block buddy).next }) s)
    else rest

-- Removes the buddy from the free list of its level.
unfoldable pub remove_buddy : ℕ → ℕ → ℕ → Kalloc → Option Kalloc
remove_buddy fuel level buddy s = get_elem? s.mem_blocks level >>= λ head.
    if head == buddy then set_head level (s.block buddy).next s else unlink_behind fuel head buddy s

-- The loop that merges buddies, with fuel for its rounds and for each walk.
unfoldable pub merge_loop : ℕ → ℕ → ℕ → Kalloc → Option (ℕ × Kalloc)
merge_loop walk zero block s = none
merge_loop walk (suc fuel) block s =
    let level = (s.block block).level in
    let buddy = bit_xor block (2 ^ (level + mem_blocks_base_level)) in
    let lower = if ltb buddy block then buddy else block in
    let merge = remove_buddy walk level buddy s >>= λ s'.
    merge_loop walk fuel lower
      (set_block lower (record (s'.block lower) { level = (s'.block lower).level + 1 }) s') in
    if ltb level s.highest_level
    then (if not ((s.block buddy).is_free && (s.block buddy).level == level)
        then some (block, s)
        else merge)
    else some (block, s)

-- `walk` bounds the length of the free lists.
unfoldable pub kfree : ℕ → ℕ → Kalloc → Option Kalloc
kfree walk mem s =
    if mem == 0
    then some s
    else (let block = u64 (mem + 2 ^ 64 - meta_size) in
        merge_loop walk mem_blocks_max_level_count block
          (set_block block (record (s.block block) { is_free = true }) s)
        >>= λ r.
            let merged = r.0 in
            let level = (r.1.block merged).level in
            get_elem? r.1.mem_blocks level >>= λ head.
            set_head level merged
              (set_block merged (record (r.1.block merged) { next = head }) r.1))
