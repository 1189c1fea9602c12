-- ===== src/Kalloc/Heap.antt =====
-- One page of the allocator as a tree of blocks, split in halves: what `kmalloc` and `kfree` make of it.
pub mod Tree
pub mod Focus
pub mod Merged
pub mod Chain
pub mod Rep
pub mod Lists
pub mod Remove
pub mod Alloc
pub mod Serve
pub mod Request
pub mod Merge
pub mod Free
pub mod Release
pub mod Blocks
pub mod Empty
pub mod Client
pub mod Reach
pub mod Spare
mod Tests
