-- ===== src/Kalloc/Undo.antt =====
-- `kfree` undoes `kmalloc`: the blocks of one page between the split and the merge.
pub mod Buddy
pub mod Lists
pub mod Split
pub mod Merge
pub mod Page
pub mod Wrap
