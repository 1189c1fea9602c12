-- ===== src/Paging/Alloc.antt =====
-- What `paging_alloc_pages` returns.
pub mod Search
pub mod First
