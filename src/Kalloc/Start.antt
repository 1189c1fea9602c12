-- ===== src/Kalloc/Start.antt =====
-- The allocator that `kalloc_init` sets up.
use mathlib.Core.Bool.{true≢false}
use ssos.Base.{ℕ, ◌≡◌, refl, sym, arith, ap, Bool, true, false}
use ssos.Base.{some, get_elem?, branch, if_true, ◌==◌, ==_refl}
use ssos.Base.{replicate, set, if◌then◌else◌}
use ssos.Paging.{Paging}
use ssos.Paging.Frames.{paging_alloc_pages}
use ssos.Paging.Take.{IsSound}
use ssos.Kalloc.{MemBlock, Kalloc, kalloc_init, unused, set_block, set_head}
use ssos.Kalloc.Undo.Lists.{lone}
use ssos.Kalloc.Undo.Page.{IsFresh}
use ssos.Kalloc.Grow.{Returns, returns, alloc_sound}

-- What `kalloc_init` promises: a free page as the one block of the heap, where it has one.
abbrev pub Initial : Bool → Kalloc → Type 0
Initial done s =
    done ≡ true
    → (b : ℕ) × ((b == 0) ≡ false)
      × (get_elem? s.mem_blocks 18 ≡ some b)
      × ((s.block b).is_free ≡ true)
      × IsFresh b s.paging s

own_page : (block : ℕ → MemBlock) (p : ℕ) → (if p == p then lone 18 else block p) ≡ lone 18
own_page block p = if_true (p == p) (lone 18) (block p) (==_refl p p refl)

-- `kalloc_init` on the static variables of the loaded kernel and a sound frame allocator is defined
-- and leaves the allocator whole; and where it reports success, the list of the level of pages
-- starts with a free block, and that page is the one block of the heap.
pub kalloc_init-Returns :
    (block : ℕ → MemBlock) (paging : Paging)
    → IsSound paging
    → Returns Initial (kalloc_init (unused block paging))
unfolding kalloc_init unused set_block set_head
kalloc_init-Returns block paging sound =
    let (p, paging', run, sound') = alloc_sound 1 paging sound in go p paging' run sound'
  where
    go :
        (p : ℕ) (paging' : Paging)
        → paging_alloc_pages 1 paging ≡ some (p, paging')
        → IsSound paging'
        → Returns Initial (kalloc_init (unused block paging))
    go p paging' run sound' = rw run (
        branch (Returns Initial) (p == 0)
          (λ e.
            returns false (record (unused block paging) { paging = paging' }) refl
              (record {
                heads = refl;
                low = omega arith;
                high = omega arith;
                size = refl;
                frames = sound';
              })
              (λ h. absurd (true≢false (sym h))))
          (λ e.
            returns true
              (set_block p (record { next = 0; level = 18; is_free = true })
                (record (unused block paging) {
                  mem_blocks = set (replicate 34 0) 18 p;
                  paging = paging';
                }))
              refl
              (record {
                heads = refl;
                low = omega arith;
                high = omega arith;
                size = refl;
                frames = sound';
              })
              (λ h. (
                p,
                e,
                refl,
                ap (λ (b : MemBlock). b.is_free) (own_page block p),
                record {
                  common = record { size = refl; level = refl; block_size = refl; frames = refl };
                  heads = refl;
                  page = own_page block p;
                },
              ))))
