-- ===== src/Gpt/Init.antt =====
-- `gpt_init` over a working drive and a fresh heap.
use ssos.Base.{ℕ, ◌+◌, ◌/◌, ◌%◌, ◌^◌, ◌≤◌, ◌<◌, ◌≡◌, ◌↔◌, refl, arith, ◌∙◌}
use ssos.Base.{false, ◌==◌, if◌then◌else◌, ==_ne, pos, negsuc, some, ◌⊎◌, inl, inr}
use ssos.Kalloc.{Kalloc, kmalloc, kfree}
use ssos.Kalloc.Undo.Page.{IsFresh, kfree-kmalloc}
use ssos.Paging.{Paging}
use ssos.Memory.{memset}
use ssos.Memory.Move.{memset_lem}
use ssos.Ports.{Ports}
use ssos.Disk.{disk_read}
use ssos.Disk.Drive.{Drive, IsAta, Misled}
use ssos.Disk.Read.{Loaded, disk_read-Loaded}
use ssos.Gpt.{Gpt, Result, gpt_init, is_zero, read_gpt, check_header}
use ssos.Gpt.Header.{without_checksum, IsHeader, check_header_iff}

-- The byte `k` of the sector 1, on a disk of words.
abbrev pub header_byte : (ℕ → ℕ) → ℕ → ℕ
header_byte disk k = if k % 2 == 0 then disk (256 + k / 2) % 256 else disk (256 + k / 2) / 256 % 256

header_read :
    (disk : ℕ → ℕ) (p : ℕ) (byte byte' : ℕ → ℕ)
    → Loaded disk 256 256 p byte byte'
    → (k : ℕ) → k < 512
    → byte' (p + k) ≡ header_byte disk k
header_read disk p byte byte' loaded k lt =
    ground (arith, loaded.low (k / 2) (omega arith), loaded.high (k / 2) (omega arith))

pub checksum_cleared :
    (p : ℕ) (h byte : ℕ → ℕ)
    → ((k : ℕ) → k < 512 → byte (p + k) ≡ h k)
    → (k : ℕ) → k < 512
    → memset (p + 0x10) 0 4 byte (p + k) ≡ without_checksum h k
checksum_cleared p h byte same k lt =
    memset_lem (p + 0x10) 0 4 byte (p + k) ∙ ground (arith, same k lt)

-- The calls, where each of them succeeds.
gpt_step :
    {D : Type 0} (io : Ports D) (walk fuel p : ℕ) (heap heap1 heap2 : Kalloc) (gpt : Gpt)
    (byte byte' : ℕ → ℕ) (d d' : D)
    → kmalloc 512 heap ≡ some (p, heap1)
    → (p == 0) ≡ false
    → disk_read io fuel 1 1 p byte d ≡ some (pos 0, byte', d')
    → kfree walk p heap1 ≡ some heap2
    → gpt_init io walk fuel heap gpt byte d
      ≡ some (record {
        ret = check_header p byte' (memset (p + 0x10) 0 4 byte');
        gpt = read_gpt p (memset (p + 0x10) 0 4 byte');
        heap = heap2;
        byte = memset (p + 0x10) 0 4 byte';
        device = d';
      })
unfolding gpt_init is_zero
gpt_step io walk fuel p heap heap1 heap2 gpt byte byte' d d' served real read freed =
    rw (served, real, read, freed) refl

-- The calls, where the disk cannot be read.
gpt_unread_step :
    {D : Type 0} (io : Ports D) (walk fuel p : ℕ) (heap heap1 heap2 : Kalloc) (gpt : Gpt)
    (byte byte' : ℕ → ℕ) (d d' : D)
    → kmalloc 512 heap ≡ some (p, heap1)
    → (p == 0) ≡ false
    → disk_read io fuel 1 1 p byte d ≡ some (negsuc 0, byte', d')
    → kfree walk p heap1 ≡ some heap2
    → gpt_init io walk fuel heap gpt byte d
      ≡ some (record { ret = negsuc 1; gpt = gpt; heap = heap2; byte = byte'; device = d' })
unfolding gpt_init is_zero
gpt_unread_step io walk fuel p heap heap1 heap2 gpt byte byte' d d' served real read freed =
    rw (served, real, read, freed) refl

pub gpt_init-IsHeader :
    {D : Type 0} (io : Ports D) (view : D → Drive) (disk : ℕ → ℕ) (patience walk fuel base : ℕ)
    (paging : Paging) (heap : Kalloc) (gpt : Gpt) (byte : ℕ → ℕ) (d : D)
    → 0 < base
    → base % 2 ^ 21 ≡ 0
    → base + 2 ^ 21 < 2 ^ 64
    → IsFresh base paging heap
    → IsAta io view disk patience
    → patience < fuel
    → (view d).busy ≤ patience
    → (r : Result D) × (gpt_init io walk fuel heap gpt byte d ≡ some r)
      × IsFresh base paging r.heap
      × (((r.ret ≡ pos 0) ↔ IsHeader (header_byte disk))
          ⊎ ((r.ret ≡ negsuc 1) × Misled io view r.device))
gpt_init-IsHeader io view disk patience walk fuel base paging heap gpt byte d real aligned fits
      fresh ata enough quiet =
    let (p, heap1, heap2, served, above, within, freed, again) =
      kfree-kmalloc base paging real aligned fits walk 512 heap fresh (omega arith) (omega arith) in
    elim (disk_read-Loaded io view disk patience fuel 1 1 p byte d ata enough quiet (omega arith)
      (omega arith) (omega arith)) [
        | inl (byte', d', read, loaded) ↦
            let same = header_read disk p byte byte' loaded in
            let zeroed = memset (p + 0x10) 0 4 byte' in
            (
              record {
                ret = check_header p byte' zeroed;
                gpt = read_gpt p zeroed;
                heap = heap2;
                byte = zeroed;
                device = d';
              },
              gpt_step io walk fuel p heap heap1 heap2 gpt byte byte' d d' served
                  (==_ne p 0 (omega arith)) read freed,
              again,
              inl (
                  check_header_iff p (header_byte disk) byte' zeroed same
                    (checksum_cleared p (header_byte disk) byte' same)),
            )
        | inr (k, byte', d', lt, read, loaded, misled) ↦ (
          record { ret = negsuc 1; gpt = gpt; heap = heap2; byte = byte'; device = d' },
          gpt_unread_step io walk fuel p heap heap1 heap2 gpt byte byte' d d' served
              (==_ne p 0 (omega arith)) read freed,
          again,
          inr (refl, misled),
        )
      ]
