-- ===== src/Disk/Read.antt =====
-- What `disk_read` reads from a drive.
use ssos.Base.{
  ℕ, zero, suc, ◌+◌, ◌*◌, ◌/◌, ◌%◌, ◌^◌, ◌≤◌, ◌<◌, ◌≡◌, ◌≢◌, ◌⊎◌, refl, sym, ap, arith, ◌∙◌,
}
use ssos.Base.{true, [], Option, some, length, ℤ, pos, negsuc, inl, inr}
use ssos.Base.{
  bit_and, bit_or, ◌==◌, leb, if◌then◌else◌, all_below, all_below_sound, ==_iff, bit_and-ones_mod,
}
use ssos.Ports.{Ports}
use ssos.Memory.{store_byte}
use ssos.Disk.{store_u16, delay, address_sectors, read_sectors, disk_read}
use ssos.Disk.Drive.{
  Drive, IsAta, Misled, lba, sectors, words, load, load_add, load_at, same_words, length-words,
}
use ssos.Disk.Drive.{delay_view, wait_idle_view, wait_data_view, read_words_view}

head_digits : all_below 16 (λ x. bit_or 0xE0 x % 16 == x) ≡ true
unfolding all_below
head_digits = refl

head_lem : (x : ℕ) → x < 16 → bit_or 0xE0 x % 16 ≡ x
head_lem x lt =
    (==_iff (bit_or 0xE0 x % 16) x).0
      (all_below_sound 16 (λ x. bit_or 0xE0 x % 16 == x) x head_digits lt)

module _ {D : Type 0} (io : Ports D) (view : D → Drive) (disk : ℕ → ℕ) (patience : ℕ)
    (ata : IsAta io view disk patience) where
  -- All `n` sectors are in memory, or the first `k` are and the next is given up for a bit ERR that
  -- meant nothing.
  abbrev ReadOrMisled : ℕ → ℕ → ℕ → (ℕ → ℕ) → Option (ℤ × (ℕ → ℕ) × D) → Type 0
  ReadOrMisled n start addr byte call =
      ((d' : D) × (call ≡ some (pos 0, load disk start (256 * n) addr byte, d')))
      ⊎ ((k : ℕ) × (d' : D) × (k < n)
          × (call ≡ some (negsuc 0, load disk start (256 * k) addr byte, d'))
          × Misled io view d')

  load_sector :
      (n start addr : ℕ) (byte : ℕ → ℕ)
      → load disk (start + 256) (256 * n) (addr + 512) (load disk start 256 addr byte)
        ≡ load disk start (256 * suc n) addr byte
  load_sector n start addr byte =
      sym (load_add disk start 256 (256 * n) addr byte)
      ∙ load_at disk byte start start (256 + 256 * n) (256 * suc n) addr addr refl (omega arith)
          refl

  read_sectors_view :
      (fuel n start addr : ℕ) (byte : ℕ → ℕ) (d : D)
      → patience < fuel
      → (view d).busy ≤ patience
      → (view d).pending ≡ words disk start (256 * n)
      → ReadOrMisled n start addr byte (read_sectors io fuel n addr byte d)
  unfolding read_sectors
  read_sectors_view fuel zero start addr byte d enough quiet left = inl (d, refl)
  read_sectors_view fuel (suc n) start addr byte d enough quiet left =
      let full : (view d).pending ≢ [] = λ e.
        absurd (omega (arith, length-words disk start (256 * suc n), ap length (sym left ∙ e))) in
      elim (wait_data_view io view disk patience ata fuel (view d).busy d refl (omega arith) full) [
        | inr (d1, waited, misled) ↦
            inr (0, d1, omega arith, rw waited (refl {a = some (negsuc 0, byte, d1)}), misled)
        | inl (d1, waited, seen) ↦
            let (d2, read, soon, rest) =
              read_words_view io view disk patience ata 256 (256 * n) start addr byte d1
                (omega arith) (omega arith) (ap (λ (v : Drive). v.busy) seen)
                (ap (λ (v : Drive). v.pending) seen
                  ∙ left
                  ∙ same_words disk start start (256 * suc n) (256 + 256 * n) refl (omega arith)) in
            let still = delay_view io view disk patience ata d2 in
            elim (read_sectors_view fuel n (start + 256) (addr + 512)
              (load disk start 256 addr byte) (delay io d2) enough
              (omega (arith, soon, ap (λ (v : Drive). v.busy) still))
              (ap (λ (v : Drive). v.pending) still ∙ rest)) [
                | inl (d3, runs) ↦ inl (
                  d3,
                  rw (waited, read, runs, load_sector n start addr byte)
                      (refl {a = some (pos 0, load disk start (256 * suc n) addr byte, d3)}),
                )
                | inr (k, d3, lt, runs, misled) ↦ inr (
                  suc k,
                  d3,
                  omega arith,
                  rw (waited, read, runs, load_sector k start addr byte)
                      (refl {a = some (negsuc 0, load disk start (256 * suc k) addr byte, d3)}),
                  misled,
                )
              ]
      ]

  -- The registers before the command.
  address_sectors_view :
      (start_lba sector_count : ℕ) (d : D)
      → (view d).busy ≡ 0
      → view (address_sectors io start_lba sector_count d) ≡ record (view d) {
        drive_head = bit_or 0xE0 (bit_and (start_lba / 2 ^ 24) 0x0F);
        sector_count = if leb 256 sector_count then 0 else sector_count;
        lba_low = bit_and start_lba 0xFF;
        lba_mid = bit_and (start_lba / 2 ^ 8) 0xFF;
        lba_high = bit_and (start_lba / 2 ^ 16) 0xFF;
      }
  unfolding address_sectors
  address_sectors_view start_lba sector_count d idle =
      let head = bit_or 0xE0 (bit_and (start_lba / 2 ^ 24) 0x0F) in
      let count = if leb 256 sector_count then 0 else sector_count in
      let low = bit_and start_lba 0xFF in
      let mid = bit_and (start_lba / 2 ^ 8) 0xFF in
      let high = bit_and (start_lba / 2 ^ 16) 0xFF in
      let d0 = io.outb 0x1F6 head d in
      let d1 = delay io d0 in
      let d2 = io.outb 0x1F2 count d1 in
      let d3 = io.outb 0x1F3 low d2 in
      let d4 = io.outb 0x1F4 mid d3 in
      let e1 = delay_view io view disk patience ata d0 ∙ ata.set_drive_head head d idle in
      let e2 =
        ata.set_sector_count count d1 (ap (λ (v : Drive). v.busy) e1 ∙ idle)
        ∙ ap (λ (v : Drive). record v { sector_count = count }) e1 in
      let e3 =
        ata.set_lba_low low d2 (ap (λ (v : Drive). v.busy) e2 ∙ idle)
        ∙ ap (λ (v : Drive). record v { lba_low = low }) e2 in
      let e4 =
        ata.set_lba_mid mid d3 (ap (λ (v : Drive). v.busy) e3 ∙ idle)
        ∙ ap (λ (v : Drive). record v { lba_mid = mid }) e3 in
      ata.set_lba_high high d4 (ap (λ (v : Drive). v.busy) e4 ∙ idle)
      ∙ ap (λ (v : Drive). record v { lba_high = high }) e4

-- `byte'` is `byte` with `n` words of the disk, from the word `start` on, in memory from `addr` on, the low
-- byte of each first.
pub record Loaded (disk : ℕ → ℕ) (start n addr : ℕ) (byte byte' : ℕ → ℕ) : Type 0 where
  pub low : (i : ℕ) → i < n → byte' (addr + 2 * i) ≡ disk (start + i) % 256
  pub high : (i : ℕ) → i < n → byte' (addr + 2 * i + 1) ≡ disk (start + i) / 256 % 256
  pub outside : (a : ℕ) → (a < addr) ⊎ (addr + 2 * n ≤ a) → byte' a ≡ byte a

-- A byte of a word.
abbrev part : ℕ → ℕ → ℕ
part zero w = w % 256
part (suc k) w = w / 256 % 256

load_outside :
    (disk : ℕ → ℕ) (start n addr : ℕ) (byte : ℕ → ℕ) (a : ℕ)
    → (a < addr) ⊎ (addr + 2 * n ≤ a)
    → load disk start n addr byte a ≡ byte a
unfolding store_u16 store_byte
load_outside disk start zero addr byte a out = refl
load_outside disk start (suc n) addr byte a out =
    load_outside disk (start + 1) n (addr + 2) (store_u16 addr (disk start) byte) a
      (ground (arith, out))
    ∙ ground (arith, out)

store_u16-part :
    (addr w k : ℕ) (byte : ℕ → ℕ) → k < 2 → store_u16 addr w byte (addr + 2 * 0 + k) ≡ part k w
unfolding store_u16 store_byte
store_u16-part addr w zero byte lt = ground arith
store_u16-part addr w (suc zero) byte lt = ground arith
store_u16-part addr w (suc (suc k)) byte lt = absurd (omega arith)

load-part :
    (disk : ℕ → ℕ) (start n addr i k : ℕ) (byte : ℕ → ℕ)
    → i < n
    → k < 2
    → load disk start n addr byte (addr + 2 * i + k) ≡ part k (disk (start + i))
load-part disk start zero addr i k byte lt l = absurd (omega arith)
load-part disk start (suc n) addr zero k byte lt l =
    load_outside disk (start + 1) n (addr + 2) (store_u16 addr (disk start) byte) (addr + 2 * 0 + k)
      (ground arith)
    ∙ store_u16-part addr (disk start) k byte l
    ∙ ap (λ (t : ℕ). part k (disk t)) (omega arith)
load-part disk start (suc n) addr (suc i) k byte lt l =
    let byte' = load disk (start + 1) n (addr + 2) (store_u16 addr (disk start) byte) in
    let there : addr + 2 * suc i + k ≡ addr + 2 + 2 * i + k = omega arith in
    ap byte' there
    ∙ load-part disk (start + 1) n (addr + 2) i k (store_u16 addr (disk start) byte) (omega arith) l
    ∙ ap (λ (t : ℕ). part k (disk t)) (omega arith)

load-Loaded :
    (disk : ℕ → ℕ) (start n addr : ℕ) (byte : ℕ → ℕ)
    → Loaded disk start n addr byte (load disk start n addr byte)
load-Loaded disk start n addr byte = record {
  low = λ i lt.
      ap (load disk start n addr byte) (omega arith)
      ∙ load-part disk start n addr i 0 byte lt (omega arith);
  high = λ i lt. load-part disk start n addr i 1 byte lt (omega arith);
  outside = λ a out. load_outside disk start n addr byte a out;
}

-- The registers, and the sector and the count that they stand for.
abbrev addressed : ℕ → ℕ → Drive → Drive
addressed start_lba sector_count v = record v {
  drive_head = bit_or 0xE0 (bit_and (start_lba / 2 ^ 24) 0x0F);
  sector_count = if leb 256 sector_count then 0 else sector_count;
  lba_low = bit_and start_lba 0xFF;
  lba_mid = bit_and (start_lba / 2 ^ 8) 0xFF;
  lba_high = bit_and (start_lba / 2 ^ 16) 0xFF;
}

lba-addressed :
    (start_lba sector_count : ℕ) (v : Drive)
    → start_lba < 2 ^ 28
    → lba (addressed start_lba sector_count v) ≡ start_lba
lba-addressed start_lba sector_count v lt =
    let top : bit_and (start_lba / 2 ^ 24) 0x0F ≡ start_lba / 2 ^ 24 =
      omega (arith, bit_and-ones_mod 4 (start_lba / 2 ^ 24)) in
    omega (
      arith,
      top,
      head_lem (bit_and (start_lba / 2 ^ 24) 0x0F) (omega (arith, top)),
      bit_and-ones_mod 8 start_lba,
      bit_and-ones_mod 8 (start_lba / 2 ^ 8),
      bit_and-ones_mod 8 (start_lba / 2 ^ 16),
    )

sectors-addressed :
    (start_lba sector_count : ℕ) (v : Drive)
    → 0 < sector_count
    → sector_count ≤ 256
    → sectors (addressed start_lba sector_count v) ≡ sector_count
sectors-addressed start_lba sector_count v positive le = ground arith

pub disk_read-Loaded :
    {D : Type 0} (io : Ports D) (view : D → Drive) (disk : ℕ → ℕ) (patience : ℕ)
    (fuel start_lba sector_count buff : ℕ) (byte : ℕ → ℕ) (d : D)
    → IsAta io view disk patience
    → patience < fuel
    → (view d).busy ≤ patience
    → start_lba < 2 ^ 28
    → 0 < sector_count
    → sector_count ≤ 256
    → ((byte' : ℕ → ℕ) × (d' : D) × (disk_read io fuel start_lba sector_count buff byte d
          ≡ some (pos 0, byte', d'))
        × Loaded disk (256 * start_lba) (256 * sector_count) buff byte byte')
      ⊎ ((k : ℕ) × (byte' : ℕ → ℕ) × (d' : D) × (k < sector_count)
          × (disk_read io fuel start_lba sector_count buff byte d ≡ some (negsuc 0, byte', d'))
          × Loaded disk (256 * start_lba) (256 * k) buff byte byte'
          × Misled io view d')
unfolding disk_read
disk_read-Loaded io view disk patience fuel start_lba sector_count buff byte d ata enough quiet low
      positive few =
    let (d1, waited, seen) =
      wait_idle_view io view disk patience ata fuel (view d).busy d refl (omega arith) in
    let idle = ap (λ (v : Drive). v.busy) seen in
    let d2 = address_sectors io start_lba sector_count d1 in
    let set = address_sectors_view io view disk patience ata start_lba sector_count d1 idle in
    let (b, soon, command) = ata.read_command d2 (ap (λ (v : Drive). v.busy) set ∙ idle) in
    let where_from = ap lba set ∙ lba-addressed start_lba sector_count (view d1) low in
    let how_many =
      ap sectors set ∙ sectors-addressed start_lba sector_count (view d1) positive few in
    elim (read_sectors_view io view disk patience ata fuel sector_count (256 * start_lba) buff byte
      (io.outb 0x1F7 0x20 d2) enough (omega (arith, soon, ap (λ (v : Drive). v.busy) command))
      (ap (λ (v : Drive). v.pending) command
        ∙ same_words disk (256 * lba (view d2)) (256 * start_lba) (256 * sectors (view d2))
            (256 * sector_count) (omega (arith, where_from)) (omega (arith, how_many)))) [
              | inl (d3, runs) ↦ inl (
                load disk (256 * start_lba) (256 * sector_count) buff byte,
                d3,
                rw waited runs,
                load-Loaded disk (256 * start_lba) (256 * sector_count) buff byte,
              )
              | inr (k, d3, lt, runs, misled) ↦ inr (
                k,
                load disk (256 * start_lba) (256 * k) buff byte,
                d3,
                lt,
                rw waited runs,
                load-Loaded disk (256 * start_lba) (256 * k) buff byte,
                misled,
              )
            ]
