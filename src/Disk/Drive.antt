-- ===== src/Disk/Drive.antt =====
-- What a drive behind the ports does, as the ATA standard has it, and a read from such a drive.
use ssos.Base.{ℕ, zero, suc, ◌+◌, ◌*◌, ◌%◌, ◌^◌, ◌≤◌, ◌<◌, ◌≡◌, ◌≢◌, refl, sym, ap, arith, ◌∙◌}
use native.Mathlib.Decide.{ℕ_discrete}
use ssos.Base.{Bool, true, false, Option, List, [], ◌∷◌, some, length, ◌⊎◌, inl, inr}
use ssos.Base.{if_false, ==_ne, bit_and, ◌==◌, if◌then◌else◌}
use ssos.Ports.{Ports}
use ssos.Disk.{store_u16, wait_idle, delay, wait_data, read_words}

-- What the commands and the status depend on: the registers, the words still to be transferred, and for
-- how many reads of the status the drive stays busy.
pub record Drive : Type 0 where
  pub drive_head : ℕ
  pub sector_count : ℕ
  pub lba_low : ℕ
  pub lba_mid : ℕ
  pub lba_high : ℕ
  pub pending : List ℕ
  pub busy : ℕ

-- The sector that the registers address, with the low half of the drive register on top.
abbrev pub lba : Drive → ℕ
lba v = v.drive_head % 16 * 2 ^ 24 + v.lba_high * 2 ^ 16 + v.lba_mid * 2 ^ 8 + v.lba_low

-- A count of 0 stands for 256.
abbrev pub sectors : Drive → ℕ
sectors v = if v.sector_count == 0 then 256 else v.sector_count

-- `n` words of the disk from the word `start` on.
abbrev pub words : (ℕ → ℕ) → ℕ → ℕ → List ℕ
words disk start zero = []
words disk start (suc n) = disk start ∷ words disk (start + 1) n

-- A drive whose words are `disk`, which is ready again within `patience` reads of its status. It may be
-- busy behind a command and behind each sector. It takes registers and commands only while it is not
-- busy; while it is busy nothing is said of its status but that BSY is set, and once it is ready it has
-- found no error.
pub record IsAta {D : Type 0} (io : Ports D) (view : D → Drive) (disk : ℕ → ℕ) (patience : ℕ)
    : Type 0 where
  pub set_drive_head :
      (v : ℕ) (d : D)
      → (view d).busy ≡ 0
      → view (io.outb 0x1F6 v d) ≡ record (view d) { drive_head = v }
  pub set_sector_count :
      (v : ℕ) (d : D)
      → (view d).busy ≡ 0
      → view (io.outb 0x1F2 v d) ≡ record (view d) { sector_count = v }
  pub set_lba_low :
      (v : ℕ) (d : D)
      → (view d).busy ≡ 0
      → view (io.outb 0x1F3 v d) ≡ record (view d) { lba_low = v }
  pub set_lba_mid :
      (v : ℕ) (d : D)
      → (view d).busy ≡ 0
      → view (io.outb 0x1F4 v d) ≡ record (view d) { lba_mid = v }
  pub set_lba_high :
      (v : ℕ) (d : D)
      → (view d).busy ≡ 0
      → view (io.outb 0x1F5 v d) ≡ record (view d) { lba_high = v }
  pub read_command :
      (d : D)
      → (view d).busy ≡ 0
      → (b : ℕ) × (b ≤ patience)
        × (view (io.outb 0x1F7 0x20 d) ≡ record (view d) {
          pending = words disk (256 * lba (view d)) (256 * sectors (view d));
          busy = b;
        })
  pub alt_status : (d : D) → view (io.inb 0x3F6 d).1 ≡ view d
  pub while_busy :
      (d : D) (b : ℕ)
      → (view d).busy ≡ suc b
      → (view (io.inb 0x1F7 d).1 ≡ record (view d) { busy = b })
        × (bit_and (io.inb 0x1F7 d).0 0x80 ≢ 0)
  pub ready :
      (d : D)
      → (view d).busy ≡ 0
      → (view (io.inb 0x1F7 d).1 ≡ view d)
        × (bit_and (io.inb 0x1F7 d).0 0x80 ≡ 0)
        × (bit_and (io.inb 0x1F7 d).0 0x01 ≡ 0)
        × ((view d).pending ≢ [] → bit_and (io.inb 0x1F7 d).0 0x08 ≢ 0)
  pub next_word :
      (d : D) (w : ℕ) (ws : List ℕ)
      → (view d).busy ≡ 0
      → (view d).pending ≡ w ∷ ws
      → (b : ℕ) × (b ≤ patience)
        × ((length ws % 256 ≢ 0) → b ≡ 0)
        × ((io.inw 0x1F0 d).0 ≡ w)
        × (view (io.inw 0x1F0 d).1 ≡ record (view d) { pending = ws; busy = b })

-- The device `d` comes from a read of the status of a busy drive in which the bit ERR was set.
pub record Misled {D : Type 0} (io : Ports D) (view : D → Drive) (d : D) : Type 0 where
  pub asked : D
  pub is_busy : (view asked).busy ≢ 0
  pub error : bit_and (io.inb 0x1F7 asked).0 0x01 ≢ 0
  pub answer : (io.inb 0x1F7 asked).1 ≡ d

-- The words `start` to start + n - 1 of the disk, in memory from `addr` on.
abbrev pub load : (ℕ → ℕ) → ℕ → ℕ → ℕ → (ℕ → ℕ) → ℕ → ℕ
load disk start zero addr byte = byte
load disk start (suc n) addr byte =
    load disk (start + 1) n (addr + 2) (store_u16 addr (disk start) byte)

pub load_at :
    (disk : ℕ → ℕ) (byte : ℕ → ℕ) (start start' n n' addr addr' : ℕ)
    → start ≡ start'
    → n ≡ n'
    → addr ≡ addr'
    → load disk start n addr byte ≡ load disk start' n' addr' byte
load_at disk byte start start' n n' addr addr' e f g = cc (e, f, g)

pub load_add :
    (disk : ℕ → ℕ) (start m n addr : ℕ) (byte : ℕ → ℕ)
    → load disk start (m + n) addr byte
      ≡ load disk (start + m) n (addr + 2 * m) (load disk start m addr byte)
load_add disk start zero n addr byte =
    load_at disk byte start (start + 0) (0 + n) n addr (addr + 2 * 0) (omega arith) (omega arith)
      (omega arith)
load_add disk start (suc m) n addr byte =
    load_at disk byte start start (suc m + n) (suc (m + n)) addr addr refl (omega arith) refl
    ∙ load_add disk (start + 1) m n (addr + 2) (store_u16 addr (disk start) byte)
    ∙ load_at disk (load disk (start + 1) m (addr + 2) (store_u16 addr (disk start) byte))
        (start + 1 + m) (start + suc m) n n (addr + 2 + 2 * m) (addr + 2 * suc m) (omega arith)
        (omega arith) (omega arith)

pub same_words :
    (disk : ℕ → ℕ) (start start' n n' : ℕ)
    → start ≡ start'
    → n ≡ n'
    → words disk start n ≡ words disk start' n'
same_words disk start start' n n' e f = cc (e, f)

pub length-words : (disk : ℕ → ℕ) (start n : ℕ) → length (words disk start n) ≡ n
length-words disk start zero = refl
length-words disk start (suc n) = ap suc (length-words disk (start + 1) n)

module _ {D : Type 0} (io : Ports D) (view : D → Drive) (disk : ℕ → ℕ) (patience : ℕ)
    (ata : IsAta io view disk patience) where
  pub delay_view : (d : D) → view (delay io d) ≡ view d
  unfolding delay
  delay_view d =
      let d1 = (io.inb 0x3F6 d).1 in
      let d2 = (io.inb 0x3F6 d1).1 in
      let d3 = (io.inb 0x3F6 d2).1 in
      ata.alt_status d3 ∙ ata.alt_status d2 ∙ ata.alt_status d1 ∙ ata.alt_status d

  -- Enough reads of the status see the drive ready.
  pub wait_idle_view :
      (fuel b : ℕ) (d : D)
      → (view d).busy ≡ b
      → b < fuel
      → (d' : D) × (wait_idle io fuel d ≡ some d') × (view d' ≡ record (view d) { busy = 0 })
  unfolding wait_idle
  wait_idle_view zero b d e lt = absurd (omega arith)
  wait_idle_view (suc fuel) zero d e lt =
      let (same, idle, ok, more) = ata.ready d e in
      ((io.inb 0x1F7 d).1, rw idle refl, same ∙ ap (λ (b : ℕ). record (view d) { busy = b }) e)
  wait_idle_view (suc fuel) (suc b) d e lt =
      let (next, busy) = ata.while_busy d b e in
      let (d', runs, seen) =
        wait_idle_view fuel b (io.inb 0x1F7 d).1 (ap (λ (v : Drive). v.busy) next) (omega arith) in
      (
        d',
        if_false (bit_and (io.inb 0x1F7 d).0 0x80 == 0) (some (io.inb 0x1F7 d).1) _
              (==_ne (bit_and (io.inb 0x1F7 d).0 0x80) 0 busy)
            ∙ runs,
        seen ∙ ap (λ (v : Drive). record v { busy = 0 }) next,
      )

  -- What the wait for data comes to: the data, or a bit ERR that meant nothing.
  abbrev pub Waited : D → Option (Bool × D) → Type 0
  Waited d call =
      ((d' : D) × (call ≡ some (true, d')) × (view d' ≡ record (view d) { busy = 0 }))
      ⊎ ((d' : D) × (call ≡ some (false, d')) × Misled io view d')

  pub wait_data_view :
      (fuel b : ℕ) (d : D)
      → (view d).busy ≡ b
      → b < fuel
      → (view d).pending ≢ []
      → Waited d (wait_data io fuel d)
  unfolding wait_data
  wait_data_view zero b d e lt some_left = absurd (omega arith)
  wait_data_view (suc fuel) zero d e lt some_left =
      let (same, idle, ok, more) = ata.ready d e in
      inl (
        (io.inb 0x1F7 d).1,
        rw (ok, idle, ==_ne (bit_and (io.inb 0x1F7 d).0 0x08) 0 (more some_left)) refl,
        same ∙ ap (λ (b : ℕ). record (view d) { busy = b }) e,
      )
  wait_data_view (suc fuel) (suc b) d e lt some_left =
      let (next, busy) = ata.while_busy d b e in
      elim (ℕ_discrete (bit_and (io.inb 0x1F7 d).0 0x01) 0) [
        | no err ↦ inr (
          (io.inb 0x1F7 d).1,
          rw (==_ne (bit_and (io.inb 0x1F7 d).0 0x01) 0 err) refl,
          record { asked = d; is_busy = λ idle. absurd (omega arith); error = err; answer = refl },
        )
        | yes ok ↦
            elim (wait_data_view fuel b (io.inb 0x1F7 d).1 (ap (λ (v : Drive). v.busy) next)
              (omega arith)
              (λ none_left. some_left (sym (ap (λ (v : Drive). v.pending) next) ∙ none_left))) [
                | inl (d', runs, seen) ↦ inl (
                  d',
                  rw (ok, ==_ne (bit_and (io.inb 0x1F7 d).0 0x80) 0 busy) runs,
                  seen ∙ ap (λ (v : Drive). record v { busy = 0 }) next,
                )
                | inr (d', runs, misled) ↦
                    inr (d', rw (ok, ==_ne (bit_and (io.inb 0x1F7 d).0 0x80) 0 busy) runs, misled)
              ]
      ]

  word_view :
      (k start : ℕ) (d : D)
      → (view d).busy ≡ 0
      → (view d).pending ≡ words disk start (suc k)
      → (b : ℕ) × (b ≤ patience)
        × ((k % 256 ≢ 0) → b ≡ 0)
        × ((io.inw 0x1F0 d).0 ≡ disk start)
        × ((view (io.inw 0x1F0 d).1).busy ≡ b)
        × ((view (io.inw 0x1F0 d).1).pending ≡ words disk (start + 1) k)
  word_view k start d idle left =
      let (b, soon, within, word, next) =
        ata.next_word d (disk start) (words disk (start + 1) k) idle left in
      (
        b,
        soon,
        λ ne.
            within (λ e. ne (ap (λ (t : ℕ). t % 256) (sym (length-words disk (start + 1) k)) ∙ e)),
        word,
        ap (λ (v : Drive). v.busy) next,
        ap (λ (v : Drive). v.pending) next,
      )

  -- The words of one sector, with `m` behind them, all of other sectors.
  pub read_words_view :
      (n m start addr : ℕ) (byte : ℕ → ℕ) (d : D)
      → n ≤ 256
      → m % 256 ≡ 0
      → (view d).busy ≡ 0
      → (view d).pending ≡ words disk start (n + m)
      → (d' : D) × (read_words io n addr byte d ≡ (load disk start n addr byte, d'))
        × ((view d').busy ≤ patience)
        × ((view d').pending ≡ words disk (start + n) m)
  unfolding read_words
  read_words_view zero m start addr byte d le whole idle left = (
    d,
    refl,
    omega (arith, idle),
    left ∙ same_words disk start (start + 0) (0 + m) m (omega arith) (omega arith),
  )
  read_words_view (suc zero) m start addr byte d le whole idle left =
      let (b, soon, within, word, busy, next) =
        word_view m start d idle
          (left ∙ same_words disk start start (1 + m) (suc m) refl (omega arith)) in
      ((io.inw 0x1F0 d).1, rw word refl, omega (arith, busy), next)
  read_words_view (suc (suc n)) m start addr byte d le whole idle left =
      let (b, soon, within, word, busy, next) = word_view (suc n + m) start d idle (
        left
        ∙ same_words disk start start (suc (suc n) + m) (suc (suc n + m)) refl (omega arith)) in
      let (d', runs, quiet, rest) =
        read_words_view (suc n) m (start + 1) (addr + 2) (store_u16 addr (disk start) byte)
          (io.inw 0x1F0 d).1 (omega arith) whole (busy ∙ within (omega arith)) next in
      (
        d',
        rw word runs,
        quiet,
        rest ∙ same_words disk (start + 1 + suc n) (start + suc (suc n)) m m (omega arith) refl,
      )
