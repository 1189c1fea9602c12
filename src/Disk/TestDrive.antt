-- ===== src/Disk/TestDrive.antt =====
-- A drive to run the code on, which is busy behind each command for one read of its status and
-- takes nothing while it is busy.
use ssos.Base.{
  ℕ, zero, suc, ◌*◌, ◌≡◌, ◌≢◌, refl, ap, arith, ◌∙◌, List, [], ◌∷◌, ◌==◌, if◌then◌else◌,
}
use ssos.Base.{bit_and}
use ssos.Ports.{Ports}
use ssos.Disk.Drive.{Drive, IsAta, lba, sectors, words}

abbrev first : List ℕ → ℕ
first [] = 0
first (w ∷ ws) = w

abbrev others : List ℕ → List ℕ
others [] = []
others (w ∷ ws) = ws

-- The word i of the disk is i.
abbrev pub content : ℕ → ℕ
content i = i

-- Ready, and with data where words are left.
abbrev free : List ℕ → ℕ
free [] = 0x40
free (w ∷ ws) = 0x48

abbrev status : ℕ → Drive → ℕ
status noise v = elim v.busy [ zero ↦ free v.pending | suc b ↦ noise ]

abbrev polled : Drive → Drive
polled v = elim v.busy [ zero ↦ v | suc b ↦ record v { busy = b } ]

-- The registers while it is ready.
abbrev taken : (ℕ → ℕ) → ℕ → ℕ → Drive → Drive
taken disk port value v =
    if port == 0x1F6
    then record v { drive_head = value }
    else if port == 0x1F2
    then record v { sector_count = value }
    else if port == 0x1F3
    then record v { lba_low = value }
    else if port == 0x1F4
    then record v { lba_mid = value }
    else if port == 0x1F5
    then record v { lba_high = value }
    else record v { pending = words disk (256 * lba v) (256 * sectors v); busy = 1 }

-- While it is busy it takes nothing.
abbrev write : (ℕ → ℕ) → ℕ → ℕ → Drive → Drive
write disk port value v = elim v.busy [ zero ↦ taken disk port value v | suc b ↦ v ]

-- `noise` is its status while it is busy.
abbrev pub noisy_drive : ℕ → (ℕ → ℕ) → Ports Drive
noisy_drive noise disk = record {
  outb = write disk;
  inb = λ port v. if port == 0x1F7 then (status noise v, polled v) else (0, v);
  outw = λ port value v. v;
  inw = λ port v. (first v.pending, record v { pending = others v.pending });
}

abbrev pub drive : (ℕ → ℕ) → Ports Drive
drive = noisy_drive 0x80

idle : (ws : List ℕ) → bit_and (free ws) 0x80 ≡ 0
idle [] = refl
idle (w ∷ ws) = refl

sound : (ws : List ℕ) → bit_and (free ws) 0x01 ≡ 0
sound [] = refl
sound (w ∷ ws) = refl

offered : (ws : List ℕ) → ws ≢ [] → bit_and (free ws) 0x08 ≢ 0
offered [] ne = absurd (ne refl)
offered (w ∷ ws) ne = omega arith

pub noisy_drive-IsAta :
    (noise : ℕ) (disk : ℕ → ℕ)
    → bit_and noise 0x80 ≢ 0
    → IsAta (noisy_drive noise disk) (λ v. v) disk 1
noisy_drive-IsAta noise disk busy = record {
  set_drive_head = λ value v e. rw e refl;
  set_sector_count = λ value v e. rw e refl;
  set_lba_low = λ value v e. rw e refl;
  set_lba_mid = λ value v e. rw e refl;
  set_lba_high = λ value v e. rw e refl;
  read_command = λ v e. (1, omega arith, rw e refl);
  alt_status = λ v. refl;
  while_busy = λ v b e. rw e (refl, busy);
  ready = λ v e. rw e (refl, idle v.pending, sound v.pending, offered v.pending);
  next_word = λ v w ws e f. (
    0,
    omega arith,
    λ ne. refl,
    ap first f,
    ap (λ (ps : List ℕ). record v { pending = others ps }) f
        ∙ ap (λ (b : ℕ). record v { pending = ws; busy = b }) e,
  );
}

pub drive-IsAta : (disk : ℕ → ℕ) → IsAta (drive disk) (λ v. v) disk 1
drive-IsAta disk = noisy_drive-IsAta 0x80 disk (omega arith)

-- Still busy with a command before.
abbrev pub at_work : Drive
at_work = record {
  drive_head = 0;
  sector_count = 0;
  lba_low = 0;
  lba_mid = 0;
  lba_high = 0;
  pending = [];
  busy = 1;
}

abbrev pub empty : ℕ → ℕ
empty a = 0
