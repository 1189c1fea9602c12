-- ===== src/Disk/Tests.antt =====
-- A read from a drive.
use ssos.Base.{◌*◌, ◌≡◌, refl, arith, some, negsuc}
use ssos.Disk.{disk_read, address_sectors, delay, wait_idle, read_sectors, wait_data}
use ssos.Disk.Drive.{Drive, IsAta, words}
use ssos.Disk.TestDrive.{content, noisy_drive, noisy_drive-IsAta, at_work, empty}

-- A drive that has ERR set beside BSY, as it may: it is taken for an error, and nothing is read.
misled_read :
    disk_read (noisy_drive 0x81 content) 3 0x1234567 2 0x8000 empty at_work
    ≡ some (
      negsuc 0,
      empty,
      record at_work {
        drive_head = 0xE1;
        sector_count = 2;
        lba_low = 0x67;
        lba_mid = 0x45;
        lba_high = 0x23;
        pending = words content (256 * 0x1234567) (256 * 2);
        busy = 0;
      },
    )
unfolding disk_read address_sectors delay wait_idle read_sectors wait_data
misled_read = refl

misled_drive : IsAta (noisy_drive 0x81 content) (λ v. v) content 1
misled_drive = noisy_drive-IsAta 0x81 content (omega arith)
