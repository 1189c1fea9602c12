-- ===== src/Boot/Tests.antt =====
-- A run of `kmain` with a keyboard that only asks for bytes to be sent again.
use ssos.Base.{ℕ, ◌≡◌, refl, arith, true, false, some, pos, replicate, []}
use ssos.Ports.{Ports}
use ssos.Screen.{Framebuffer, screen_init, screen_set_font_scale, screen_print}
use ssos.Screen.Paint.{IsUsable}
use ssos.Screen.Grid.{KeepsRest}
use ssos.Boot.{Requests, Image, Machine, halted, kmain}
use ssos.Interrupts.{pic_init}
use ssos.Keyboard.Commands.{disable_scanning, kbd_resp_resend, attempt}
use ssos.Keyboard.Commands.Retry.{reply}
use ssos.Boot.Silent.{told, kmain-silent}

abbrev stubborn : Ports ℕ
stubborn = record {
  outb = λ port value d. d;
  inb = λ port d. (0xFE, d);
  outw = λ port value d. d;
  inw = λ port d. (0, d);
}

abbrev fb : Framebuffer
fb = record {
  address = 0x1000;
  width = 64;
  height = 32;
  pitch = 256;
  bpp = 32;
  red_mask_shift = 16;
  green_mask_shift = 8;
  blue_mask_shift = 0;
}

fb-IsUsable : IsUsable fb
fb-IsUsable = record {
  bytes = refl;
  rows = omega arith;
  fits = omega arith;
  wide = omega arith;
  tall = omega arith;
}

abbrev requests : Requests
requests = record {
  base_revision_supported = true;
  memory_map = some [];
  hhdm = some 0xFFFF800000000000;
  framebuffer = some fb;
}

abbrev image : Image
image = record {
  kernel_start = 0xFFFFFFFF80000000;
  kernel_end = 0xFFFFFFFF80100000;
  cr3 = 0x1000;
  idt = 0xFFFFFFFF80080000;
  isr_stub_table = replicate 48 0xFFFFFFFF80001000;
}

abbrev loaded : Machine stubborn
loaded = record {
  screen = record {
    screen_fb = fb;
    cursor_x = 0;
    cursor_y = 0;
    screen_color = 0;
    font_scale = pos 1;
  };
  byte = λ a. 0;
  device = 0;
  idtr = record { limit = 0; base = 0 };
  idt_entries = [];
  keyboard_handler = false;
  heap = record {
    mem_blocks = replicate 34 0;
    highest_block_size = 0x200000;
    highest_level = 18;
    block = λ a. record { next = 0; level = 0; is_free = false };
    paging = record {
      paging_hhdm_start = 0;
      pages = replicate 40 0;
      paging_phys_page_base = 0;
      paging_kernel_pml4 = 0;
      paging_present_page_count = 0;
      paging_curr_free_page_table = 0;
      word = λ a. 0;
    };
  };
  identify_data_block = replicate 256 0;
  drivers = [];
  gpt = record {
    backup_lba = 0;
    first_usable_lba = 0;
    last_usable_lba = 0;
    disk_guid = replicate 16 0;
    partition_entries_lba = 0;
    num_partition_entries = 0;
    partition_entry_size = 0;
    crc32_partition_array = 0;
  };
}

kmain-silent_example :
    (m' : Machine stubborn) × (kmain stubborn 8 8 image requests loaded ≡ some (halted m'))
    × (screen_print told (screen_set_font_scale (pos 2) (screen_init fb)) loaded.byte
        ≡ some (m'.screen, m'.byte))
    × KeepsRest fb loaded.byte m'.byte
    × (m'.heap ≡ loaded.heap)
    × (m'.identify_data_block ≡ loaded.identify_data_block)
    × (m'.gpt ≡ loaded.gpt)
unfolding attempt
kmain-silent_example =
    kmain-silent stubborn 8 8 image requests [] 0xFFFF800000000000 4 2 fb loaded refl refl refl refl
      fb-IsUsable refl refl (omega arith) (omega arith) (omega arith) (λ j lt. silent j)
  where
    silent : (j : ℕ) → reply stubborn disable_scanning j (pic_init stubborn 0) ≡ kbd_resp_resend
    silent j = refl
