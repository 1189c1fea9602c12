-- ===== src/Boot/Messages.antt =====
-- The messages of `kmain` (src/kernel/kmain.c), as the codes of their characters.
use ssos.Base.{ℕ, List, [], ◌∷◌}

-- "[INFO] Initilized screen.\n"
abbrev pub initialized_screen : List ℕ
initialized_screen =
    0x5B ∷ 0x49 ∷ 0x4E ∷ 0x46 ∷ 0x4F ∷ 0x5D ∷ 0x20 ∷ 0x49 ∷ 0x6E ∷ 0x69 ∷ 0x74 ∷ 0x69 ∷ 0x6C ∷ 0x69
    ∷ 0x7A ∷ 0x65 ∷ 0x64 ∷ 0x20 ∷ 0x73 ∷ 0x63 ∷ 0x72 ∷ 0x65 ∷ 0x65 ∷ 0x6E ∷ 0x2E ∷ 0x0A ∷ []

-- "[INFO] Initilized IDT.\n"
abbrev pub initialized_idt : List ℕ
initialized_idt =
    0x5B ∷ 0x49 ∷ 0x4E ∷ 0x46 ∷ 0x4F ∷ 0x5D ∷ 0x20 ∷ 0x49 ∷ 0x6E ∷ 0x69 ∷ 0x74 ∷ 0x69 ∷ 0x6C ∷ 0x69
    ∷ 0x7A ∷ 0x65 ∷ 0x64 ∷ 0x20 ∷ 0x49 ∷ 0x44 ∷ 0x54 ∷ 0x2E ∷ 0x0A ∷ []

-- "[INFO] Initilized PIC.\n"
abbrev pub initialized_pic : List ℕ
initialized_pic =
    0x5B ∷ 0x49 ∷ 0x4E ∷ 0x46 ∷ 0x4F ∷ 0x5D ∷ 0x20 ∷ 0x49 ∷ 0x6E ∷ 0x69 ∷ 0x74 ∷ 0x69 ∷ 0x6C ∷ 0x69
    ∷ 0x7A ∷ 0x65 ∷ 0x64 ∷ 0x20 ∷ 0x50 ∷ 0x49 ∷ 0x43 ∷ 0x2E ∷ 0x0A ∷ []

-- "[INFO] Enabled interrupts.\n"
abbrev pub enabled_interrupts : List ℕ
enabled_interrupts =
    0x5B ∷ 0x49 ∷ 0x4E ∷ 0x46 ∷ 0x4F ∷ 0x5D ∷ 0x20 ∷ 0x45 ∷ 0x6E ∷ 0x61 ∷ 0x62 ∷ 0x6C ∷ 0x65 ∷ 0x64
    ∷ 0x20 ∷ 0x69 ∷ 0x6E ∷ 0x74 ∷ 0x65 ∷ 0x72 ∷ 0x72 ∷ 0x75 ∷ 0x70 ∷ 0x74 ∷ 0x73 ∷ 0x2E ∷ 0x0A ∷ []

-- "[FATAL ERROR] Failed to initilize keyboard driver. Stopping.\n"
abbrev pub no_keyboard : List ℕ
no_keyboard =
    0x5B ∷ 0x46 ∷ 0x41 ∷ 0x54 ∷ 0x41 ∷ 0x4C ∷ 0x20 ∷ 0x45 ∷ 0x52 ∷ 0x52 ∷ 0x4F ∷ 0x52 ∷ 0x5D ∷ 0x20
    ∷ 0x46 ∷ 0x61 ∷ 0x69 ∷ 0x6C ∷ 0x65 ∷ 0x64 ∷ 0x20 ∷ 0x74 ∷ 0x6F ∷ 0x20 ∷ 0x69 ∷ 0x6E ∷ 0x69
    ∷ 0x74 ∷ 0x69 ∷ 0x6C ∷ 0x69 ∷ 0x7A ∷ 0x65 ∷ 0x20 ∷ 0x6B ∷ 0x65 ∷ 0x79 ∷ 0x62 ∷ 0x6F ∷ 0x61
    ∷ 0x72 ∷ 0x64 ∷ 0x20 ∷ 0x64 ∷ 0x72 ∷ 0x69 ∷ 0x76 ∷ 0x65 ∷ 0x72 ∷ 0x2E ∷ 0x20 ∷ 0x53 ∷ 0x74
    ∷ 0x6F ∷ 0x70 ∷ 0x70 ∷ 0x69 ∷ 0x6E ∷ 0x67 ∷ 0x2E ∷ 0x0A ∷ []

-- "[FATAL ERROR] Failed to initilize page frame allocator. Stopping.\n"
abbrev pub no_frames : List ℕ
no_frames =
    0x5B ∷ 0x46 ∷ 0x41 ∷ 0x54 ∷ 0x41 ∷ 0x4C ∷ 0x20 ∷ 0x45 ∷ 0x52 ∷ 0x52 ∷ 0x4F ∷ 0x52 ∷ 0x5D ∷ 0x20
    ∷ 0x46 ∷ 0x61 ∷ 0x69 ∷ 0x6C ∷ 0x65 ∷ 0x64 ∷ 0x20 ∷ 0x74 ∷ 0x6F ∷ 0x20 ∷ 0x69 ∷ 0x6E ∷ 0x69
    ∷ 0x74 ∷ 0x69 ∷ 0x6C ∷ 0x69 ∷ 0x7A ∷ 0x65 ∷ 0x20 ∷ 0x70 ∷ 0x61 ∷ 0x67 ∷ 0x65 ∷ 0x20 ∷ 0x66
    ∷ 0x72 ∷ 0x61 ∷ 0x6D ∷ 0x65 ∷ 0x20 ∷ 0x61 ∷ 0x6C ∷ 0x6C ∷ 0x6F ∷ 0x63 ∷ 0x61 ∷ 0x74 ∷ 0x6F
    ∷ 0x72 ∷ 0x2E ∷ 0x20 ∷ 0x53 ∷ 0x74 ∷ 0x6F ∷ 0x70 ∷ 0x70 ∷ 0x69 ∷ 0x6E ∷ 0x67 ∷ 0x2E ∷ 0x0A ∷ []

-- "[INFO] Initilized page frame allocator.\n"
abbrev pub initialized_frames : List ℕ
initialized_frames =
    0x5B ∷ 0x49 ∷ 0x4E ∷ 0x46 ∷ 0x4F ∷ 0x5D ∷ 0x20 ∷ 0x49 ∷ 0x6E ∷ 0x69 ∷ 0x74 ∷ 0x69 ∷ 0x6C ∷ 0x69
    ∷ 0x7A ∷ 0x65 ∷ 0x64 ∷ 0x20 ∷ 0x70 ∷ 0x61 ∷ 0x67 ∷ 0x65 ∷ 0x20 ∷ 0x66 ∷ 0x72 ∷ 0x61 ∷ 0x6D
    ∷ 0x65 ∷ 0x20 ∷ 0x61 ∷ 0x6C ∷ 0x6C ∷ 0x6F ∷ 0x63 ∷ 0x61 ∷ 0x74 ∷ 0x6F ∷ 0x72 ∷ 0x2E ∷ 0x0A ∷ []

-- "[FATAL ERROR] Failed to initilize kernel memory allocator. Stopping.\n"
abbrev pub no_heap : List ℕ
no_heap =
    0x5B ∷ 0x46 ∷ 0x41 ∷ 0x54 ∷ 0x41 ∷ 0x4C ∷ 0x20 ∷ 0x45 ∷ 0x52 ∷ 0x52 ∷ 0x4F ∷ 0x52 ∷ 0x5D ∷ 0x20
    ∷ 0x46 ∷ 0x61 ∷ 0x69 ∷ 0x6C ∷ 0x65 ∷ 0x64 ∷ 0x20 ∷ 0x74 ∷ 0x6F ∷ 0x20 ∷ 0x69 ∷ 0x6E ∷ 0x69
    ∷ 0x74 ∷ 0x69 ∷ 0x6C ∷ 0x69 ∷ 0x7A ∷ 0x65 ∷ 0x20 ∷ 0x6B ∷ 0x65 ∷ 0x72 ∷ 0x6E ∷ 0x65 ∷ 0x6C
    ∷ 0x20 ∷ 0x6D ∷ 0x65 ∷ 0x6D ∷ 0x6F ∷ 0x72 ∷ 0x79 ∷ 0x20 ∷ 0x61 ∷ 0x6C ∷ 0x6C ∷ 0x6F ∷ 0x63
    ∷ 0x61 ∷ 0x74 ∷ 0x6F ∷ 0x72 ∷ 0x2E ∷ 0x20 ∷ 0x53 ∷ 0x74 ∷ 0x6F ∷ 0x70 ∷ 0x70 ∷ 0x69 ∷ 0x6E
    ∷ 0x67 ∷ 0x2E ∷ 0x0A ∷ []

-- "[INFO] Initilized kernel memory allocator.\n"
abbrev pub initialized_heap : List ℕ
initialized_heap =
    0x5B ∷ 0x49 ∷ 0x4E ∷ 0x46 ∷ 0x4F ∷ 0x5D ∷ 0x20 ∷ 0x49 ∷ 0x6E ∷ 0x69 ∷ 0x74 ∷ 0x69 ∷ 0x6C ∷ 0x69
    ∷ 0x7A ∷ 0x65 ∷ 0x64 ∷ 0x20 ∷ 0x6B ∷ 0x65 ∷ 0x72 ∷ 0x6E ∷ 0x65 ∷ 0x6C ∷ 0x20 ∷ 0x6D ∷ 0x65
    ∷ 0x6D ∷ 0x6F ∷ 0x72 ∷ 0x79 ∷ 0x20 ∷ 0x61 ∷ 0x6C ∷ 0x6C ∷ 0x6F ∷ 0x63 ∷ 0x61 ∷ 0x74 ∷ 0x6F
    ∷ 0x72 ∷ 0x2E ∷ 0x0A ∷ []

-- "[FATAL ERROR] Failed to initilize disk. Stopping.\n"
abbrev pub no_disk : List ℕ
no_disk =
    0x5B ∷ 0x46 ∷ 0x41 ∷ 0x54 ∷ 0x41 ∷ 0x4C ∷ 0x20 ∷ 0x45 ∷ 0x52 ∷ 0x52 ∷ 0x4F ∷ 0x52 ∷ 0x5D ∷ 0x20
    ∷ 0x46 ∷ 0x61 ∷ 0x69 ∷ 0x6C ∷ 0x65 ∷ 0x64 ∷ 0x20 ∷ 0x74 ∷ 0x6F ∷ 0x20 ∷ 0x69 ∷ 0x6E ∷ 0x69
    ∷ 0x74 ∷ 0x69 ∷ 0x6C ∷ 0x69 ∷ 0x7A ∷ 0x65 ∷ 0x20 ∷ 0x64 ∷ 0x69 ∷ 0x73 ∷ 0x6B ∷ 0x2E ∷ 0x20
    ∷ 0x53 ∷ 0x74 ∷ 0x6F ∷ 0x70 ∷ 0x70 ∷ 0x69 ∷ 0x6E ∷ 0x67 ∷ 0x2E ∷ 0x0A ∷ []

-- "[INFO] Initilized disk.\n"
abbrev pub initialized_disk : List ℕ
initialized_disk =
    0x5B ∷ 0x49 ∷ 0x4E ∷ 0x46 ∷ 0x4F ∷ 0x5D ∷ 0x20 ∷ 0x49 ∷ 0x6E ∷ 0x69 ∷ 0x74 ∷ 0x69 ∷ 0x6C ∷ 0x69
    ∷ 0x7A ∷ 0x65 ∷ 0x64 ∷ 0x20 ∷ 0x64 ∷ 0x69 ∷ 0x73 ∷ 0x6B ∷ 0x2E ∷ 0x0A ∷ []

-- "[FATAL ERROR] Failed to initilize GPT. Stopping.\n"
abbrev pub no_gpt : List ℕ
no_gpt =
    0x5B ∷ 0x46 ∷ 0x41 ∷ 0x54 ∷ 0x41 ∷ 0x4C ∷ 0x20 ∷ 0x45 ∷ 0x52 ∷ 0x52 ∷ 0x4F ∷ 0x52 ∷ 0x5D ∷ 0x20
    ∷ 0x46 ∷ 0x61 ∷ 0x69 ∷ 0x6C ∷ 0x65 ∷ 0x64 ∷ 0x20 ∷ 0x74 ∷ 0x6F ∷ 0x20 ∷ 0x69 ∷ 0x6E ∷ 0x69
    ∷ 0x74 ∷ 0x69 ∷ 0x6C ∷ 0x69 ∷ 0x7A ∷ 0x65 ∷ 0x20 ∷ 0x47 ∷ 0x50 ∷ 0x54 ∷ 0x2E ∷ 0x20 ∷ 0x53
    ∷ 0x74 ∷ 0x6F ∷ 0x70 ∷ 0x70 ∷ 0x69 ∷ 0x6E ∷ 0x67 ∷ 0x2E ∷ 0x0A ∷ []

-- "[INFO] Initilized GPT.\n"
abbrev pub initialized_gpt : List ℕ
initialized_gpt =
    0x5B ∷ 0x49 ∷ 0x4E ∷ 0x46 ∷ 0x4F ∷ 0x5D ∷ 0x20 ∷ 0x49 ∷ 0x6E ∷ 0x69 ∷ 0x74 ∷ 0x69 ∷ 0x6C ∷ 0x69
    ∷ 0x7A ∷ 0x65 ∷ 0x64 ∷ 0x20 ∷ 0x47 ∷ 0x50 ∷ 0x54 ∷ 0x2E ∷ 0x0A ∷ []
