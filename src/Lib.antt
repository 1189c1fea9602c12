-- ===== src/Lib.antt =====
-- A model of the ssos kernel: its memory management, interrupts, drivers and shell.
--
-- Parts, the files that model them, and the code:
--   BitMath    src/misc/bit_math.h and bit_math.c: ALIGN_UP, ALIGN_DOWN, logb, round_pow2_boundary
--              and the checksum.
--   Paging     src/mem/paging.h and paging.c: `Paging` holds the static variables (the bitmap
--              `pages` is a list of 40 words) and the words of memory that the page tables live in.
--              Init: paging_init_frame_allocator; Frames: paging_alloc_pages and paging_free_pages;
--              Tables: paging_map_page and paging_get_page_entry_with_alloc.
--   Kalloc     src/mem/mem.c: `Kalloc` holds the static variables, the header at each address and
--              the `Paging` that kalloc_init and kmalloc take pages from. kmalloc is `grow` (the
--              loop that adds levels), then `allocate` (a block of the level, or `split_loop`);
--              kfree is `merge_loop`, then a push. Heap: a page of it as a tree of blocks (`Tree`), the
--              calls of a client in any order (`Reach`), and what holds in the states they reach. Undo:
--              one request and its release on a page that is free, and requests that wrap round.
--   Keyboard   src/drivers/keyboard.h and keyboard.c. Keys: the enumeration and the event; Tables:
--              the two switches; Translate: keyboard_translate_scancode, whose static variables are
--              `Translator`; Buffer: the event buffer, keyboard_irq_handler, keyboard_get_event and
--              keyboard_install_event_callback; Commands: keyboard_init and the commands it sends,
--              over ports of which the device behind them is a parameter.
--   Shell      src/shell/shell.c: shell_input_callback, which the keyboard calls with each event,
--              over the line buffer and the allocator; shell_reset_prompt_buffer and the body of the
--              loop of shell_init. Letters: the characters of the keys, for the specification;
--              Typing: a line that moves as it grows; Session: until its memory is given back.
--   Memory     src/mem/mem.c: memcpy, memset, memmove, memcmp and strlen, over the byte at each address.
--              The shell copies its line with them, and the screen scrolls.
--   Screen     src/drivers/screen.h and screen.c: `Screen` holds the static variables; the memory of the
--              frame buffer is passed from call to call. Paint and Glyph: the pixels that the loops of
--              screen_putch draw; Cursor: screen_scroll; Grid and Print: the screen as a grid of
--              characters; Address: the digits of screen_print_addr.
--   Interrupts src/interrupts/idt.h, idt.c and pic.c. Gates: idt_init; Dispatch: idt_irq_handler and
--              idt_install_irq_driver; Report: idt_exception_handler, over the screen.
--   Disk       src/drivers/disk.c: disk_init, disk_read and disk_write over the ports. Drive: the laws of
--              an ATA drive, which are hypotheses and say nothing of registers that are written while it
--              is busy, nor of its status then but that BSY is set; Read: disk_read from such a drive.
--   Gpt        src/fs/gpt.c: gpt_init, over the allocator, the disk and the checksum. Header: what its
--              tests accept; Detect: what they notice; Init: the whole call.
--   Boot       src/kernel/kmain.c: kmain, which sets the parts up in order and stops where one fails, over
--              the answers of the boot loader. Silent: a keyboard that acknowledges nothing.
--   Ports      src/drivers/ports.c: what a read and a write of a port do to the device behind it, which
--              is a parameter; io_wait.
--   Base       What the parts share: Boolean tests, lists by index, bits of words, integers.
--
-- Conventions. Integers of 64 bits are natural numbers with `u64` (the remainder by 2^64) at each
-- operation that may wrap; a difference is written with 2^64 added. `none` is what C leaves
-- undefined: an access out of an array, a logarithm of 0, a shift out of an int. Values that the code
-- reads from the processor, the boot loader or a port are arguments.
--
-- Bounds and fuel. `grow` has fuel 34, one round for each level that there is, which the proof of
-- kmalloc-Returns shows to be enough. `release_pages` has one round for each present page, which
-- paging_free_pages-Released shows to be enough. `merge_loop` has 34 rounds, and its argument `walk`
-- bounds the length of a free list, which is at most the bytes of a page, as the proofs in Kalloc.Heap
-- show. The retries of a command are bounded by the code itself; the
-- loops that wait for the keyboard controller take fuel, since the device may keep them waiting.
-- `fill_buff` has fuel 17, for the 16 digits of an address and the last test, which
-- read_addr-screen_print_addr shows to be enough. The loops that wait for the drive have fuel for reads
-- of its status, which disk_read-Loaded shows to be enough where it exceeds the time that the drive takes.
-- `strlen` has fuel for the bytes it looks at.
--
-- Not modelled: the aliasing between page tables, block headers, the bytes of lines and of the frame
-- buffer and static variables, which are separate stores here; the end of the space reserved for page
-- tables, which the code does not check; the screen
-- behind the shell, whose calls of screen_putch are entries of a list; interrupts that come in while
-- kmain sets the parts up; single instructions (sti, cli, hlt, lidt, in, out); the assembly stubs, linker script and boot
-- protocol, which are not C of the kernel.
pub mod Base
pub mod BitMath
pub mod Boot
pub mod Disk
pub mod Gpt
pub mod Interrupts
pub mod Kalloc
pub mod Keyboard
pub mod Memory
pub mod Paging
pub mod Ports
pub mod Screen
pub mod Shell
