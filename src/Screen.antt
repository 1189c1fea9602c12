-- ===== src/Screen.antt =====
-- The screen driver (src/drivers/screen.c). Its static variables are a record; the memory that the frame
-- buffer is a part of is passed from call to call. Addresses wrap at 2^64.
pub mod Font
pub mod Paint
pub mod Cursor
pub mod Grid
pub mod Print
pub mod Address
pub mod Glyph
mod Tests
use ssos.Base.{ℕ, zero, suc, ◌+◌, ◌-◌, ◌*◌, ◌/◌, ◌%◌, ◌^◌, Option, none, some, ◌>>=◌, List, [], ◌∷◌}
use ssos.Base.{
  ltb, leb, ◌==◌, if◌then◌else◌, u64, bit_and, bit_or, get_elem?, ℤ, pos, negsuc, pos_part,
}
use ssos.Memory.{store_byte, memmove, memset}
use Font.{font8x8_buff}

-- What the driver reads of `struct limine_framebuffer`.
pub record Framebuffer : Type 0 where
  pub address : ℕ
  pub width : ℕ
  pub height : ℕ
  pub pitch : ℕ
  pub bpp : ℕ
  pub red_mask_shift : ℕ
  pub green_mask_shift : ℕ
  pub blue_mask_shift : ℕ

pub record Screen : Type 0 where
  pub screen_fb : Framebuffer
  pub cursor_x : ℕ
  pub cursor_y : ℕ
  pub screen_color : ℕ
  pub font_scale : ℤ

abbrev u32 : ℕ → ℕ
u32 n = n % 2 ^ 32

-- `*address = color`, the lowest byte first.
unfoldable pub store_u32 : ℕ → ℕ → (ℕ → ℕ) → ℕ → ℕ
unfolding store_byte
store_u32 address c byte = store_byte (address + 3) (c / 2 ^ 24 % 256) (
    store_byte (address + 2) (c / 2 ^ 16 % 256)
      (store_byte (address + 1) (c / 2 ^ 8 % 256) (store_byte address (c % 256) byte)))

unfoldable pub draw_pixel : Screen → ℕ → ℕ → (ℕ → ℕ) → ℕ → ℕ
draw_pixel s x y byte =
    let fb = s.screen_fb in
    store_u32 (u64 (fb.address + fb.pitch * y + fb.bpp / 8 * x)) s.screen_color byte

-- Each channel is a uint32_t. C leaves a shift by 32 or more undefined.
unfoldable pub screen_get_rgb_color : ℕ → ℕ → ℕ → Framebuffer → ℕ
screen_get_rgb_color red green blue fb =
    bit_or (bit_or (u32 (red * 2 ^ fb.red_mask_shift)) (u32 (green * 2 ^ fb.green_mask_shift)))
      (u32 (blue * 2 ^ fb.blue_mask_shift))

unfoldable pub screen_init : Framebuffer → Screen
unfolding screen_get_rgb_color
screen_init fb = record {
  screen_fb = fb;
  cursor_x = 0;
  cursor_y = 0;
  screen_color = screen_get_rgb_color 255 255 255 fb;
  font_scale = pos 1;
}

unfoldable pub screen_set_color : ℕ → Screen → Screen
screen_set_color color s = record s { screen_color = color }

unfoldable pub screen_set_font_scale : ℤ → Screen → Screen
screen_set_font_scale scale s = record s { font_scale = scale }

-- `FONT_WIDTH * font_scale` and `FONT_HEIGHT * font_scale`, converted to uint64_t.
unfoldable pub glyph_size : ℤ → ℕ
glyph_size (pos n) = u64 (8 * n)
glyph_size (negsuc n) = 2 ^ 64 - 8 * suc n

-- The loop over `dy`, with `n` rounds to go.
unfoldable pub draw_column : Screen → ℕ → ℕ → ℕ → (ℕ → ℕ) → ℕ → ℕ
draw_column s x y zero byte = byte
draw_column s x y (suc n) byte = draw_column s x (y + 1) n (draw_pixel s x y byte)

-- The loop over `dx`, with `n` rounds to go.
unfoldable pub draw_square : Screen → ℕ → ℕ → ℕ → (ℕ → ℕ) → ℕ → ℕ
draw_square s x y zero byte = byte
draw_square s x y (suc n) byte =
    draw_square s (x + 1) y n (draw_column s x y (pos_part s.font_scale) byte)

-- The loop over `col_idx`, with `left` rounds to go, at the glyph's row `bits`. A negative scale leaves
-- the loops inside it without a round.
unfoldable pub draw_row : Screen → ℕ → ℕ → ℕ → ℕ → (ℕ → ℕ) → ℕ → ℕ
draw_row s bits row_idx col_idx zero byte = byte
draw_row s bits row_idx col_idx (suc left) byte =
    let scale = pos_part s.font_scale in
    let square =
      draw_square s (s.cursor_x + col_idx * scale) (s.cursor_y + row_idx * scale) scale byte in
    draw_row s bits row_idx (col_idx + 1) left
      (if bit_and bits (2 ^ col_idx) == 0 then byte else square)

-- The loop over `row_idx`, with the rows of the glyph that are to be drawn.
unfoldable pub draw_glyph : Screen → ℕ → List ℕ → (ℕ → ℕ) → ℕ → ℕ
draw_glyph s row_idx [] byte = byte
draw_glyph s row_idx (bits ∷ rows) byte =
    draw_glyph s (row_idx + 1) rows (draw_row s bits row_idx 0 8 byte)

-- The argument is an unsigned int; the difference is a uint64_t.
unfoldable pub screen_scroll : ℕ → Screen → (ℕ → ℕ) → ℕ → ℕ
screen_scroll pixel_count s byte =
    let fb = s.screen_fb in
    let bytes_to_move = u64 (u64 (fb.height + (2 ^ 64 - pixel_count)) * fb.pitch) in
    let moved = memmove fb.address (fb.address + u64 (pixel_count * fb.pitch)) bytes_to_move byte in
    memset (fb.address + bytes_to_move) 0 (u64 (pixel_count * fb.pitch)) moved

-- From the label `newline` on.
unfoldable pub newline : Screen → (ℕ → ℕ) → Screen × (ℕ → ℕ)
newline s byte =
    let size = glyph_size s.font_scale in
    let s0 : Screen = record s { cursor_x = 0 } in
    if leb s.screen_fb.height (u64 (s.cursor_y + size))
    then (s0, screen_scroll (u32 size) s0 byte)
    else (record s0 { cursor_y = u64 (s.cursor_y + size) }, byte)

-- From the test of the cursor on, behind the glyph.
unfoldable pub move_cursor : Screen → (ℕ → ℕ) → Screen × (ℕ → ℕ)
move_cursor s byte =
    let x = u64 (s.cursor_x + glyph_size s.font_scale) in
    if leb s.screen_fb.width x then newline s byte else (record s { cursor_x = x }, byte)

-- `none` is a read outside the font: a char of 128 or more is negative.
unfoldable pub screen_putch : ℕ → Screen → (ℕ → ℕ) → Option (Screen × (ℕ → ℕ))
screen_putch ch s byte =
    if ch == 0x0A
    then some (newline s byte)
    else (get_elem? font8x8_buff ch >>= λ glyph. some (move_cursor s (draw_glyph s 0 glyph byte)))

-- The loop of `screen_print`, over the characters of the string before its end.
unfoldable pub screen_print : List ℕ → Screen → (ℕ → ℕ) → Option (Screen × (ℕ → ℕ))
screen_print [] s byte = some (s, byte)
screen_print (ch ∷ str) s byte = screen_putch ch s byte >>= λ r. screen_print str r.0 r.1

unfoldable pub hex_digit : ℕ → ℕ
hex_digit digit = if ltb digit 10 then digit + 0x30 else digit - 10 + 0x61

-- The loop that fills `buff`, whose last character comes first here, with fuel for the tests of `addr`.
unfoldable pub fill_buff : ℕ → ℕ → List ℕ → Option (List ℕ)
fill_buff zero addr buff = none
fill_buff (suc fuel) addr buff =
    let rest = fill_buff fuel (addr / 16) (hex_digit (addr % 16) ∷ buff) in
    if addr == 0 then some buff else rest

-- The last loop puts the characters of `buff` from the last one down, as `screen_print` would.
unfoldable pub screen_print_addr : ℕ → ℕ → Screen → (ℕ → ℕ) → Option (Screen × (ℕ → ℕ))
screen_print_addr fuel addr s byte = screen_print (0x30 ∷ 0x78 ∷ []) s byte >>= λ r.
    if addr == 0
    then screen_putch 0x30 r.0 r.1
    else (fill_buff fuel addr [] >>= λ buff. screen_print buff r.0 r.1)

-- The loop of `screen_clear`, with `n` pixels to go.
unfoldable pub fill_pixels : ℕ → ℕ → ℕ → (ℕ → ℕ) → ℕ → ℕ
fill_pixels fb_ptr color zero byte = byte
fill_pixels fb_ptr color (suc n) byte =
    fill_pixels (fb_ptr + 4) color n (store_u32 fb_ptr color byte)

unfoldable pub screen_clear : Screen → (ℕ → ℕ) → ℕ → ℕ
screen_clear s byte =
    let fb = s.screen_fb in
    fill_pixels fb.address s.screen_color (u64 (fb.pitch / 4 * fb.height)) byte
