-- ===== src/Screen/Tests.antt =====
-- Runs of the screen driver on a screen of two by two characters.
use ssos.Base.{ℕ, ◌≤◌, ◌≡◌, refl, arith, true, some, List, [], ◌∷◌, length, pos, get_elem?}
use ssos.Screen.{Framebuffer, Screen, screen_init, screen_get_rgb_color}
use ssos.Screen.{screen_putch, screen_print, screen_print_addr, screen_scroll, move_cursor}
use ssos.Screen.Font.{font8x8_buff}
use ssos.Screen.Paint.{IsUsable, Paints}
use ssos.Screen.Glyph.{ink}
use ssos.Screen.Cursor.{Scrolled, screen_scroll-Scrolled}
use ssos.Screen.Grid.{At, KeepsRest, screen_putch-Paints}
use ssos.Screen.Print.{is_ascii, screen_print-At}
use ssos.Screen.Address.{read_addr, read_addr-screen_print_addr}

abbrev fb : Framebuffer
fb = record {
  address = 0x1000;
  width = 32;
  height = 32;
  pitch = 128;
  bpp = 32;
  red_mask_shift = 16;
  green_mask_shift = 8;
  blue_mask_shift = 0;
}

fb-IsUsable : IsUsable fb
fb-IsUsable = record {
  bytes = refl;
  rows = omega arith;
  fits = omega arith;
  wide = omega arith;
  tall = omega arith;
}

-- In the last column of the first line, with two pixels for each bit.
abbrev screen : Screen
screen = record {
  screen_fb = fb;
  cursor_x = 16;
  cursor_y = 0;
  screen_color = 0xFFFFFF;
  font_scale = pos 2;
}

abbrev dark : ℕ → ℕ
dark a = 0

screen-At : At screen 2 2 2 1 0
screen-At = record {
  scale = refl;
  visible = omega arith;
  small = omega arith;
  width = refl;
  height = refl;
  column = omega arith;
  line = omega arith;
  cursor_x = refl;
  cursor_y = refl;
}

white : (screen_init fb).screen_color ≡ 0xFFFFFF
unfolding screen_init screen_get_rgb_color
white = refl

screen_putch-Paints_example :
    (glyph : List ℕ) × (byte' : ℕ → ℕ) × (get_elem? font8x8_buff 0x41 ≡ some glyph)
    × Paints screen (ink glyph 16 0 2) dark byte'
    × (screen_putch 0x41 screen dark ≡ some (move_cursor screen byte'))
screen_putch-Paints_example =
    screen_putch-Paints 2 2 2 1 0 screen fb-IsUsable screen-At 0x41 dark (omega arith) (omega arith)

screen_scroll-Scrolled_example : Scrolled fb 16 dark (screen_scroll 16 screen dark)
screen_scroll-Scrolled_example = screen_scroll-Scrolled screen 16 dark fb-IsUsable (omega arith)

-- "Hi", a newline and "!": to the second line, where the newline scrolls.
screen_print-At_example :
    (s' : Screen) × (byte' : ℕ → ℕ) × (screen_print (0x48 ∷ 0x69 ∷ 0x0A ∷ 0x21 ∷ []) screen dark
      ≡ some (s', byte'))
    × At s' 2 2 2 1 1
    × KeepsRest fb dark byte'
screen_print-At_example =
    screen_print-At (0x48 ∷ 0x69 ∷ 0x0A ∷ 0x21 ∷ []) 2 2 2 1 0 screen dark fb-IsUsable screen-At
      refl

read_addr-screen_print_addr_example :
    (text : List ℕ) × ((s : Screen) (byte : ℕ → ℕ)
      → screen_print_addr 17 0xDEADBEEF s byte ≡ screen_print text s byte)
    × (read_addr text ≡ some 0xDEADBEEF)
    × (is_ascii text ≡ true)
    × (3 ≤ length text)
    × (length text ≤ 18)
read_addr-screen_print_addr_example = read_addr-screen_print_addr 0xDEADBEEF (omega arith)
