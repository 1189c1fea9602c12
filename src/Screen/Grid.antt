-- ===== src/Screen/Grid.antt =====
-- The screen as a grid of characters.
use ssos.Base.{ℕ, suc, ◌+◌, ◌*◌, ◌%◌, ◌^◌, ◌≤◌, ◌<◌, ◌≡◌, ◌≢◌, ◌⊎◌, refl, sym, ap, arith, ◌∙◌}
use ssos.Base.{
  false, leb, ◌==◌, if◌then◌else◌, if_true, if_false, u64, some, pos, pos_part, ==_refl, ==_ne,
  leb_le, leb_gt,
}
use ssos.Base.{length, get_elem?, List, branch}
use mathlib.Core.Path.{subst}
use native.Mathlib.Decide.{ℕ_discrete}
use native.Mathlib.Nat.{mul-le-mul_right, suc-mul}
use ssos.Screen.{
  Framebuffer, Screen, glyph_size, screen_scroll, newline, move_cursor, screen_putch, draw_glyph,
}
use ssos.Screen.Font.{font8x8_buff, glyph_of}
use ssos.Screen.Paint.{IsUsable, Paints}
use ssos.Screen.Glyph.{ink, draw_glyph-Paints}
use ssos.Screen.Cursor.{scroll-outside}

-- A screen of `cols` by `rows` characters of 8 * z pixels each way, with the cursor at one of them.
pub record At (s : Screen) (z cols rows col row : ℕ) : Type 0 where
  pub scale : s.font_scale ≡ pos z
  pub visible : 0 < z
  pub small : 8 * z < 2 ^ 31
  pub width : s.screen_fb.width ≡ cols * (8 * z)
  pub height : s.screen_fb.height ≡ rows * (8 * z)
  pub column : col < cols
  pub line : row < rows
  pub cursor_x : s.cursor_x ≡ col * (8 * z)
  pub cursor_y : s.cursor_y ≡ row * (8 * z)

-- The lines of characters, the last of which has nothing below it.
abbrev pub next_row : ℕ → ℕ → ℕ
next_row rows row = if suc row == rows then row else suc row

-- Where the next character goes: behind the last column and behind a newline, at the start of a line.
abbrev pub next_cell : ℕ → ℕ → ℕ → ℕ → ℕ → ℕ × ℕ
next_cell cols rows ch col row =
    if ch == 0x0A
    then (0, next_row rows row)
    else if suc col == cols
    then (0, next_row rows row)
    else (suc col, row)

-- No byte outside the frame buffer differs.
abbrev pub KeepsRest : Framebuffer → (ℕ → ℕ) → (ℕ → ℕ) → Type 0
KeepsRest fb byte byte' =
    (a : ℕ) → (a < fb.address) ⊎ (fb.address + fb.pitch * fb.height ≤ a) → byte' a ≡ byte a

at_end : (g i n : ℕ) → 0 < g → i < n → leb (n * g) (i * g + g) ≡ (suc i == n)
at_end g i n positive lt = elim (ℕ_discrete (suc i) n) [
  | yes e ↦
      let same : n * g ≡ i * g + g = sym (ap (λ (t : ℕ). t * g) e) ∙ suc-mul i g in
      leb_le (n * g) (i * g + g) (omega (arith, same)) ∙ sym (==_refl (suc i) n e)
  | no ne ↦
      let more : suc (suc i) ≤ n = omega arith in
      leb_gt (n * g) (i * g + g)
        (omega (arith, suc-mul i g, suc-mul (suc i) g, mul-le-mul_right g more))
      ∙ sym (==_ne (suc i) n ne)
]

module _ (z cols rows col row : ℕ) (s : Screen) (usable : IsUsable s.screen_fb)
    (at : At s z cols rows col row) where
  glyph_size_lem : glyph_size s.font_scale ≡ 8 * z
  unfolding glyph_size
  glyph_size_lem = ap glyph_size at.scale ∙ omega (arith, at.small)

  within : (i n size : ℕ) → i < n → size ≡ n * (8 * z) → i * (8 * z) + 8 * z ≤ size
  within i n size lt e = omega (arith, mul-le-mul_right (8 * z) lt, suc-mul i (8 * z))

  right : u64 (s.cursor_x + glyph_size s.font_scale) ≡ col * (8 * z) + 8 * z
  right =
      rw (glyph_size_lem, at.cursor_x)
        (omega (arith, within col cols s.screen_fb.width at.column at.width, usable.wide))

  down : u64 (s.cursor_y + glyph_size s.font_scale) ≡ row * (8 * z) + 8 * z
  down =
      rw (glyph_size_lem, at.cursor_y)
        (omega (arith, within row rows s.screen_fb.height at.line at.height, usable.tall))

  last_column :
      leb s.screen_fb.width (u64 (s.cursor_x + glyph_size s.font_scale)) ≡ (suc col == cols)
  last_column = rw (right, at.width) (at_end (8 * z) col cols (omega (arith, at.visible)) at.column)

  last_row : leb s.screen_fb.height (u64 (s.cursor_y + glyph_size s.font_scale)) ≡ (suc row == rows)
  last_row = rw (down, at.height) (at_end (8 * z) row rows (omega (arith, at.visible)) at.line)

  -- A call that leaves the cursor at `cell`, and writes nowhere but in the frame buffer.
  abbrev pub Done : (ℕ → ℕ) → Screen × (ℕ → ℕ) → ℕ × ℕ → Type 0
  Done byte r cell =
      At r.0 z cols rows cell.0 cell.1
      × (r.0.screen_fb ≡ s.screen_fb)
      × KeepsRest s.screen_fb byte r.1

  scrolled :
      (byte : ℕ → ℕ)
      → KeepsRest s.screen_fb byte
          (screen_scroll (glyph_size s.font_scale % 2 ^ 32) (record s { cursor_x = 0 }) byte)
  scrolled byte =
      let size : glyph_size s.font_scale % 2 ^ 32 ≡ 8 * z =
        rw glyph_size_lem (omega (arith, at.small)) in
      rw size (
        scroll-outside (record s { cursor_x = 0 }) (8 * z) byte usable
          (omega (arith, within row rows s.screen_fb.height at.line at.height)))

  next_row_lt : next_row rows row < rows
  next_row_lt = ground (arith, at.line)

  moved_to :
      (x y col' row' : ℕ)
      → col' < cols
      → row' < rows
      → x ≡ col' * (8 * z)
      → y ≡ row' * (8 * z)
      → At (record s { cursor_x = x; cursor_y = y }) z cols rows col' row'
  moved_to x y col' row' lc lr ex ey = record {
    scale = at.scale;
    visible = at.visible;
    small = at.small;
    width = at.width;
    height = at.height;
    column = lc;
    line = lr;
    cursor_x = ex;
    cursor_y = ey;
  }

  pub newline-Done : (byte : ℕ → ℕ) → Done byte (newline s byte) (0, next_row rows row)
  unfolding newline
  newline-Done byte =
      let first : 0 < cols = omega (arith, at.column) in
      branch (λ r. Done byte r (0, next_row rows row))
        (leb s.screen_fb.height (u64 (s.cursor_y + glyph_size s.font_scale)))
        (λ h.
          let here : next_row rows row ≡ row =
            if_true (suc row == rows) row (suc row) (sym last_row ∙ h) in
          let y : s.cursor_y ≡ next_row rows row * (8 * z) =
            at.cursor_y ∙ ap (λ (t : ℕ). t * (8 * z)) (sym here) in
          (
            moved_to 0 s.cursor_y 0 (next_row rows row) first next_row_lt (omega arith) y,
            refl,
            scrolled byte,
          ))
        (λ h.
          let here : next_row rows row ≡ suc row =
            if_false (suc row == rows) row (suc row) (sym last_row ∙ h) in
          let y : u64 (s.cursor_y + glyph_size s.font_scale) ≡ next_row rows row * (8 * z) =
            down ∙ sym (suc-mul row (8 * z)) ∙ ap (λ (t : ℕ). t * (8 * z)) (sym here) in
          (
            moved_to 0 (u64 (s.cursor_y + glyph_size s.font_scale)) 0 (next_row rows row) first
                next_row_lt (omega arith) y,
            refl,
            λ a out. refl,
          ))

  -- Behind a glyph.
  abbrev pub behind : ℕ × ℕ
  behind = if suc col == cols then (0, next_row rows row) else (suc col, row)

  pub move_cursor-Done : (byte : ℕ → ℕ) → Done byte (move_cursor s byte) behind
  unfolding move_cursor
  move_cursor-Done byte =
      let wrapped : ℕ × ℕ = (0, next_row rows row) in
      let beside : ℕ × ℕ = (suc col, row) in
      branch (λ r. Done byte r behind)
        (leb s.screen_fb.width (u64 (s.cursor_x + glyph_size s.font_scale)))
        (λ h.
          rw (if_true (suc col == cols) wrapped beside (sym last_column ∙ h)) (newline-Done byte))
        (λ h.
          let more : (suc col == cols) ≡ false = sym last_column ∙ h in
          rw (if_false (suc col == cols) wrapped beside more) (
            moved_to (u64 (s.cursor_x + glyph_size s.font_scale)) s.cursor_y (suc col) row
                (ground (arith, more, at.column)) at.line (right ∙ sym (suc-mul col (8 * z)))
                at.cursor_y,
            refl,
            λ a out. refl,
          ))

  -- A glyph at the cursor.
  glyph_Paints :
      (glyph : List ℕ) (byte : ℕ → ℕ)
      → length glyph ≤ 8
      → Paints s (ink glyph (col * (8 * z)) (row * (8 * z)) z) byte (draw_glyph s 0 glyph byte)
  glyph_Paints glyph byte le =
      let zoom : pos_part s.font_scale ≡ z = ap pos_part at.scale in
      let drawn =
        draw_glyph-Paints s usable (omega (arith, zoom, at.visible))
          (rw (zoom, at.cursor_x)
            (omega (arith, within col cols s.screen_fb.width at.column at.width)))
          (rw (zoom, at.cursor_y)
            (omega (arith, within row rows s.screen_fb.height at.line at.height)))
          glyph byte le in
      let same : ink glyph s.cursor_x s.cursor_y (pos_part s.font_scale)
          ≡ ink glyph (col * (8 * z)) (row * (8 * z)) z =
        cc (zoom, at.cursor_x, at.cursor_y) in
      subst (λ p. Paints s p byte (draw_glyph s 0 glyph byte)) same drawn

  -- On a usable frame buffer that is a whole number of characters wide and high, with the cursor at one
  -- of them, `screen_putch` of an ASCII character other than a newline draws in the screen's color the
  -- pixels of the cursor's cell that the character's glyph sets, each bit a square of `z` by `z` pixels.
  -- It changes no other byte before it moves the cursor.
  pub screen_putch-Paints :
      (ch : ℕ) (byte : ℕ → ℕ)
      → ch < 128
      → ch ≢ 0x0A
      → (glyph : List ℕ) × (byte' : ℕ → ℕ) × (get_elem? font8x8_buff ch ≡ some glyph)
        × Paints s (ink glyph (col * (8 * z)) (row * (8 * z)) z) byte byte'
        × (screen_putch ch s byte ≡ some (move_cursor s byte'))
  unfolding screen_putch
  screen_putch-Paints ch byte lt ne =
      let found = glyph_of ch lt in
      (
        found.0,
        draw_glyph s 0 found.0 byte,
        found.1,
        glyph_Paints found.0 byte (omega (arith, found.2)),
        rw (found.1, ==_ne ch 0x0A ne) refl,
      )
