-- ===== src/Screen/Glyph.antt =====
-- The pixels that the loops of `screen_putch` draw.
use ssos.Base.{ℕ, zero, suc, ◌+◌, ◌-◌, ◌*◌, ◌/◌, ◌^◌, ◌≤◌, ◌<◌, ◌≡◌, inl, inr, refl, ap, arith}
use ssos.Base.{Bool, true, false, not, ◌&&◌, ◌||◌, ltb, leb, ◌==◌, if◌then◌else◌, Bool-cases}
use ssos.Base.{List, [], ◌∷◌, length, get_or, bit_and, pos_part}
use native.Mathlib.Decide.{ℕ_discrete}
use native.Mathlib.Nat.{le-div_iff_mul-le, div-lt_iff_lt-mul, suc-mul, mul-le-mul_right}
use ssos.Screen.{Screen, draw_pixel, draw_column, draw_square, draw_row, draw_glyph}
use ssos.Screen.Paint.{IsUsable, Paints, Paints-none, Paints-then, draw_pixel-Paints}

-- From `a` on, `n` of them.
abbrev span : ℕ → ℕ → ℕ → Bool
span a n x = leb a x && ltb x (a + n)

-- The bit of a glyph's row that the code tests.
abbrev pub is_inked : ℕ → ℕ → Bool
is_inked bits i = not (bit_and bits (2 ^ i) == 0)

-- A glyph at (cx, cy), each of its pixels a square of `z` pixels: the pixel (x, y) is drawn.
abbrev pub ink : List ℕ → ℕ → ℕ → ℕ → ℕ → ℕ → Bool
ink glyph cx cy z x y =
    (leb cx x && ltb ((x - cx) / z) 8)
    && ((leb cy y && ltb ((y - cy) / z) (length glyph))
        && is_inked (get_or glyph ((y - cy) / z) 0) ((x - cx) / z))

column_union :
    (a : Bool) (y0 n y : ℕ)
    → (a && span y0 (suc n) y) ≡ ((a && (y0 == y)) || (a && span (y0 + 1) n y))
column_union true y0 n y = ground arith
column_union false y0 n y = refl

square_union :
    (b : Bool) (x0 n x : ℕ)
    → (span x0 (suc n) x && b) ≡ (((x0 == x) && b) || (span (x0 + 1) n x && b))
square_union b x0 n x = elim (ℕ_discrete x0 x) [ yes e ↦ ground arith | no ne ↦ ground arith ]

cell : (c0 z col x : ℕ) → 0 < z → span (c0 + col * z) z x ≡ (leb c0 x && ((x - c0) / z == col))
cell c0 z col x lt = ground (
  arith,
  (le-div_iff_mul-le {k = z} {x = col} {y = x - c0} lt).0,
  (le-div_iff_mul-le {k = z} {x = col} {y = x - c0} lt).1,
  (div-lt_iff_lt-mul {k = z} {x = x - c0} {y = suc col} lt).0,
  (div-lt_iff_lt-mul {k = z} {x = x - c0} {y = suc col} lt).1,
  suc-mul col z,
)

row_union :
    (a r : Bool) (f : ℕ → Bool) (u col left : ℕ)
    → ((a && (leb col u && ltb u (col + suc left))) && (r && f u)) ≡ (
        (f col && ((a && (u == col)) && r))
        || ((a && (leb (col + 1) u && ltb u (col + 1 + left))) && (r && f u)))
row_union false r f u col left = ground arith
row_union true false f u col left = ground arith
row_union true true f u col left = elim (ℕ_discrete u col) [
  | yes e ↦ let same : f u ≡ f col = ap f e in rw same (ground arith)
  | no ne ↦ ground arith
]

glyph_union :
    (a b : Bool) (bits : ℕ) (rest : List ℕ) (u v row n : ℕ)
    → ((a && ltb u 8)
        && ((b && (leb row v && ltb v (row + suc n)))
            && is_inked (get_or (bits ∷ rest) (v - row) 0) u))
      ≡ (((a && (leb 0 u && ltb u 8)) && ((b && (v == row)) && is_inked bits u))
          || ((a && ltb u 8)
              && ((b && (leb (row + 1) v && ltb v (row + 1 + n)))
                  && is_inked (get_or rest (v - (row + 1)) 0) u)))
glyph_union false b bits rest u v row n = ground arith
glyph_union true false bits rest u v row n = ground arith
glyph_union true true bits rest u v row n = elim (ℕ_discrete v row) [
  | yes e ↦ let here : v - row ≡ 0 = omega (arith, e) in rw here (ground arith)
  | no ne ↦ elim (Bool-cases (leb row v)) [
    | inl le ↦ let next : v - row ≡ suc (v - (row + 1)) = ground arith in rw next (ground arith)
    | inr gt ↦ ground arith
  ]
]

empty_span : (a x : ℕ) → span a 0 x ≡ false
empty_span a x = ground arith

and_false : (a b : Bool) → b ≡ false → (a && b) ≡ false
and_false true b e = e
and_false false b e = refl

and_false_left : (a b : Bool) → a ≡ false → (a && b) ≡ false
and_false_left true b e = absurd (ground (arith, e))
and_false_left false b e = refl

-- A drawing that depends on a test.
Paints-if :
    (s : Screen) (b : Bool) (p : ℕ → ℕ → Bool) (byte byte1 : ℕ → ℕ)
    → Paints s p byte byte1
    → Paints s (λ x y. not b && p x y) byte (if b then byte else byte1)
Paints-if s true p byte byte1 h = Paints-none s (λ x y. false) byte (λ x y. refl)
Paints-if s false p byte byte1 h = h

-- A drawing of the same pixels.
Paints-same :
    (s : Screen) (p q : ℕ → ℕ → Bool) (byte byte1 : ℕ → ℕ)
    → Paints s p byte byte1
    → ((x y : ℕ) → q x y ≡ p x y)
    → Paints s q byte byte1
Paints-same s p q byte byte1 h e = record {
  pixels = λ x y k lx ly lk. rw (e x y) (h.pixels x y k lx ly lk);
  outside = h.outside;
}

-- The column of the glyph that a pixel is in, and its row.
abbrev column_of : Screen → ℕ → ℕ
column_of s x = (x - s.cursor_x) / pos_part s.font_scale

abbrev row_of : Screen → ℕ → ℕ
row_of s y = (y - s.cursor_y) / pos_part s.font_scale

-- What `draw_row` and `draw_glyph` draw.
abbrev row_ink : Screen → ℕ → ℕ → ℕ → ℕ → ℕ → ℕ → Bool
row_ink s bits row col left x y =
    (leb s.cursor_x x && (leb col (column_of s x) && ltb (column_of s x) (col + left)))
    && ((leb s.cursor_y y && (row_of s y == row)) && is_inked bits (column_of s x))

abbrev rows_ink : Screen → ℕ → List ℕ → ℕ → ℕ → Bool
rows_ink s row glyph x y =
    (leb s.cursor_x x && ltb (column_of s x) 8)
    && ((leb s.cursor_y y && (leb row (row_of s y) && ltb (row_of s y) (row + length glyph)))
        && is_inked (get_or glyph (row_of s y - row) 0) (column_of s x))

no_row : (a b : Bool) (col u : ℕ) → ((a && (leb col u && ltb u (col + 0))) && b) ≡ false
no_row a b col u = ground arith

no_rows : (a b c : Bool) (row v : ℕ) → (a && ((b && (leb row v && ltb v (row + 0))) && c)) ≡ false
no_rows a b c row v = ground arith

in_cell : (c k z w : ℕ) → k < 8 → c + 8 * z ≤ w → c + k * z + z ≤ w
in_cell c k z w lt le = omega (arith, mul-le-mul_right z lt, suc-mul k z)

module _ (s : Screen) (usable : IsUsable s.screen_fb) (positive : 0 < pos_part s.font_scale)
    (columns : s.cursor_x + 8 * pos_part s.font_scale ≤ s.screen_fb.width)
    (rows : s.cursor_y + 8 * pos_part s.font_scale ≤ s.screen_fb.height) where
  draw_column-Paints :
      (x0 y0 n : ℕ) (byte : ℕ → ℕ)
      → x0 < s.screen_fb.width
      → y0 + n ≤ s.screen_fb.height
      → Paints s (λ x y. (x0 == x) && span y0 n y) byte (draw_column s x0 y0 n byte)
  unfolding draw_column
  draw_column-Paints x0 y0 zero byte lx ly =
      Paints-none s _ byte (λ x y. and_false (x0 == x) (span y0 0 y) (empty_span y0 y))
  draw_column-Paints x0 y0 (suc n) byte lx ly =
      Paints-then s (λ x y. (x0 == x) && (y0 == y)) (λ x y. (x0 == x) && span (y0 + 1) n y) _ byte _
        _ (draw_pixel-Paints s usable x0 y0 lx (omega arith) byte)
        (draw_column-Paints x0 (y0 + 1) n (draw_pixel s x0 y0 byte) lx (omega arith))
        (λ x y. column_union (x0 == x) y0 n y)

  draw_square-Paints :
      (x0 y0 n : ℕ) (byte : ℕ → ℕ)
      → x0 + n ≤ s.screen_fb.width
      → y0 + pos_part s.font_scale ≤ s.screen_fb.height
      → Paints s
          (λ x y. span x0 n x && span y0 (pos_part s.font_scale) y)
          byte
          (draw_square s x0 y0 n byte)
  unfolding draw_square
  draw_square-Paints x0 y0 zero byte lx ly =
      Paints-none s _ byte
        (λ x y. and_false_left (span x0 0 x) (span y0 (pos_part s.font_scale) y) (empty_span x0 x))
  draw_square-Paints x0 y0 (suc n) byte lx ly =
      (Paints-then s (λ x y. (x0 == x) && span y0 (pos_part s.font_scale) y)
        (λ x y. span (x0 + 1) n x && span y0 (pos_part s.font_scale) y) _ byte _ _
        (draw_column-Paints x0 y0 (pos_part s.font_scale) byte (omega arith) ly)
        (draw_square-Paints (x0 + 1) y0 n (draw_column s x0 y0 (pos_part s.font_scale) byte)
          (omega arith) ly)
        (λ x y. square_union (span y0 (pos_part s.font_scale) y) x0 n x))

  cell_union :
      (x0 y0 col row x y : ℕ)
      → (span (x0 + col * pos_part s.font_scale) (pos_part s.font_scale) x
          && span (y0 + row * pos_part s.font_scale) (pos_part s.font_scale) y)
        ≡ ((leb x0 x && ((x - x0) / pos_part s.font_scale == col))
            && (leb y0 y && ((y - y0) / pos_part s.font_scale == row)))
  cell_union x0 y0 col row x y = cc (
    cell x0 (pos_part s.font_scale) col x positive,
    cell y0 (pos_part s.font_scale) row y positive,
  )

  draw_row-Paints :
      (bits row col left : ℕ) (byte : ℕ → ℕ)
      → row < 8
      → col + left ≤ 8
      → Paints s (row_ink s bits row col left) byte (draw_row s bits row col left byte)
  unfolding draw_row
  draw_row-Paints bits row col zero byte lr lc =
      Paints-none s _ byte (λ x y. no_row (leb s.cursor_x x) _ col (column_of s x))
  draw_row-Paints bits row col (suc left) byte lr lc =
      let z = pos_part s.font_scale in
      let square = draw_square s (s.cursor_x + col * z) (s.cursor_y + row * z) z byte in
      Paints-then s _ (row_ink s bits row (col + 1) left) _ byte
        (if bit_and bits (2 ^ col) == 0 then byte else square) _
        (Paints-if s (bit_and bits (2 ^ col) == 0) _ byte square (
          draw_square-Paints (s.cursor_x + col * z) (s.cursor_y + row * z) z byte
            (in_cell s.cursor_x col z s.screen_fb.width (omega arith) columns)
            (in_cell s.cursor_y row z s.screen_fb.height lr rows)))
        (draw_row-Paints bits row (col + 1) left _ lr (omega arith))
        (λ x y. rw (cell_union s.cursor_x s.cursor_y col row x y) (
          row_union (leb s.cursor_x x) (leb s.cursor_y y && (row_of s y == row)) (is_inked bits)
            (column_of s x) col left))

  draw_glyph-rows :
      (row : ℕ) (glyph : List ℕ) (byte : ℕ → ℕ)
      → row + length glyph ≤ 8
      → Paints s (rows_ink s row glyph) byte (draw_glyph s row glyph byte)
  unfolding draw_glyph
  draw_glyph-rows row [] byte lr =
      Paints-none s _ byte (λ x y. no_rows _ (leb s.cursor_y y) _ row (row_of s y))
  draw_glyph-rows row (bits ∷ rest) byte lr =
      Paints-then s (row_ink s bits row 0 8) (rows_ink s (row + 1) rest) _ byte _ _
        (draw_row-Paints bits row 0 8 byte (omega arith) (omega arith))
        (draw_glyph-rows (row + 1) rest _ (omega arith))
        (λ x y.
          glyph_union (leb s.cursor_x x) (leb s.cursor_y y) bits rest (column_of s x) (row_of s y)
            row (length rest))

  pub draw_glyph-Paints :
      (glyph : List ℕ) (byte : ℕ → ℕ)
      → length glyph ≤ 8
      → Paints s
          (ink glyph s.cursor_x s.cursor_y (pos_part s.font_scale))
          byte
          (draw_glyph s 0 glyph byte)
  draw_glyph-Paints glyph byte le =
      Paints-same s (rows_ink s 0 glyph) _ byte _ (draw_glyph-rows 0 glyph byte (omega arith))
        (λ x y. ground arith)
