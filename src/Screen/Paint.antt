-- ===== src/Screen/Paint.antt =====
-- What a routine of the screen driver leaves on the screen: the set of the pixels it has drawn.
use ssos.Base.{
  ℕ, zero, suc, ◌+◌, ◌*◌, ◌/◌, ◌%◌, ◌^◌, ◌≤◌, ◌<◌, ◌≡◌, ◌≢◌, ◌⊎◌, inl, inr, refl, sym, ap, arith,
  ◌∙◌,
}
use ssos.Base.{
  Bool, true, false, ◌&&◌, ◌||◌, ◌==◌, if◌then◌else◌, if_true, if_false, Bool-cases, u64,
}
use native.Mathlib.Decide.{ℕ_discrete}
use native.Mathlib.Nat.{mul-suc, mul-le-mul_left}
use ssos.Memory.{store_byte}
use ssos.Screen.{Framebuffer, Screen, store_u32, draw_pixel}

-- The address of a pixel.
abbrev pub pixel : Framebuffer → ℕ → ℕ → ℕ
pixel fb x y = fb.address + fb.pitch * y + 4 * x

-- Pixels of four bytes, rows that do not overlap, a buffer inside the address space, sizes
-- that are a uint64_t.
pub record IsUsable (fb : Framebuffer) : Type 0 where
  pub bytes : fb.bpp / 8 ≡ 4
  pub rows : 4 * fb.width ≤ fb.pitch
  pub fits : fb.address + fb.pitch * fb.height < 2 ^ 64
  pub wide : fb.width < 2 ^ 64
  pub tall : fb.height < 2 ^ 64

-- The byte `k` of a color.
abbrev pub channel : ℕ → ℕ → ℕ
channel c k = c / 2 ^ (8 * k) % 256

-- `byte'` is `byte` with the pixels of `p` in the screen's color; no byte outside the pixels differs.
pub record Paints (s : Screen) (p : ℕ → ℕ → Bool) (byte byte' : ℕ → ℕ) : Type 0 where
  pub pixels :
      (x y k : ℕ)
      → x < s.screen_fb.width
      → y < s.screen_fb.height
      → k < 4
      → byte' (pixel s.screen_fb x y + k)
        ≡ (if p x y then channel s.screen_color k else byte (pixel s.screen_fb x y + k))
  pub outside :
      (a : ℕ)
      → ((x y k : ℕ)
          → x < s.screen_fb.width
          → y < s.screen_fb.height
          → k < 4
          → a ≢ pixel s.screen_fb x y + k)
      → byte' a ≡ byte a

store_u32_on : (p c k : ℕ) (byte : ℕ → ℕ) → k < 4 → store_u32 p c byte (p + k) ≡ channel c k
unfolding store_u32 store_byte
store_u32_on p c zero byte lt = ground arith
store_u32_on p c (suc zero) byte lt = ground arith
store_u32_on p c (suc (suc zero)) byte lt = ground arith
store_u32_on p c (suc (suc (suc zero))) byte lt = ground arith
store_u32_on p c (suc (suc (suc (suc k)))) byte lt = absurd (omega arith)

store_u32_off : (p c a : ℕ) (byte : ℕ → ℕ) → (a < p) ⊎ (p + 4 ≤ a) → store_u32 p c byte a ≡ byte a
unfolding store_u32 store_byte
store_u32_off p c a byte apart = ground arith

pub whole_row : (p y h : ℕ) → y < h → p * y + p ≤ p * h
whole_row p y h lt = omega (arith, mul-suc p y, mul-le-mul_left p lt)

module _ (fb : Framebuffer) (usable : IsUsable fb) where
  pub pixel_end :
      (x y : ℕ)
      → x < fb.width
      → y < fb.height
      → pixel fb x y + 4 ≤ fb.address + fb.pitch * fb.height
  pixel_end x y lx ly = omega (arith, whole_row fb.pitch y fb.height ly, usable.rows)

  higher : (x y x' y' : ℕ) → x < fb.width → y < y' → pixel fb x y + 4 ≤ pixel fb x' y'
  higher x y x' y' lx ly = omega (arith, whole_row fb.pitch y y' ly, usable.rows)

  pixel_apart :
      (x y x' y' : ℕ)
      → x < fb.width
      → x' < fb.width
      → ((x == x') && (y == y')) ≡ false
      → (pixel fb x y + 4 ≤ pixel fb x' y') ⊎ (pixel fb x' y' + 4 ≤ pixel fb x y)
  pixel_apart x y x' y' lx lx' ne = elim (ℕ_discrete y y') [
    | yes e ↦ ground (arith, ap (λ (t : ℕ). fb.pitch * t) e)
    | no d ↦ ground (arith, higher x y x' y' lx, higher x' y' x y lx')
  ]

-- Nothing drawn, and one drawing behind another.
pub Paints-none :
    (s : Screen) (p : ℕ → ℕ → Bool) (byte : ℕ → ℕ)
    → ((x y : ℕ) → p x y ≡ false)
    → Paints s p byte byte
Paints-none s p byte none = record {
  pixels = λ x y k lx ly lk. sym (if_false (p x y) _ _ (none x y));
  outside = λ a h. refl;
}

if_or :
    (p q : Bool) (c b b1 b2 : ℕ)
    → b2 ≡ (if q then c else b1)
    → b1 ≡ (if p then c else b)
    → b2 ≡ (if p || q then c else b)
if_or true true c b b1 b2 e1 e2 = e1
if_or true false c b b1 b2 e1 e2 = e1 ∙ e2
if_or false true c b b1 b2 e1 e2 = e1
if_or false false c b b1 b2 e1 e2 = e1 ∙ e2

pub Paints-then :
    (s : Screen) (p q r : ℕ → ℕ → Bool) (byte byte1 byte2 : ℕ → ℕ)
    → Paints s p byte byte1
    → Paints s q byte1 byte2
    → ((x y : ℕ) → r x y ≡ (p x y || q x y))
    → Paints s r byte byte2
Paints-then s p q r byte byte1 byte2 first second union = record {
  pixels = λ x y k lx ly lk.
      rw (union x y) (
        if_or (p x y) (q x y) _ _ _ _ (second.pixels x y k lx ly lk) (first.pixels x y k lx ly lk));
  outside = λ a h. second.outside a h ∙ first.outside a h;
}

not_in : (p a : ℕ) → ((k : ℕ) → k < 4 → a ≢ p + k) → (a < p) ⊎ (p + 4 ≤ a)
not_in p a h = ground (arith, h 0, h 1, h 2, h 3)

same_pixel :
    (fb : Framebuffer) (x y x' y' : ℕ)
    → ((x == x') && (y == y')) ≡ true
    → pixel fb x' y' ≡ pixel fb x y
same_pixel fb x y x' y' e =
    let ex : x ≡ x' = ground arith in let ey : y ≡ y' = ground arith in cc (ex, ey)

-- One pixel.
module _ (s : Screen) (usable : IsUsable s.screen_fb) (x0 y0 : ℕ) (lx0 : x0 < s.screen_fb.width)
    (ly0 : y0 < s.screen_fb.height) where
  pixel_address :
      u64 (s.screen_fb.address + s.screen_fb.pitch * y0 + s.screen_fb.bpp / 8 * x0)
      ≡ pixel s.screen_fb x0 y0
  pixel_address =
      rw usable.bytes (omega (arith, pixel_end s.screen_fb usable x0 y0 lx0 ly0, usable.fits))

  pub draw_pixel-Paints :
      (byte : ℕ → ℕ) → Paints s (λ x y. (x0 == x) && (y0 == y)) byte (draw_pixel s x0 y0 byte)
  unfolding draw_pixel
  draw_pixel-Paints byte = rw pixel_address (record {
    pixels = λ x y k lx ly lk. elim (Bool-cases ((x0 == x) && (y0 == y))) [
      | inl e ↦
          ap (λ (t : ℕ). store_u32 (pixel s.screen_fb x0 y0) s.screen_color byte (t + k))
            (same_pixel s.screen_fb x0 y0 x y e)
          ∙ store_u32_on (pixel s.screen_fb x0 y0) s.screen_color k byte lk
          ∙ sym (if_true ((x0 == x) && (y0 == y)) _ _ e)
      | inr e ↦
          store_u32_off (pixel s.screen_fb x0 y0) s.screen_color (pixel s.screen_fb x y + k) byte
            (ground (arith, pixel_apart s.screen_fb usable x0 y0 x y lx0 lx e))
          ∙ sym (if_false ((x0 == x) && (y0 == y)) _ _ e)
    ];
    outside = λ a h.
        store_u32_off (pixel s.screen_fb x0 y0) s.screen_color a byte
          (not_in (pixel s.screen_fb x0 y0) a (λ k. h x0 y0 k lx0 ly0));
  })
