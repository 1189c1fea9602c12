-- ===== src/Screen/Cursor.antt =====
-- Where the cursor goes, and what a scroll moves.
use ssos.Base.{ℕ, ◌+◌, ◌-◌, ◌*◌, ◌^◌, ◌≤◌, ◌<◌, ◌≡◌, ◌⊎◌, refl, sym, ap, arith, ◌∙◌}
use ssos.Base.{◌&&◌, ltb, leb, if◌then◌else◌, u64}
use native.Mathlib.Nat.{mul-le-mul_left, mul_comm, mul-add}
use ssos.Memory.{memmove}
use ssos.Memory.Move.{memmove_lem, memset_lem, copied}
use ssos.Screen.{Framebuffer, Screen, screen_scroll}
use ssos.Screen.Paint.{IsUsable, whole_row}

-- The sizes that `screen_scroll` computes, where nothing wraps.
lost : (n p h : ℕ) → n ≤ h → p * h < 2 ^ 64 → u64 (n * p) ≡ p * n
lost n p h le lt = omega (arith, mul_comm n p, mul-le-mul_left p le)

kept :
    (n p h : ℕ)
    → n ≤ h
    → h < 2 ^ 64
    → p * h < 2 ^ 64
    → u64 (u64 (h + (2 ^ 64 - n)) * p) ≡ p * (h - n)
kept n p h le small lt =
    let left : u64 (h + (2 ^ 64 - n)) ≡ h - n = omega arith in
    let short : h - n ≤ h = omega arith in
    rw left (omega (arith, mul_comm (h - n) p, mul-le-mul_left p short))

parts : (n p h : ℕ) → n ≤ h → p * (h - n) + p * n ≡ p * h
parts n p h le =
    let whole : h - n + n ≡ h = omega arith in
    sym (mul-add p (h - n) n) ∙ ap (λ (t : ℕ). p * t) whole

module _ (s : Screen) (n : ℕ) (byte : ℕ → ℕ) (usable : IsUsable s.screen_fb)
    (enough : n ≤ s.screen_fb.height) where
  -- The rows below the first `n` move up, and the last ones are cleared.
  scroll_at :
      (a : ℕ)
      → screen_scroll n s byte a ≡ (
          if leb (s.screen_fb.address + s.screen_fb.pitch * (s.screen_fb.height - n)) a
            && ltb a (s.screen_fb.address + s.screen_fb.pitch * s.screen_fb.height)
          then 0
          else copied s.screen_fb.address
              (s.screen_fb.address + s.screen_fb.pitch * n)
              (s.screen_fb.pitch * (s.screen_fb.height - n))
              byte
              a)
  unfolding screen_scroll
  scroll_at a =
      let fb = s.screen_fb in
      let end : fb.address + fb.pitch * (fb.height - n) + fb.pitch * n
          ≡ fb.address + fb.pitch * fb.height =
        omega (arith, parts n fb.pitch fb.height enough) in
      let k = kept n fb.pitch fb.height enough usable.tall (omega (arith, usable.fits)) in
      let l = lost n fb.pitch fb.height enough (omega (arith, usable.fits)) in
      rw
        (
          k,
          l,
          memset_lem (fb.address + fb.pitch * (fb.height - n)) 0 (fb.pitch * n)
              (memmove fb.address (fb.address + fb.pitch * n) (fb.pitch * (fb.height - n)) byte) a,
          memmove_lem fb.address (fb.address + fb.pitch * n) (fb.pitch * (fb.height - n)) byte a,
          end,
        )
        refl

  scroll-moved :
      (y j : ℕ)
      → y + n < s.screen_fb.height
      → j < s.screen_fb.pitch
      → screen_scroll n s byte (s.screen_fb.address + s.screen_fb.pitch * y + j)
        ≡ byte (s.screen_fb.address + s.screen_fb.pitch * (y + n) + j)
  scroll-moved y j ly lj =
      let fb = s.screen_fb in
      let fewer : fb.pitch * y + fb.pitch ≤ fb.pitch * (fb.height - n) =
        whole_row fb.pitch y (fb.height - n) (omega arith) in
      let there : fb.address + fb.pitch * n + (fb.address + fb.pitch * y + j - fb.address)
          ≡ fb.address + fb.pitch * (y + n) + j =
        omega (arith, mul-add fb.pitch y n) in
      scroll_at (fb.address + fb.pitch * y + j) ∙ ground (arith, ap byte there)

  scroll-cleared :
      (y j : ℕ)
      → y < s.screen_fb.height
      → s.screen_fb.height ≤ y + n
      → j < s.screen_fb.pitch
      → screen_scroll n s byte (s.screen_fb.address + s.screen_fb.pitch * y + j) ≡ 0
  scroll-cleared y j ly low lj =
      let fb = s.screen_fb in
      let above : fb.height - n ≤ y = omega arith in
      let end = whole_row fb.pitch y fb.height ly in
      scroll_at (fb.address + fb.pitch * y + j) ∙ ground (arith, mul-le-mul_left fb.pitch above)

  pub scroll-outside :
      (a : ℕ)
      → (a < s.screen_fb.address)
        ⊎ (s.screen_fb.address + s.screen_fb.pitch * s.screen_fb.height ≤ a)
      → screen_scroll n s byte a ≡ byte a
  scroll-outside a out =
      let fb = s.screen_fb in scroll_at a ∙ ground (arith, parts n fb.pitch fb.height enough)

-- `byte'` is `byte` with the rows of the screen moved up by `n`, and the last `n` cleared.
pub record Scrolled (fb : Framebuffer) (n : ℕ) (byte byte' : ℕ → ℕ) : Type 0 where
  pub moved :
      (y j : ℕ)
      → y + n < fb.height
      → j < fb.pitch
      → byte' (fb.address + fb.pitch * y + j) ≡ byte (fb.address + fb.pitch * (y + n) + j)
  pub cleared :
      (y j : ℕ)
      → y < fb.height
      → fb.height ≤ y + n
      → j < fb.pitch
      → byte' (fb.address + fb.pitch * y + j) ≡ 0
  pub outside :
      (a : ℕ) → (a < fb.address) ⊎ (fb.address + fb.pitch * fb.height ≤ a) → byte' a ≡ byte a

-- `screen_scroll`, on a usable frame buffer and by no more rows than it has, moves every row of pixels up
-- by that many, clears the last rows, and changes no byte outside the frame buffer.
pub screen_scroll-Scrolled :
    (s : Screen) (n : ℕ) (byte : ℕ → ℕ)
    → IsUsable s.screen_fb
    → n ≤ s.screen_fb.height
    → Scrolled s.screen_fb n byte (screen_scroll n s byte)
screen_scroll-Scrolled s n byte usable enough = record {
  moved = scroll-moved s n byte usable enough;
  cleared = scroll-cleared s n byte usable enough;
  outside = scroll-outside s n byte usable enough;
}
