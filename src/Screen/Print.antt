-- ===== src/Screen/Print.antt =====
-- Strings on the screen.
use ssos.Base.{ℕ, ◌<◌, ◌≡◌, refl, sym, arith, ◌∙◌}
use ssos.Base.{
  Bool, true, ◌&&◌, ltb, ◌==◌, if_true, if_false, some, none, Option, ◌>>=◌, ◌++◌, ==_refl, ==_ne,
  List, [], ◌∷◌,
}
use mathlib.Core.Path.{subst}
use native.Mathlib.Decide.{ℕ_discrete}
use ssos.Screen.{Screen, screen_putch, screen_print, move_cursor, newline}
use ssos.Screen.Paint.{IsUsable, Paints, pixel_end}
use ssos.Screen.Grid.{
  At, next_cell, next_row, KeepsRest, Done, behind, newline-Done, move_cursor-Done,
  screen_putch-Paints,
}

abbrev pub is_ascii : List ℕ → Bool
is_ascii [] = true
is_ascii (ch ∷ str) = ltb ch 128 && is_ascii str

-- The cell behind a string.
abbrev pub cell_after : ℕ → ℕ → List ℕ → ℕ × ℕ → ℕ × ℕ
cell_after cols rows [] cell = cell
cell_after cols rows (ch ∷ str) cell =
    cell_after cols rows str (next_cell cols rows ch cell.0 cell.1)

Paints-KeepsRest :
    (s : Screen) (usable : IsUsable s.screen_fb) (p : ℕ → ℕ → Bool) (byte byte' : ℕ → ℕ)
    → Paints s p byte byte'
    → KeepsRest s.screen_fb byte byte'
Paints-KeepsRest s usable p byte byte' drawn a out =
    drawn.outside a
      (λ x y k lx ly lk e. ground (arith, pixel_end s.screen_fb usable x y lx ly, out, e))

putch_newline :
    (ch : ℕ) (s : Screen) (byte : ℕ → ℕ)
    → ch ≡ 0x0A
    → screen_putch ch s byte ≡ some (newline s byte)
unfolding screen_putch
putch_newline ch s byte e = if_true (ch == 0x0A) _ _ (==_refl ch 0x0A e)

-- The call returns with the cursor in the next cell.
putch_returns :
    (z cols rows col row ch : ℕ) (s : Screen) (byte : ℕ → ℕ) (usable : IsUsable s.screen_fb)
    (at : At s z cols rows col row)
    → ch < 128
    → (r : Screen × (ℕ → ℕ)) × (screen_putch ch s byte ≡ some r)
      × Done z cols rows col row s usable at byte r (next_cell cols rows ch col row)
putch_returns z cols rows col row ch s byte usable at lt =
    let start : ℕ × ℕ = (0, next_row rows row) in
    let beside = behind z cols rows col row s usable at in
    elim (ℕ_discrete ch 0x0A) [
      | yes e ↦ (
        newline s byte,
        putch_newline ch s byte e,
        rw (if_true (ch == 0x0A) start beside (==_refl ch 0x0A e))
            (newline-Done z cols rows col row s usable at byte),
      )
      | no ne ↦
          let drawn = screen_putch-Paints z cols rows col row s usable at ch byte lt ne in
          let moved = move_cursor-Done z cols rows col row s usable at drawn.1 in
          (
            move_cursor s drawn.1,
            drawn.4,
            rw (if_false (ch == 0x0A) start beside (==_ne ch 0x0A ne)) (
              moved.0,
              moved.1,
              λ a out. moved.2 a out ∙ Paints-KeepsRest s usable _ byte drawn.1 drawn.3 a out,
            ),
          )
    ]

-- On a screen that is a whole number of characters wide and high, with the cursor at one of them,
-- `screen_print` returns for every string of ASCII characters. The cursor is behind them: in the next
-- column, or at the start of the next line behind the last column and behind a newline, the last line
-- standing still as the screen scrolls. No byte outside the frame buffer differs.
pub screen_print-At :
    (str : List ℕ) (z cols rows col row : ℕ) (s : Screen) (byte : ℕ → ℕ)
    → IsUsable s.screen_fb
    → At s z cols rows col row
    → is_ascii str ≡ true
    → (s' : Screen) × (byte' : ℕ → ℕ) × (screen_print str s byte ≡ some (s', byte'))
      × At s' z cols rows
          (cell_after cols rows str (col, row)).0
          (cell_after cols rows str (col, row)).1
      × KeepsRest s.screen_fb byte byte'
unfolding screen_print
screen_print-At [] z cols rows col row s byte usable at ascii = (s, byte, refl, at, λ a out. refl)
screen_print-At (ch ∷ str) z cols rows col row s byte usable at ascii =
    let one = putch_returns z cols rows col row ch s byte usable at (ground (arith, ascii)) in
    let cell = next_cell cols rows ch col row in
    let rest =
      screen_print-At str z cols rows cell.0 cell.1 one.0.0 one.0.1
        (subst IsUsable (sym one.2.1) usable) one.2.0 (ground (arith, ascii)) in
    (
      rest.0,
      rest.1,
      rw one.1 rest.2,
      rest.3,
      λ a out. subst (λ fb. KeepsRest fb one.0.1 rest.1) one.2.1 rest.4 a out ∙ one.2.2 a out,
    )

-- Steps that fail, one behind the other.
pub bind_assoc {ℓ κ μ} :
    {A : Type ℓ} {B : Type κ} {C : Type μ} (o : Option A) (f : A → Option B) (g : B → Option C)
    → ((o >>= f) >>= g) ≡ (o >>= λ a. f a >>= g)
bind_assoc none f g = refl
bind_assoc (some a) f g = refl

pub bind_ext {ℓ κ} :
    {A : Type ℓ} {B : Type κ} (o : Option A) (f g : A → Option B)
    → ((a : A) → f a ≡ g a)
    → (o >>= f) ≡ (o >>= g)
bind_ext none f g h = refl
bind_ext (some a) f g h = h a

pub screen_print-append :
    (str rest : List ℕ) (s : Screen) (byte : ℕ → ℕ)
    → screen_print (str ++ rest) s byte
      ≡ (screen_print str s byte >>= λ r. screen_print rest r.0 r.1)
unfolding screen_print
screen_print-append [] rest s byte = refl
screen_print-append (ch ∷ str) rest s byte =
    bind_ext (screen_putch ch s byte) _ _ (λ r. screen_print-append str rest r.0 r.1)
    ∙ sym (
        bind_assoc (screen_putch ch s byte) (λ r. screen_print str r.0 r.1)
          (λ r. screen_print rest r.0 r.1))

pub is_ascii-append :
    (str rest : List ℕ) → is_ascii str ≡ true → is_ascii rest ≡ true → is_ascii (str ++ rest) ≡ true
is_ascii-append [] rest e f = f
is_ascii-append (ch ∷ str) rest e f = ground (arith, is_ascii-append str rest, e, f)
