-- ===== src/Keyboard/Tables/Absent.antt =====
-- Which keys the two tables of scancodes do not give.
use mathlib.Core.Path.{subst}
use ssos.Base.{ℕ, ◌≡◌, ◌≢◌, refl, sym, inl, inr, arith, Bool, true, false, not, ◌&&◌, ◌||◌}
use ssos.Base.{List, [], ◌∷◌, ◌==◌, ==_iff, Bool-cases}
use ssos.Keyboard.Keys.{Key, key_unknown, key_play_pause, key_print_screen}
use ssos.Keyboard.Tables.{switch, extended_cases, plain_cases, extended_key, plain_key}

-- A test that holds of every case, and at KEY_UNKNOWN, holds of what the switch finds.
every : (ℕ → Key → Bool) → List (ℕ × Key) → Bool
every test [] = true
every test ((code, key) ∷ rest) = test code key && every test rest

switch-every :
    (test : ℕ → Key → Bool) (l : List (ℕ × Key)) (s : ℕ)
    → every test l ≡ true
    → test s key_unknown ≡ true
    → test s (switch l s) ≡ true
unfolding every switch
switch-every test [] s h u = u
switch-every test ((code, key) ∷ rest) s h u = elim (Bool-cases (s == code)) [
  | inl e ↦ rw e (subst (λ c. test c key ≡ true) (sym ((==_iff s code).0 e)) (both h).0)
  | inr e ↦ rw e (switch-every test rest s (both h).1 u)
]
  where
    both :
        (test code key && every test rest) ≡ true
        → (test code key ≡ true) × (every test rest ≡ true)
    both p = ground arith

is_play_pause : Key → Bool
is_play_pause key_play_pause = true
is_play_pause _ = false

is_print_screen : Key → Bool
is_print_screen key_print_screen = true
is_print_screen _ = false

-- KEY_PLAY_PAUSE stands in the extended table alone, at 0x34.
pub extended_key-play_pause : (s : ℕ) → extended_key s ≡ key_play_pause → s ≡ 0x34
unfolding extended_key every is_play_pause
extended_key-play_pause s h =
    let found =
      switch-every (λ c k. not (is_play_pause k) || c == 0x34) extended_cases s refl refl in
    (==_iff s 0x34).0 (rw h at found)

pub plain_key-play_pause : (s : ℕ) → plain_key s ≢ key_play_pause
unfolding plain_key every is_play_pause
plain_key-play_pause s h =
    let found = switch-every (λ c k. not (is_play_pause k)) plain_cases s refl refl in
    cc (rw h at found)

-- KEY_PRINT_SCREEN stands in neither table.
pub extended_key-print_screen : (s : ℕ) → extended_key s ≢ key_print_screen
unfolding extended_key every is_print_screen
extended_key-print_screen s h =
    let found = switch-every (λ c k. not (is_print_screen k)) extended_cases s refl refl in
    cc (rw h at found)

pub plain_key-print_screen : (s : ℕ) → plain_key s ≢ key_print_screen
unfolding plain_key every is_print_screen
plain_key-print_screen s h =
    let found = switch-every (λ c k. not (is_print_screen k)) plain_cases s refl refl in
    cc (rw h at found)
