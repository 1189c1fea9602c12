-- ===== src/Keyboard/Tables.antt =====
-- The two switches of `keyboard_translate_scancode` (src/drivers/keyboard.c), as tables.
pub mod Absent
use ssos.Base.{ℕ, List, [], ◌∷◌, ◌++◌, ◌==◌, if◌then◌else◌}
use ssos.Keyboard.Keys.{Key}
use ssos.Keyboard.Keys.{key_none, key_unknown, key_1, key_2, key_3, key_4, key_5, key_6, key_7}
use ssos.Keyboard.Keys.{key_8, key_9, key_a, key_apostrophe, key_apps, key_b, key_backslash}
use ssos.Keyboard.Keys.{key_backspace, key_c, key_calculator, key_capslock, key_comma}
use ssos.Keyboard.Keys.{key_cursor_down, key_cursor_left, key_cursor_right, key_cursor_up, key_d}
use ssos.Keyboard.Keys.{key_delete, key_e, key_email, key_end, key_enter, key_equal, key_escape}
use ssos.Keyboard.Keys.{key_f, key_f1, key_f10, key_f11, key_f12, key_f2, key_f3, key_f4, key_f5}
use ssos.Keyboard.Keys.{key_f6, key_f7, key_f8, key_f9, key_g, key_grave, key_h, key_home, key_i}
use ssos.Keyboard.Keys.{key_insert, key_j, key_k, key_kp_0, key_kp_1, key_kp_2, key_kp_3}
use ssos.Keyboard.Keys.{key_kp_4, key_kp_5, key_kp_6, key_kp_7, key_kp_8, key_kp_9}
use ssos.Keyboard.Keys.{key_kp_asterisk, key_kp_enter, key_kp_minus, key_kp_period, key_kp_plus}
use ssos.Keyboard.Keys.{key_kp_slash, key_l, key_left_alt, key_left_bracket, key_left_ctrl}
use ssos.Keyboard.Keys.{key_left_gui, key_left_shift, key_m, key_media_select, key_minus}
use ssos.Keyboard.Keys.{key_mute, key_my_computer, key_n, key_next_track, key_numlock, key_o}
use ssos.Keyboard.Keys.{key_p, key_page_down, key_page_up, key_period, key_play_pause, key_power}
use ssos.Keyboard.Keys.{key_previous_track, key_q, key_r, key_right_alt, key_right_bracket}
use ssos.Keyboard.Keys.{key_right_ctrl, key_right_gui, key_right_shift, key_s, key_scrolllock}
use ssos.Keyboard.Keys.{key_semicolon, key_slash, key_sleep, key_space, key_stop, key_t, key_tab}
use ssos.Keyboard.Keys.{key_u, key_v, key_volume_down, key_volume_up, key_w, key_wake}
use ssos.Keyboard.Keys.{key_www_back, key_www_favorites, key_www_forward, key_www_home}
use ssos.Keyboard.Keys.{key_www_refresh, key_www_search, key_www_stop, key_x, key_y, key_z}
use ssos.Keyboard.Keys.{key_zero}

-- A switch on a scancode, given its cases; `default` is KEY_UNKNOWN.
switch : List (ℕ × Key) → ℕ → Key
switch [] s = key_unknown
switch ((code, key) ∷ rest) s = if s == code then key else switch rest s

-- The cases behind the prefix 0xE0. At 0x12 and 0x7C the code also sets a pending flag.
abbrev extended_cases : List (ℕ × Key)
extended_cases =
    (0x10, key_www_search)
    ∷ (0x11, key_right_alt)
    ∷ (0x12, key_none)
    ∷ (0x14, key_right_ctrl)
    ∷ (0x15, key_previous_track)
    ∷ (0x18, key_www_favorites)
    ∷ (0x1F, key_left_gui)
    ∷ (0x20, key_www_refresh)
    ∷ (0x21, key_volume_down)
    ∷ (0x23, key_mute)
    ∷ (0x27, key_right_gui)
    ∷ (0x28, key_www_stop)
    ∷ (0x2B, key_calculator)
    ∷ (0x2F, key_apps)
    ∷ (0x30, key_www_forward)
    ∷ (0x32, key_volume_up)
    ∷ (0x34, key_play_pause)
    ∷ (0x37, key_power)
    ∷ (0x38, key_www_back)
    ∷ (0x3A, key_www_home)
    ∷ (0x3B, key_stop)
    ∷ (0x3F, key_sleep)
    ∷ (0x40, key_my_computer)
    ∷ (0x48, key_email)
    ∷ (0x4A, key_kp_slash)
    ∷ (0x4D, key_next_track)
    ∷ (0x50, key_media_select)
    ∷ (0x5A, key_kp_enter)
    ∷ (0x5E, key_wake)
    ∷ (0x69, key_end)
    ∷ (0x6B, key_cursor_left)
    ∷ (0x6C, key_home)
    ∷ (0x70, key_insert)
    ∷ (0x71, key_delete)
    ∷ (0x72, key_cursor_down)
    ∷ (0x74, key_cursor_right)
    ∷ (0x75, key_cursor_up)
    ∷ (0x7A, key_page_down)
    ∷ (0x7C, key_none)
    ∷ (0x7D, key_page_up)
    ∷ []

-- The cases with no prefix, up to 0x3E.
abbrev plain_cases_low : List (ℕ × Key)
plain_cases_low =
    (0x01, key_f9)
    ∷ (0x03, key_f5)
    ∷ (0x04, key_f3)
    ∷ (0x05, key_f1)
    ∷ (0x06, key_f2)
    ∷ (0x07, key_f12)
    ∷ (0x09, key_f10)
    ∷ (0x0A, key_f8)
    ∷ (0x0B, key_f6)
    ∷ (0x0C, key_f4)
    ∷ (0x0D, key_tab)
    ∷ (0x0E, key_grave)
    ∷ (0x11, key_left_alt)
    ∷ (0x12, key_left_shift)
    ∷ (0x14, key_left_ctrl)
    ∷ (0x15, key_q)
    ∷ (0x16, key_1)
    ∷ (0x1A, key_z)
    ∷ (0x1B, key_s)
    ∷ (0x1C, key_a)
    ∷ (0x1D, key_w)
    ∷ (0x1E, key_2)
    ∷ (0x21, key_c)
    ∷ (0x22, key_x)
    ∷ (0x23, key_d)
    ∷ (0x24, key_e)
    ∷ (0x25, key_4)
    ∷ (0x26, key_3)
    ∷ (0x29, key_space)
    ∷ (0x2A, key_v)
    ∷ (0x2B, key_f)
    ∷ (0x2C, key_t)
    ∷ (0x2D, key_r)
    ∷ (0x2E, key_5)
    ∷ (0x31, key_n)
    ∷ (0x32, key_b)
    ∷ (0x33, key_h)
    ∷ (0x34, key_g)
    ∷ (0x35, key_y)
    ∷ (0x36, key_6)
    ∷ (0x3A, key_m)
    ∷ (0x3B, key_j)
    ∷ (0x3C, key_u)
    ∷ (0x3D, key_7)
    ∷ (0x3E, key_8)
    ∷ []

-- The cases with no prefix, from 0x41 on.
abbrev plain_cases_high : List (ℕ × Key)
plain_cases_high =
    (0x41, key_comma)
    ∷ (0x42, key_k)
    ∷ (0x43, key_i)
    ∷ (0x44, key_o)
    ∷ (0x45, key_zero)
    ∷ (0x46, key_9)
    ∷ (0x49, key_period)
    ∷ (0x4A, key_slash)
    ∷ (0x4B, key_l)
    ∷ (0x4C, key_semicolon)
    ∷ (0x4D, key_p)
    ∷ (0x4E, key_minus)
    ∷ (0x52, key_apostrophe)
    ∷ (0x54, key_left_bracket)
    ∷ (0x55, key_equal)
    ∷ (0x58, key_capslock)
    ∷ (0x59, key_right_shift)
    ∷ (0x5A, key_enter)
    ∷ (0x5B, key_right_bracket)
    ∷ (0x5D, key_backslash)
    ∷ (0x66, key_backspace)
    ∷ (0x69, key_kp_1)
    ∷ (0x6B, key_kp_4)
    ∷ (0x6C, key_kp_7)
    ∷ (0x70, key_kp_0)
    ∷ (0x71, key_kp_period)
    ∷ (0x72, key_kp_2)
    ∷ (0x73, key_kp_5)
    ∷ (0x74, key_kp_6)
    ∷ (0x75, key_kp_8)
    ∷ (0x76, key_escape)
    ∷ (0x77, key_numlock)
    ∷ (0x78, key_f11)
    ∷ (0x79, key_kp_plus)
    ∷ (0x7A, key_kp_3)
    ∷ (0x7B, key_kp_minus)
    ∷ (0x7C, key_kp_asterisk)
    ∷ (0x7D, key_kp_9)
    ∷ (0x7E, key_scrolllock)
    ∷ (0x83, key_f7)
    ∷ []

abbrev plain_cases : List (ℕ × Key)
plain_cases = plain_cases_low ++ plain_cases_high

-- The keycode of the switch taken when `is_extended` is set.
unfoldable pub extended_key : ℕ → Key
unfolding switch
extended_key s = switch extended_cases s

-- The keycode of the switch taken otherwise.
unfoldable pub plain_key : ℕ → Key
unfolding switch
plain_key s = switch plain_cases s
