-- ===== src/Shell/Letters.antt =====
-- The characters of the letter keys, key by key in ASCII, and the shift keys, apart from the shell's own
-- functions on keys.
use ssos.Base.{ℕ, ◌≡◌, refl, sym, ap, ◌∙◌, Bool, true, false, Option, none, some}
use ssos.Base.{if◌then◌else◌}
use mathlib.Core.Option
use ssos.Shell.{letter, char_of, is_shift}
use ssos.Keyboard.Keys.{
  Key, key_none, key_unknown, key_f1, key_f2, key_f3, key_f4, key_f5, key_f6, key_f7, key_f8,
  key_f9, key_f10, key_f11, key_f12, key_left_shift, key_right_shift, key_left_ctrl, key_right_ctrl,
  key_left_alt, key_right_alt, key_left_gui, key_right_gui, key_a, key_b, key_c, key_d, key_e,
  key_f, key_g, key_h, key_i, key_j, key_k, key_l, key_m, key_n, key_o, key_p, key_q, key_r, key_s,
  key_t, key_u, key_v, key_w, key_x, key_y, key_z, key_1, key_2, key_3, key_4, key_5, key_6, key_7,
  key_8, key_9, key_zero, key_minus, key_equal, key_left_bracket, key_right_bracket, key_backslash,
  key_semicolon, key_apostrophe, key_grave, key_comma, key_period, key_slash, key_capslock,
  key_numlock, key_scrolllock, key_tab, key_enter, key_space, key_backspace, key_escape,
  key_cursor_left, key_cursor_right, key_cursor_up, key_cursor_down, key_home, key_end, key_insert,
  key_delete, key_page_up, key_page_down, key_print_screen, key_kp_0, key_kp_1, key_kp_2, key_kp_3,
  key_kp_4, key_kp_5, key_kp_6, key_kp_7, key_kp_8, key_kp_9, key_kp_period, key_kp_plus,
  key_kp_minus, key_kp_asterisk, key_kp_slash, key_kp_enter, key_play_pause, key_stop,
  key_previous_track, key_next_track, key_mute, key_volume_down, key_volume_up, key_calculator,
  key_media_select, key_sleep, key_wake, key_power, key_my_computer, key_email, key_www_home,
  key_www_back, key_www_forward, key_www_refresh, key_www_search, key_www_stop, key_www_favorites,
  key_apps,
}

-- What a key puts into the line, with the shift key held or not.
unfoldable pub spelled : Bool → Key → Option ℕ
spelled held key_a = some (if held then 0x41 else 0x61)
spelled held key_b = some (if held then 0x42 else 0x62)
spelled held key_c = some (if held then 0x43 else 0x63)
spelled held key_d = some (if held then 0x44 else 0x64)
spelled held key_e = some (if held then 0x45 else 0x65)
spelled held key_f = some (if held then 0x46 else 0x66)
spelled held key_g = some (if held then 0x47 else 0x67)
spelled held key_h = some (if held then 0x48 else 0x68)
spelled held key_i = some (if held then 0x49 else 0x69)
spelled held key_j = some (if held then 0x4A else 0x6A)
spelled held key_k = some (if held then 0x4B else 0x6B)
spelled held key_l = some (if held then 0x4C else 0x6C)
spelled held key_m = some (if held then 0x4D else 0x6D)
spelled held key_n = some (if held then 0x4E else 0x6E)
spelled held key_o = some (if held then 0x4F else 0x6F)
spelled held key_p = some (if held then 0x50 else 0x70)
spelled held key_q = some (if held then 0x51 else 0x71)
spelled held key_r = some (if held then 0x52 else 0x72)
spelled held key_s = some (if held then 0x53 else 0x73)
spelled held key_t = some (if held then 0x54 else 0x74)
spelled held key_u = some (if held then 0x55 else 0x75)
spelled held key_v = some (if held then 0x56 else 0x76)
spelled held key_w = some (if held then 0x57 else 0x77)
spelled held key_x = some (if held then 0x58 else 0x78)
spelled held key_y = some (if held then 0x59 else 0x79)
spelled held key_z = some (if held then 0x5A else 0x7A)
spelled held _ = none

unfoldable pub shifts : Key → Bool
shifts key_left_shift = true
shifts key_right_shift = true
shifts _ = false

-- Every key puts the character of its place in the alphabet into the line.
spelled_lem : (held : Bool) (key : Key) → Option.map (char_of held) (letter key) ≡ spelled held key
unfolding letter char_of spelled
spelled_lem held key_none = refl
spelled_lem held key_unknown = refl
spelled_lem held key_f1 = refl
spelled_lem held key_f2 = refl
spelled_lem held key_f3 = refl
spelled_lem held key_f4 = refl
spelled_lem held key_f5 = refl
spelled_lem held key_f6 = refl
spelled_lem held key_f7 = refl
spelled_lem held key_f8 = refl
spelled_lem held key_f9 = refl
spelled_lem held key_f10 = refl
spelled_lem held key_f11 = refl
spelled_lem held key_f12 = refl
spelled_lem held key_left_shift = refl
spelled_lem held key_right_shift = refl
spelled_lem held key_left_ctrl = refl
spelled_lem held key_right_ctrl = refl
spelled_lem held key_left_alt = refl
spelled_lem held key_right_alt = refl
spelled_lem held key_left_gui = refl
spelled_lem held key_right_gui = refl
spelled_lem held key_a = refl
spelled_lem held key_b = refl
spelled_lem held key_c = refl
spelled_lem held key_d = refl
spelled_lem held key_e = refl
spelled_lem held key_f = refl
spelled_lem held key_g = refl
spelled_lem held key_h = refl
spelled_lem held key_i = refl
spelled_lem held key_j = refl
spelled_lem held key_k = refl
spelled_lem held key_l = refl
spelled_lem held key_m = refl
spelled_lem held key_n = refl
spelled_lem held key_o = refl
spelled_lem held key_p = refl
spelled_lem held key_q = refl
spelled_lem held key_r = refl
spelled_lem held key_s = refl
spelled_lem held key_t = refl
spelled_lem held key_u = refl
spelled_lem held key_v = refl
spelled_lem held key_w = refl
spelled_lem held key_x = refl
spelled_lem held key_y = refl
spelled_lem held key_z = refl
spelled_lem held key_1 = refl
spelled_lem held key_2 = refl
spelled_lem held key_3 = refl
spelled_lem held key_4 = refl
spelled_lem held key_5 = refl
spelled_lem held key_6 = refl
spelled_lem held key_7 = refl
spelled_lem held key_8 = refl
spelled_lem held key_9 = refl
spelled_lem held key_zero = refl
spelled_lem held key_minus = refl
spelled_lem held key_equal = refl
spelled_lem held key_left_bracket = refl
spelled_lem held key_right_bracket = refl
spelled_lem held key_backslash = refl
spelled_lem held key_semicolon = refl
spelled_lem held key_apostrophe = refl
spelled_lem held key_grave = refl
spelled_lem held key_comma = refl
spelled_lem held key_period = refl
spelled_lem held key_slash = refl
spelled_lem held key_capslock = refl
spelled_lem held key_numlock = refl
spelled_lem held key_scrolllock = refl
spelled_lem held key_tab = refl
spelled_lem held key_enter = refl
spelled_lem held key_space = refl
spelled_lem held key_backspace = refl
spelled_lem held key_escape = refl
spelled_lem held key_cursor_left = refl
spelled_lem held key_cursor_right = refl
spelled_lem held key_cursor_up = refl
spelled_lem held key_cursor_down = refl
spelled_lem held key_home = refl
spelled_lem held key_end = refl
spelled_lem held key_insert = refl
spelled_lem held key_delete = refl
spelled_lem held key_page_up = refl
spelled_lem held key_page_down = refl
spelled_lem held key_print_screen = refl
spelled_lem held key_kp_0 = refl
spelled_lem held key_kp_1 = refl
spelled_lem held key_kp_2 = refl
spelled_lem held key_kp_3 = refl
spelled_lem held key_kp_4 = refl
spelled_lem held key_kp_5 = refl
spelled_lem held key_kp_6 = refl
spelled_lem held key_kp_7 = refl
spelled_lem held key_kp_8 = refl
spelled_lem held key_kp_9 = refl
spelled_lem held key_kp_period = refl
spelled_lem held key_kp_plus = refl
spelled_lem held key_kp_minus = refl
spelled_lem held key_kp_asterisk = refl
spelled_lem held key_kp_slash = refl
spelled_lem held key_kp_enter = refl
spelled_lem held key_play_pause = refl
spelled_lem held key_stop = refl
spelled_lem held key_previous_track = refl
spelled_lem held key_next_track = refl
spelled_lem held key_mute = refl
spelled_lem held key_volume_down = refl
spelled_lem held key_volume_up = refl
spelled_lem held key_calculator = refl
spelled_lem held key_media_select = refl
spelled_lem held key_sleep = refl
spelled_lem held key_wake = refl
spelled_lem held key_power = refl
spelled_lem held key_my_computer = refl
spelled_lem held key_email = refl
spelled_lem held key_www_home = refl
spelled_lem held key_www_back = refl
spelled_lem held key_www_forward = refl
spelled_lem held key_www_refresh = refl
spelled_lem held key_www_search = refl
spelled_lem held key_www_stop = refl
spelled_lem held key_www_favorites = refl
spelled_lem held key_apps = refl

pub spelled-letter :
    (held : Bool) (key : Key) (i : ℕ)
    → letter key ≡ some i
    → spelled held key ≡ some (char_of held i)
spelled-letter held key i found =
    sym (spelled_lem held key) ∙ ap (λ (o : Option ℕ). Option.map (char_of held) o) found

pub spelled-none : (held : Bool) (key : Key) → letter key ≡ none → spelled held key ≡ none
spelled-none held key other =
    sym (spelled_lem held key) ∙ ap (λ (o : Option ℕ). Option.map (char_of held) o) other

pub shifts_lem : (key : Key) → is_shift key ≡ shifts key
unfolding is_shift shifts
shifts_lem key_none = refl
shifts_lem key_unknown = refl
shifts_lem key_f1 = refl
shifts_lem key_f2 = refl
shifts_lem key_f3 = refl
shifts_lem key_f4 = refl
shifts_lem key_f5 = refl
shifts_lem key_f6 = refl
shifts_lem key_f7 = refl
shifts_lem key_f8 = refl
shifts_lem key_f9 = refl
shifts_lem key_f10 = refl
shifts_lem key_f11 = refl
shifts_lem key_f12 = refl
shifts_lem key_left_shift = refl
shifts_lem key_right_shift = refl
shifts_lem key_left_ctrl = refl
shifts_lem key_right_ctrl = refl
shifts_lem key_left_alt = refl
shifts_lem key_right_alt = refl
shifts_lem key_left_gui = refl
shifts_lem key_right_gui = refl
shifts_lem key_a = refl
shifts_lem key_b = refl
shifts_lem key_c = refl
shifts_lem key_d = refl
shifts_lem key_e = refl
shifts_lem key_f = refl
shifts_lem key_g = refl
shifts_lem key_h = refl
shifts_lem key_i = refl
shifts_lem key_j = refl
shifts_lem key_k = refl
shifts_lem key_l = refl
shifts_lem key_m = refl
shifts_lem key_n = refl
shifts_lem key_o = refl
shifts_lem key_p = refl
shifts_lem key_q = refl
shifts_lem key_r = refl
shifts_lem key_s = refl
shifts_lem key_t = refl
shifts_lem key_u = refl
shifts_lem key_v = refl
shifts_lem key_w = refl
shifts_lem key_x = refl
shifts_lem key_y = refl
shifts_lem key_z = refl
shifts_lem key_1 = refl
shifts_lem key_2 = refl
shifts_lem key_3 = refl
shifts_lem key_4 = refl
shifts_lem key_5 = refl
shifts_lem key_6 = refl
shifts_lem key_7 = refl
shifts_lem key_8 = refl
shifts_lem key_9 = refl
shifts_lem key_zero = refl
shifts_lem key_minus = refl
shifts_lem key_equal = refl
shifts_lem key_left_bracket = refl
shifts_lem key_right_bracket = refl
shifts_lem key_backslash = refl
shifts_lem key_semicolon = refl
shifts_lem key_apostrophe = refl
shifts_lem key_grave = refl
shifts_lem key_comma = refl
shifts_lem key_period = refl
shifts_lem key_slash = refl
shifts_lem key_capslock = refl
shifts_lem key_numlock = refl
shifts_lem key_scrolllock = refl
shifts_lem key_tab = refl
shifts_lem key_enter = refl
shifts_lem key_space = refl
shifts_lem key_backspace = refl
shifts_lem key_escape = refl
shifts_lem key_cursor_left = refl
shifts_lem key_cursor_right = refl
shifts_lem key_cursor_up = refl
shifts_lem key_cursor_down = refl
shifts_lem key_home = refl
shifts_lem key_end = refl
shifts_lem key_insert = refl
shifts_lem key_delete = refl
shifts_lem key_page_up = refl
shifts_lem key_page_down = refl
shifts_lem key_print_screen = refl
shifts_lem key_kp_0 = refl
shifts_lem key_kp_1 = refl
shifts_lem key_kp_2 = refl
shifts_lem key_kp_3 = refl
shifts_lem key_kp_4 = refl
shifts_lem key_kp_5 = refl
shifts_lem key_kp_6 = refl
shifts_lem key_kp_7 = refl
shifts_lem key_kp_8 = refl
shifts_lem key_kp_9 = refl
shifts_lem key_kp_period = refl
shifts_lem key_kp_plus = refl
shifts_lem key_kp_minus = refl
shifts_lem key_kp_asterisk = refl
shifts_lem key_kp_slash = refl
shifts_lem key_kp_enter = refl
shifts_lem key_play_pause = refl
shifts_lem key_stop = refl
shifts_lem key_previous_track = refl
shifts_lem key_next_track = refl
shifts_lem key_mute = refl
shifts_lem key_volume_down = refl
shifts_lem key_volume_up = refl
shifts_lem key_calculator = refl
shifts_lem key_media_select = refl
shifts_lem key_sleep = refl
shifts_lem key_wake = refl
shifts_lem key_power = refl
shifts_lem key_my_computer = refl
shifts_lem key_email = refl
shifts_lem key_www_home = refl
shifts_lem key_www_back = refl
shifts_lem key_www_forward = refl
shifts_lem key_www_refresh = refl
shifts_lem key_www_search = refl
shifts_lem key_www_stop = refl
shifts_lem key_www_favorites = refl
shifts_lem key_apps = refl
