-- ===== src/Keyboard/Keys.antt =====
-- Key codes and events (src/drivers/keyboard.h).
use mathlib.Core.Bool.{Bool}

-- The enum `key_t`, in its order.
pub data Key : Type 0 where
  key_none : Key
  key_unknown : Key
  key_f1 : Key
  key_f2 : Key
  key_f3 : Key
  key_f4 : Key
  key_f5 : Key
  key_f6 : Key
  key_f7 : Key
  key_f8 : Key
  key_f9 : Key
  key_f10 : Key
  key_f11 : Key
  key_f12 : Key
  key_left_shift : Key
  key_right_shift : Key
  key_left_ctrl : Key
  key_right_ctrl : Key
  key_left_alt : Key
  key_right_alt : Key
  key_left_gui : Key
  key_right_gui : Key
  key_a : Key
  key_b : Key
  key_c : Key
  key_d : Key
  key_e : Key
  key_f : Key
  key_g : Key
  key_h : Key
  key_i : Key
  key_j : Key
  key_k : Key
  key_l : Key
  key_m : Key
  key_n : Key
  key_o : Key
  key_p : Key
  key_q : Key
  key_r : Key
  key_s : Key
  key_t : Key
  key_u : Key
  key_v : Key
  key_w : Key
  key_x : Key
  key_y : Key
  key_z : Key
  key_1 : Key
  key_2 : Key
  key_3 : Key
  key_4 : Key
  key_5 : Key
  key_6 : Key
  key_7 : Key
  key_8 : Key
  key_9 : Key
  key_zero : Key
  key_minus : Key
  key_equal : Key
  key_left_bracket : Key
  key_right_bracket : Key
  key_backslash : Key
  key_semicolon : Key
  key_apostrophe : Key
  key_grave : Key
  key_comma : Key
  key_period : Key
  key_slash : Key
  key_capslock : Key
  key_numlock : Key
  key_scrolllock : Key
  key_tab : Key
  key_enter : Key
  key_space : Key
  key_backspace : Key
  key_escape : Key
  key_cursor_left : Key
  key_cursor_right : Key
  key_cursor_up : Key
  key_cursor_down : Key
  key_home : Key
  key_end : Key
  key_insert : Key
  key_delete : Key
  key_page_up : Key
  key_page_down : Key
  key_print_screen : Key
  key_kp_0 : Key
  key_kp_1 : Key
  key_kp_2 : Key
  key_kp_3 : Key
  key_kp_4 : Key
  key_kp_5 : Key
  key_kp_6 : Key
  key_kp_7 : Key
  key_kp_8 : Key
  key_kp_9 : Key
  key_kp_period : Key
  key_kp_plus : Key
  key_kp_minus : Key
  key_kp_asterisk : Key
  key_kp_slash : Key
  key_kp_enter : Key
  key_play_pause : Key
  key_stop : Key
  key_previous_track : Key
  key_next_track : Key
  key_mute : Key
  key_volume_down : Key
  key_volume_up : Key
  key_calculator : Key
  key_media_select : Key
  key_sleep : Key
  key_wake : Key
  key_power : Key
  key_my_computer : Key
  key_email : Key
  key_www_home : Key
  key_www_back : Key
  key_www_forward : Key
  key_www_refresh : Key
  key_www_search : Key
  key_www_stop : Key
  key_www_favorites : Key
  key_apps : Key

-- The struct `keyboard_event_t`.
pub record KeyboardEvent : Type 0 where
  pub keycode : Key
  pub is_released : Bool
