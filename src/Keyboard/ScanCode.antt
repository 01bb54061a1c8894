-- ===== src/Keyboard/ScanCode.antt =====
-- The two tables of sched/tty/keyboard_isr_c.c from PS/2 set 1 scan codes to key codes: twice the
-- key's number, and 1 more where the key goes down. A scan code that a table does not name has the
-- key code 0.
use myos_io.Base.{ℕ, ◌+◌, ◌*◌, [], ◌∷◌}
use myos_io.Keyboard.Table.{Table, entry}
use myos_io.Keyboard.Key.{
  key_0, key_1, key_2, key_3, key_4, key_5, key_6, key_7, key_8, key_9, key_a, key_b, key_back,
  key_back_quote, key_backslash, key_c, key_cap, key_close_bracket, key_comma, key_cursor_down,
  key_cursor_left, key_cursor_right, key_cursor_up, key_d, key_del, key_dot, key_e, key_end,
  key_enter, key_equ, key_esc, key_f, key_f1, key_f10, key_f11, key_f12, key_f2, key_f3, key_f4,
  key_f5, key_f6, key_f7, key_f8, key_f9, key_g, key_h, key_home, key_i, key_insert, key_j, key_k,
  key_l, key_left_alt, key_left_ctrl, key_left_shift, key_m, key_n, key_o, key_open_bracket, key_p,
  key_page_down, key_page_up, key_q, key_quote, key_r, key_right_alt, key_right_ctrl,
  key_right_shift, key_s, key_scrlk, key_semicolon, key_slash, key_space, key_sub, key_t, key_tab,
  key_u, key_v, key_w, key_x, key_y, key_z, pad_0, pad_1, pad_2, pad_3, pad_4, pad_5, pad_6, pad_7,
  pad_8, pad_9, pad_add, pad_asterisk, pad_dot, pad_enter, pad_num, pad_slash, pad_sub,
}

-- (key << 1) | 1 and key << 1
abbrev pub pressed : ℕ → ℕ
pressed key = key * 2 + 1

abbrev pub released : ℕ → ℕ
released key = key * 2

abbrev ps2_set1_map_table : Table
ps2_set1_map_table =
    (0x01, pressed key_esc)
    ∷ (0x02, pressed key_1)
    ∷ (0x03, pressed key_2)
    ∷ (0x04, pressed key_3)
    ∷ (0x05, pressed key_4)
    ∷ (0x06, pressed key_5)
    ∷ (0x07, pressed key_6)
    ∷ (0x08, pressed key_7)
    ∷ (0x09, pressed key_8)
    ∷ (0x0a, pressed key_9)
    ∷ (0x0b, pressed key_0)
    ∷ (0x0c, pressed key_sub)
    ∷ (0x0d, pressed key_equ)
    ∷ (0x0e, pressed key_back)
    ∷ (0x0f, pressed key_tab)
    ∷ (0x10, pressed key_q)
    ∷ (0x11, pressed key_w)
    ∷ (0x12, pressed key_e)
    ∷ (0x13, pressed key_r)
    ∷ (0x14, pressed key_t)
    ∷ (0x15, pressed key_y)
    ∷ (0x16, pressed key_u)
    ∷ (0x17, pressed key_i)
    ∷ (0x18, pressed key_o)
    ∷ (0x19, pressed key_p)
    ∷ (0x1a, pressed key_open_bracket)
    ∷ (0x1b, pressed key_close_bracket)
    ∷ (0x1c, pressed key_enter)
    ∷ (0x1d, pressed key_left_ctrl)
    ∷ (0x1e, pressed key_a)
    ∷ (0x1f, pressed key_s)
    ∷ (0x20, pressed key_d)
    ∷ (0x21, pressed key_f)
    ∷ (0x22, pressed key_g)
    ∷ (0x23, pressed key_h)
    ∷ (0x24, pressed key_j)
    ∷ (0x25, pressed key_k)
    ∷ (0x26, pressed key_l)
    ∷ (0x27, pressed key_semicolon)
    ∷ (0x28, pressed key_quote)
    ∷ (0x29, pressed key_back_quote)
    ∷ (0x2a, pressed key_left_shift)
    ∷ (0x2b, pressed key_backslash)
    ∷ (0x2c, pressed key_z)
    ∷ (0x2d, pressed key_x)
    ∷ (0x2e, pressed key_c)
    ∷ (0x2f, pressed key_v)
    ∷ (0x30, pressed key_b)
    ∷ (0x31, pressed key_n)
    ∷ (0x32, pressed key_m)
    ∷ (0x33, pressed key_comma)
    ∷ (0x34, pressed key_dot)
    ∷ (0x35, pressed key_slash)
    ∷ (0x36, pressed key_right_shift)
    ∷ (0x37, pressed pad_asterisk)
    ∷ (0x38, pressed key_left_alt)
    ∷ (0x39, pressed key_space)
    ∷ (0x3a, pressed key_cap)
    ∷ (0x3b, pressed key_f1)
    ∷ (0x3c, pressed key_f2)
    ∷ (0x3d, pressed key_f3)
    ∷ (0x3e, pressed key_f4)
    ∷ (0x3f, pressed key_f5)
    ∷ (0x40, pressed key_f6)
    ∷ (0x41, pressed key_f7)
    ∷ (0x42, pressed key_f8)
    ∷ (0x43, pressed key_f9)
    ∷ (0x44, pressed key_f10)
    ∷ (0x45, pressed pad_num)
    ∷ (0x46, pressed key_scrlk)
    ∷ (0x47, pressed pad_7)
    ∷ (0x48, pressed pad_8)
    ∷ (0x49, pressed pad_9)
    ∷ (0x4a, pressed pad_sub)
    ∷ (0x4b, pressed pad_4)
    ∷ (0x4c, pressed pad_5)
    ∷ (0x4d, pressed pad_6)
    ∷ (0x4e, pressed pad_add)
    ∷ (0x4f, pressed pad_1)
    ∷ (0x50, pressed pad_2)
    ∷ (0x51, pressed pad_3)
    ∷ (0x52, pressed pad_0)
    ∷ (0x53, pressed pad_dot)
    ∷ (0x57, pressed key_f11)
    ∷ (0x58, pressed key_f12)
    ∷ (0x81, released key_esc)
    ∷ (0x82, released key_1)
    ∷ (0x83, released key_2)
    ∷ (0x84, released key_3)
    ∷ (0x85, released key_4)
    ∷ (0x86, released key_5)
    ∷ (0x87, released key_6)
    ∷ (0x88, released key_7)
    ∷ (0x89, released key_8)
    ∷ (0x8a, released key_9)
    ∷ (0x8b, released key_0)
    ∷ (0x8c, released key_sub)
    ∷ (0x8d, released key_equ)
    ∷ (0x8e, released key_back)
    ∷ (0x8f, released key_tab)
    ∷ (0x90, released key_q)
    ∷ (0x91, released key_w)
    ∷ (0x92, released key_e)
    ∷ (0x93, released key_r)
    ∷ (0x94, released key_t)
    ∷ (0x95, released key_y)
    ∷ (0x96, released key_u)
    ∷ (0x97, released key_i)
    ∷ (0x98, released key_o)
    ∷ (0x99, released key_p)
    ∷ (0x9a, released key_open_bracket)
    ∷ (0x9b, released key_close_bracket)
    ∷ (0x9c, released key_enter)
    ∷ (0x9d, released key_left_ctrl)
    ∷ (0x9e, released key_a)
    ∷ (0x9f, released key_s)
    ∷ (0xa0, released key_d)
    ∷ (0xa1, released key_f)
    ∷ (0xa2, released key_g)
    ∷ (0xa3, released key_h)
    ∷ (0xa4, released key_j)
    ∷ (0xa5, released key_k)
    ∷ (0xa6, released key_l)
    ∷ (0xa7, released key_semicolon)
    ∷ (0xa8, released key_quote)
    ∷ (0xa9, released key_back_quote)
    ∷ (0xaa, released key_left_shift)
    ∷ (0xab, released key_backslash)
    ∷ (0xac, released key_z)
    ∷ (0xad, released key_x)
    ∷ (0xae, released key_c)
    ∷ (0xaf, released key_v)
    ∷ (0xb0, released key_b)
    ∷ (0xb1, released key_n)
    ∷ (0xb2, released key_m)
    ∷ (0xb3, released key_comma)
    ∷ (0xb4, released key_dot)
    ∷ (0xb5, released key_slash)
    ∷ (0xb6, released key_right_shift)
    ∷ (0xb7, released pad_asterisk)
    ∷ (0xb8, released key_left_alt)
    ∷ (0xb9, released key_space)
    ∷ (0xba, released key_cap)
    ∷ (0xbb, released key_f1)
    ∷ (0xbc, released key_f2)
    ∷ (0xbd, released key_f3)
    ∷ (0xbe, released key_f4)
    ∷ (0xbf, released key_f5)
    ∷ (0xc0, released key_f6)
    ∷ (0xc1, released key_f7)
    ∷ (0xc2, released key_f8)
    ∷ (0xc3, released key_f9)
    ∷ (0xc4, released key_f10)
    ∷ (0xc5, released pad_num)
    ∷ (0xc6, released key_scrlk)
    ∷ (0xc7, released pad_7)
    ∷ (0xc8, released pad_8)
    ∷ (0xc9, released pad_9)
    ∷ (0xca, released pad_sub)
    ∷ (0xcb, released pad_4)
    ∷ (0xcc, released pad_5)
    ∷ (0xcd, released pad_6)
    ∷ (0xce, released pad_add)
    ∷ (0xcf, released pad_1)
    ∷ (0xd0, released pad_2)
    ∷ (0xd1, released pad_3)
    ∷ (0xd2, released pad_0)
    ∷ (0xd3, released pad_dot)
    ∷ (0xd7, released key_f11)
    ∷ (0xd8, released key_f12)
    ∷ []

unfoldable pub ps2_set1_map : ℕ → ℕ
unfolding entry
ps2_set1_map = entry ps2_set1_map_table

abbrev ps2_set1_map2_table : Table
ps2_set1_map2_table =
    (0x1c, pressed pad_enter)
    ∷ (0x1d, pressed key_right_ctrl)
    ∷ (0x35, pressed pad_slash)
    ∷ (0x38, pressed key_right_alt)
    ∷ (0x47, pressed key_home)
    ∷ (0x48, pressed key_cursor_up)
    ∷ (0x49, pressed key_page_up)
    ∷ (0x4b, pressed key_cursor_left)
    ∷ (0x4d, pressed key_cursor_right)
    ∷ (0x4f, pressed key_end)
    ∷ (0x50, pressed key_cursor_down)
    ∷ (0x51, pressed key_page_down)
    ∷ (0x52, pressed key_insert)
    ∷ (0x53, pressed key_del)
    ∷ (0x9c, released pad_enter)
    ∷ (0x9d, released key_right_ctrl)
    ∷ (0xb5, released pad_slash)
    ∷ (0xb8, released key_right_alt)
    ∷ (0xc7, released key_home)
    ∷ (0xc8, released key_cursor_up)
    ∷ (0xc9, released key_page_up)
    ∷ (0xcb, released key_cursor_left)
    ∷ (0xcd, released key_cursor_right)
    ∷ (0xcf, released key_end)
    ∷ (0xd0, released key_cursor_down)
    ∷ (0xd1, released key_page_down)
    ∷ (0xd2, released key_insert)
    ∷ (0xd3, released key_del)
    ∷ []

unfoldable pub ps2_set1_map2 : ℕ → ℕ
unfolding entry
ps2_set1_map2 = entry ps2_set1_map2_table
