-- ===== src/Keyboard/Ascii.antt =====
-- The four tables of sched/tty/keyboard_thread_c.c from keys to characters. A key that a table does
-- not name has the character 0, as in a C initialiser with designators.
use myos_io.Base.{ℕ, [], ◌∷◌}
use myos_io.Keyboard.Table.{Table, entry}
use myos_io.Keyboard.Key.{
  key_0, key_1, key_2, key_3, key_4, key_5, key_6, key_7, key_8, key_9, key_a, key_b,
  key_back_quote, key_backslash, key_c, key_close_bracket, key_comma, key_d, key_dot, key_e,
  key_enter, key_equ, key_f, key_g, key_h, key_i, key_j, key_k, key_l, key_m, key_n, key_o,
  key_open_bracket, key_p, key_q, key_quote, key_r, key_s, key_semicolon, key_slash, key_space,
  key_sub, key_t, key_tab, key_u, key_v, key_w, key_x, key_y, key_z, pad_0, pad_1, pad_2, pad_3,
  pad_4, pad_5, pad_6, pad_7, pad_8, pad_9, pad_add, pad_asterisk, pad_dot, pad_enter, pad_slash,
  pad_sub,
}

abbrev to_ascii_table : Table
to_ascii_table =
    (key_1, b'1')
    ∷ (key_2, b'2')
    ∷ (key_3, b'3')
    ∷ (key_4, b'4')
    ∷ (key_5, b'5')
    ∷ (key_6, b'6')
    ∷ (key_7, b'7')
    ∷ (key_8, b'8')
    ∷ (key_9, b'9')
    ∷ (key_0, b'0')
    ∷ (pad_1, b'1')
    ∷ (pad_2, b'2')
    ∷ (pad_3, b'3')
    ∷ (pad_4, b'4')
    ∷ (pad_5, b'5')
    ∷ (pad_6, b'6')
    ∷ (pad_7, b'7')
    ∷ (pad_8, b'8')
    ∷ (pad_9, b'9')
    ∷ (pad_0, b'0')
    ∷ (key_a, b'a')
    ∷ (key_b, b'b')
    ∷ (key_c, b'c')
    ∷ (key_d, b'd')
    ∷ (key_e, b'e')
    ∷ (key_f, b'f')
    ∷ (key_g, b'g')
    ∷ (key_h, b'h')
    ∷ (key_i, b'i')
    ∷ (key_j, b'j')
    ∷ (key_k, b'k')
    ∷ (key_l, b'l')
    ∷ (key_m, b'm')
    ∷ (key_n, b'n')
    ∷ (key_o, b'o')
    ∷ (key_p, b'p')
    ∷ (key_q, b'q')
    ∷ (key_r, b'r')
    ∷ (key_s, b's')
    ∷ (key_t, b't')
    ∷ (key_u, b'u')
    ∷ (key_v, b'v')
    ∷ (key_w, b'w')
    ∷ (key_x, b'x')
    ∷ (key_y, b'y')
    ∷ (key_z, b'z')
    ∷ (key_back_quote, b'`')
    ∷ (key_sub, b'-')
    ∷ (key_equ, b'=')
    ∷ (key_tab, 9)
    ∷ (key_open_bracket, b'[')
    ∷ (key_close_bracket, b']')
    ∷ (key_backslash, 92)
    ∷ (key_semicolon, b';')
    ∷ (key_quote, 39)
    ∷ (key_enter, 10)
    ∷ (key_comma, b',')
    ∷ (key_dot, b'.')
    ∷ (key_slash, b'/')
    ∷ (key_space, b' ')
    ∷ (pad_slash, b'/')
    ∷ (pad_asterisk, b'*')
    ∷ (pad_sub, b'-')
    ∷ (pad_add, b'+')
    ∷ (pad_enter, 10)
    ∷ (pad_dot, b'.')
    ∷ []

unfoldable pub to_ascii : ℕ → ℕ
unfolding entry
to_ascii = entry to_ascii_table

abbrev to_ascii_shift_table : Table
to_ascii_shift_table =
    (key_1, b'!')
    ∷ (key_2, b'@')
    ∷ (key_3, b'#')
    ∷ (key_4, b'$')
    ∷ (key_5, b'%')
    ∷ (key_6, b'^')
    ∷ (key_7, b'&')
    ∷ (key_8, b'*')
    ∷ (key_9, b'(')
    ∷ (key_0, b')')
    ∷ (pad_1, b'1')
    ∷ (pad_2, b'2')
    ∷ (pad_3, b'3')
    ∷ (pad_4, b'4')
    ∷ (pad_5, b'5')
    ∷ (pad_6, b'6')
    ∷ (pad_7, b'7')
    ∷ (pad_8, b'8')
    ∷ (pad_9, b'9')
    ∷ (pad_0, b'0')
    ∷ (key_a, b'A')
    ∷ (key_b, b'B')
    ∷ (key_c, b'C')
    ∷ (key_d, b'D')
    ∷ (key_e, b'E')
    ∷ (key_f, b'F')
    ∷ (key_g, b'G')
    ∷ (key_h, b'H')
    ∷ (key_i, b'I')
    ∷ (key_j, b'J')
    ∷ (key_k, b'K')
    ∷ (key_l, b'L')
    ∷ (key_m, b'M')
    ∷ (key_n, b'N')
    ∷ (key_o, b'O')
    ∷ (key_p, b'P')
    ∷ (key_q, b'Q')
    ∷ (key_r, b'R')
    ∷ (key_s, b'S')
    ∷ (key_t, b'T')
    ∷ (key_u, b'U')
    ∷ (key_v, b'V')
    ∷ (key_w, b'W')
    ∷ (key_x, b'X')
    ∷ (key_y, b'Y')
    ∷ (key_z, b'Z')
    ∷ (key_back_quote, b'~')
    ∷ (key_sub, b'_')
    ∷ (key_equ, b'+')
    ∷ (key_tab, 9)
    ∷ (key_open_bracket, b'{')
    ∷ (key_close_bracket, b'}')
    ∷ (key_backslash, b'|')
    ∷ (key_semicolon, b':')
    ∷ (key_quote, b'"')
    ∷ (key_enter, 10)
    ∷ (key_comma, b'<')
    ∷ (key_dot, b'>')
    ∷ (key_slash, b'?')
    ∷ (key_space, b' ')
    ∷ (pad_slash, b'/')
    ∷ (pad_asterisk, b'*')
    ∷ (pad_sub, b'-')
    ∷ (pad_add, b'+')
    ∷ (pad_enter, 10)
    ∷ (pad_dot, b'.')
    ∷ []

unfoldable pub to_ascii_shift : ℕ → ℕ
unfolding entry
to_ascii_shift = entry to_ascii_shift_table

abbrev to_ascii_cap_table : Table
to_ascii_cap_table =
    (key_1, b'1')
    ∷ (key_2, b'2')
    ∷ (key_3, b'3')
    ∷ (key_4, b'4')
    ∷ (key_5, b'5')
    ∷ (key_6, b'6')
    ∷ (key_7, b'7')
    ∷ (key_8, b'8')
    ∷ (key_9, b'9')
    ∷ (key_0, b'0')
    ∷ (pad_1, b'1')
    ∷ (pad_2, b'2')
    ∷ (pad_3, b'3')
    ∷ (pad_4, b'4')
    ∷ (pad_5, b'5')
    ∷ (pad_6, b'6')
    ∷ (pad_7, b'7')
    ∷ (pad_8, b'8')
    ∷ (pad_9, b'9')
    ∷ (pad_0, b'0')
    ∷ (key_a, b'A')
    ∷ (key_b, b'B')
    ∷ (key_c, b'C')
    ∷ (key_d, b'D')
    ∷ (key_e, b'E')
    ∷ (key_f, b'F')
    ∷ (key_g, b'G')
    ∷ (key_h, b'H')
    ∷ (key_i, b'I')
    ∷ (key_j, b'J')
    ∷ (key_k, b'K')
    ∷ (key_l, b'L')
    ∷ (key_m, b'M')
    ∷ (key_n, b'N')
    ∷ (key_o, b'O')
    ∷ (key_p, b'P')
    ∷ (key_q, b'Q')
    ∷ (key_r, b'R')
    ∷ (key_s, b'S')
    ∷ (key_t, b'T')
    ∷ (key_u, b'U')
    ∷ (key_v, b'V')
    ∷ (key_w, b'W')
    ∷ (key_x, b'X')
    ∷ (key_y, b'Y')
    ∷ (key_z, b'Z')
    ∷ (key_back_quote, b'`')
    ∷ (key_sub, b'-')
    ∷ (key_equ, b'=')
    ∷ (key_tab, 9)
    ∷ (key_open_bracket, b'[')
    ∷ (key_close_bracket, b']')
    ∷ (key_backslash, 92)
    ∷ (key_semicolon, b';')
    ∷ (key_quote, 39)
    ∷ (key_enter, 10)
    ∷ (key_comma, b',')
    ∷ (key_dot, b'.')
    ∷ (key_slash, b'/')
    ∷ (key_space, b' ')
    ∷ (pad_slash, b'/')
    ∷ (pad_asterisk, b'*')
    ∷ (pad_sub, b'-')
    ∷ (pad_add, b'+')
    ∷ (pad_enter, 10)
    ∷ (pad_dot, b'.')
    ∷ []

unfoldable pub to_ascii_cap : ℕ → ℕ
unfolding entry
to_ascii_cap = entry to_ascii_cap_table

abbrev to_ascii_cap_shift_table : Table
to_ascii_cap_shift_table =
    (key_1, b'!')
    ∷ (key_2, b'@')
    ∷ (key_3, b'#')
    ∷ (key_4, b'$')
    ∷ (key_5, b'%')
    ∷ (key_6, b'^')
    ∷ (key_7, b'&')
    ∷ (key_8, b'*')
    ∷ (key_9, b'(')
    ∷ (key_0, b')')
    ∷ (pad_1, b'1')
    ∷ (pad_2, b'2')
    ∷ (pad_3, b'3')
    ∷ (pad_4, b'4')
    ∷ (pad_5, b'5')
    ∷ (pad_6, b'6')
    ∷ (pad_7, b'7')
    ∷ (pad_8, b'8')
    ∷ (pad_9, b'9')
    ∷ (pad_0, b'0')
    ∷ (key_a, b'a')
    ∷ (key_b, b'b')
    ∷ (key_c, b'c')
    ∷ (key_d, b'd')
    ∷ (key_e, b'e')
    ∷ (key_f, b'f')
    ∷ (key_g, b'g')
    ∷ (key_h, b'h')
    ∷ (key_i, b'i')
    ∷ (key_j, b'j')
    ∷ (key_k, b'k')
    ∷ (key_l, b'l')
    ∷ (key_m, b'm')
    ∷ (key_n, b'n')
    ∷ (key_o, b'o')
    ∷ (key_p, b'p')
    ∷ (key_q, b'q')
    ∷ (key_r, b'r')
    ∷ (key_s, b's')
    ∷ (key_t, b't')
    ∷ (key_u, b'u')
    ∷ (key_v, b'v')
    ∷ (key_w, b'w')
    ∷ (key_x, b'x')
    ∷ (key_y, b'y')
    ∷ (key_z, b'z')
    ∷ (key_back_quote, b'~')
    ∷ (key_sub, b'_')
    ∷ (key_equ, b'+')
    ∷ (key_tab, 9)
    ∷ (key_open_bracket, b'{')
    ∷ (key_close_bracket, b'}')
    ∷ (key_backslash, b'|')
    ∷ (key_semicolon, b':')
    ∷ (key_quote, b'"')
    ∷ (key_enter, 10)
    ∷ (key_comma, b'<')
    ∷ (key_dot, b'>')
    ∷ (key_slash, b'?')
    ∷ (key_space, b' ')
    ∷ (pad_slash, b'/')
    ∷ (pad_asterisk, b'*')
    ∷ (pad_sub, b'-')
    ∷ (pad_add, b'+')
    ∷ (pad_enter, 10)
    ∷ (pad_dot, b'.')
    ∷ []

unfoldable pub to_ascii_cap_shift : ℕ → ℕ
unfolding entry
to_ascii_cap_shift = entry to_ascii_cap_shift_table
