-- ===== src/Keyboard/Key.antt =====
-- The key numbers of sched/tty/tty-internal.h: `key_` stands for the main keys (the source writes
-- A, F1, _1, ESC) and `pad_` for those of the number pad (the source writes __1).
use myos_io.Base.{ℕ}

-- KEY_NUM
abbrev pub key_num : ℕ
key_num = 101

abbrev pub key_a : ℕ
key_a = 1

abbrev pub key_b : ℕ
key_b = 2

abbrev pub key_c : ℕ
key_c = 3

abbrev pub key_d : ℕ
key_d = 4

abbrev pub key_e : ℕ
key_e = 5

abbrev pub key_f : ℕ
key_f = 6

abbrev pub key_g : ℕ
key_g = 7

abbrev pub key_h : ℕ
key_h = 8

abbrev pub key_i : ℕ
key_i = 9

abbrev pub key_j : ℕ
key_j = 10

abbrev pub key_k : ℕ
key_k = 11

abbrev pub key_l : ℕ
key_l = 12

abbrev pub key_m : ℕ
key_m = 13

abbrev pub key_n : ℕ
key_n = 14

abbrev pub key_o : ℕ
key_o = 15

abbrev pub key_p : ℕ
key_p = 16

abbrev pub key_q : ℕ
key_q = 17

abbrev pub key_r : ℕ
key_r = 18

abbrev pub key_s : ℕ
key_s = 19

abbrev pub key_t : ℕ
key_t = 20

abbrev pub key_u : ℕ
key_u = 21

abbrev pub key_v : ℕ
key_v = 22

abbrev pub key_w : ℕ
key_w = 23

abbrev pub key_x : ℕ
key_x = 24

abbrev pub key_y : ℕ
key_y = 25

abbrev pub key_z : ℕ
key_z = 26

abbrev pub key_f1 : ℕ
key_f1 = 27

abbrev pub key_f2 : ℕ
key_f2 = 28

abbrev pub key_f3 : ℕ
key_f3 = 29

abbrev pub key_f4 : ℕ
key_f4 = 30

abbrev pub key_f5 : ℕ
key_f5 = 31

abbrev pub key_f6 : ℕ
key_f6 = 32

abbrev pub key_f7 : ℕ
key_f7 = 33

abbrev pub key_f8 : ℕ
key_f8 = 34

abbrev pub key_f9 : ℕ
key_f9 = 35

abbrev pub key_f10 : ℕ
key_f10 = 36

abbrev pub key_f11 : ℕ
key_f11 = 37

abbrev pub key_f12 : ℕ
key_f12 = 38

abbrev pub key_1 : ℕ
key_1 = 39

abbrev pub key_2 : ℕ
key_2 = 40

abbrev pub key_3 : ℕ
key_3 = 41

abbrev pub key_4 : ℕ
key_4 = 42

abbrev pub key_5 : ℕ
key_5 = 43

abbrev pub key_6 : ℕ
key_6 = 44

abbrev pub key_7 : ℕ
key_7 = 45

abbrev pub key_8 : ℕ
key_8 = 46

abbrev pub key_9 : ℕ
key_9 = 47

abbrev pub key_0 : ℕ
key_0 = 48

abbrev pub pad_1 : ℕ
pad_1 = 49

abbrev pub pad_2 : ℕ
pad_2 = 50

abbrev pub pad_3 : ℕ
pad_3 = 51

abbrev pub pad_4 : ℕ
pad_4 = 52

abbrev pub pad_5 : ℕ
pad_5 = 53

abbrev pub pad_6 : ℕ
pad_6 = 54

abbrev pub pad_7 : ℕ
pad_7 = 55

abbrev pub pad_8 : ℕ
pad_8 = 56

abbrev pub pad_9 : ℕ
pad_9 = 57

abbrev pub pad_0 : ℕ
pad_0 = 58

abbrev pub key_esc : ℕ
key_esc = 59

abbrev pub key_prtsc : ℕ
key_prtsc = 60

abbrev pub key_scrlk : ℕ
key_scrlk = 61

abbrev pub key_pause : ℕ
key_pause = 62

abbrev pub key_insert : ℕ
key_insert = 63

abbrev pub key_home : ℕ
key_home = 64

abbrev pub key_page_up : ℕ
key_page_up = 65

abbrev pub key_del : ℕ
key_del = 66

abbrev pub key_end : ℕ
key_end = 67

abbrev pub key_page_down : ℕ
key_page_down = 68

abbrev pub key_back_quote : ℕ
key_back_quote = 69

abbrev pub key_sub : ℕ
key_sub = 70

abbrev pub key_equ : ℕ
key_equ = 71

abbrev pub key_back : ℕ
key_back = 72

abbrev pub key_tab : ℕ
key_tab = 73

abbrev pub key_open_bracket : ℕ
key_open_bracket = 74

abbrev pub key_close_bracket : ℕ
key_close_bracket = 75

abbrev pub key_backslash : ℕ
key_backslash = 76

abbrev pub key_cap : ℕ
key_cap = 77

abbrev pub key_semicolon : ℕ
key_semicolon = 78

abbrev pub key_quote : ℕ
key_quote = 79

abbrev pub key_enter : ℕ
key_enter = 80

abbrev pub key_left_shift : ℕ
key_left_shift = 81

abbrev pub key_comma : ℕ
key_comma = 82

abbrev pub key_dot : ℕ
key_dot = 83

abbrev pub key_slash : ℕ
key_slash = 84

abbrev pub key_right_shift : ℕ
key_right_shift = 85

abbrev pub key_left_ctrl : ℕ
key_left_ctrl = 86

abbrev pub key_left_alt : ℕ
key_left_alt = 87

abbrev pub key_space : ℕ
key_space = 88

abbrev pub key_right_alt : ℕ
key_right_alt = 89

abbrev pub key_right_ctrl : ℕ
key_right_ctrl = 90

abbrev pub key_cursor_up : ℕ
key_cursor_up = 91

abbrev pub key_cursor_down : ℕ
key_cursor_down = 92

abbrev pub key_cursor_left : ℕ
key_cursor_left = 93

abbrev pub key_cursor_right : ℕ
key_cursor_right = 94

abbrev pub pad_num : ℕ
pad_num = 95

abbrev pub pad_slash : ℕ
pad_slash = 96

abbrev pub pad_asterisk : ℕ
pad_asterisk = 97

abbrev pub pad_sub : ℕ
pad_sub = 98

abbrev pub pad_add : ℕ
pad_add = 99

abbrev pub pad_enter : ℕ
pad_enter = 100

abbrev pub pad_dot : ℕ
pad_dot = 101
