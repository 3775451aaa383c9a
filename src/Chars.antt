-- ===== src/Chars.antt =====
-- The character tables of src/match.c and the character macros of include/irc_string.h.
use unirc_ircd.Prelude.{
  ℕ, Bool, true, false, not, if◌then◌else◌, List, [], ◌∷◌, bit_and, ◌==◌, get_or,
}

-- A C string without its NUL, a list of bytes below 256.
abbrev pub Bytes : Type 0
Bytes = List ℕ

to_lower_tab : List ℕ
to_lower_tab =
    0x0 ∷ 0x1 ∷ 0x2 ∷ 0x3 ∷ 0x4 ∷ 0x5 ∷ 0x6 ∷ 0x7 ∷ 0x8 ∷ 0x9 ∷ 0xa ∷ 0xb ∷ 0xc ∷ 0xd ∷ 0xe ∷ 0xf
    ∷ 0x10 ∷ 0x11 ∷ 0x12 ∷ 0x13 ∷ 0x14 ∷ 0x15 ∷ 0x16 ∷ 0x17 ∷ 0x18 ∷ 0x19 ∷ 0x1a ∷ 0x1b ∷ 0x1c
    ∷ 0x1d ∷ 0x1e ∷ 0x1f ∷ 0x20 ∷ 0x21 ∷ 0x22 ∷ 0x23 ∷ 0x24 ∷ 0x25 ∷ 0x26 ∷ 0x27 ∷ 0x28 ∷ 0x29
    ∷ 0x2a ∷ 0x2b ∷ 0x2c ∷ 0x2d ∷ 0x2e ∷ 0x2f ∷ 0x30 ∷ 0x31 ∷ 0x32 ∷ 0x33 ∷ 0x34 ∷ 0x35 ∷ 0x36
    ∷ 0x37 ∷ 0x38 ∷ 0x39 ∷ 0x3a ∷ 0x3b ∷ 0x3c ∷ 0x3d ∷ 0x3e ∷ 0x3f ∷ 0x40 ∷ 0x61 ∷ 0x62 ∷ 0x63
    ∷ 0x64 ∷ 0x65 ∷ 0x66 ∷ 0x67 ∷ 0x68 ∷ 0x69 ∷ 0x6a ∷ 0x6b ∷ 0x6c ∷ 0x6d ∷ 0x6e ∷ 0x6f ∷ 0x70
    ∷ 0x71 ∷ 0x72 ∷ 0x73 ∷ 0x74 ∷ 0x75 ∷ 0x76 ∷ 0x77 ∷ 0x78 ∷ 0x79 ∷ 0x7a ∷ 0x7b ∷ 0x7c ∷ 0x7d
    ∷ 0x7e ∷ 0x5f ∷ 0x60 ∷ 0x61 ∷ 0x62 ∷ 0x63 ∷ 0x64 ∷ 0x65 ∷ 0x66 ∷ 0x67 ∷ 0x68 ∷ 0x69 ∷ 0x6a
    ∷ 0x6b ∷ 0x6c ∷ 0x6d ∷ 0x6e ∷ 0x6f ∷ 0x70 ∷ 0x71 ∷ 0x72 ∷ 0x73 ∷ 0x74 ∷ 0x75 ∷ 0x76 ∷ 0x77
    ∷ 0x78 ∷ 0x79 ∷ 0x7a ∷ 0x7b ∷ 0x7c ∷ 0x7d ∷ 0x7e ∷ 0x7f ∷ 0x80 ∷ 0x81 ∷ 0x82 ∷ 0x83 ∷ 0x84
    ∷ 0x85 ∷ 0x86 ∷ 0x87 ∷ 0x88 ∷ 0x89 ∷ 0x8a ∷ 0x8b ∷ 0x8c ∷ 0x8d ∷ 0x8e ∷ 0x8f ∷ 0x90 ∷ 0x91
    ∷ 0x92 ∷ 0x93 ∷ 0x94 ∷ 0x95 ∷ 0x96 ∷ 0x97 ∷ 0x98 ∷ 0x99 ∷ 0x9a ∷ 0x9b ∷ 0x9c ∷ 0x9d ∷ 0x9e
    ∷ 0x9f ∷ 0xa0 ∷ 0xa1 ∷ 0xa2 ∷ 0xa3 ∷ 0xa4 ∷ 0xa5 ∷ 0xa6 ∷ 0xa7 ∷ 0xa8 ∷ 0xa9 ∷ 0xaa ∷ 0xab
    ∷ 0xac ∷ 0xad ∷ 0xae ∷ 0xaf ∷ 0xb0 ∷ 0xb1 ∷ 0xb2 ∷ 0xb3 ∷ 0xb4 ∷ 0xb5 ∷ 0xb6 ∷ 0xb7 ∷ 0xb8
    ∷ 0xb9 ∷ 0xba ∷ 0xbb ∷ 0xbc ∷ 0xbd ∷ 0xbe ∷ 0xbf ∷ 0xc0 ∷ 0xc1 ∷ 0xc2 ∷ 0xc3 ∷ 0xc4 ∷ 0xc5
    ∷ 0xc6 ∷ 0xc7 ∷ 0xc8 ∷ 0xc9 ∷ 0xca ∷ 0xcb ∷ 0xcc ∷ 0xcd ∷ 0xce ∷ 0xcf ∷ 0xd0 ∷ 0xd1 ∷ 0xd2
    ∷ 0xd3 ∷ 0xd4 ∷ 0xd5 ∷ 0xd6 ∷ 0xd7 ∷ 0xd8 ∷ 0xd9 ∷ 0xda ∷ 0xdb ∷ 0xdc ∷ 0xdd ∷ 0xde ∷ 0xdf
    ∷ 0xe0 ∷ 0xe1 ∷ 0xe2 ∷ 0xe3 ∷ 0xe4 ∷ 0xe5 ∷ 0xe6 ∷ 0xe7 ∷ 0xe8 ∷ 0xe9 ∷ 0xea ∷ 0xeb ∷ 0xec
    ∷ 0xed ∷ 0xee ∷ 0xef ∷ 0xf0 ∷ 0xf1 ∷ 0xf2 ∷ 0xf3 ∷ 0xf4 ∷ 0xf5 ∷ 0xf6 ∷ 0xf7 ∷ 0xf8 ∷ 0xf9
    ∷ 0xfa ∷ 0xfb ∷ 0xfc ∷ 0xfd ∷ 0xfe ∷ 0xff ∷ []

to_upper_tab : List ℕ
to_upper_tab =
    0x0 ∷ 0x1 ∷ 0x2 ∷ 0x3 ∷ 0x4 ∷ 0x5 ∷ 0x6 ∷ 0x7 ∷ 0x8 ∷ 0x9 ∷ 0xa ∷ 0xb ∷ 0xc ∷ 0xd ∷ 0xe ∷ 0xf
    ∷ 0x10 ∷ 0x11 ∷ 0x12 ∷ 0x13 ∷ 0x14 ∷ 0x15 ∷ 0x16 ∷ 0x17 ∷ 0x18 ∷ 0x19 ∷ 0x1a ∷ 0x1b ∷ 0x1c
    ∷ 0x1d ∷ 0x1e ∷ 0x1f ∷ 0x20 ∷ 0x21 ∷ 0x22 ∷ 0x23 ∷ 0x24 ∷ 0x25 ∷ 0x26 ∷ 0x27 ∷ 0x28 ∷ 0x29
    ∷ 0x2a ∷ 0x2b ∷ 0x2c ∷ 0x2d ∷ 0x2e ∷ 0x2f ∷ 0x30 ∷ 0x31 ∷ 0x32 ∷ 0x33 ∷ 0x34 ∷ 0x35 ∷ 0x36
    ∷ 0x37 ∷ 0x38 ∷ 0x39 ∷ 0x3a ∷ 0x3b ∷ 0x3c ∷ 0x3d ∷ 0x3e ∷ 0x3f ∷ 0x40 ∷ 0x41 ∷ 0x42 ∷ 0x43
    ∷ 0x44 ∷ 0x45 ∷ 0x46 ∷ 0x47 ∷ 0x48 ∷ 0x49 ∷ 0x4a ∷ 0x4b ∷ 0x4c ∷ 0x4d ∷ 0x4e ∷ 0x4f ∷ 0x50
    ∷ 0x51 ∷ 0x52 ∷ 0x53 ∷ 0x54 ∷ 0x55 ∷ 0x56 ∷ 0x57 ∷ 0x58 ∷ 0x59 ∷ 0x5a ∷ 0x5b ∷ 0x5c ∷ 0x5d
    ∷ 0x5e ∷ 0x5f ∷ 0x60 ∷ 0x41 ∷ 0x42 ∷ 0x43 ∷ 0x44 ∷ 0x45 ∷ 0x46 ∷ 0x47 ∷ 0x48 ∷ 0x49 ∷ 0x4a
    ∷ 0x4b ∷ 0x4c ∷ 0x4d ∷ 0x4e ∷ 0x4f ∷ 0x50 ∷ 0x51 ∷ 0x52 ∷ 0x53 ∷ 0x54 ∷ 0x55 ∷ 0x56 ∷ 0x57
    ∷ 0x58 ∷ 0x59 ∷ 0x5a ∷ 0x5b ∷ 0x5c ∷ 0x5d ∷ 0x5e ∷ 0x7f ∷ 0x80 ∷ 0x81 ∷ 0x82 ∷ 0x83 ∷ 0x84
    ∷ 0x85 ∷ 0x86 ∷ 0x87 ∷ 0x88 ∷ 0x89 ∷ 0x8a ∷ 0x8b ∷ 0x8c ∷ 0x8d ∷ 0x8e ∷ 0x8f ∷ 0x90 ∷ 0x91
    ∷ 0x92 ∷ 0x93 ∷ 0x94 ∷ 0x95 ∷ 0x96 ∷ 0x97 ∷ 0x98 ∷ 0x99 ∷ 0x9a ∷ 0x9b ∷ 0x9c ∷ 0x9d ∷ 0x9e
    ∷ 0x9f ∷ 0xa0 ∷ 0xa1 ∷ 0xa2 ∷ 0xa3 ∷ 0xa4 ∷ 0xa5 ∷ 0xa6 ∷ 0xa7 ∷ 0xa8 ∷ 0xa9 ∷ 0xaa ∷ 0xab
    ∷ 0xac ∷ 0xad ∷ 0xae ∷ 0xaf ∷ 0xb0 ∷ 0xb1 ∷ 0xb2 ∷ 0xb3 ∷ 0xb4 ∷ 0xb5 ∷ 0xb6 ∷ 0xb7 ∷ 0xb8
    ∷ 0xb9 ∷ 0xba ∷ 0xbb ∷ 0xbc ∷ 0xbd ∷ 0xbe ∷ 0xbf ∷ 0xc0 ∷ 0xc1 ∷ 0xc2 ∷ 0xc3 ∷ 0xc4 ∷ 0xc5
    ∷ 0xc6 ∷ 0xc7 ∷ 0xc8 ∷ 0xc9 ∷ 0xca ∷ 0xcb ∷ 0xcc ∷ 0xcd ∷ 0xce ∷ 0xcf ∷ 0xd0 ∷ 0xd1 ∷ 0xd2
    ∷ 0xd3 ∷ 0xd4 ∷ 0xd5 ∷ 0xd6 ∷ 0xd7 ∷ 0xd8 ∷ 0xd9 ∷ 0xda ∷ 0xdb ∷ 0xdc ∷ 0xdd ∷ 0xde ∷ 0xdf
    ∷ 0xe0 ∷ 0xe1 ∷ 0xe2 ∷ 0xe3 ∷ 0xe4 ∷ 0xe5 ∷ 0xe6 ∷ 0xe7 ∷ 0xe8 ∷ 0xe9 ∷ 0xea ∷ 0xeb ∷ 0xec
    ∷ 0xed ∷ 0xee ∷ 0xef ∷ 0xf0 ∷ 0xf1 ∷ 0xf2 ∷ 0xf3 ∷ 0xf4 ∷ 0xf5 ∷ 0xf6 ∷ 0xf7 ∷ 0xf8 ∷ 0xf9
    ∷ 0xfa ∷ 0xfb ∷ 0xfc ∷ 0xfd ∷ 0xfe ∷ 0xff ∷ []

char_attrs : List ℕ
char_attrs =
    0x2 ∷ 0x11082 ∷ 0x1082 ∷ 0x1082 ∷ 0x11082 ∷ 0x11082 ∷ 0x11082 ∷ 0x1002 ∷ 0x11082 ∷ 0x110a2
    ∷ 0x150a2 ∷ 0x110a2 ∷ 0x110a2 ∷ 0x150a2 ∷ 0x11082 ∷ 0x1082 ∷ 0x11082 ∷ 0x11082 ∷ 0x11082
    ∷ 0x11082 ∷ 0x11082 ∷ 0x11082 ∷ 0x1082 ∷ 0x11082 ∷ 0x11082 ∷ 0x11082 ∷ 0x11082 ∷ 0x11082
    ∷ 0x11082 ∷ 0x11082 ∷ 0x11082 ∷ 0x1082 ∷ 0x21 ∷ 0x11181 ∷ 0x11081 ∷ 0x19381 ∷ 0x11481 ∷ 0x11081
    ∷ 0x11281 ∷ 0x11081 ∷ 0x11081 ∷ 0x11081 ∷ 0x1b181 ∷ 0x11081 ∷ 0x1001 ∷ 0x11cc1 ∷ 0x13d81
    ∷ 0x11081 ∷ 0x11cd1 ∷ 0x11cd1 ∷ 0x11cd1 ∷ 0x11cd1 ∷ 0x11cd1 ∷ 0x11cd1 ∷ 0x11cd1 ∷ 0x11cd1
    ∷ 0x11cd1 ∷ 0x11cd1 ∷ 0x11981 ∷ 0x11081 ∷ 0x11081 ∷ 0x11081 ∷ 0x11081 ∷ 0x19181 ∷ 0x11181
    ∷ 0x11cc5 ∷ 0x11cc5 ∷ 0x11cc5 ∷ 0x11cc5 ∷ 0x11cc5 ∷ 0x11cc5 ∷ 0x11cc5 ∷ 0x11cc5 ∷ 0x11cc5
    ∷ 0x11cc5 ∷ 0x11cc5 ∷ 0x11cc5 ∷ 0x11cc5 ∷ 0x11cc5 ∷ 0x11cc5 ∷ 0x11cc5 ∷ 0x11cc5 ∷ 0x11cc5
    ∷ 0x11cc5 ∷ 0x11cc5 ∷ 0x11cc5 ∷ 0x11cc5 ∷ 0x11cc5 ∷ 0x11cc5 ∷ 0x11cc5 ∷ 0x11cc5 ∷ 0x114c5
    ∷ 0x114c5 ∷ 0x114c5 ∷ 0x114c5 ∷ 0x114c1 ∷ 0x114c1 ∷ 0x11cc5 ∷ 0x11cc5 ∷ 0x11cc5 ∷ 0x11cc5
    ∷ 0x11cc5 ∷ 0x11cc5 ∷ 0x11cc5 ∷ 0x11cc5 ∷ 0x11cc5 ∷ 0x11cc5 ∷ 0x11cc5 ∷ 0x11cc5 ∷ 0x11cc5
    ∷ 0x11cc5 ∷ 0x11cc5 ∷ 0x11cc5 ∷ 0x11cc5 ∷ 0x11cc5 ∷ 0x11cc5 ∷ 0x11cc5 ∷ 0x11cc5 ∷ 0x11cc5
    ∷ 0x11cc5 ∷ 0x11cc5 ∷ 0x11cc5 ∷ 0x11cc5 ∷ 0x114c5 ∷ 0x114c5 ∷ 0x114c5 ∷ 0x11485 ∷ 0x11080
    ∷ 0x11080 ∷ 0x11080 ∷ 0x11080 ∷ 0x11080 ∷ 0x11080 ∷ 0x11080 ∷ 0x11080 ∷ 0x11080 ∷ 0x11080
    ∷ 0x11080 ∷ 0x11080 ∷ 0x11080 ∷ 0x11080 ∷ 0x11080 ∷ 0x11080 ∷ 0x11080 ∷ 0x11080 ∷ 0x11080
    ∷ 0x11080 ∷ 0x11080 ∷ 0x11080 ∷ 0x11080 ∷ 0x11080 ∷ 0x11080 ∷ 0x11080 ∷ 0x11080 ∷ 0x11080
    ∷ 0x11080 ∷ 0x11080 ∷ 0x11080 ∷ 0x11080 ∷ 0x11080 ∷ 0x1080 ∷ 0x11080 ∷ 0x11080 ∷ 0x11080
    ∷ 0x11080 ∷ 0x11080 ∷ 0x11080 ∷ 0x11080 ∷ 0x11080 ∷ 0x11080 ∷ 0x11080 ∷ 0x11080 ∷ 0x11080
    ∷ 0x11080 ∷ 0x11080 ∷ 0x11080 ∷ 0x11080 ∷ 0x11080 ∷ 0x11080 ∷ 0x11080 ∷ 0x11080 ∷ 0x11080
    ∷ 0x11080 ∷ 0x11080 ∷ 0x11080 ∷ 0x11080 ∷ 0x11080 ∷ 0x11080 ∷ 0x11080 ∷ 0x11080 ∷ 0x11080
    ∷ 0x11080 ∷ 0x11080 ∷ 0x11080 ∷ 0x11080 ∷ 0x11080 ∷ 0x11080 ∷ 0x11080 ∷ 0x11080 ∷ 0x11080
    ∷ 0x11080 ∷ 0x11080 ∷ 0x11080 ∷ 0x11080 ∷ 0x11080 ∷ 0x11080 ∷ 0x11080 ∷ 0x11080 ∷ 0x11080
    ∷ 0x11080 ∷ 0x11080 ∷ 0x11080 ∷ 0x11080 ∷ 0x11080 ∷ 0x11080 ∷ 0x11080 ∷ 0x11080 ∷ 0x11080
    ∷ 0x11080 ∷ 0x11080 ∷ 0x11080 ∷ 0x11080 ∷ 0x11080 ∷ 0x11080 ∷ 0x11080 ∷ 0x11080 ∷ 0x11080
    ∷ 0x11080 ∷ 0x11080 ∷ 0x11080 ∷ 0x11080 ∷ 0x11080 ∷ 0x11080 ∷ 0x11080 ∷ 0x11080 ∷ 0x11080
    ∷ 0x11080 ∷ 0x11080 ∷ 0x11080 ∷ 0x11080 ∷ 0x11080 ∷ 0x11080 ∷ 0x11080 ∷ 0x11080 ∷ 0x11080
    ∷ 0x11080 ∷ 0x11080 ∷ 0x11080 ∷ 0x11080 ∷ 0x11080 ∷ 0x11080 ∷ 0x11080 ∷ 0x11080 ∷ 0x11080
    ∷ 0x11080 ∷ 0x11080 ∷ []

unfoldable pub to_lower : ℕ → ℕ
unfolding to_lower_tab
to_lower c = get_or to_lower_tab c 0

unfoldable pub to_upper : ℕ → ℕ
unfolding to_upper_tab
to_upper c = get_or to_upper_tab c 0

unfoldable pub has_attr : ℕ → ℕ → Bool
unfolding char_attrs
has_attr mask c = not (bit_and (get_or char_attrs c 0) mask == 0)

abbrev pub print_c : ℕ
print_c = 0x1

abbrev pub cntrl_c : ℕ
cntrl_c = 0x2

abbrev pub alpha_c : ℕ
alpha_c = 0x4

abbrev pub punct_c : ℕ
punct_c = 0x8

abbrev pub digit_c : ℕ
digit_c = 0x10

abbrev pub space_c : ℕ
space_c = 0x20

abbrev pub nick_c : ℕ
nick_c = 0x40

abbrev pub chan_c : ℕ
chan_c = 0x80

abbrev pub kwild_c : ℕ
kwild_c = 0x100

abbrev pub chanpfx_c : ℕ
chanpfx_c = 0x200

abbrev pub user_c : ℕ
user_c = 0x400

abbrev pub host_c : ℕ
host_c = 0x800

abbrev pub noneos_c : ℕ
noneos_c = 0x1000

abbrev pub serv_c : ℕ
serv_c = 0x2000

abbrev pub eol_c : ℕ
eol_c = 0x4000

abbrev pub mwild_c : ℕ
mwild_c = 0x8000

abbrev pub vchan_c : ℕ
vchan_c = 0x10000

unfoldable pub is_digit : ℕ → Bool
unfolding has_attr
is_digit = has_attr digit_c

unfoldable pub is_alpha : ℕ → Bool
unfolding has_attr
is_alpha = has_attr alpha_c

unfoldable pub is_nick_char : ℕ → Bool
unfolding has_attr
is_nick_char = has_attr nick_c

unfoldable pub is_chan_char : ℕ → Bool
unfolding has_attr
is_chan_char = has_attr chan_c

unfoldable pub is_chan_prefix : ℕ → Bool
unfolding has_attr
is_chan_prefix = has_attr chanpfx_c

unfoldable pub is_user_char : ℕ → Bool
unfolding has_attr
is_user_char = has_attr user_c

unfoldable pub is_host_char : ℕ → Bool
unfolding has_attr
is_host_char = has_attr host_c

unfoldable pub is_print : ℕ → Bool
unfolding has_attr
is_print = has_attr print_c

unfoldable pub is_kwild_char : ℕ → Bool
unfolding has_attr
is_kwild_char = has_attr kwild_c

unfoldable pub is_mwild_char : ℕ → Bool
unfolding has_attr
is_mwild_char = has_attr mwild_c

unfoldable pub is_visible_chan_char : ℕ → Bool
unfolding has_attr
is_visible_chan_char = has_attr vchan_c

unfoldable pub is_eol : ℕ → Bool
unfolding has_attr
is_eol = has_attr eol_c

-- The loops that go through a string while each byte passes.
unfoldable pub all_chars : (ℕ → Bool) → Bytes → Bool
all_chars ok_char [] = true
all_chars ok_char (c ∷ s) = if ok_char c then all_chars ok_char s else false
