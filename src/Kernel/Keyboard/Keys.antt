-- ===== src/Kernel/Keyboard/Keys.antt =====
-- The keys of include/sys/keyboard.h that `keyboard_read` names.
use bird_os.Prelude.{ℕ}

abbrev pub shift_l : ℕ
shift_l = 0x0108

abbrev pub shift_r : ℕ
shift_r = 0x0109

abbrev pub ctrl_l : ℕ
ctrl_l = 0x010a

abbrev pub ctrl_r : ℕ
ctrl_r = 0x010b

abbrev pub alt_l : ℕ
alt_l = 0x010c

abbrev pub alt_r : ℕ
alt_r = 0x010d

abbrev pub caps_lock : ℕ
caps_lock = 0x010e

abbrev pub num_lock : ℕ
num_lock = 0x010f

abbrev pub scroll_lock : ℕ
scroll_lock = 0x0110

abbrev pub enter : ℕ
enter = 0x0103

abbrev pub insert : ℕ
insert = 0x011f

abbrev pub delete : ℕ
delete = 0x0120

abbrev pub home : ℕ
home = 0x0121

abbrev pub end : ℕ
end = 0x0122

abbrev pub pageup : ℕ
pageup = 0x0123

abbrev pub pagedown : ℕ
pagedown = 0x0124

abbrev pub up : ℕ
up = 0x0125

abbrev pub down : ℕ
down = 0x0126

abbrev pub left : ℕ
left = 0x0127

abbrev pub right : ℕ
right = 0x0128

abbrev pub pad_slash : ℕ
pad_slash = 0x012c

abbrev pub pad_star : ℕ
pad_star = 0x012d

abbrev pub pad_minus : ℕ
pad_minus = 0x012e

abbrev pub pad_plus : ℕ
pad_plus = 0x012f

abbrev pub pad_enter : ℕ
pad_enter = 0x0130

abbrev pub pad_dot : ℕ
pad_dot = 0x0131

abbrev pub pad_0 : ℕ
pad_0 = 0x0132

abbrev pub pad_1 : ℕ
pad_1 = 0x0133

abbrev pub pad_2 : ℕ
pad_2 = 0x0134

abbrev pub pad_3 : ℕ
pad_3 = 0x0135

abbrev pub pad_4 : ℕ
pad_4 = 0x0136

abbrev pub pad_6 : ℕ
pad_6 = 0x0138

abbrev pub pad_7 : ℕ
pad_7 = 0x0139

abbrev pub pad_8 : ℕ
pad_8 = 0x013a

abbrev pub pad_9 : ℕ
pad_9 = 0x013b

abbrev pub flag_shift_l : ℕ
flag_shift_l = 0x0200

abbrev pub flag_shift_r : ℕ
flag_shift_r = 0x0400

abbrev pub flag_ctrl_l : ℕ
flag_ctrl_l = 0x0800

abbrev pub flag_ctrl_r : ℕ
flag_ctrl_r = 0x1000

abbrev pub flag_alt_l : ℕ
flag_alt_l = 0x2000

abbrev pub flag_alt_r : ℕ
flag_alt_r = 0x4000

abbrev pub flag_pad : ℕ
flag_pad = 0x8000

abbrev pub flag_break : ℕ
flag_break = 0x0080

abbrev pub printscreen : ℕ
printscreen = 0x011d

abbrev pub pausebreak : ℕ
pausebreak = 0x011e
