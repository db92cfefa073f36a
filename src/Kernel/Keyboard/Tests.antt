-- ===== src/Kernel/Keyboard/Tests.antt =====
-- The keyboard at work: two scan codes are in its buffer.
use bird_os.Prelude.{ℕ, zero, suc, ◌<◌, ◌≡◌, refl, inl, true, false, some, arith, replicate, get_or}
use bird_os.Kernel.Tty.{Tty}
use bird_os.Kernel.Keyboard.{KbInbuf, Modifiers, Result, keyboard_read}
use bird_os.Kernel.Keyboard.Laws.{IsBuffer, keyboard_read_returns}

abbrev two_bytes : KbInbuf
two_bytes = record { buf = replicate 32 0x1e; p_head = 2; p_tail = 0; count = 2 }

abbrev none_down : Modifiers
none_down = record {
  shift_l = false;
  shift_r = false;
  alt_l = false;
  alt_r = false;
  ctrl_l = false;
  ctrl_r = false;
  caps_lock = false;
  num_lock = true;
  scroll_lock = false;
}

abbrev quiet_tty : Tty
quiet_tty = record {
  ibuf = replicate 256 0;
  ibuf_head = 0;
  ibuf_tail = 0;
  ibuf_cnt = 0;
  tty_caller = 0;
  tty_procnr = 0;
  tty_req_buf = 0;
  tty_left_cnt = 0;
  tty_trans_cnt = 0;
  console = 0;
}

abbrev letter_table : ℕ → ℕ
letter_table i = 0x61

all_plain : (n i : ℕ) → get_or (replicate n 0x1e) i 0 < 0xe0
all_plain zero i = omega arith
all_plain (suc n) zero = omega arith
all_plain (suc n) (suc i) = all_plain n i

two_bytes-IsBuffer : IsBuffer two_bytes
two_bytes-IsBuffer = record {
  storage = omega arith;
  head_in = omega arith;
  tail_in = omega arith;
  fits = omega arith;
  span = inl refl;
}

keyboard_read_returns_example :
    (r : Result) × (kb' : KbInbuf) × (keyboard_read letter_table true none_down quiet_tty two_bytes
      ≡ some (r, kb'))
    × (kb'.count ≡ 0)
    × (r.mods.alt_r ≡ false)
keyboard_read_returns_example =
    keyboard_read_returns letter_table true none_down quiet_tty two_bytes (all_plain 32)
