-- ===== src/Kernel/Keyboard.antt =====
-- kernel/keyboard.c: the buffer of scan codes that the interrupt handler fills, and
-- `keyboard_read`, which parses them into keys for a terminal. The table `keymap` of
-- include/sys/keymap.h is a parameter. A read that waits for a byte to arrive is `none`. What
-- `set_leds` sends to the keyboard is a list of bytes.
pub mod Keys
pub mod Laws
mod Tests
use bird_os.Prelude.{
  ℕ, zero, suc, ◌+◌, ◌-◌, ◌*◌, Bool, true, false, ◌&&◌, ◌||◌, not, Option, none, some, List, [],
  ◌∷◌, ◌++◌, ◌==◌, ltb, leb, if◌then◌else◌, bit_and, bit_or, set, get_or,
}
use bird_os.Circular.{step_on}
use bird_os.Kernel.Keyboard.Keys
use bird_os.Kernel.Tty.{Tty, Event, in_process}

-- KB_IN_BYTES
abbrev pub kb_in_bytes : ℕ
kb_in_bytes = 32

-- struct kb_inbuf
pub record KbInbuf : Type 0 where
  pub buf : List ℕ
  pub p_head : ℕ
  pub p_tail : ℕ
  pub count : ℕ

-- The variables of the module that outlast a call.
pub record Modifiers : Type 0 where
  pub shift_l : Bool
  pub shift_r : Bool
  pub alt_l : Bool
  pub alt_r : Bool
  pub ctrl_l : Bool
  pub ctrl_r : Bool
  pub caps_lock : Bool
  pub num_lock : Bool
  pub scroll_lock : Bool

-- `keyboard_handler` with the byte that it reads from the port
pub keyboard_handler : ℕ → KbInbuf → KbInbuf
keyboard_handler scan_code kb =
    if ltb kb.count kb_in_bytes
    then record kb {
      buf = set kb.buf kb.p_head scan_code;
      p_head = step_on kb_in_bytes kb.p_head;
      count = kb.count + 1;
    }
    else kb

-- `init_keyboard`, but for the leds and the interrupt controller
pub init_keyboard : KbInbuf → KbInbuf × Modifiers
init_keyboard kb = (
  record kb { count = 0; p_head = 0; p_tail = 0 },
  record {
    shift_l = false;
    shift_r = false;
    alt_l = false;
    alt_r = false;
    ctrl_l = false;
    ctrl_r = false;
    caps_lock = false;
    num_lock = true;
    scroll_lock = false;
  },
)

-- A computation that reads scan codes.
abbrev pub Reads : Type 0 → Type 0
Reads A = KbInbuf → Option (A × KbInbuf)

abbrev pub pure : {A : Type 0} → A → Reads A
pure a kb = some (a, kb)

abbrev pub and_then : {A B : Type 0} → Option (A × KbInbuf) → (A → Reads B) → Option (B × KbInbuf)
and_then none f = none
and_then (some (a, kb)) f = f a kb

infixl 5 ◌>>=◌
abbrev pub ◌>>=◌ : {A B : Type 0} → Reads A → (A → Reads B) → Reads B
◌>>=◌ m f kb = and_then (m kb) f

pub get_byte_from_kb_buf : Reads ℕ
get_byte_from_kb_buf kb =
    if kb.count == 0
    then none
    else some (
      get_or kb.buf kb.p_tail 0,
      record kb { p_tail = step_on kb_in_bytes kb.p_tail; count = kb.count - 1 },
    )

-- The loop over `pausebreak_scan_code`: the bytes are read until one differs.
pub is_pausebreak : List ℕ → Reads Bool
unfolding get_byte_from_kb_buf
is_pausebreak [] = pure true
is_pausebreak (c ∷ cs) = do
  b ← get_byte_from_kb_buf
  if b == c then is_pausebreak cs else pure false

-- The local variables of `keyboard_read`; `key` and `make` keep their values from one scan code
-- to the next.
pub record Scan : Type 0 where
  pub key : ℕ
  pub make : Bool
  pub scan_code : ℕ
  pub code_with_e0 : Bool

abbrev pub scan : ℕ → Bool → ℕ → Bool → Scan
scan key make scan_code code_with_e0 = record {
  key = key;
  make = make;
  scan_code = scan_code;
  code_with_e0 = code_with_e0;
}

-- Behind E0 2A and E0 B7: E0 and then `last` make it a PrintScreen, pressed or released.
pub print_screen_code : ℕ → Bool → ℕ → Bool → Reads Scan
unfolding get_byte_from_kb_buf
print_screen_code last pressed key make = do
  c ← get_byte_from_kb_buf
  if c == 0xe0
      then (do
        d ← get_byte_from_kb_buf
        pure (if d == last then scan Keys.printscreen pressed d true else scan key make d true))
      else pure (scan key make c false)

-- The first half of the loop: one scan code is read.
pub read_code : ℕ → Bool → Reads Scan
unfolding get_byte_from_kb_buf is_pausebreak print_screen_code
read_code key make = do
  b ← get_byte_from_kb_buf
  if b == 0xe1
      then (do
        p ← is_pausebreak (0x1d ∷ 0x45 ∷ 0xe1 ∷ 0x9d ∷ 0xc5 ∷ [])
        pure (scan (if p then Keys.pausebreak else key) make b false))
      else if b == 0xe0
      then (do
        c ← get_byte_from_kb_buf
        if c == 0x2a
            then print_screen_code 0x37 true key make
            else if c == 0xb7
            then print_screen_code 0xaa false key make
            else pure (scan key make c true))
      else pure (scan key make b false)

-- `set_leds`: the byte that it sends
abbrev pub leds : Modifiers → ℕ
leds mods =
    (if mods.caps_lock then 4 else 0)
    + (if mods.num_lock then 2 else 0)
    + (if mods.scroll_lock then 1 else 0)

-- The switch on a key that is pressed or released; a lock key changes with the press.
pub switch_modifier : ℕ → Bool → Modifiers → List ℕ × Modifiers
switch_modifier key make mods =
    let caps = record mods { caps_lock = not mods.caps_lock } in
    let num = record mods { num_lock = not mods.num_lock } in
    let scroll = record mods { scroll_lock = not mods.scroll_lock } in
    if key == Keys.shift_l
    then ([], record mods { shift_l = make })
    else if key == Keys.shift_r
    then ([], record mods { shift_r = make })
    else if key == Keys.ctrl_l
    then ([], record mods { ctrl_l = make })
    else if key == Keys.ctrl_r
    then ([], record mods { ctrl_r = make })
    else if key == Keys.alt_l
    then ([], record mods { alt_l = make })
    else if key == Keys.alt_r
    then ([], record mods { alt_l = make })
    else if (key == Keys.caps_lock) && make
    then (leds caps ∷ [], caps)
    else if (key == Keys.num_lock) && make
    then (leds num ∷ [], num)
    else if (key == Keys.scroll_lock) && make
    then (leds scroll ∷ [], scroll)
    else ([], mods)

-- The keys of the numeric pad: what they mean, and whether `key` is one.
pub pad_key : Bool → ℕ → ℕ × Bool
pad_key num_lock key =
    if not (leb Keys.pad_slash key && leb key Keys.pad_9)
    then (key, false)
    else if key == Keys.pad_slash
    then (0x2f, true)
    else if key == Keys.pad_star
    then (0x2a, true)
    else if key == Keys.pad_minus
    then (0x2d, true)
    else if key == Keys.pad_plus
    then (0x2b, true)
    else if key == Keys.pad_enter
    then (Keys.enter, true)
    else if num_lock
    then (if leb Keys.pad_0 key && leb key Keys.pad_9
        then (key - Keys.pad_0 + 0x30, true)
        else if key == Keys.pad_dot
        then (0x2e, true)
        else (key, true))
    else if key == Keys.pad_7
    then (Keys.home, true)
    else if key == Keys.pad_1
    then (Keys.end, true)
    else if key == Keys.pad_9
    then (Keys.pageup, true)
    else if key == Keys.pad_3
    then (Keys.pagedown, true)
    else if key == Keys.pad_0
    then (Keys.insert, true)
    else if key == Keys.pad_8
    then (Keys.up, true)
    else if key == Keys.pad_2
    then (Keys.down, true)
    else if key == Keys.pad_4
    then (Keys.left, true)
    else if key == Keys.pad_6
    then (Keys.right, true)
    else if key == Keys.pad_dot
    then (Keys.delete, true)
    else (key, true)

-- `key |= test ? flag : 0;`
abbrev or_flag : ℕ → Bool → ℕ → ℕ
or_flag key test flag = bit_or key (if test then flag else 0)

-- The key with the modifiers that are down.
pub with_flags : Modifiers → ℕ → Bool → ℕ
with_flags mods key pad =
    let shift =
      or_flag (or_flag key mods.shift_l Keys.flag_shift_l) mods.shift_r Keys.flag_shift_r in
    let ctrl = or_flag (or_flag shift mods.ctrl_l Keys.flag_ctrl_l) mods.ctrl_r Keys.flag_ctrl_r in
    let alt = or_flag (or_flag ctrl mods.alt_l Keys.flag_alt_l) mods.alt_r Keys.flag_alt_r in
    or_flag alt pad Keys.flag_pad

-- What a call of `keyboard_read` has done: the bytes to the leds, what `in_process` did, and the
-- modifiers and the terminal that it leaves.
pub record Result : Type 0 where
  pub to_leds : List ℕ
  pub events : List Event
  pub mods : Modifiers
  pub tty : Tty

module _ (keymap : ℕ → ℕ) where
  -- The key that the table has for a scan code.
  pub look_up : Scan → Modifiers → ℕ
  look_up s mods =
      let row = bit_and s.scan_code 0x7f * 3 in
      let shifted = mods.shift_l || mods.shift_r in
      let is_letter = leb 0x61 (keymap row) && leb (keymap row) 0x7a in
      let caps = if mods.caps_lock && is_letter then not shifted else shifted in
      let column = if s.code_with_e0 then 2 else if caps then 1 else 0 in keymap (row + column)

  -- The second half of the loop: the scan code is looked up in the table, unless the key is
  -- PrintScreen or Pause.
  pub parse : Scan → Modifiers → Scan × List ℕ × Modifiers
  unfolding look_up switch_modifier
  parse s mods =
      let make = bit_and s.scan_code Keys.flag_break == 0 in
      let key = look_up s mods in
      let (sent, mods') = switch_modifier key make mods in
      if (s.key == Keys.pausebreak) || (s.key == Keys.printscreen)
      then (s, [], mods)
      else (record s { key = key; make = make }, sent, mods')

  -- The last part of the loop: a key that is pressed goes to the terminal.
  pub press : ℕ → Modifiers → Tty → ℕ × List Event × Tty
  unfolding pad_key with_flags
  press key mods tty =
      let (key', pad) = pad_key mods.num_lock key in
      let key'' = with_flags mods key' pad in
      let (shown, tty') = in_process tty key'' in (key'', shown, tty')

  -- What the loop does with a scan code.
  pub take_scan : Scan → Result → Scan × Result
  unfolding parse press
  take_scan s res =
      let (s', sent, mods) = parse s res.mods in
      let (key', shown, tty) = press s'.key mods res.tty in
      let res' = record res { to_leds = res.to_leds ++ sent; mods = mods } in
      if s'.make
      then (record s' { key = key' }, record res' { events = res.events ++ shown; tty = tty })
      else (s', res')

  -- `while (kb_in.count > 0)`
  pub while_bytes : (ℕ → Bool → Result → Reads Result) → Scan × Result → Reads Result
  while_bytes later (s, res) kb =
      if kb.count == 0 then some (res, kb) else later s.key s.make res kb

  -- The loop of `keyboard_read`, with the values that `key` and `make` have; each round reads a
  -- byte at least.
  pub read_loop : ℕ → ℕ → Bool → Result → Reads Result
  unfolding read_code take_scan while_bytes
  read_loop zero key make res = pure res
  read_loop (suc fuel) key make res = do
    s ← read_code key make
    while_bytes (read_loop fuel) (take_scan s res)

  -- `make` is not initialised by the code.
  pub keyboard_read : Bool → Modifiers → Tty → Reads Result
  unfolding read_loop
  keyboard_read make mods tty kb =
      let start : Result = record { to_leds = []; events = []; mods = mods; tty = tty } in
      if kb.count == 0 then some (start, kb) else read_loop kb.count 0 make start kb
