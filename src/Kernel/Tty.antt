-- ===== src/Kernel/Tty.antt =====
-- The input buffer and the line discipline of kernel/tty.c: `put_key`, `in_process`,
-- `tty_dev_write`, `tty_do_read` and `tty_do_write`. What they do to the screen, to the consoles
-- and by messages is a list of events, in order; the bytes of memory are a function of the linear
-- address. The bases that `va2la` adds are arguments.
pub mod Laws
pub mod Line
mod Tests
use bird_os.Prelude.{
  ℕ, zero, suc, ◌+◌, ◌-◌, ◌%◌, Bool, true, false, ◌&&◌, ◌||◌, not, List, [], ◌∷◌, ◌++◌, ◌==◌, leb,
  ltb, if◌then◌else◌, bit_and, set, get_or, add_u32, sub_u32, update, Option, none, some,
}
use bird_os.Circular.{step_on}

-- TTY_IN_BYTES, TTY_OUT_BUF_LEN
abbrev pub tty_in_bytes : ℕ
tty_in_bytes = 256

abbrev pub tty_out_buf_len : ℕ
tty_out_buf_len = 2

-- TTY; `console` is the index of its console.
pub record Tty : Type 0 where
  pub ibuf : List ℕ
  pub ibuf_head : ℕ
  pub ibuf_tail : ℕ
  pub ibuf_cnt : ℕ
  pub tty_caller : ℕ
  pub tty_procnr : ℕ
  pub tty_req_buf : ℕ
  pub tty_left_cnt : ℕ
  pub tty_trans_cnt : ℕ
  pub console : ℕ

pub data Event : Type 0 where
  out_char : ℕ → ℕ → Event
  select_console : ℕ → Event
  -- the receiver, and the process and the count in the message
  resume_proc : ℕ → ℕ → ℕ → Event
  suspend_proc : ℕ → ℕ → ℕ → Event
  syscall_ret : ℕ → Event

abbrev pub Memory : Type 0
Memory = ℕ → ℕ

abbrev pub flag_ext : ℕ
flag_ext = 0x0100

abbrev pub flag_alt_l : ℕ
flag_alt_l = 0x2000

abbrev pub flag_alt_r : ℕ
flag_alt_r = 0x4000

abbrev pub mask_raw : ℕ
mask_raw = 0x01ff

abbrev pub enter : ℕ
enter = 0x0103

abbrev pub backspace : ℕ
backspace = 0x0104

abbrev pub f1 : ℕ
f1 = 0x0111

abbrev pub f12 : ℕ
f12 = 0x011c

-- '\b' and '\n'
abbrev pub back : ℕ
back = 8

abbrev pub newline : ℕ
newline = 10

-- The part of `init_tty` that does not concern the screen.
pub init_tty : Tty → Tty
init_tty t = record t { ibuf_cnt = 0; ibuf_head = 0; ibuf_tail = 0 }

pub put_key : Tty → ℕ → Tty
put_key t key =
    if ltb t.ibuf_cnt tty_in_bytes
    then record t {
      ibuf = set t.ibuf t.ibuf_head key;
      ibuf_head = step_on tty_in_bytes t.ibuf_head;
      ibuf_cnt = t.ibuf_cnt + 1;
    }
    else t

pub in_process : Tty → ℕ → List Event × Tty
unfolding put_key
in_process t key =
    let raw_code = bit_and key mask_raw in
    if bit_and key flag_ext == 0
    then ([], put_key t key)
    else if raw_code == enter
    then ([], put_key t newline)
    else if raw_code == backspace
    then ([], put_key t back)
    else if leb f1 raw_code && leb raw_code f12
    then (if not (bit_and key flag_alt_l == 0) || not (bit_and key flag_alt_r == 0)
        then (select_console (raw_code - f1) ∷ [], t)
        else ([], t))
    else ([], t)

-- The key at the tail of the buffer as a `char`, and the buffer without it.
pub take_key : Tty → ℕ × Tty
take_key t = (
  get_or t.ibuf t.ibuf_tail 0 % 256,
  record t { ibuf_tail = step_on tty_in_bytes t.ibuf_tail; ibuf_cnt = t.ibuf_cnt - 1 },
)

-- `ch >= ' ' && ch <= '~'`; a `char` above 127 is negative.
abbrev pub is_printable : ℕ → Bool
is_printable ch = leb 0x20 ch && leb ch 0x7e

-- The first test for `ch` where a process is reading: it is stored, or takes one back.
pub edit : Tty → Memory → ℕ → List Event × Tty × Memory
edit t mem ch =
    if is_printable ch
    then (
      out_char t.console ch ∷ [],
      record t { tty_trans_cnt = t.tty_trans_cnt + 1; tty_left_cnt = t.tty_left_cnt - 1 },
      update mem (add_u32 t.tty_req_buf t.tty_trans_cnt) ch,
    )
    else if (ch == back) && not (t.tty_trans_cnt == 0)
    then (
      out_char t.console ch ∷ [],
      record t { tty_trans_cnt = t.tty_trans_cnt - 1; tty_left_cnt = t.tty_left_cnt + 1 },
      mem,
    )
    else ([], t, mem)

-- The second: the line is done.
pub finish : Tty → ℕ → List Event × Tty
finish t ch =
    if (ch == newline) || (t.tty_left_cnt == 0)
    then (
      out_char t.console newline ∷ resume_proc t.tty_caller t.tty_procnr t.tty_trans_cnt ∷ [],
      record t { tty_left_cnt = 0 },
    )
    else ([], t)

-- What the loop of `tty_dev_write` does with the character `ch`.
pub write_key : Tty → Memory → ℕ → List Event × Tty × Memory
unfolding edit finish
write_key t mem ch =
    if t.tty_left_cnt == 0
    then ([], t, mem)
    else let (shown, t', mem') = edit t mem ch in
      let (done, t'') = finish t' ch in (shown ++ done, t'', mem')

-- `tty_dev_write`; each round takes a key, so `ibuf_cnt` rounds are enough.
pub write_loop : ℕ → Tty → Memory → List Event × Tty × Memory
unfolding take_key write_key
write_loop zero t mem = ([], t, mem)
write_loop (suc k) t mem =
    let (ch, t') = take_key t in
    let (shown, t'', mem') = write_key t' mem ch in
    let (later, end, mem'') = write_loop k t'' mem' in (shown ++ later, end, mem'')

pub tty_dev_write : Tty → Memory → List Event × Tty × Memory
unfolding write_loop
tty_dev_write t mem = write_loop t.ibuf_cnt t mem

-- `tty_do_read` for a message from `source` that asks for `cnt` bytes at the linear address `buf`
-- for process `procnr`.
pub tty_do_read : Tty → ℕ → ℕ → ℕ → ℕ → List Event × Tty
tty_do_read t source procnr buf cnt = (
  suspend_proc source procnr cnt ∷ [],
  record t {
    tty_caller = source;
    tty_procnr = procnr;
    tty_req_buf = buf;
    tty_left_cnt = cnt;
    tty_trans_cnt = 0;
  },
)

-- `for (j = 0; j < bytes; j++) out_char(tty->console, buf[j]);` from `j` on, with `n` bytes left
pub out_chars : ℕ → ℕ → ℕ → (ℕ → ℕ) → List Event
out_chars console zero j buf = []
out_chars console (suc n) j buf = out_char console (buf j) ∷ out_chars console n (j + 1) buf

-- `min(TTY_OUT_BUF_LEN, i)` of `int`s: a count below 0 is the smaller one.
abbrev pub piece : ℕ → ℕ
piece i = if ltb tty_out_buf_len i && ltb i 0x80000000 then tty_out_buf_len else i

-- `phys_copy` of `bytes` bytes at `p` to `buf`; `none` where they do not fit into the array.
pub fill_buf : ℕ → ℕ → Memory → (ℕ → ℕ) → Option (ℕ → ℕ)
fill_buf bytes p mem buf =
    if ltb tty_out_buf_len bytes
    then none
    else some (λ x. if ltb x bytes then mem (add_u32 p x) else buf x)

-- The loop of `tty_do_write` over the `i` bytes that are left at `p`.
pub out_loop : ℕ → ℕ → ℕ → ℕ → Memory → (ℕ → ℕ) → Option (List Event)
unfolding out_chars fill_buf
out_loop zero console i p mem buf = none
out_loop (suc fuel) console i p mem buf =
    if i == 0 then some [] else elim (fill_buf (piece i) p mem buf) [
      | none ↦ none
      | some buf' ↦
          elim (out_loop fuel console (sub_u32 i (piece i)) (add_u32 p (piece i)) mem buf') [
            | none ↦ none
            | some es ↦ some (out_chars console (piece i) 0 buf' ++ es)
          ]
    ]

-- A round takes at least one of the `cnt` bytes. `buf` is what the array holds at first.
pub tty_do_write : Tty → Memory → (ℕ → ℕ) → ℕ → ℕ → ℕ → Option (List Event)
unfolding out_loop
tty_do_write t mem buf source p cnt = elim (out_loop (cnt + 1) t.console cnt p mem buf) [
  | none ↦ none
  | some es ↦ some (es ++ (syscall_ret source ∷ []))
]
