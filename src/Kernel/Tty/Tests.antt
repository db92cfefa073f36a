-- ===== src/Kernel/Tty/Tests.antt =====
-- A terminal at work: `h`, `x`, Backspace, `i` and Enter are in its buffer.
use bird_os.Prelude.{◌≡◌, refl, inl, [], ◌∷◌, ◌++◌, arith, replicate, some}
use bird_os.Kernel.Tty.{
  Tty, Memory, syscall_ret, put_key, tty_dev_write, tty_do_read, tty_do_write, in_process, enter,
}
use bird_os.Kernel.Tty.Line.{reading, entered, type_all, keys, Agrees}
use bird_os.Kernel.Tty.Laws.{tty_dev_write-tty_do_read, tty_do_write-shown, shown, IsBuffer}

abbrev empty_tty : Tty
empty_tty = record {
  ibuf = replicate 256 0;
  ibuf_head = 0;
  ibuf_tail = 0;
  ibuf_cnt = 0;
  tty_caller = 0;
  tty_procnr = 0;
  tty_req_buf = 0;
  tty_left_cnt = 0;
  tty_trans_cnt = 0;
  console = 0;
}

abbrev typed_tty : Tty
typed_tty = record empty_tty {
  ibuf = 0x68 ∷ 0x78 ∷ 8 ∷ 0x69 ∷ 10 ∷ replicate 251 0;
  ibuf_head = 5;
  ibuf_cnt = 5;
}

abbrev no_memory : Memory
no_memory a = 0

-- Enter on the keyboard is a newline in the buffer.
in_process-enter : (in_process empty_tty enter).1 ≡ put_key empty_tty 10
unfolding in_process
in_process-enter = refl

-- The reader of up to 20 characters gets "hi" and is woken for two.
hi_typed : type_all 20 (reading []) (keys typed_tty 5) ≡ entered (0x68 ∷ 0x69 ∷ [])
hi_typed = refl

tty_dev_write-tty_do_read_example :
    let (es, t', mem') = tty_dev_write (tty_do_read typed_tty 4 9 0x8000 20).1 no_memory in
    Agrees 20 0x8000 4 9 (type_all 20 (reading []) (keys typed_tty 5)) es t' mem'
tty_dev_write-tty_do_read_example =
    tty_dev_write-tty_do_read typed_tty no_memory 4 9 0x8000 20 (omega arith) (omega arith)

tty_do_write-shown_example :
    tty_do_write empty_tty no_memory (λ x. 0) 4 0x8000 5
    ≡ some (shown 0 5 0x8000 no_memory ++ (syscall_ret 4 ∷ []))
tty_do_write-shown_example =
    tty_do_write-shown empty_tty no_memory (λ x. 0) 4 0x8000 5 (omega arith) (omega arith)

empty_tty-IsBuffer : IsBuffer empty_tty
empty_tty-IsBuffer = record {
  storage = omega arith;
  head_in = omega arith;
  tail_in = omega arith;
  fits = omega arith;
  span = inl refl;
}
