-- ===== src/Kernel/Tty/Laws.antt =====
-- What kernel/tty.c does for a process that reads and for one that writes, and how keys come into
-- its buffer.
use bird_os.Prelude.{
  ℕ, zero, suc, ◌+◌, ◌^◌, ◌≤◌, ◌<◌, ◌≡◌, refl, ap, ap₂, ◌∙◌, sym, true, false, List, [], ◌∷◌, ◌++◌,
  ◌==◌, ltb, arith, inl, inr, Bool-cases, if◌then◌else◌, add_u32, sub_u32, some,
}
use bird_os.Circular.{window, IsCircular, put-IsCircular, window-put}
use bird_os.Kernel.Tty.{
  Tty, Memory, Event, out_char, syscall_ret, tty_in_bytes, tty_out_buf_len, put_key, tty_dev_write,
  tty_do_read, tty_do_write, out_chars, out_loop, piece, fill_buf,
}
use bird_os.Kernel.Tty.Line.{reading, type_all, keys, Agrees, IsLine, write_loop-typed}

-- A process asks for `cnt` characters, at least one, at an address where they fit: `tty_do_read`
-- and then `tty_dev_write` do to memory and to the terminal what the keys in the buffer do to an
-- empty line. While the line is being typed its characters are in memory and nobody is woken; when
-- it is done they are there and the process is woken once, with the length of the line.
pub tty_dev_write-tty_do_read :
    (t : Tty) (mem : Memory) (source procnr buf cnt : ℕ)
    → 0 < cnt
    → buf + cnt ≤ 2 ^ 32
    → let asked = (tty_do_read t source procnr buf cnt).1 in
      let (es, t', mem') = tty_dev_write asked mem in
      Agrees cnt buf source procnr (type_all cnt (reading []) (keys t t.ibuf_cnt)) es t' mem'
unfolding tty_do_read tty_dev_write
tty_dev_write-tty_do_read t mem source procnr buf cnt some_asked fits =
    let asked = (tty_do_read t source procnr buf cnt).1 in
    let line : IsLine asked mem [] cnt = record {
      trans = refl;
      count = omega arith;
      left = some_asked;
      fits = fits;
      stored = refl;
    } in
    write_loop-typed cnt buf source procnr t.ibuf_cnt (reading []) [] asked mem
      (line, refl, refl, refl, refl)

-- The `n` bytes at `p` on the screen, one after the other
abbrev pub shown : ℕ → ℕ → ℕ → Memory → List Event
shown console zero p mem = []
shown console (suc n) p mem = out_char console (mem p) ∷ shown console n (add_u32 p 1) mem

shown-append :
    (console m n p : ℕ) (mem : Memory)
    → p < 2 ^ 32
    → shown console (m + n) p mem ≡ shown console m p mem ++ shown console n (add_u32 p m) mem
shown-append console zero n p mem b =
    ap₂ (λ i q. shown console i q mem) (omega arith) (ground arith)
shown-append console (suc m) n p mem b =
    let e : suc m + n ≡ suc (m + n) = omega arith in
    let at : add_u32 (add_u32 p 1) m ≡ add_u32 p (suc m) = ground arith in
    ap (λ i. shown console i p mem) e
    ∙ ap (◌∷◌ (out_char console (mem p))) (
        shown-append console m n (add_u32 p 1) mem (ground arith)
        ∙ ap (λ q. shown console m (add_u32 p 1) mem ++ shown console n q mem) at)

-- A piece that has been copied to the array
abbrev filled : ℕ → ℕ → Memory → (ℕ → ℕ) → ℕ → ℕ
filled bytes p mem buf x = if ltb x bytes then mem (add_u32 p x) else buf x

out_chars-shown :
    (console n j bytes p : ℕ) (mem : Memory) (buf : ℕ → ℕ)
    → j + n ≤ bytes
    → bytes ≤ tty_out_buf_len
    → out_chars console n j (filled bytes p mem buf) ≡ shown console n (add_u32 p j) mem
unfolding out_chars
out_chars-shown console zero j bytes p mem buf le small = refl
out_chars-shown console (suc n) j bytes p mem buf le small =
    let at : filled bytes p mem buf j ≡ mem (add_u32 p j) = ground arith in
    let next : add_u32 p (j + 1) ≡ add_u32 (add_u32 p j) 1 = ground arith in
    ap₂ (λ c es. out_char console c ∷ es) at
      (out_chars-shown console n (j + 1) bytes p mem buf (omega arith) small
        ∙ ap (λ q. shown console n q mem) next)

out_loop-shown :
    (fuel console i p : ℕ) (mem : Memory) (buf : ℕ → ℕ)
    → i < fuel
    → i < 2 ^ 31
    → p < 2 ^ 32
    → out_loop fuel console i p mem buf ≡ some (shown console i p mem)
unfolding out_loop fill_buf
out_loop-shown zero console i p mem buf f s b = absurd (omega arith)
out_loop-shown (suc fuel) console i p mem buf f s b = elim (Bool-cases (i == 0)) [
  | inl e ↦ let is : i ≡ 0 = ground arith in rw is refl
  | inr ne ↦
      let fits : ltb tty_out_buf_len (piece i) ≡ false = ground arith in
      let low : piece i + sub_u32 i (piece i) ≡ i = ground arith in
      let less : sub_u32 i (piece i) < fuel = ground arith in
      let ih =
        out_loop-shown fuel console (sub_u32 i (piece i)) (add_u32 p (piece i)) mem
          (filled (piece i) p mem buf) less (omega (arith, low, s)) (ground arith) in
      let start : add_u32 p 0 ≡ p = ground arith in
      let here : out_chars console (piece i) 0 (filled (piece i) p mem buf)
          ≡ shown console (piece i) p mem =
        out_chars-shown console (piece i) 0 (piece i) p mem buf (omega arith) (ground arith)
        ∙ ap (λ q. shown console (piece i) q mem) start in
      rw (ne, fits, ih, here)
        (ap some (
          sym (shown-append console (piece i) (sub_u32 i (piece i)) p mem b)
          ∙ ap (λ n. shown console n p mem) low))
]

-- The address is below 2^32, and the count is not negative as an `int`: `tty_do_write` ends, never puts more into its array than
-- that holds, puts out the `cnt` bytes at `p` one after the other, whatever the array held, and
-- then answers the sender.
pub tty_do_write-shown :
    (t : Tty) (mem : Memory) (buf : ℕ → ℕ) (source p cnt : ℕ)
    → p < 2 ^ 32
    → cnt < 2 ^ 31
    → tty_do_write t mem buf source p cnt
      ≡ some (shown t.console cnt p mem ++ (syscall_ret source ∷ []))
unfolding tty_do_write
tty_do_write-shown t mem buf source p cnt b s =
    rw (tty_do_write, out_loop-shown (cnt + 1) t.console cnt p mem buf (omega arith) s b) refl

-- The buffer of a terminal is a circular one.
abbrev pub IsBuffer : Tty → Type 0
IsBuffer t = IsCircular t.ibuf tty_in_bytes t.ibuf_head t.ibuf_tail t.ibuf_cnt

-- A key goes behind the keys in a valid buffer, and is dropped where the buffer is full;
-- the buffer stays valid.
put_key-keys :
    (t : Tty) (key : ℕ)
    → IsBuffer t
    → IsBuffer (put_key t key)
      × (window 0 tty_in_bytes
            (put_key t key).ibuf
            (put_key t key).ibuf_tail
            (put_key t key).ibuf_cnt
          ≡ (if t.ibuf_cnt == tty_in_bytes
              then window 0 tty_in_bytes t.ibuf t.ibuf_tail t.ibuf_cnt
              else window 0 tty_in_bytes t.ibuf t.ibuf_tail t.ibuf_cnt ++ (key ∷ [])))
unfolding put_key
put_key-keys t key v = elim (Bool-cases (ltb t.ibuf_cnt tty_in_bytes)) [
  | inl room ↦
      let low : t.ibuf_cnt < tty_in_bytes = ground arith in
      let test : (t.ibuf_cnt == tty_in_bytes) ≡ false = ground arith in
      rw (room, test) (put-IsCircular v key low, window-put v 0 key low)
  | inr full ↦
      let test : (t.ibuf_cnt == tty_in_bytes) ≡ true = ground (arith, v.fits) in
      rw (full, test) (v, refl)
]
