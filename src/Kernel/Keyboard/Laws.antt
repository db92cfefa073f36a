-- ===== src/Kernel/Keyboard/Laws.antt =====
-- What holds of kernel/keyboard.c for every table of keys.
use mathlib.Core.Path.{subst}
use bird_os.Prelude.{
  ℕ, zero, suc, ◌-◌, ◌<◌, ◌≡◌, refl, ◌∙◌, sym, Bool, true, false, ◌||◌, Option, some, List, [], ◌∷◌,
  ◌++◌, ◌==◌, ltb, arith, inl, inr, Bool-cases, if◌then◌else◌, get_or, bit_and,
}
use bird_os.Circular.{step_on, window, IsCircular, put-IsCircular, window-put}
use bird_os.Kernel.Tty.{Tty}
use bird_os.Kernel.Keyboard.Keys
use bird_os.Kernel.Keyboard.{
  scan, KbInbuf, Modifiers, Scan, Result, kb_in_bytes, keyboard_handler, read_code, switch_modifier,
  look_up, parse, take_scan, while_bytes, read_loop, keyboard_read,
}

-- The buffer of scan codes is a circular one.
abbrev pub IsBuffer : KbInbuf → Type 0
IsBuffer kb = IsCircular kb.buf kb_in_bytes kb.p_head kb.p_tail kb.count

abbrev pub bytes : KbInbuf → List ℕ
bytes kb = window 0 kb_in_bytes kb.buf kb.p_tail kb.count

-- An interrupt puts its scan code behind those in a valid buffer, and drops it where the buffer is
-- full; the buffer stays valid.
keyboard_handler-bytes :
    (kb : KbInbuf) (scan_code : ℕ)
    → IsBuffer kb
    → IsBuffer (keyboard_handler scan_code kb)
      × (bytes (keyboard_handler scan_code kb)
          ≡ (if kb.count == kb_in_bytes then bytes kb else bytes kb ++ (scan_code ∷ [])))
unfolding keyboard_handler
keyboard_handler-bytes kb scan_code v = elim (Bool-cases (ltb kb.count kb_in_bytes)) [
  | inl room ↦
      let low : kb.count < kb_in_bytes = ground arith in
      let test : (kb.count == kb_in_bytes) ≡ false = ground arith in
      rw (room, test) (put-IsCircular v scan_code low, window-put v 0 scan_code low)
  | inr full ↦
      let test : (kb.count == kb_in_bytes) ≡ true = ground (arith, v.fits) in
      rw (full, test) (v, refl)
]

switch_modifier-alt_r :
    (key : ℕ) (make : Bool) (mods : Modifiers)
    → (switch_modifier key make mods).1.alt_r ≡ mods.alt_r
unfolding switch_modifier
switch_modifier-alt_r key make mods = ground arith

-- The buffer when a byte has been read.
abbrev read_on : KbInbuf → KbInbuf
read_on kb = record kb { p_tail = step_on kb_in_bytes kb.p_tail; count = kb.count - 1 }

read_code-plain :
    (key : ℕ) (make : Bool) (kb : KbInbuf)
    → 0 < kb.count
    → get_or kb.buf kb.p_tail 0 < 0xe0
    → read_code key make kb ≡ some (scan key make (get_or kb.buf kb.p_tail 0) false, read_on kb)
unfolding read_code
read_code-plain key make kb n b =
    let some_left : (kb.count == 0) ≡ false = ground arith in
    let not_e1 : (get_or kb.buf kb.p_tail 0 == 0xe1) ≡ false = ground arith in
    let not_e0 : (get_or kb.buf kb.p_tail 0 == 0xe0) ≡ false = ground arith in
    rw (some_left, not_e1, not_e0) refl

module _ (keymap : ℕ → ℕ) where
  parse-alt_r : (s : Scan) (mods : Modifiers) → (parse keymap s mods).2.alt_r ≡ mods.alt_r
  unfolding parse
  parse-alt_r s mods =
      elim (Bool-cases ((s.key == Keys.pausebreak) || (s.key == Keys.printscreen))) [
        | inl e ↦ rw e refl
        | inr e ↦ rw e (
            switch_modifier-alt_r (look_up keymap s mods) (bit_and s.scan_code Keys.flag_break == 0)
              mods)
      ]

  take_scan-alt_r :
      (s : Scan) (res : Result) → (take_scan keymap s res).1.mods.alt_r ≡ res.mods.alt_r
  unfolding take_scan
  take_scan-alt_r s res = ground (arith, parse-alt_r s res.mods)

  -- A round that is not the last.
  read_step :
      (fuel key : ℕ) (make : Bool) (res : Result) (kb : KbInbuf) (end : Option (Result × KbInbuf))
      → let s = scan key make (get_or kb.buf kb.p_tail 0) false in
        let next = take_scan keymap s res in
        read_code key make kb ≡ some (s, read_on kb)
        → (kb.count - 1 == 0) ≡ false
        → read_loop keymap fuel next.0.key next.0.make next.1 (read_on kb) ≡ end
        → read_loop keymap (suc fuel) key make res kb ≡ end
  unfolding read_loop while_bytes
  read_step fuel key make res kb end read more run = rw (read, more) run

  read_all :
      (make : Bool) (mods : Modifiers) (tty : Tty) (kb : KbInbuf) (end : Option (Result × KbInbuf))
      → (kb.count == 0) ≡ false
      → read_loop keymap kb.count 0 make
          (record { to_leds = []; events = []; mods = mods; tty = tty })
          kb
        ≡ end
      → keyboard_read keymap make mods tty kb ≡ end
  unfolding keyboard_read
  read_all make mods tty kb end some_left run = rw some_left run

  read_loop_returns :
      (fuel key : ℕ) (make : Bool) (res : Result) (kb : KbInbuf)
      → kb.count ≡ suc fuel
      → ((i : ℕ) → get_or kb.buf i 0 < 0xe0)
      → (r : Result) × (kb' : KbInbuf) × (read_loop keymap (suc fuel) key make res kb
          ≡ some (r, kb'))
        × (kb'.count ≡ 0)
        × (r.mods.alt_r ≡ res.mods.alt_r)
  unfolding read_loop while_bytes
  read_loop_returns zero key make res kb n plain =
      let s = scan key make (get_or kb.buf kb.p_tail 0) false in
      let read = read_code-plain key make kb (omega (arith, n)) (plain kb.p_tail) in
      let out : (kb.count - 1 == 0) ≡ true = ground (arith, n) in
      (
        (take_scan keymap s res).1,
        read_on kb,
        rw (read, out) refl,
        omega (arith, n),
        take_scan-alt_r s res,
      )
  read_loop_returns (suc fuel) key make res kb n plain =
      let s = scan key make (get_or kb.buf kb.p_tail 0) false in
      let next = take_scan keymap s res in
      let read = read_code-plain key make kb (omega (arith, n)) (plain kb.p_tail) in
      let more : (kb.count - 1 == 0) ≡ false = ground (arith, n) in
      let (r, kb', run, empty, kept) =
        read_loop_returns fuel next.0.key next.0.make next.1 (read_on kb) (omega (arith, n))
          plain in
      (
        r,
        kb',
        read_step (suc fuel) key make res kb (some (r, kb')) read more run,
        empty,
        kept ∙ take_scan-alt_r s res,
      )

  -- If the buffer holds no byte E0 or above, `keyboard_read` comes to an end, whatever the table
  -- of keys: it leaves the buffer empty, and the state of the right Alt key as it was.
  pub keyboard_read_returns :
      (make : Bool) (mods : Modifiers) (tty : Tty) (kb : KbInbuf)
      → ((i : ℕ) → get_or kb.buf i 0 < 0xe0)
      → (r : Result) × (kb' : KbInbuf) × (keyboard_read keymap make mods tty kb ≡ some (r, kb'))
        × (kb'.count ≡ 0)
        × (r.mods.alt_r ≡ mods.alt_r)
  unfolding keyboard_read
  keyboard_read_returns make mods tty kb plain =
      let start : Result = record { to_leds = []; events = []; mods = mods; tty = tty } in
      elim (Bool-cases (kb.count == 0)) [
        | inl e ↦ (start, kb, rw e refl, ground arith, refl)
        | inr ne ↦
            let n : kb.count ≡ suc (kb.count - 1) = ground arith in
            let (r, kb', run, empty, kept) =
              read_loop_returns (kb.count - 1) 0 make start kb n plain in
            let all = subst (λ f. read_loop keymap f 0 make start kb ≡ some (r, kb')) (sym n) run in
            (r, kb', read_all make mods tty kb (some (r, kb')) ne all, empty, kept)
      ]
