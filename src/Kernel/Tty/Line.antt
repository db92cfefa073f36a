-- ===== src/Kernel/Tty/Line.antt =====
-- What a process that reads from a terminal gets: keys edit a line, and the line is handed over
-- when Enter is pressed or as many characters have come as were asked for.
use mathlib.Core.Path.{subst}
use bird_os.Prelude.{
  ℕ, zero, suc, ◌+◌, ◌-◌, ◌%◌, ◌^◌, ◌≤◌, ◌<◌, ◌≡◌, refl, ap, ap₂, ◌∙◌, sym, true, false, List, [],
  ◌∷◌, ◌++◌, map, ◌==◌, arith, inl, inr, Bool-cases, if◌then◌else◌, length, length-append, items,
  items-append, items-cong, update, add_u32, append-nil, append_assoc,
}
use bird_os.Circular.{window}
use bird_os.Kernel.Tty.{
  Tty, Memory, Event, out_char, resume_proc, suspend_proc, select_console, syscall_ret,
  is_printable, back, newline, edit, finish, write_key, write_loop, take_key, tty_in_bytes,
}

abbrev pub but_last : List ℕ → List ℕ
but_last [] = []
but_last (x ∷ []) = []
but_last (x ∷ y ∷ ys) = x ∷ but_last (y ∷ ys)

-- A line that is being typed, and one that is done.
pub data Typed : Type 0 where
  reading : List ℕ → Typed
  entered : List ℕ → Typed

-- The key `ch` where `want` characters were asked for.
abbrev pub typed : ℕ → List ℕ → ℕ → Typed
typed want line ch =
    if is_printable ch
    then (if length line + 1 == want
        then entered (line ++ (ch ∷ []))
        else reading (line ++ (ch ∷ [])))
    else if ch == back
    then reading (but_last line)
    else if ch == newline
    then entered line
    else reading line

abbrev pub and_type : ℕ → Typed → ℕ → Typed
and_type want (reading line) ch = typed want line ch
and_type want (entered line) ch = entered line

abbrev pub type_all : ℕ → Typed → List ℕ → Typed
type_all want l [] = l
type_all want l (ch ∷ chs) = type_all want (and_type want l ch) chs

-- The messages to waiting readers among the events.
abbrev pub resumes : List Event → List Event
resumes [] = []
resumes (out_char c ch ∷ es) = resumes es
resumes (select_console n ∷ es) = resumes es
resumes (resume_proc a b c ∷ es) = resume_proc a b c ∷ resumes es
resumes (suspend_proc a b c ∷ es) = resumes es
resumes (syscall_ret a ∷ es) = resumes es

pub resumes-append : (xs ys : List Event) → resumes (xs ++ ys) ≡ resumes xs ++ resumes ys
resumes-append [] ys = refl
resumes-append (out_char c ch ∷ xs) ys = resumes-append xs ys
resumes-append (select_console n ∷ xs) ys = resumes-append xs ys
resumes-append (resume_proc a b c ∷ xs) ys = ap (◌∷◌ (resume_proc a b c)) (resumes-append xs ys)
resumes-append (suspend_proc a b c ∷ xs) ys = resumes-append xs ys
resumes-append (syscall_ret a ∷ xs) ys = resumes-append xs ys

-- The terminal `t` has the first characters `line` of `want` in memory, and awaits more.
pub record IsLine (t : Tty) (mem : Memory) (line : List ℕ) (want : ℕ) : Type 0 where
  pub trans : t.tty_trans_cnt ≡ length line
  pub count : t.tty_left_cnt + length line ≡ want
  pub left : 0 < t.tty_left_cnt
  pub fits : t.tty_req_buf + want ≤ 2 ^ 32
  pub stored : items mem t.tty_req_buf (length line) ≡ line

-- What a terminal has done for a reader that asked at `req`, in the name of `caller`.
abbrev pub Agrees : ℕ → ℕ → ℕ → ℕ → Typed → List Event → Tty → Memory → Type 0
Agrees want req caller procnr (reading line) es t mem =
    IsLine t mem line want
    × (t.tty_req_buf ≡ req)
    × (t.tty_caller ≡ caller)
    × (t.tty_procnr ≡ procnr)
    × (resumes es ≡ [])
Agrees want req caller procnr (entered line) es t mem =
    (t.tty_left_cnt ≡ 0)
    × (items mem req (length line) ≡ line)
    × (resumes es ≡ resume_proc caller procnr (length line) ∷ [])

length-but_last : (l : List ℕ) → length (but_last l) ≡ length l - 1
length-but_last [] = refl
length-but_last (x ∷ []) = omega arith
length-but_last (x ∷ y ∷ ys) = omega (arith, length-but_last (y ∷ ys))

but_last-items : (mem : Memory) (a n : ℕ) → but_last (items mem a (suc n)) ≡ items mem a n
but_last-items mem a zero = refl
but_last-items mem a (suc n) = ap (◌∷◌ (mem a)) (but_last-items mem (a + 1) n)

items-but_last :
    (mem : Memory) (a : ℕ) (l : List ℕ)
    → items mem a (length l) ≡ l
    → items mem a (length (but_last l)) ≡ but_last l
items-but_last mem a [] h = refl
items-but_last mem a (x ∷ xs) h =
    let n : length (but_last (x ∷ xs)) ≡ length xs = length-but_last (x ∷ xs) ∙ omega arith in
    ap (items mem a) n ∙ sym (but_last-items mem a (length xs)) ∙ ap but_last h

items_snoc :
    (mem : Memory) (a ch : ℕ) (l : List ℕ)
    → items mem a (length l) ≡ l
    → items (update mem (a + length l) ch) a (length (l ++ (ch ∷ []))) ≡ l ++ (ch ∷ [])
items_snoc mem a ch l h =
    let f = update mem (a + length l) ch in
    let kept : items f a (length l) ≡ l =
      items-cong f mem a a (length l) (λ d b. ground arith) ∙ h in
    let here : f (a + length l) ≡ ch = ground arith in
    ap (items f a) (length-append l (ch ∷ []))
    ∙ items-append f a (length l) 1
    ∙ ap₂ (λ xs x. xs ++ (x ∷ [])) kept here

-- The three kinds of keys, where a process is reading.
write_char-typed :
    (t : Tty) (mem : Memory) (line : List ℕ) (want ch : ℕ)
    → IsLine t mem line want
    → is_printable ch ≡ true
    → let (es, t', mem') = write_key t mem ch in
      Agrees want t.tty_req_buf t.tty_caller t.tty_procnr (typed want line ch) es t' mem'
unfolding write_key edit finish
write_char-typed t mem line want ch v p =
    let asked : (t.tty_left_cnt == 0) ≡ false = ground (arith, v.left) in
    let not_newline : (ch == newline) ≡ false = ground arith in
    let at : add_u32 t.tty_req_buf t.tty_trans_cnt ≡ t.tty_req_buf + length line =
      ground (arith, v.trans, v.count, v.left, v.fits) in
    let long : length (line ++ (ch ∷ [])) ≡ length line + 1 = length-append line (ch ∷ []) in
    let end = items_snoc mem t.tty_req_buf ch line v.stored in
    elim (Bool-cases (length line + 1 == want)) [
      | inl full ↦
          let none_left : (t.tty_left_cnt - 1 == 0) ≡ true = ground (arith, v.count) in
          rw (asked, p, not_newline, at, full, none_left)
            (
              refl,
              end,
              ap (λ n. resume_proc t.tty_caller t.tty_procnr n ∷ []) (omega (arith, v.trans, long)),
            )
      | inr more ↦
          let some_left : (t.tty_left_cnt - 1 == 0) ≡ false = ground (arith, v.count, v.left) in
          rw (asked, p, not_newline, at, more, some_left)
            (
              record {
                trans = omega (arith, v.trans, long);
                count = omega (arith, v.count, v.left, long);
                left = ground (arith, some_left);
                fits = v.fits;
                stored = end;
              },
              refl,
              refl,
              refl,
              refl,
            )
    ]

write_back-typed :
    (t : Tty) (mem : Memory) (line : List ℕ) (want : ℕ)
    → IsLine t mem line want
    → let (es, t', mem') = write_key t mem back in
      Agrees want t.tty_req_buf t.tty_caller t.tty_procnr (reading (but_last line)) es t' mem'
unfolding write_key edit finish
write_back-typed t mem line want v =
    let asked : (t.tty_left_cnt == 0) ≡ false = ground (arith, v.left) in
    let shorter = length-but_last line in
    let end = items-but_last mem t.tty_req_buf line v.stored in
    elim (Bool-cases (t.tty_trans_cnt == 0)) [
      | inl empty ↦
          let none_typed : length (but_last line) ≡ 0 = ground (arith, shorter, v.trans, empty) in
          let none_before : length line ≡ 0 = ground (arith, v.trans, empty) in
          rw (asked, empty, asked)
            (
              record {
                trans = v.trans ∙ none_before ∙ sym none_typed;
                count = omega (arith, v.count, none_typed, none_before);
                left = v.left;
                fits = v.fits;
                stored = end;
              },
              refl,
              refl,
              refl,
              refl,
            )
      | inr some_typed ↦
          let more : (t.tty_left_cnt + 1 == 0) ≡ false = ground arith in
          rw (asked, some_typed, more)
            (
              record {
                trans = omega (arith, v.trans, shorter);
                count = ground (arith, v.count, v.trans, shorter, some_typed);
                left = omega arith;
                fits = v.fits;
                stored = end;
              },
              refl,
              refl,
              refl,
              refl,
            )
    ]

write_newline-typed :
    (t : Tty) (mem : Memory) (line : List ℕ) (want : ℕ)
    → IsLine t mem line want
    → let (es, t', mem') = write_key t mem newline in
      Agrees want t.tty_req_buf t.tty_caller t.tty_procnr (entered line) es t' mem'
unfolding write_key edit finish
write_newline-typed t mem line want v =
    let asked : (t.tty_left_cnt == 0) ≡ false = ground (arith, v.left) in
    rw asked (refl, v.stored, ap (λ n. resume_proc t.tty_caller t.tty_procnr n ∷ []) v.trans)

-- A key does to a terminal where a process is reading what it does to the line.
pub write_key-typed :
    (t : Tty) (mem : Memory) (line : List ℕ) (want ch : ℕ)
    → IsLine t mem line want
    → let (es, t', mem') = write_key t mem ch in
      Agrees want t.tty_req_buf t.tty_caller t.tty_procnr (typed want line ch) es t' mem'
unfolding write_key edit finish
write_key-typed t mem line want ch v = elim (Bool-cases (is_printable ch)) [
  | inl p ↦ write_char-typed t mem line want ch v p
  | inr not_p ↦ elim (Bool-cases (ch == back)) [
    | inl e ↦ let is : ch ≡ back = ground arith in rw is (write_back-typed t mem line want v)
    | inr not_back ↦ elim (Bool-cases (ch == newline)) [
      | inl e ↦
          let is : ch ≡ newline = ground arith in rw is (write_newline-typed t mem line want v)
      | inr not_newline ↦
          let asked : (t.tty_left_cnt == 0) ≡ false = ground (arith, v.left) in
          rw (asked, not_p, not_back, not_newline, asked) (v, refl, refl, refl, refl)
    ]
  ]
]

-- The keys in the buffer, as characters.
abbrev pub keys : Tty → ℕ → List ℕ
keys t n = map (λ x. x % 256) (window 0 tty_in_bytes t.ibuf t.ibuf_tail n)

-- A terminal where nobody is reading drops what is typed.
write_loop-idle :
    (k : ℕ) (t : Tty) (mem : Memory)
    → t.tty_left_cnt ≡ 0
    → let (es, t', mem') = write_loop k t mem in
      (resumes es ≡ []) × (t'.tty_left_cnt ≡ 0) × (mem' ≡ mem)
unfolding write_loop
write_loop-idle zero t mem h = (refl, h, refl)
write_loop-idle (suc k) t mem h =
    let idle : (t.tty_left_cnt == 0) ≡ true = ground (arith, h) in
    rw idle (write_loop-idle k (take_key t).1 mem h)

type_all-entered : (want : ℕ) (line chs : List ℕ) → type_all want (entered line) chs ≡ entered line
type_all-entered want line [] = refl
type_all-entered want line (ch ∷ chs) = type_all-entered want line chs

Agrees-before :
    (want req caller procnr : ℕ) (l : Typed) (before es : List Event) (t : Tty) (mem : Memory)
    → resumes before ≡ []
    → Agrees want req caller procnr l es t mem
    → Agrees want req caller procnr l (before ++ es) t mem
Agrees-before want req caller procnr (reading line) before es t mem h a =
    (a.0, a.1, a.2, a.3, resumes-append before es ∙ ap (λ r. r ++ resumes es) h ∙ a.4)
Agrees-before want req caller procnr (entered line) before es t mem h a =
    (a.0, a.1, resumes-append before es ∙ ap (λ r. r ++ resumes es) h ∙ a.2)

write_key-keys : (t : Tty) (mem : Memory) (ch k : ℕ) → keys (write_key t mem ch).1 k ≡ keys t k
unfolding write_key edit finish
write_key-keys t mem ch k =
    let buf : (write_key t mem ch).1.ibuf ≡ t.ibuf = ground arith in
    let tail : (write_key t mem ch).1.ibuf_tail ≡ t.ibuf_tail = ground arith in
    ap₂ (λ b i. map (λ x. x % 256) (window 0 tty_in_bytes b i k)) buf tail

IsLine-take_key :
    (t : Tty) (mem : Memory) (line : List ℕ) (want : ℕ)
    → IsLine t mem line want
    → IsLine (take_key t).1 mem line want
unfolding take_key
IsLine-take_key t mem line want v = record {
  trans = v.trans;
  count = v.count;
  left = v.left;
  fits = v.fits;
  stored = v.stored;
}

module _ (want req caller procnr : ℕ) where
  pub write_loop-typed :
      (k : ℕ) (l : Typed) (es : List Event) (t : Tty) (mem : Memory)
      → Agrees want req caller procnr l es t mem
      → let (later, t', mem') = write_loop k t mem in
        Agrees want req caller procnr (type_all want l (keys t k)) (es ++ later) t' mem'
  unfolding write_loop
  write_loop-typed zero l es t mem a =
      subst (λ e. Agrees want req caller procnr l e t mem) (sym (append-nil es)) a
  write_loop-typed (suc k) (entered line) es t mem a =
      let (quiet, none_left, same) = write_loop-idle (suc k) t mem a.0 in
      rw (type_all-entered want line (keys t (suc k))) (
        none_left,
        rw same a.1,
        resumes-append es (write_loop (suc k) t mem).0 ∙ ap₂ ◌++◌ a.2 quiet,
      )
  write_loop-typed (suc k) (reading line) es t mem a =
      let t1 = (take_key t).1 in
      let ch = (take_key t).0 in
      let w = write_key t1 mem ch in
      let l = typed want line ch in
      let here = write_key-typed t1 mem line want ch (IsLine-take_key t mem line want a.0) in
      let here1 = subst (λ q. Agrees want q t1.tty_caller t1.tty_procnr l w.0 w.1 w.2) a.1 here in
      let here2 = subst (λ q. Agrees want req q t1.tty_procnr l w.0 w.1 w.2) a.2 here1 in
      let here3 = subst (λ q. Agrees want req caller q l w.0 w.1 w.2) a.3 here2 in
      let so_far = Agrees-before want req caller procnr l es w.0 w.1 w.2 a.4 here3 in
      let end = write_loop k w.1 w.2 in
      let rest = write_loop-typed k l (es ++ w.0) w.1 w.2 so_far in
      let rest1 =
        subst
          (λ c.
            Agrees want req caller procnr (type_all want l c) ((es ++ w.0) ++ end.0) end.1 end.2)
          (write_key-keys t1 mem ch k) rest in
      subst (λ e. Agrees want req caller procnr (type_all want l (keys t1 k)) e end.1 end.2)
        (append_assoc es w.0 end.0) rest1
