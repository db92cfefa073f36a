-- ===== src/Fs/ReadWrite/Loop.antt =====
-- The loop of `do_rdwt` of fs/read_write.c: which bytes its rounds move.
use bird_os.Prelude.{
  ℕ, zero, suc, ◌+◌, ◌-◌, ◌*◌, ◌^◌, ◌≤◌, ◌<◌, ◌≡◌, refl, ap, ap₂, ◌∙◌, ◌⊎◌, inl, inr, ltb,
  Bool-cases, ltb→lt, true, false, Option, some, add_u32, sub_u32, arith,
}
use bird_os.Fs.Types.{Fs}
use bird_os.Fs.Descriptors.{sgt, set_desc}
use bird_os.Fs.ReadWrite.{Files, Job, advance, umin, mul_u32, round_bytes}
unfoldable use bird_os.Fs.ReadWrite.{rdwt_loop}
use bird_os.Fs.ReadWrite.Moves.{
  Moved, At, Moved-from, Moved-fs, Moved-refl, Moved-append, advance-At, copied, copied-Moved,
  copied-fs, copy_round-copied,
}

-- The bytes of a round of `c` sectors from the offset `off` on, when `left` are asked for.
abbrev pub part : ℕ → ℕ → ℕ → ℕ
part c off left = umin left (c * 512 - off)

-- Where the loop stands is within the bounds of the machine's integers.
pub record Fits (j : Job) (i off done left : ℕ) : Type 0 where
  pub some_chunk : 1 ≤ j.chunk
  pub small_chunk : j.chunk ≤ 256
  pub small_off : off < 512
  pub on_disk : j.rw_sect_max + 2048 < 2 ^ 22
  pub in_mem : j.base + j.buf + done + left < 2 ^ 32
  pub near : i ≤ j.rw_sect_max + 2048
  pub asked : left < 2 ^ 31

-- The state after a round
abbrev pub after : Job → ℕ → ℕ → ℕ → ℕ → Files → Files
after j i off done left f =
    let b : ℕ = part j.chunk off left in advance j.desc b (copied j.io j i off done b f)

module _ (j : Job) (i off done left : ℕ) (v : Fits j i off done left) where
  round_part : round_bytes j.chunk off left ≡ part j.chunk off left
  round_part =
      let a : left < 2 ^ 31 = v.asked in
      let b : j.chunk ≤ 256 = v.small_chunk in
      let c : 1 ≤ j.chunk = v.some_chunk in
      let d : off < 512 = v.small_off in
      let e : sub_u32 (mul_u32 j.chunk 512) off ≡ j.chunk * 512 - off = omega arith in
      rw e (ground arith)

  Fits-after :
      i ≤ j.rw_sect_max
      → Fits j (i + j.chunk) 0 (done + part j.chunk off left) (left - part j.chunk off left)
  Fits-after le = record {
    some_chunk = v.some_chunk;
    small_chunk = v.small_chunk;
    small_off = omega arith;
    on_disk = v.on_disk;
    in_mem = ground (arith, v.in_mem);
    near = omega (arith, v.small_chunk);
    asked = ground (arith, v.asked);
  }

  loop_done :
      (k : ℕ) (f : Files)
      → j.rw_sect_max < i
      → rdwt_loop (suc k) j i off done left f ≡ some (done, f)
  unfolding rdwt_loop
  loop_done k f lt =
      let g : sgt i j.rw_sect_max ≡ true = ground (arith, v.near, v.on_disk) in
      rw (rdwt_loop, g) refl

  in_loop :
      (k : ℕ) (f : Files)
      → i ≤ j.rw_sect_max
      → rdwt_loop (suc k) j i off done left f
        ≡ rdwt_loop k j
            (add_u32 i j.chunk)
            0
            (add_u32 done (round_bytes j.chunk off left))
            (sub_u32 left (round_bytes j.chunk off left))
            (advance j.desc
              (round_bytes j.chunk off left)
              (copied j.io j i off done (round_bytes j.chunk off left) f))
  unfolding rdwt_loop
  in_loop k f le =
      let g : sgt i j.rw_sect_max ≡ false = ground (arith, v.near, v.on_disk) in
      let c = copy_round-copied j.io j i off done (round_bytes j.chunk off left) f v.small_chunk in
      rw (rdwt_loop, g, c) refl

  loop_more :
      (k : ℕ) (f : Files)
      → i ≤ j.rw_sect_max
      → rdwt_loop (suc k) j i off done left f
        ≡ rdwt_loop k j
            (i + j.chunk)
            0
            (done + part j.chunk off left)
            (left - part j.chunk off left)
            (after j i off done left f)
  loop_more k f le =
      let b : ℕ = part j.chunk off left in
      let next : ℕ → ℕ → ℕ → Files → Option (ℕ × Files) = λ x y z g. rdwt_loop k j x 0 y z g in
      let first : rdwt_loop (suc k) j i off done left f
          ≡ next (add_u32 i j.chunk) (add_u32 done (round_bytes j.chunk off left))
              (sub_u32 left (round_bytes j.chunk off left))
              (advance j.desc (round_bytes j.chunk off left)
                (copied j.io j i off done (round_bytes j.chunk off left) f)) =
        in_loop k f le in
      let small : b ≤ left = ground arith in
      let e : add_u32 i j.chunk ≡ i + j.chunk = omega (arith, v.on_disk, v.small_chunk) in
      let y : add_u32 done b ≡ done + b = omega (arith, v.in_mem) in
      let z : sub_u32 left b ≡ left - b = omega (arith, v.asked) in
      first
      ∙ ap
          (λ x.
            next (add_u32 i j.chunk) (add_u32 done x) (sub_u32 left x)
              (advance j.desc x (copied j.io j i off done x f)))
          round_part
      ∙ ap (λ x. next x (add_u32 done b) (sub_u32 left b) (after j i off done left f)) e
      ∙ ap₂ (λ y z. next (i + j.chunk) y z (after j i off done left f)) y z

  after-Moved :
      (f : Files)
      → i ≤ j.rw_sect_max
      → Moved j.io j.dev
          (i * 512 + off)
          (j.base + j.buf + done)
          (part j.chunk off left)
          f
          (after j i off done left f)
  after-Moved f le =
      let b : ℕ = part j.chunk off left in
      let small : off + b ≤ j.chunk * 512 = ground (arith, v.some_chunk, v.small_off) in
      Moved-fs j.io j.dev (i * 512 + off) (j.base + j.buf + done) b f (copied j.io j i off done b f)
        (after j i off done left f).fs
        (copied-Moved j.io j i off done b f (omega (arith, v.on_disk))
          (omega (arith, v.small_chunk)) small (omega (arith, v.in_mem)))

  after-At :
      (pos : ℕ) (t : Fs) (f : Files)
      → pos + left < 2 ^ 32
      → At j.desc pos t f
      → At j.desc (pos + part j.chunk off left) t (after j i off done left f)
  after-At pos t f lt e =
      let b : ℕ = part j.chunk off left in
      let small : b ≤ left = ground arith in
      advance-At j.desc pos b t (copied j.io j i off done b f) (omega arith)
        (copied-fs j.io j i off done b f ∙ e)

-- What the loop comes to from sector `i` on: it moves `n` bytes, and it stops short of `left` only
-- behind the last sector.
pub record Ended (j : Job) (i off done left pos : ℕ) (t : Fs) (f : Files) (o : Option (ℕ × Files))
    : Type 0 where
  pub n : ℕ
  pub end : Files
  pub runs : o ≡ some (done + n, end)
  pub few : n ≤ left
  pub moved : Moved j.io j.dev (i * 512 + off) (j.base + j.buf + done) n f end
  pub at : At j.desc (pos + n) t end
  pub one_round : i ≤ j.rw_sect_max → j.rw_sect_max < i + j.chunk → n ≡ part j.chunk off left
  pub no_round : j.rw_sect_max < i → n ≡ 0
  pub whole : (left ≤ n) ⊎ ((j.rw_sect_max + 1) * 512 ≤ i * 512 + off + n)

module _ (j : Job) (i off done left pos : ℕ) (t : Fs) (f : Files) (v : Fits j i off done left) where
  Ended-done :
      (k : ℕ)
      → j.rw_sect_max < i
      → At j.desc pos t f
      → Ended j i off done left pos t f (rdwt_loop (suc k) j i off done left f)
  Ended-done k lt a = record {
    n = 0;
    end = f;
    runs = loop_done j i off done left v k f lt ∙ ap (λ x. some (x, f)) (omega arith);
    few = omega arith;
    moved = Moved-refl j.io j.dev (i * 512 + off) (j.base + j.buf + done) f;
    at =
        a
        ∙ ap (λ x. set_desc j.desc (record (t.f_desc_table j.desc) { fd_pos = x }) t) (omega arith);
    one_round = λ h h'. absurd (omega arith);
    no_round = λ h. refl;
    whole = inr (omega arith);
  }

  Ended-more :
      (k : ℕ)
      → i ≤ j.rw_sect_max
      → Ended j
          (i + j.chunk)
          0
          (done + part j.chunk off left)
          (left - part j.chunk off left)
          (pos + part j.chunk off left)
          t
          (after j i off done left f)
          (rdwt_loop k j
            (i + j.chunk)
            0
            (done + part j.chunk off left)
            (left - part j.chunk off left)
            (after j i off done left f))
      → Ended j i off done left pos t f (rdwt_loop (suc k) j i off done left f)
  Ended-more k le r =
      let b : ℕ = part j.chunk off left in
      let bound : b ≤ left = ground arith in
      let full : (b ≡ left) ⊎ (off + b ≡ j.chunk * 512) =
        ground (arith, v.some_chunk, v.small_off) in
      record {
        n = b + r.n;
        end = r.end;
        runs =
            loop_more j i off done left v k f le ∙ r.runs ∙ ap (λ x. some (x, r.end)) (omega arith);
        few = omega (arith, r.few);
        moved =
            Moved-append j.io j.dev (i * 512 + off) (j.base + j.buf + done) b r.n f
              (after j i off done left f) r.end (after-Moved j i off done left v f le)
              (Moved-from j.io j.dev ((i + j.chunk) * 512 + 0) (i * 512 + off + b)
                (j.base + j.buf + (done + b)) (j.base + j.buf + done + b) r.n
                (after j i off done left f) r.end
                (elim full [
                  | inl h ↦ inl (omega (arith, r.few, h))
                  | inr h ↦ inr (omega (arith, h))
                ])
                (omega arith) r.moved);
        at =
            r.at
            ∙ ap (λ x. set_desc j.desc (record (t.f_desc_table j.desc) { fd_pos = x }) t)
                (omega arith);
        one_round = λ h h'. omega (arith, r.no_round h');
        no_round = λ h. absurd (omega arith);
        whole = ground (arith, full, r.few, r.whole);
      }

-- With fuel for every sector and one more, the loop ends so.
pub rdwt_loop-Ended :
    (k : ℕ) (j : Job) (i off done left pos : ℕ) (t : Fs) (f : Files)
    → Fits j i off done left
    → At j.desc pos t f
    → pos + left < 2 ^ 32
    → 1 ≤ k
    → j.rw_sect_max + 2 ≤ i + k
    → Ended j i off done left pos t f (rdwt_loop k j i off done left f)
rdwt_loop-Ended zero j i off done left pos t f v a lt kp le = absurd (omega arith)
rdwt_loop-Ended (suc k) j i off done left pos t f v a lt kp le =
    elim (Bool-cases (ltb j.rw_sect_max i)) [
      | inl e ↦ Ended-done j i off done left pos t f v k (ltb→lt j.rw_sect_max i e) a
      | inr e ↦
          let in_range : i ≤ j.rw_sect_max = ground (arith, e) in
          let b : ℕ = part j.chunk off left in
          let bound : b ≤ left = ground arith in
          Ended-more j i off done left pos t f v k in_range (
            rdwt_loop-Ended k j (i + j.chunk) 0 (done + b) (left - b) (pos + b) t
              (after j i off done left f) (Fits-after j i off done left v in_range)
              (after-At j i off done left v pos t f lt a) (omega arith) (omega arith)
              (omega (arith, v.some_chunk)))
    ]
