-- ===== src/Fs/ReadWrite/Moves.antt =====
-- What a part of a transfer moves between the disk and the memory, for `do_rdwt` of
-- fs/read_write.c.
use mathlib.Core.Path.{fun_ext, subst}
use bird_os.Prelude.{
  ℕ, ◌+◌, ◌-◌, ◌*◌, ◌/◌, ◌^◌, ◌≤◌, ◌<◌, ◌≡◌, refl, sym, ap, ap₂, ◌∙◌, ◌⊎◌, inl, inr, update,
  add_u32, some, false, ltb, arith,
}
use bird_os.Fs.Types.{Fs}
use bird_os.Fs.Descriptors.{set_desc}
use bird_os.Fs.ReadWrite.{Files, Io, Job, phys_copy, advance, position, mul_u32}
unfoldable use bird_os.Fs.ReadWrite.{copy_round, read_sector, write_sector}

-- `n` bytes went from the disk at `a` to the memory at `u`, or back, and nothing else changed in
-- either.
abbrev pub Moved : Io → ℕ → ℕ → ℕ → ℕ → Files → Files → Type 0
Moved Io.read dev a u n f g =
    (g.content ≡ f.content) × (g.mem ≡ phys_copy n (f.content dev) a f.mem u)
Moved Io.write dev a u n f g =
    (g.mem ≡ f.mem) × (g.content ≡ update f.content dev (phys_copy n f.mem u (f.content dev) a))

-- The tables are those of `t`, but the position of descriptor `d` is `pos`.
abbrev pub At : ℕ → ℕ → Fs → Files → Type 0
At d pos t f = f.fs ≡ set_desc d (record (t.f_desc_table d) { fd_pos = pos }) t

phys_copy-none : (from : ℕ → ℕ) (s : ℕ) (to : ℕ → ℕ) (d : ℕ) → phys_copy 0 from s to d ≡ to
phys_copy-none from s to d = fun_ext λ x. ground arith

phys_copy-append :
    (m n : ℕ) (from : ℕ → ℕ) (s : ℕ) (to : ℕ → ℕ) (d : ℕ)
    → phys_copy m from (s + n) (phys_copy n from s to d) (d + n) ≡ phys_copy (n + m) from s to d
phys_copy-append m n from s to d = fun_ext λ x.
    let e : d + n ≤ x → s + n + (x - (d + n)) ≡ s + (x - d) = λ h. omega arith in ground (arith, e)

pub update_self : {A : Type 0} (f : ℕ → A) (i : ℕ) → update f i (f i) ≡ f
update_self f i = fun_ext λ x. ground arith

update-update :
    {A : Type 0} (f : ℕ → A) (i : ℕ) (a b : A) → update (update f i a) i b ≡ update f i b
update-update f i a b = fun_ext λ x. ground arith

Moved-none :
    (io : Io) (dev a u a' u' : ℕ) (f g : Files) → Moved io dev a u 0 f g → Moved io dev a' u' 0 f g
Moved-none Io.read dev a u a' u' f g (c, m) = (
  c,
  m ∙ phys_copy-none (f.content dev) a f.mem u ∙ sym (phys_copy-none (f.content dev) a' f.mem u'),
)
Moved-none Io.write dev a u a' u' f g (m, c) = (
  m,
  c
      ∙ ap (update f.content dev) (
          phys_copy-none f.mem u (f.content dev) a
          ∙ sym (phys_copy-none f.mem u' (f.content dev) a')),
)

-- A transfer may be said to begin elsewhere only when it moves nothing.
pub Moved-from :
    (io : Io) (dev a a' u u' n : ℕ) (f g : Files)
    → (n ≡ 0) ⊎ (a ≡ a')
    → u ≡ u'
    → Moved io dev a u n f g
    → Moved io dev a' u' n f g
Moved-from io dev a a' u u' n f g (inl z) e m =
    subst (λ x. Moved io dev a' u' x f g) (sym z)
      (Moved-none io dev a u a' u' f g (subst (λ x. Moved io dev a u x f g) z m))
Moved-from io dev a a' u u' n f g (inr h) e m =
    subst (λ x. Moved io dev a' x n f g) e (subst (λ x. Moved io dev x u n f g) h m)

-- The tables play no part.
pub Moved-fs :
    (io : Io) (dev a u n : ℕ) (f g : Files) (t : Fs)
    → Moved io dev a u n f g
    → Moved io dev a u n f (record g { fs = t })
Moved-fs Io.read dev a u n f g t m = m
Moved-fs Io.write dev a u n f g t m = m

pub Moved-refl : (io : Io) (dev a u : ℕ) (f : Files) → Moved io dev a u 0 f f
Moved-refl Io.read dev a u f = (refl, sym (phys_copy-none (f.content dev) a f.mem u))
Moved-refl Io.write dev a u f = (
  refl,
  sym (
      ap (update f.content dev) (phys_copy-none f.mem u (f.content dev) a)
      ∙ update_self f.content dev),
)

pub Moved-append :
    (io : Io) (dev a u n m : ℕ) (f g h : Files)
    → Moved io dev a u n f g
    → Moved io dev (a + n) (u + n) m g h
    → Moved io dev a u (n + m) f h
Moved-append Io.read dev a u n m f g h (c, e) (c', e') = (
  c' ∙ c,
  e'
      ∙ ap₂ (λ x y. phys_copy m (x dev) (a + n) y (u + n)) c e
      ∙ phys_copy-append m n (f.content dev) a f.mem u,
)
Moved-append Io.write dev a u n m f g h (e, c) (e', c') = (
  e' ∙ e,
  c'
      ∙ ap₂ (λ x y. update x dev (phys_copy m y (u + n) (x dev) (a + n))) c e
      ∙ update-update f.content dev _ _
      ∙ ap (update f.content dev) (
          ap (λ x. phys_copy m f.mem (u + n) x (a + n)) (ground arith)
          ∙ phys_copy-append m n f.mem u (f.content dev) a),
)

-- What the copies of a round of at most 256 sectors leave
abbrev got : Job → ℕ → Files → Files
got j i f = record f {
  buffer = phys_copy (mul_u32 j.chunk 512) (f.content j.dev) (position (mul_u32 i 512)) f.buffer 0;
}

abbrev put : Job → ℕ → ℕ → ℕ → ℕ → Files → Files
put j i off done bytes f = record (got j i f) {
  buffer = phys_copy bytes f.mem (add_u32 j.base (add_u32 j.buf done)) (got j i f).buffer off;
}

abbrev pub copied : Io → Job → ℕ → ℕ → ℕ → ℕ → Files → Files
copied Io.read j i off done bytes f = record (got j i f) {
  mem = phys_copy bytes (got j i f).buffer off f.mem (add_u32 j.base (add_u32 j.buf done));
}
copied Io.write j i off done bytes f = record (put j i off done bytes f) {
  content = update f.content j.dev (
      phys_copy (mul_u32 j.chunk 512) (put j i off done bytes f).buffer 0 (f.content j.dev)
        (position (mul_u32 i 512)));
}

read_sector_lem :
    (dev pos bytes : ℕ) (f : Files)
    → bytes ≤ 256 * 512
    → read_sector dev pos bytes f
      ≡ some (record f { buffer = phys_copy bytes (f.content dev) pos f.buffer 0 })
unfolding read_sector
read_sector_lem dev pos bytes f le =
    let few : ltb 256 (bytes / 512) ≡ false = ground arith in rw few refl

write_sector_lem :
    (dev pos bytes : ℕ) (f : Files)
    → bytes ≤ 256 * 512
    → write_sector dev pos bytes f
      ≡ some (record f {
        content = update f.content dev (phys_copy bytes f.buffer 0 (f.content dev) pos);
      })
unfolding write_sector
write_sector_lem dev pos bytes f le =
    let few : ltb 256 (bytes / 512) ≡ false = ground arith in rw few refl

pub copy_round-copied :
    (io : Io) (j : Job) (i off done bytes : ℕ) (f : Files)
    → j.chunk ≤ 256
    → copy_round io j i off done bytes f ≡ some (copied io j i off done bytes f)
unfolding copy_round
copy_round-copied Io.read j i off done bytes f le =
    let few : mul_u32 j.chunk 512 ≤ 256 * 512 = ground arith in
    rw (copy_round, read_sector_lem j.dev (position (mul_u32 i 512)) (mul_u32 j.chunk 512) f few)
      refl
copy_round-copied Io.write j i off done bytes f le =
    let few : mul_u32 j.chunk 512 ≤ 256 * 512 = ground arith in
    let at : ℕ = position (mul_u32 i 512) in
    rw (copy_round, read_sector_lem j.dev at (mul_u32 j.chunk 512) f few)
      (write_sector_lem j.dev at (mul_u32 j.chunk 512) (put j i off done bytes f) few)

pub copied-fs :
    (io : Io) (j : Job) (i off done bytes : ℕ) (f : Files)
    → (copied io j i off done bytes f).fs ≡ f.fs
copied-fs Io.read j i off done bytes f = refl
copied-fs Io.write j i off done bytes f = refl

pub advance-At :
    (d pos bytes : ℕ) (t : Fs) (f : Files)
    → pos + bytes < 2 ^ 32
    → At d pos t f
    → At d (pos + bytes) t (advance d bytes f)
advance-At d pos bytes t f lt e =
    ap
      (λ s.
        set_desc d (record (s.f_desc_table d) { fd_pos = add_u32 (s.f_desc_table d).fd_pos bytes })
          s)
      e
    ∙ ap (λ x. record t { f_desc_table = x }) (fun_ext λ x. ground arith)

-- Bytes that pass through `fsbuf` on their way to the memory
read_through :
    (n c off : ℕ) (from : ℕ → ℕ) (p : ℕ) (buffer to : ℕ → ℕ) (u : ℕ)
    → off + n ≤ c
    → phys_copy n (phys_copy c from p buffer 0) off to u ≡ phys_copy n from (p + off) to u
read_through n c off from p buffer to u le =
    fun_ext
      λ x. let e : p + (off + (x - u) - 0) ≡ p + off + (x - u) = omega arith in ground (arith, e)

-- Sectors that are read, changed and written
write_through :
    (n c off : ℕ) (from : ℕ → ℕ) (u : ℕ) (buffer to : ℕ → ℕ) (p : ℕ)
    → off + n ≤ c
    → phys_copy c (phys_copy n from u (phys_copy c to p buffer 0) off) 0 to p
      ≡ phys_copy n from u to (p + off)
write_through n c off from u buffer to p le = fun_ext λ x.
    let e : p ≤ x → p + (0 + (x - p) - 0) ≡ x = λ h. omega arith in
    let g : p + off ≤ x → u + (0 + (x - p) - off) ≡ u + (x - (p + off)) = λ h. omega arith in
    ground (arith, e, g)

-- One round moves its bytes.
pub copied-Moved :
    (io : Io) (j : Job) (i off done bytes : ℕ) (f : Files)
    → i * 512 < 2 ^ 31
    → j.chunk * 512 < 2 ^ 31
    → off + bytes ≤ j.chunk * 512
    → j.base + j.buf + done < 2 ^ 32
    → Moved io j.dev
        (i * 512 + off)
        (j.base + j.buf + done)
        bytes
        f
        (copied io j i off done bytes f)
copied-Moved Io.read j i off done bytes f li lc lb lu =
    let p : position (mul_u32 i 512) ≡ i * 512 = ground arith in
    let c : mul_u32 j.chunk 512 ≡ j.chunk * 512 = ground arith in
    let u : ℕ = add_u32 j.base (add_u32 j.buf done) in
    let a : u ≡ j.base + j.buf + done = omega arith in
    (
      refl,
      ap₂ (λ x y. phys_copy bytes (phys_copy x (f.content j.dev) y f.buffer 0) off f.mem u) c p
          ∙ read_through bytes (j.chunk * 512) off (f.content j.dev) (i * 512) f.buffer f.mem u lb
          ∙ ap (phys_copy bytes (f.content j.dev) (i * 512 + off) f.mem) a,
    )
copied-Moved Io.write j i off done bytes f li lc lb lu =
    let p : position (mul_u32 i 512) ≡ i * 512 = ground arith in
    let c : mul_u32 j.chunk 512 ≡ j.chunk * 512 = ground arith in
    let u : ℕ = add_u32 j.base (add_u32 j.buf done) in
    let a : u ≡ j.base + j.buf + done = omega arith in
    (
      refl,
      ap (update f.content j.dev) (
          ap₂
            (λ x y.
              phys_copy x (phys_copy bytes f.mem u (phys_copy x (f.content j.dev) y f.buffer 0) off)
                0 (f.content j.dev) y)
            c p
          ∙ write_through bytes (j.chunk * 512) off f.mem u f.buffer (f.content j.dev) (i * 512) lb
          ∙ ap (λ x. phys_copy bytes f.mem x (f.content j.dev) (i * 512 + off)) a),
    )
