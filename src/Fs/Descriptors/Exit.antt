-- ===== src/Fs/Descriptors/Exit.antt =====
-- What the exit of a process does to the counts of descriptors and inodes, `fs_exit` of fs/main.c,
-- also right after the fork that made the process.
use bird_os.Prelude.{
  ℕ, zero, suc, ◌+◌, ◌^◌, ◌≤◌, ◌<◌, ◌≡◌, ◌≢◌, refl, ap, ap₂, ◌∙◌, ◌&&◌, Option, none, some, ◌==◌,
  ltb, leb, if◌then◌else◌, arith,
}
use mathlib.Core.Path.{subst}
use bird_os.Fs.Types.{Fs, nr_files}
use bird_os.Fs.Descriptors.{fs_fork, fs_exit, set_filp}
unfoldable use bird_os.Fs.Descriptors.{exit_loop, exit_file, release_desc}
use bird_os.Fs.Descriptors.Fork.{is, uses, inode_of, HasInodes, Small, fork_loop-Forked, uses_le}

-- What is left of the inode of a descriptor that is released `n` times, down to a count of `c`.
abbrev pub kept : ℕ → ℕ → Option ℕ → Option ℕ
kept n c o = if n == 0 then o else if c == 0 then none else o

module _ (pid : ℕ) (D : ℕ → Option ℕ) where
  -- What the uses `n` of descriptors and `m` of inodes take away.
  abbrev Released : (ℕ → ℕ) → (ℕ → ℕ) → Fs → Fs → Type 0
  Released n m s s' =
      (((d : ℕ) → (s'.f_desc_table d).fd_cnt + n d ≡ (s.f_desc_table d).fd_cnt)
        × ((p : ℕ) → (s'.inode_table p).i_cnt + m p ≡ (s.inode_table p).i_cnt)
        × ((d : ℕ)
            → (s'.f_desc_table d).fd_inode
              ≡ kept (n d) (s'.f_desc_table d).fd_cnt (s.f_desc_table d).fd_inode))

  -- The counts cover the uses.
  abbrev Covers : (ℕ → ℕ) → (ℕ → ℕ) → Fs → Type 0
  Covers n m s =
      (((d : ℕ) → (n d ≤ (s.f_desc_table d).fd_cnt) × ((s.f_desc_table d).fd_cnt < 2 ^ 32))
        × ((p : ℕ) → (m p ≤ (s.inode_table p).i_cnt) × ((s.inode_table p).i_cnt < 2 ^ 32))
        × ((d : ℕ) → n d ≢ 0 → (s.f_desc_table d).fd_inode ≡ D d))

  release_desc-Released :
      (d p : ℕ) (s : Fs)
      → Covers (is (some d)) (is (some p)) s
      → Released (is (some d)) (is (some p)) s (release_desc d p s)
  unfolding release_desc
  release_desc-Released d p s (u, v, w) =
      (λ e. ground (arith, u d), λ q. ground (arith, v p), λ e. ground (arith, u d))

  release_filp :
      (i d p : ℕ) (s : Fs) (j : ℕ)
      → (set_filp pid i none (release_desc d p s)).filp pid j
        ≡ (if j == i then none else s.filp pid j)
  unfolding release_desc
  release_filp i d p s j = ground arith

  exit_step :
      (i : ℕ) (s : Fs) (o : Option ℕ)
      → s.filp pid i ≡ o
      → ((d : ℕ) → o ≡ some d → (p : ℕ) × (D d ≡ some p))
      → Covers (is o) (is (inode_of D o)) s
      → (t : Fs) × (exit_file pid i s ≡ some t)
        × Released (is o) (is (inode_of D o)) s t
        × ((j : ℕ) → t.filp pid j ≡ (if j == i then none else s.filp pid j))
  unfolding exit_file
  exit_step i s none e ho cov = (
    s,
    rw (exit_file, e) refl,
    (λ x. omega arith, λ x. omega arith, λ x. refl),
    λ j. ground (arith, e),
  )
  exit_step i s (some d) e ho (u, v, w) =
      let (p, g) = ho d refl in
      let one : is (some d) d ≢ 0 = ground arith in
      let l : (s.f_desc_table d).fd_inode ≡ some p = w d one ∙ g in
      (
        set_filp pid i none (release_desc d p s),
        rw (exit_file, e, l) refl,
        rw g (
            release_desc-Released d p s (
              u,
              (λ q.
                  subst
                    (λ z. (is z q ≤ (s.inode_table q).i_cnt) × ((s.inode_table q).i_cnt < 2 ^ 32)) g
                    (v q)),
              w,
            )),
        release_filp i d p s,
      )

  kept-kept :
      (m n c c' : ℕ) (o : Option ℕ) → c' + n ≡ c → kept n c' (kept m c o) ≡ kept (m + n) c' o
  kept-kept m n c c' o e = ground arith

  exit_loop_step :
      (k i : ℕ) (s t : Fs)
      → exit_file pid i s ≡ some t
      → exit_loop (suc k) i pid s ≡ exit_loop k (i + 1) pid t
  unfolding exit_loop
  exit_loop_step k i s t e = rw (exit_loop, e) refl

  -- The descriptors of what is left after one file are as before.
  Covers-rest :
      (m m' n n' : ℕ → ℕ) (s t : Fs)
      → Covers (λ d. m d + n d) (λ p. m' p + n' p) s
      → Released m m' s t
      → Covers n n' t
  Covers-rest m m' n n' s t (u, v, w) (a, b, c) = (
    λ d. (omega (arith, u d, a d), omega (arith, u d, a d)),
    λ p. (omega (arith, v p, b p), omega (arith, v p, b p)),
    λ d ne.
        let ne' : m d + n d ≢ 0 = λ e. ne (omega arith) in
        let pos : (t.f_desc_table d).fd_cnt ≢ 0 = λ z. ne (omega (arith, u d, a d)) in
        c d ∙ kept_pos (m d) (t.f_desc_table d).fd_cnt (s.f_desc_table d).fd_inode pos ∙ w d ne',
  )
    where
      kept_pos : (n c : ℕ) (o : Option ℕ) → c ≢ 0 → kept n c o ≡ o
      kept_pos n c o ne = ground arith

  Released-Released :
      (m m' n n' : ℕ → ℕ) (s t s' : Fs)
      → Released m m' s t
      → Released n n' t s'
      → Released (λ d. m d + n d) (λ p. m' p + n' p) s s'
  Released-Released m m' n n' s t s' (a, b, c) (x, y, z) = (
    λ d. omega (arith, a d, x d),
    λ p. omega (arith, b p, y p),
    λ d.
        z d
        ∙ ap (kept (n d) (s'.f_desc_table d).fd_cnt) (c d)
        ∙ kept-kept (m d) (n d) (t.f_desc_table d).fd_cnt (s'.f_desc_table d).fd_cnt
            (s.f_desc_table d).fd_inode (x d),
  )

  exit_loop-Released :
      (f : ℕ → Option ℕ) (k i : ℕ) (s : Fs)
      → ((j : ℕ) → i ≤ j → s.filp pid j ≡ f j)
      → HasInodes f D k i
      → Covers (uses f k i) (uses (λ j. inode_of D (f j)) k i) s
      → (s' : Fs) × (exit_loop k i pid s ≡ some s')
        × Released (uses f k i) (uses (λ j. inode_of D (f j)) k i) s s'
        × ((j : ℕ) → s'.filp pid j ≡ (if leb i j && ltb j (i + k) then none else s.filp pid j))
  unfolding exit_loop
  exit_loop-Released f zero i s hf ho cov =
      (s, refl, (λ d. omega arith, λ p. omega arith, λ d. refl), λ j. ground arith)
  exit_loop-Released f (suc k) i s hf ho (u, v, w) =
      let (t, g, r, h) =
        exit_step i s (f i) (hf i (omega arith)) (λ d e. ho i d (omega arith) (omega arith) e)
          (
            λ d. (omega (arith, u d), omega (arith, u d)),
            λ p. (omega (arith, v p), omega (arith, v p)),
            λ d ne. w d (λ e. ne (omega arith)),
          ) in
      let (s', g', r', h') =
        exit_loop-Released f k (i + 1) t (λ j le. h j ∙ ground (arith, hf j))
          (λ j d lo hi. ho j d (omega arith) (omega arith))
          (Covers-rest (is (f i)) (is (inode_of D (f i))) (uses f k (i + 1))
            (uses (λ j. inode_of D (f j)) k (i + 1)) s t (u, v, w) r) in
      (
        s',
        exit_loop_step k i s t g ∙ g',
        Released-Released (is (f i)) (is (inode_of D (f i))) (uses f k (i + 1))
            (uses (λ j. inode_of D (f j)) k (i + 1)) s t s' r r',
        λ j. ground (arith, h j, h' j),
      )

-- `fs_exit` undoes `fs_fork` for a process whose files all have an inode, where no count is near
-- 2^32: both succeed, the counts of descriptors and inodes are as before, and the process has no
-- file left; but each descriptor that it uses and whose count was 0 before loses its inode.
pub fs_exit-fs_fork :
    (pid : ℕ) (s : Fs)
    → HasInodes (s.filp pid) (λ d. (s.f_desc_table d).fd_inode) nr_files 0
    → Small nr_files s
    → (s1 : Fs) × (s2 : Fs) × (fs_fork pid s ≡ some s1)
      × (fs_exit pid s1 ≡ some s2)
      × ((d : ℕ) → (s2.f_desc_table d).fd_cnt ≡ (s.f_desc_table d).fd_cnt)
      × ((p : ℕ) → (s2.inode_table p).i_cnt ≡ (s.inode_table p).i_cnt)
      × ((j : ℕ) → j < nr_files → s2.filp pid j ≡ none)
      × ((d : ℕ)
          → (s2.f_desc_table d).fd_inode
            ≡ kept
                (uses (s.filp pid) nr_files 0 d)
                (s.f_desc_table d).fd_cnt
                (s.f_desc_table d).fd_inode)
fs_exit-fs_fork pid s ho (u, v) =
    let f : ℕ → Option ℕ = s.filp pid in
    let D : ℕ → Option ℕ = λ d. (s.f_desc_table d).fd_inode in
    let (s1, g, (a, b, c, x)) =
      fork_loop-Forked pid f D nr_files 0 s (λ j. refl) (λ d. refl) ho (u, v) in
    let (s2, g', (a', b', c'), x') =
      exit_loop-Released pid D f nr_files 0 s1 (λ j le. ap (λ r. r pid j) x) ho
        (
          λ d. (omega (arith, b d), omega (arith, b d, u d, uses_le f nr_files 0 d)),
          λ p. (
            omega (arith, c p),
            omega (arith, c p, v p, uses_le (λ j. inode_of D (f j)) nr_files 0 p),
          ),
          λ d ne. a d,
        ) in
    let cnt : (d : ℕ) → (s2.f_desc_table d).fd_cnt ≡ (s.f_desc_table d).fd_cnt =
      λ d. omega (arith, a' d, b d) in
    (
      s1,
      s2,
      g,
      g',
      cnt,
      λ p. omega (arith, b' p, c p),
      λ j lt. x' j ∙ ground arith,
      λ d. c' d ∙ ap₂ (kept (uses f nr_files 0 d)) (cnt d) (a d),
    )
