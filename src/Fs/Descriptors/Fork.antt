-- ===== src/Fs/Descriptors/Fork.antt =====
-- What a fork does to the counts of descriptors and inodes: `fs_fork` of fs/main.c.
use bird_os.Prelude.{
  ℕ, zero, suc, ◌+◌, ◌^◌, ◌≤◌, ◌<◌, ◌≡◌, refl, ap, ◌∙◌, Option, none, some, ◌==◌, if◌then◌else◌,
  arith,
}
use bird_os.Fs.Types.{Fs}
unfoldable use bird_os.Fs.Descriptors.{fork_loop, fork_file, share_desc}

abbrev pub is : Option ℕ → ℕ → ℕ
is none d = 0
is (some e) d = if e == d then 1 else 0

is_le : (o : Option ℕ) (d : ℕ) → is o d ≤ 1
is_le none d = omega arith
is_le (some e) d = ground arith

-- How often `d` occurs among the `k` items of `f` from `i` on.
abbrev pub uses : (ℕ → Option ℕ) → ℕ → ℕ → ℕ → ℕ
uses f zero i d = 0
uses f (suc k) i d = is (f i) d + uses f k (i + 1) d

abbrev pub inode_of : (ℕ → Option ℕ) → Option ℕ → Option ℕ
inode_of D none = none
inode_of D (some d) = D d

-- Every file among the `k` from `i` on has an inode.
abbrev pub HasInodes : (ℕ → Option ℕ) → (ℕ → Option ℕ) → ℕ → ℕ → Type 0
HasInodes f D k i = (j d : ℕ) → i ≤ j → j < i + k → f j ≡ some d → (p : ℕ) × (D d ≡ some p)

-- No count overflows by `k` more.
abbrev pub Small : ℕ → Fs → Type 0
Small k s =
    (((d : ℕ) → (s.f_desc_table d).fd_cnt + k < 2 ^ 32)
      × ((p : ℕ) → (s.inode_table p).i_cnt + k < 2 ^ 32))

module _ (pid : ℕ) (f D : ℕ → Option ℕ) where
  abbrev pub Forked : ℕ → ℕ → Fs → Fs → Type 0
  Forked k i s s' =
      (((d : ℕ) → (s'.f_desc_table d).fd_inode ≡ D d)
        × ((d : ℕ) → (s'.f_desc_table d).fd_cnt ≡ (s.f_desc_table d).fd_cnt + uses f k i d)
        × ((p : ℕ)
            → (s'.inode_table p).i_cnt
              ≡ (s.inode_table p).i_cnt + uses (λ j. inode_of D (f j)) k i p)
        × (s'.filp ≡ s.filp))

  -- One descriptor shared.
  share_desc_counts :
      (d p : ℕ) (s : Fs)
      → Small 1 s
      → ((e : ℕ)
          → ((share_desc d p s).f_desc_table e).fd_cnt ≡ (s.f_desc_table e).fd_cnt + is (some d) e)
        × ((q : ℕ)
            → ((share_desc d p s).inode_table q).i_cnt ≡ (s.inode_table q).i_cnt + is (some p) q)
        × ((e : ℕ) → ((share_desc d p s).f_desc_table e).fd_inode ≡ (s.f_desc_table e).fd_inode)
  unfolding share_desc
  share_desc_counts d p s (u, v) =
      (λ e. ground (arith, u d), λ q. ground (arith, v p), λ e. ground arith)

  same_filp : (d p : ℕ) (s : Fs) → (share_desc d p s).filp ≡ s.filp
  unfolding share_desc
  same_filp d p s = refl

  -- One file shared, or none.
  fork_step :
      (i : ℕ) (s : Fs)
      → ((d : ℕ) → (s.f_desc_table d).fd_inode ≡ D d)
      → (o : Option ℕ) → s.filp pid i ≡ o
      → ((d : ℕ) → o ≡ some d → (p : ℕ) × (D d ≡ some p))
      → Small 1 s
      → (t : Fs) × (fork_file pid i s ≡ some t)
        × ((e : ℕ) → (t.f_desc_table e).fd_cnt ≡ (s.f_desc_table e).fd_cnt + is o e)
        × ((q : ℕ) → (t.inode_table q).i_cnt ≡ (s.inode_table q).i_cnt + is (inode_of D o) q)
        × ((e : ℕ) → (t.f_desc_table e).fd_inode ≡ D e)
        × (t.filp ≡ s.filp)
  unfolding fork_file
  fork_step i s hd none e ho hs =
      (s, rw (fork_file, e) refl, λ x. omega arith, λ x. omega arith, hd, refl)
  fork_step i s hd (some d) e ho hs =
      let (p, g) = ho d refl in
      let (a, b, c) = share_desc_counts d p s hs in
      let l : (s.f_desc_table d).fd_inode ≡ some p = hd d ∙ g in
      (
        share_desc d p s,
        rw (fork_file, e, l) refl,
        a,
        (λ q. rw g (b q)),
        (λ x. c x ∙ hd x),
        same_filp d p s,
      )

  fork_loop_step :
      (k i : ℕ) (s t : Fs)
      → fork_file pid i s ≡ some t
      → fork_loop (suc k) i pid s ≡ fork_loop k (i + 1) pid t
  unfolding fork_loop
  fork_loop_step k i s t e = rw (fork_loop, e) refl

  pub fork_loop-Forked :
      (k i : ℕ) (s : Fs)
      → ((j : ℕ) → s.filp pid j ≡ f j)
      → ((d : ℕ) → (s.f_desc_table d).fd_inode ≡ D d)
      → HasInodes f D k i
      → Small k s
      → (s' : Fs) × (fork_loop k i pid s ≡ some s') × Forked k i s s'
  unfolding fork_loop
  fork_loop-Forked zero i s hf hd ho hs = (s, refl, (hd, λ d. omega arith, λ p. omega arith, refl))
  fork_loop-Forked (suc k) i s hf hd ho (u, v) =
      let (t, g, a, b, c, same) =
        fork_step i s hd (f i) (hf i) (λ d e. ho i d (omega arith) (omega arith) e)
          (λ d. omega (arith, u d), λ p. omega (arith, v p)) in
      let (s', g', (x, y, z, w)) =
        fork_loop-Forked k (i + 1) t (λ j. ap (λ r. r pid j) same ∙ hf j) c
          (λ j d lo hi. ho j d (omega arith) (omega arith))
          (
            λ d. omega (arith, u d, a d, is_le (f i) d),
            λ p. omega (arith, v p, b p, is_le (inode_of D (f i)) p),
          ) in
      (
        s',
        fork_loop_step k i s t g ∙ g',
        (x, λ d. omega (arith, a d, y d), λ p. omega (arith, b p, z p), w ∙ same),
      )

pub uses_le : (f : ℕ → Option ℕ) (k i d : ℕ) → uses f k i d ≤ k
uses_le f zero i d = omega arith
uses_le f (suc k) i d = omega (arith, is_le (f i) d, uses_le f k (i + 1) d)
