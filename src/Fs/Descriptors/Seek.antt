-- ===== src/Fs/Descriptors/Seek.antt =====
-- Where `do_lseek` of fs/open.c may put the position of a file.
use bird_os.Prelude.{
  ℕ, ◌^◌, ◌≤◌, ◌<◌, ◌≡◌, ◌⊎◌, inl, inr, refl, false, ◌||◌, Option, none, some, Bool-cases, arith,
}
use bird_os.Fs.Types.{Fs}
use bird_os.Fs.Descriptors.{opened, minus_one, set_desc, sgt, negative}
unfoldable use bird_os.Fs.Descriptors.{do_lseek, seek_pos}

-- The new position is within the file, or nothing changes.
abbrev pub Sought : ℕ → ℕ → Fs → Option (ℕ × Fs) → Type 0
Sought d f_size s none = ⊥
Sought d f_size s (some (r, s')) =
    ((r ≡ minus_one) × (s' ≡ s))
    ⊎ ((r ≤ f_size) × (s' ≡ set_desc d (record (s.f_desc_table d) { fd_pos = r }) s))

in_range :
    (pos f_size : ℕ)
    → pos < 2 ^ 32
    → f_size < 2 ^ 31
    → (sgt pos f_size || negative pos) ≡ false
    → pos ≤ f_size
in_range pos f_size lp lf e = ground arith

seek_pos_lt :
    (whence off pos f_size : ℕ)
    → off < 2 ^ 32
    → (r : ℕ) → seek_pos whence off pos f_size ≡ some r
    → r < 2 ^ 32
unfolding seek_pos
seek_pos_lt whence off pos f_size lo r e = ground arith

module _ (pid fd off whence : ℕ) (s : Fs) (d p : ℕ) where
  seek_to :
      (o : Option ℕ)
      → (s.inode_table p).i_size < 2 ^ 31
      → ((pos : ℕ) → o ≡ some pos → pos < 2 ^ 32)
      → seek_pos whence off (s.f_desc_table d).fd_pos (s.inode_table p).i_size ≡ o
      → opened pid fd s ≡ some (d, p)
      → Sought d (s.inode_table p).i_size s (do_lseek pid fd off whence s)
  unfolding do_lseek
  seek_to none ls lt g e = rw (Sought, e, g) (inl (refl, refl))
  seek_to (some pos) ls lt g e =
      elim (Bool-cases (sgt pos (s.inode_table p).i_size || negative pos)) [
        | inl h ↦ rw (Sought, e, g, h) (inl (refl, refl))
        | inr h ↦
            rw (Sought, e, g, h)
              (inr (in_range pos (s.inode_table p).i_size (lt pos refl) ls h, refl))
      ]

  -- On an open file of fewer than 2^31 bytes, with an offset below 2^32, `do_lseek` returns -1 and
  -- changes nothing, or it sets the position to one within the file, which it returns, and changes
  -- nothing else.
  pub do_lseek-Sought :
      opened pid fd s ≡ some (d, p)
      → off < 2 ^ 32
      → (s.inode_table p).i_size < 2 ^ 31
      → Sought d (s.inode_table p).i_size s (do_lseek pid fd off whence s)
  do_lseek-Sought e lo ls =
      seek_to (seek_pos whence off (s.f_desc_table d).fd_pos (s.inode_table p).i_size) ls
        (seek_pos_lt whence off (s.f_desc_table d).fd_pos (s.inode_table p).i_size lo) refl e
