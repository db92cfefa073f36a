-- ===== src/Fs/ReadWrite/Tables.antt =====
-- The tables after a transfer of `do_rdwt` (fs/read_write.c) or a seek of `do_lseek` (fs/open.c):
-- the file stays open, with the same sectors.
use bird_os.Prelude.{
  ℕ, ◌≤◌, ◌<◌, ◌^◌, ◌≡◌, refl, ap, ◌∙◌, inl, inr, ltb, if◌then◌else◌, ◌||◌, Bool-cases, true, false,
  none, some, arith,
}
use bird_os.Fs.Types.{Fs, SuperBlock}
use bird_os.Fs.Inodes.{get_super_block}
unfoldable use bird_os.Fs.Inodes.{write_inode}
use bird_os.Fs.Descriptors.{seek_set, sgt, negative}
unfoldable use bird_os.Fs.Descriptors.{do_lseek, seek_pos, opened}
use bird_os.Fs.ReadWrite.{is_rdwr, i_regular}
use bird_os.Fs.ReadWrite.Effect.{at_pos, ended_at, sized, update_at}

-- File `fd` of process `pid` is open for reading and writing: descriptor `d` and the inode of a
-- regular file in slot `p`, on a device with the super block `sb`.
pub record IsOpen (pid fd d p : ℕ) (sb : SuperBlock) (t : Fs) : Type 0 where
  pub desc : t.filp pid fd ≡ some d
  pub mode : is_rdwr (t.f_desc_table d).fd_mode ≡ true
  pub node : (t.f_desc_table d).fd_inode ≡ some p
  pub regular : (t.inode_table p).i_mode ≡ i_regular
  pub device : get_super_block (t.inode_table p).i_dev t ≡ some sb

-- The size of a file of `size` bytes after a transfer that ends at `pos`
abbrev pub new_size : ℕ → ℕ → ℕ
new_size size pos = if ltb size pos then pos else size

seek_pos_set : (off pos size : ℕ) → seek_pos seek_set off pos size ≡ some off
unfolding seek_pos
seek_pos_set off pos size = refl

sought :
    (pid fd d p pos : ℕ) (t : Fs)
    → opened pid fd t ≡ some (d, p)
    → (sgt pos (t.inode_table p).i_size || negative pos) ≡ false
    → do_lseek pid fd pos seek_set t ≡ some (pos, at_pos d pos t)
unfolding do_lseek
sought pid fd d p pos t e h =
    rw (do_lseek, e, seek_pos_set pos (t.f_desc_table d).fd_pos (t.inode_table p).i_size, h) refl

module _ (d p pos : ℕ) (sb : SuperBlock) (t : Fs) where
  pub ended_at-inode :
      (ended_at d p pos sb t).inode_table p ≡ sized p (new_size (t.inode_table p).i_size pos) t
  unfolding write_inode
  ended_at-inode = elim (Bool-cases (ltb (t.inode_table p).i_size pos)) [
    | inl e ↦ rw e (update_at t.inode_table p (sized p pos t))
    | inr e ↦ rw e refl
  ]

  pub ended_at-desc :
      (ended_at d p pos sb t).f_desc_table d ≡ record (t.f_desc_table d) { fd_pos = pos }
  unfolding write_inode
  ended_at-desc = elim (Bool-cases (ltb (t.inode_table p).i_size pos)) [
    | inl e ↦ rw e (update_at t.f_desc_table d (record (t.f_desc_table d) { fd_pos = pos }))
    | inr e ↦ rw e (update_at t.f_desc_table d (record (t.f_desc_table d) { fd_pos = pos }))
  ]

  ended_at-rest :
      ((ended_at d p pos sb t).filp ≡ t.filp)
      × ((ended_at d p pos sb t).super_block ≡ t.super_block)
  unfolding write_inode
  ended_at-rest = elim (Bool-cases (ltb (t.inode_table p).i_size pos)) [
    | inl e ↦ rw e (refl, refl)
    | inr e ↦ rw e (refl, refl)
  ]

  pub IsOpen-ended_at :
      (pid fd : ℕ) → IsOpen pid fd d p sb t → IsOpen pid fd d p sb (ended_at d p pos sb t)
  IsOpen-ended_at pid fd o =
      let (files, supers) = ended_at-rest in
      record {
        desc = ap (λ x. x pid fd) files ∙ o.desc;
        mode = ap (λ x. is_rdwr x.fd_mode) ended_at-desc ∙ o.mode;
        node = ap (λ x. x.fd_inode) ended_at-desc ∙ o.node;
        regular = ap (λ x. x.i_mode) ended_at-inode ∙ o.regular;
        device =
            ap (λ x. get_super_block x.i_dev (ended_at d p pos sb t)) ended_at-inode
            ∙ ap (λ x. get_super_block (t.inode_table p).i_dev (record t { super_block = x }))
                supers
            ∙ o.device;
      }

  opened_lem : (pid fd : ℕ) → IsOpen pid fd d p sb t → opened pid fd t ≡ some (d, p)
  unfolding opened
  opened_lem pid fd o =
      ap
        (λ x. elim x [
          | none ↦ none
          | some d ↦ elim ((t.f_desc_table d).fd_inode) [ none ↦ none | some p ↦ some (d, p) ]
        ])
        o.desc
      ∙ ap (λ x. elim x [ none ↦ none | some p ↦ some (d, p) ]) o.node

  -- A seek to a position in the file succeeds.
  pub do_lseek-at_pos :
      (pid fd : ℕ)
      → IsOpen pid fd d p sb t
      → pos ≤ (t.inode_table p).i_size
      → (t.inode_table p).i_size < 2 ^ 31
      → do_lseek pid fd pos seek_set t ≡ some (pos, at_pos d pos t)
  do_lseek-at_pos pid fd o le lt =
      let size : ℕ = (t.inode_table p).i_size in
      let h : (sgt pos size || negative pos) ≡ false = ground arith in
      sought pid fd d p pos t (opened_lem pid fd o) h

  pub IsOpen-at_pos : (pid fd : ℕ) → IsOpen pid fd d p sb t → IsOpen pid fd d p sb (at_pos d pos t)
  IsOpen-at_pos pid fd o =
      let same : (at_pos d pos t).f_desc_table d ≡ record (t.f_desc_table d) { fd_pos = pos } =
        update_at t.f_desc_table d (record (t.f_desc_table d) { fd_pos = pos }) in
      record {
        desc = o.desc;
        mode = ap (λ x. is_rdwr x.fd_mode) same ∙ o.mode;
        node = ap (λ x. x.fd_inode) same ∙ o.node;
        regular = o.regular;
        device = o.device;
      }
