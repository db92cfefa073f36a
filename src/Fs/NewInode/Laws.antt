-- ===== src/Fs/NewInode/Laws.antt =====
-- The new inode on the disk.
use mathlib.Core.Path.{subst}
use bird_os.Prelude.{ℕ, ◌≡◌, ap, ◌∙◌, none, some}
use bird_os.Fs.Types.{Fs, Inode, SuperBlock}
use bird_os.Fs.Inodes.{get_super_block, get_inode, set_inode, sync_inode, read_inode}
use bird_os.Fs.Inodes.Sync.{Reads, read_inode-sync_inode}
use bird_os.Fs.ReadWrite.Effect.{update_at}
unfoldable use bird_os.Fs.NewInode.{fresh_inode, new_inode}

-- What is read of an inode that was written with the fields of `v`
abbrev Written : Inode → ℕ → Fs → Type 0
Written v r t =
    Reads r
      (λ x.
        (x.i_mode ≡ v.i_mode)
        × (x.i_size ≡ v.i_size)
        × (x.i_start_sect ≡ v.i_start_sect)
        × (x.i_nr_sects ≡ v.i_nr_sects))
      (read_inode r v.i_dev v.i_num t)

-- `get_inode` gives slot `q` for the number, and the device has a super block: `new_inode` succeeds
-- with this slot. A slot `r` into which the inode is read from the disk afterwards has the mode and
-- the first sector that were given, size 0 and 2048 sectors.
pub new_inode-read_inode :
    (dev nr start mode q r : ℕ) (s t : Fs) (sb : SuperBlock)
    → get_inode dev nr s ≡ some (some q, t)
    → get_super_block dev t ≡ some sb
    → (t' : Fs) × (new_inode dev nr start mode s ≡ some (q, t'))
      × Reads r
          (λ v.
            (v.i_mode ≡ mode) × (v.i_size ≡ 0) × (v.i_start_sect ≡ start) × (v.i_nr_sects ≡ 2048))
          (read_inode r dev nr t')
unfolding new_inode fresh_inode
new_inode-read_inode dev nr start mode q r s t sb e g =
    let v : Inode = fresh_inode dev nr start mode (t.inode_table q) in
    let there : (set_inode q v t).inode_table q ≡ v = update_at t.inode_table q v in
    let (t', synced, reads) =
      read_inode-sync_inode q r (set_inode q v t) sb
        (ap (λ x. get_super_block x.i_dev t) there ∙ g) in
    (
      t',
      ap
            (λ o. elim o [
              | none ↦ none
              | some (none, u) ↦ none
              | some (some q, u) ↦
                  elim (sync_inode q
                    (set_inode q (fresh_inode dev nr start mode (u.inode_table q)) u)) [
                      | none ↦ none
                      | some u' ↦ some (q, u')
                    ]
            ])
            e
          ∙ ap (λ o. elim o [ none ↦ none | some u ↦ some (q, u) ]) synced,
      subst (λ x. Written x r t') there reads,
    )
