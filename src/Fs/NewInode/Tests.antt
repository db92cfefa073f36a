-- ===== src/Fs/NewInode/Tests.antt =====
-- A new file with inode 5 on the root device.
use bird_os.Prelude.{◌≡◌, refl, some}
use bird_os.Fs.Types.{Fs}
use bird_os.Fs.Inodes.{get_super_block, read_inode}
unfoldable use bird_os.Fs.Inodes.{super_loop, share_inode}
use bird_os.Fs.Inodes.Sync.{Reads}
use bird_os.Fs.NewInode.{new_inode}
use bird_os.Fs.NewInode.Laws.{new_inode-read_inode}
use bird_os.Fs.Tests.{two_sharers, root_sb, shares}

supers : get_super_block 0x320 (share_inode 2 two_sharers) ≡ some root_sb
unfolding super_loop share_inode
supers = refl

-- Inode 5 is in slot 2 already.
new_inode-read_inode_example :
    (t' : Fs) × (new_inode 0x320 5 4396 0x8000 two_sharers ≡ some (2, t'))
    × Reads 3
        (λ v.
          (v.i_mode ≡ 0x8000) × (v.i_size ≡ 0) × (v.i_start_sect ≡ 4396) × (v.i_nr_sects ≡ 2048))
        (read_inode 3 0x320 5 t')
new_inode-read_inode_example =
    new_inode-read_inode 0x320 5 4396 0x8000 2 3 two_sharers (share_inode 2 two_sharers) root_sb
      shares supers
