-- ===== src/Fs/Remove/Tests.antt =====
-- A directory of four entries, of which the second is free, and the file of the last one deleted.
use bird_os.Prelude.{ℕ, ◌*◌, ◌≤◌, ◌≡◌, refl, some, ◌==◌, if◌then◌else◌, update, arith}
use bird_os.Fs.Types.{Inode}
use bird_os.Fs.Inodes.{get_super_block}
unfoldable use bird_os.Fs.Inodes.{super_loop}
use bird_os.Fs.Directory.{DirEntry, Dirs}
use bird_os.Fs.Directory.Search.{entry_at}
use bird_os.Fs.Remove.{remove_entry}
use bird_os.Fs.Remove.Laws.{Unlinks, remove_entry-Unlinks}
use bird_os.Fs.Remove.Loss.{remove_entry-loses}
use bird_os.Fs.Tests.{two_sharers, root_sb, five}

abbrev root_inode : Inode
root_inode = record five { i_mode = 0x4000; i_size = 64; i_start_sect = 300; i_num = 1 }

abbrev entries : ℕ → ℕ → ℕ → DirEntry
entries dev sect j = record {
  inode_nr = if j == 0 then 1 else if j == 2 then 5 else if j == 3 then 6 else 0;
  bytes = λ x. if x == 0 then 0x61 else 0;
}

abbrev full_dir : Dirs
full_dir = record {
  fs = record two_sharers { inode_table = update two_sharers.inode_table 0 root_inode };
  entries = entries;
}

supers : get_super_block 0x320 full_dir.fs ≡ some root_sb
unfolding super_loop
supers = refl

remove_entry-Unlinks_example :
    (s' : Dirs) × (remove_entry 0 5 full_dir ≡ some s') × Unlinks 0 5 4 root_sb full_dir s'
remove_entry-Unlinks_example = remove_entry-Unlinks 0 5 4 root_sb full_dir supers refl (omega arith)

remove_entry-loses_example :
    (s' : Dirs) × (remove_entry 0 6 full_dir ≡ some s')
    × ((s'.fs.inode_table 0).i_size ≤ 2 * 16)
    × (entry_at (s'.entries 0x320) 300 2 ≡ entry_at (full_dir.entries 0x320) 300 2)
remove_entry-loses_example =
    remove_entry-loses 0 6 4 root_sb full_dir 1 2 supers refl (omega arith) refl refl
      (λ h lt. ground (arith, lt)) (omega arith) refl
