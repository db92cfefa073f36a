-- ===== src/Fs/NewInode.antt =====
-- The inode of a new file: `new_inode` of fs/open.c.
pub mod Laws
mod Tests
use bird_os.Prelude.{ℕ, Option, none, some, update}
use bird_os.Fs.Types.{Fs, Inode, nr_default_file_sects}
use bird_os.Fs.Inodes.{get_inode, set_inode, sync_inode}

-- The fields that are set in the slot of the inode
unfoldable pub fresh_inode : ℕ → ℕ → ℕ → ℕ → Inode → Inode
fresh_inode dev inode_nr start_sect imode v = record v {
  i_mode = imode;
  i_size = 0;
  i_start_sect = start_sect;
  i_nr_sects = nr_default_file_sects;
  i_dev = dev;
  i_cnt = 1;
  i_num = inode_nr;
  i_node_length = 0;
  i_sects_pos = update v.i_sects_pos 0 start_sect;
}

-- The slot of the new inode; `none` also where `get_inode` gives a null pointer.
unfoldable pub new_inode : ℕ → ℕ → ℕ → ℕ → Fs → Option (ℕ × Fs)
new_inode dev inode_nr start_sect imode s = elim (get_inode dev inode_nr s) [
  | none ↦ none
  | some (none, t) ↦ none
  | some (some q, t) ↦
      elim (sync_inode q
        (set_inode q (fresh_inode dev inode_nr start_sect imode (t.inode_table q)) t)) [
          | none ↦ none
          | some t' ↦ some (q, t')
        ]
]
