-- ===== src/Fs/Remove.antt =====
-- The end of `do_unlink` of fs/link.c, which takes the entry of a file out of its directory.
pub mod Scan
pub mod Blocks
pub mod Laws
pub mod Loss
mod Tests
use bird_os.Prelude.{
  ℕ, zero, suc, ◌+◌, ◌*◌, ◌/◌, Bool, true, false, Option, none, some, ◌==◌, ltb, if◌then◌else◌,
  add_u32, update,
}
use bird_os.Fs.Types.{Fs, Inode, sector_size}
use bird_os.Fs.Inodes.{set_inode, sync_inode}
use bird_os.Fs.Directory.{DirEntry, Dirs, dir_entry_size, entries_per_sect}

-- How the scan of a sector ends, with `m` and `dir_size`: behind the entries of the directory, at
-- the slot of the file, or with the sector through.
pub data Cleared : Type 0 where
  past : ℕ → ℕ → Cleared
  cleared : ℕ → ℕ → ℕ → Cleared
  through : ℕ → ℕ → Cleared

-- The inner loop from slot `j` on, with `k` slots left.
unfoldable pub clear_slots : ℕ → ℕ → ℕ → ℕ → ℕ → ℕ → (ℕ → DirEntry) → Cleared
clear_slots zero j m n dir_size nr t = through m dir_size
clear_slots (suc k) j m n dir_size nr t =
    let size : ℕ = if (t j).inode_nr == 0 then dir_size else dir_size + dir_entry_size in
    let rest = clear_slots k (j + 1) (m + 1) n size nr t in
    if ltb n (m + 1)
    then past (m + 1) dir_size
    else if (t j).inode_nr == nr
    then cleared j (m + 1) dir_size
    else rest

-- The outer loop, `i` sectors behind the first: the place of the entry if it was found, `m` and
-- `dir_size`.
unfoldable pub clear_blks : ℕ → ℕ → ℕ → ℕ → ℕ → ℕ → ℕ → (ℕ → ℕ → DirEntry) → Option (ℕ × ℕ) × ℕ × ℕ
clear_blks zero i m n dir_size nr sect t = (none, m, dir_size)
clear_blks (suc k) i m n dir_size nr sect t =
    elim (clear_slots entries_per_sect 0 m n dir_size nr (t (sect + i))) [
      | past m' d ↦ (none, m', d)
      | cleared j m' d ↦ (some (i, j), m', d)
      | through m' d ↦
          let rest = clear_blks k (i + 1) m' n d nr sect t in
          if ltb n m' then (none, m', d) else rest
    ]

-- `memset` of an entry
abbrev pub no_entry : DirEntry
no_entry = record { inode_nr = 0; bytes = λ x. 0 }

-- The entries with that at a place cleared
abbrev pub clear_at : Option (ℕ × ℕ) → Inode → Dirs → Dirs
clear_at none v s = s
clear_at (some (i, j)) v s =
    let t : ℕ → ℕ → DirEntry = s.entries v.i_dev in
    let sect : ℕ = v.i_start_sect + i in
    record s { entries = update s.entries v.i_dev (update t sect (update (t sect) j no_entry)) }

-- What follows the loops: the size is changed when `m` comes to the number of entries.
unfoldable pub shrink : ℕ → ℕ → Dirs → Option (ℕ × ℕ) × ℕ × ℕ → Option Dirs
shrink p n s (place, m, dir_size) =
    let v : Inode = s.fs.inode_table p in
    let t : Dirs = clear_at place v s in
    if m == n
    then elim (sync_inode p (set_inode p (record v { i_size = dir_size }) s.fs)) [
      | none ↦ none
      | some fs' ↦ some (record t { fs = fs' })
    ]
    else some t

-- The entry of inode `nr` removed from the directory in slot `p`
unfoldable pub remove_entry : ℕ → ℕ → Dirs → Option Dirs
remove_entry p nr s =
    let v : Inode = s.fs.inode_table p in
    let n : ℕ = v.i_size / dir_entry_size in
    shrink p n s (
      clear_blks (add_u32 v.i_size sector_size / sector_size) 0 0 n 0 nr v.i_start_sect
        (s.entries v.i_dev))
