-- ===== src/Fs/Directory.antt =====
-- Directories: the scan of `search_file` of fs/misc.c, and `new_dir_entry` of fs/open.c. A sector of a directory is read into `fsbuf` and written from it
-- whole, so that it stands here for what `fsbuf` holds in between. A string is an array of
-- characters up to the first 0.
pub mod Search
pub mod Insert
pub mod Lookup
pub mod RoundTrip
use bird_os.Prelude.{
  ℕ, zero, suc, ◌+◌, ◌-◌, ◌*◌, ◌/◌, ◌%◌, ◌^◌, Bool, true, false, ◌&&◌, ◌||◌, not, Option, none,
  some, ◌==◌, ltb, leb, if◌then◌else◌, add_u32, update,
}
use bird_os.Fs.Types.{Fs, Inode, nr_inode, sector_size}
use bird_os.Fs.ReadWrite.{i_directory}
use bird_os.Fs.Inodes.{Found, hit, miss, inode_loop, set_inode, sync_inode, get_inode, put_inode}

abbrev pub max_filename_len : ℕ
max_filename_len = 11

abbrev pub max_path : ℕ
max_path = 128

-- DIR_ENTRY_SIZE, and how many entries a sector has
abbrev pub dir_entry_size : ℕ
dir_entry_size = 16

abbrev pub entries_per_sect : ℕ
entries_per_sect = sector_size / dir_entry_size

-- struct dir_entry: the number, and behind it the bytes of `name` from 0 to 10 and `type` at 11.
pub record DirEntry : Type 0 where
  pub inode_nr : ℕ
  pub bytes : ℕ → ℕ

abbrev pub type_at : ℕ
type_at = max_filename_len

-- The tables, and the entries in the sectors of directories, by device, sector and slot.
pub record Dirs : Type 0 where
  pub fs : Fs
  pub entries : ℕ → ℕ → ℕ → DirEntry

-- `memcmp` of the first `k` bytes from `i` on comes to 0.
unfoldable pub same_bytes : ℕ → ℕ → (ℕ → ℕ) → (ℕ → ℕ) → Bool
same_bytes zero i a b = true
same_bytes (suc k) i a b = (a i == b i) && same_bytes k (i + 1) a b

-- How the search in a sector ends: an entry matches, all entries of the directory have been seen,
-- or the sector is through, after `m` entries.
pub data Scan : Type 0 where
  found : ℕ → Scan
  stop : Scan
  next : ℕ → Scan

-- The inner loop of `search_file` from slot `j` on, with `k` slots left.
unfoldable pub search_slots : ℕ → ℕ → ℕ → ℕ → (ℕ → ℕ) → (ℕ → DirEntry) → Scan
search_slots zero j m n name t = next m
search_slots (suc k) j m n name t =
    let rest = search_slots k (j + 1) (m + 1) n name t in
    if same_bytes max_filename_len 0 name (t j).bytes
    then found (t j).inode_nr
    else if ltb n (m + 1)
    then stop
    else rest

-- The outer loop from sector `sect` on, with `k` sectors left.
unfoldable pub search_blks : ℕ → ℕ → ℕ → ℕ → (ℕ → ℕ) → (ℕ → ℕ → DirEntry) → ℕ
search_blks zero sect m n name t = 0
search_blks (suc k) sect m n name t = elim (search_slots entries_per_sect 0 m n name (t sect)) [
  | found nr ↦ nr
  | stop ↦ 0
  | next m' ↦ let rest = search_blks k (sect + 1) m' n name t in if ltb n m' then 0 else rest
]

-- `search_file` from the end of `strip_path` on: the inode number of file `name` in the directory
-- `v`, or 0.
unfoldable pub search_dir : Inode → (ℕ → ℕ) → Dirs → ℕ
search_dir v name s =
    search_blks (add_u32 v.i_size (sector_size - 1) / sector_size) v.i_start_sect 0
      (v.i_size / dir_entry_size) name (s.entries v.i_dev)

-- How the search for a free slot ends in a sector: behind the entries of the directory at slot
-- `j`, at a free slot `j`, or through.
pub data Slot : Type 0 where
  behind : ℕ → Slot
  free : ℕ → Slot
  all_used : ℕ → Slot

-- The inner loop of `new_dir_entry`
unfoldable pub free_slots : ℕ → ℕ → ℕ → ℕ → (ℕ → DirEntry) → Slot
free_slots zero j m n t = all_used m
free_slots (suc k) j m n t =
    let rest = free_slots k (j + 1) (m + 1) n t in
    if ltb n (m + 1) then behind j else if (t j).inode_nr == 0 then free j else rest

-- Where the new entry goes: `i`, the slot in that sector, and whether it is behind the others.
-- `none` stands for the end of the loop with no slot, where `pde` has left the buffer.
unfoldable pub free_blks : ℕ → ℕ → ℕ → ℕ → ℕ → (ℕ → ℕ → DirEntry) → Option (ℕ × ℕ × Bool)
free_blks zero i m n sect t = none
free_blks (suc k) i m n sect t = elim (free_slots entries_per_sect 0 m n (t (sect + i))) [
  | behind j ↦ some (i, j, true)
  | free j ↦ some (i, j, false)
  | all_used m' ↦ let rest = free_blks k (i + 1) m' n sect t in if ltb n m' then none else rest
]

-- The length of a string, with fuel for MAX_PATH characters
unfoldable pub strlen : ℕ → ℕ → (ℕ → ℕ) → ℕ
strlen zero i s = i
strlen (suc k) i s = let rest = strlen k (i + 1) s in if s i == 0 then i else rest

-- `strcpy`
abbrev pub strcpy : (ℕ → ℕ) → (ℕ → ℕ) → ℕ → ℕ
strcpy to from = λ x. if leb x (strlen max_path 0 from) then from x else to x

-- The slot filled: number, type and name, in this order
unfoldable pub fill_entry : DirEntry → ℕ → (ℕ → ℕ) → ℕ → DirEntry
fill_entry e nr name type = record {
  inode_nr = nr;
  bytes = strcpy (update e.bytes type_at type) name;
}

unfoldable pub new_dir_entry : ℕ → ℕ → (ℕ → ℕ) → ℕ → Dirs → Option Dirs
new_dir_entry p nr name type s =
    let v : Inode = s.fs.inode_table p in
    elim (free_blks (add_u32 v.i_size sector_size / sector_size) 0 0 (v.i_size / dir_entry_size)
      v.i_start_sect (s.entries v.i_dev)) [
        | none ↦ none
        | some (i, j, grows) ↦
            let t : ℕ → ℕ → DirEntry = s.entries v.i_dev in
            let sect : ℕ = v.i_start_sect + i in
            let filled : ℕ → ℕ → DirEntry =
              update t sect (update (t sect) j (fill_entry (t sect j) nr name type)) in
            let grown : Fs =
              if grows
              then set_inode p (record v { i_size = add_u32 v.i_size dir_entry_size }) s.fs
              else s.fs in
            elim (sync_inode p grown) [
              | none ↦ none
              | some fs' ↦ some record { fs = fs'; entries = update s.entries v.i_dev filled }
            ]
      ]
