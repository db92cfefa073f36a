-- ===== src/Fs/Paths.antt =====
-- Paths: `strip_path` and `search_file` of fs/misc.c. A string is an array of characters up to the
-- first 0.
pub mod Flat
pub mod Create
mod Tests
use bird_os.Prelude.{
  ℕ, zero, suc, ◌+◌, ◌-◌, ◌*◌, ◌/◌, ◌%◌, ◌^◌, Bool, true, false, ◌&&◌, ◌||◌, not, Option, none,
  some, ◌==◌, ltb, leb, if◌then◌else◌, add_u32, update,
}
use bird_os.Fs.Types.{Fs, Inode, nr_inode, sector_size}
use bird_os.Fs.ReadWrite.{i_directory}
use bird_os.Fs.Inodes.{Found, hit, miss, inode_loop, set_inode, sync_inode, get_inode, put_inode}
use bird_os.Fs.Directory.{
  DirEntry, Dirs, max_filename_len, max_path, entries_per_sect, dir_entry_size, search_dir,
}

-- `strcmp` comes to 0, with fuel for MAX_PATH characters.
unfoldable pub strcmp_eq : ℕ → ℕ → (ℕ → ℕ) → (ℕ → ℕ) → Bool
strcmp_eq zero i a b = true
strcmp_eq (suc k) i a b =
    let rest = strcmp_eq k (i + 1) a b in
    if not (a i == b i) then false else if a i == 0 then true else rest

-- How the search for a directory ends: a failure of the machine (a null pointer or a full table),
-- the result -1, the slot of the directory's inode, or no slot in this sector.
pub data Enter : Type 0 where
  broken : Enter
  refused : Enter
  entered : ℕ → Fs → Enter
  absent : ℕ → Fs → Enter

-- The words of `fsbuf` read as entries
abbrev pub buffer_entries : (ℕ → ℕ) → ℕ → DirEntry
buffer_entries w =
    λ j. record { inode_nr = w (4 * j); bytes = λ b. (w (4 * j + 1 + b / 4) / 256 ^ (b % 4)) % 256 }

-- What `fsbuf` holds after a `get_inode` that led from `s` to `s'`: the sector of the inode, if
-- the inode was not in the table.
abbrev pub after_get : ℕ → ℕ → (ℕ → DirEntry) → Fs → Fs → ℕ → DirEntry
after_get dev num t s s' = elim (inode_loop nr_inode 0 none dev num s.inode_table) [
  | hit p ↦ t
  | miss q ↦ buffer_entries s'.fsbuf
]

-- The inner loop of `strip_path` in directory `p`: slots of the first sector, where `get_inode`
-- takes the inode of an entry with the name, and only a directory is entered.
unfoldable pub enter_slots : ℕ → ℕ → ℕ → ℕ → (ℕ → ℕ) → ℕ → (ℕ → DirEntry) → Fs → Enter
enter_slots zero j m n name p t s = absent m s
enter_slots (suc k) j m n name p t s = elim (strcmp_eq max_path 0 name (t j).bytes) [
  | false ↦ elim (ltb n (m + 1)) [
    | true ↦ refused
    | false ↦ enter_slots k (j + 1) (m + 1) n name p t s
  ]
  | true ↦ elim (get_inode (s.inode_table p).i_dev (t j).inode_nr s) [
    | none ↦ broken
    | some (none, s') ↦ broken
    | some (some q, s') ↦ elim ((s'.inode_table q).i_mode == i_directory) [
      | true ↦ entered q (put_inode p s')
      | false ↦ elim (ltb n (m + 1)) [
        | true ↦ refused
        | false ↦
            enter_slots k (j + 1) (m + 1) n name p
              (after_get (s.inode_table p).i_dev (t j).inode_nr t s s') s'
      ]
    ]
  ]
]

-- The search at a `/`. Unless the directory is entered from its first sector, the result is -1.
unfoldable pub enter_dir : (ℕ → ℕ) → ℕ → (ℕ → ℕ → ℕ → DirEntry) → Fs → Enter
enter_dir name p entries s =
    let v : Inode = s.inode_table p in
    if add_u32 v.i_size (sector_size - 1) / sector_size == 0
    then refused
    else enter_slots entries_per_sect 0 0 (v.i_size / dir_entry_size) name p
        (entries v.i_dev v.i_start_sect) s

-- The result of `strip_path`: a failure of the machine, -1, or the last name with its directory.
pub data Stripped : Type 0 where
  broken_path : Stripped
  invalid : Stripped
  stripped : (ℕ → ℕ) → ℕ → Fs → Stripped

-- The loop from character `i` of the path on, with `t - filename` in `t` and fuel `k`.
unfoldable pub strip_loop :
    ℕ → ℕ → ℕ → (ℕ → ℕ) → (ℕ → ℕ) → ℕ → (ℕ → ℕ → ℕ → DirEntry) → Fs → Stripped
strip_loop zero i t path name p entries s = broken_path
strip_loop (suc k) i t path name p entries s = elim (path i == 0) [
  | true ↦ stripped (update name t 0) p s
  | false ↦ elim (path i == 0x2f) [
    | true ↦ elim (enter_dir (update name t 0) p entries s) [
      | broken ↦ broken_path
      | refused ↦ invalid
      | absent m s' ↦ invalid
      | entered q s' ↦ strip_loop k (i + 1) 0 path (update name t 0) q entries s'
    ]
    | false ↦ elim (leb max_filename_len (t + 1)) [
      | true ↦ stripped (update (update name t (path i)) (t + 1) 0) p s
      | false ↦ strip_loop k (i + 1) (t + 1) path (update name t (path i)) p entries s
    ]
  ]
]

-- `strip_path` of a path that is not a null pointer, where `root` is the slot of `root_inode` and
-- `name` is what the array for the name holds before.
unfoldable pub strip_path : (ℕ → ℕ) → (ℕ → ℕ) → ℕ → Dirs → Stripped
strip_path name path root s =
    strip_loop (max_path + 1) (if path 0 == 0x2f then 1 else 0) 0 path name root s.entries s.fs

-- `search_file`: the number, or `none` for a failure of the machine. `name` is the array before
-- its first bytes are cleared.
unfoldable pub search_file : (ℕ → ℕ) → (ℕ → ℕ) → ℕ → Dirs → Option (ℕ × Dirs)
search_file name path root s =
    elim (strip_path (λ x. if ltb x max_filename_len then 0 else name x) path root s) [
      | broken_path ↦ none
      | invalid ↦ some (0, s)
      | stripped file p fs' ↦
          let t : Dirs = record s { fs = fs' } in
          if file 0 == 0
          then some ((fs'.inode_table p).i_num, t)
          else some (search_dir (fs'.inode_table p) file t, t)
    ]
