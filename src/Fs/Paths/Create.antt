-- ===== src/Fs/Paths/Create.antt =====
-- A file that is entered into the root directory is found by its path: `new_dir_entry` of
-- fs/open.c, and `search_file` and `strip_path` of fs/misc.c.
use bird_os.Prelude.{ℕ, ◌+◌, ◌*◌, ◌^◌, ◌≤◌, ◌<◌, ◌≡◌, ◌⊎◌, ap, ◌∙◌, true, false, some, arith}
use bird_os.Fs.Types.{Inode, SuperBlock}
use bird_os.Fs.Inodes.{get_super_block}
use bird_os.Fs.Directory.{DirEntry, Dirs, new_dir_entry}
use bird_os.Fs.Paths.{search_file}
use bird_os.Fs.Directory.Search.{entry_at, matches}
use bird_os.Fs.Directory.Insert.{is_free}
use bird_os.Fs.Directory.Lookup.{IsName, padded}
use bird_os.Fs.Directory.RoundTrip.{search_dir-new_dir_entry}
use bird_os.Fs.Paths.Flat.{IsFlat, start, search_file-flat}

module _ (root n nr type l : ℕ) (name path array : ℕ → ℕ) (sb : SuperBlock) (s : Dirs) where
  abbrev dir : Inode
  dir = s.fs.inode_table root

  abbrev entry : ℕ → DirEntry
  entry h = entry_at (s.entries dir.i_dev) dir.i_start_sect h

  -- The root directory has `n` entries, and a super block; the name has from one to ten characters;
  -- the path is the name, with or without a `/` before it; no entry of the directory, nor the two
  -- behind its last one, has the name; and the bytes of its free entries, and of that behind the
  -- last one, are 0. Then `new_dir_entry` succeeds, and `search_file` of the path gives the number
  -- of the new entry and changes nothing.
  pub search_file-new_dir_entry :
      get_super_block dir.i_dev s.fs ≡ some sb
      → dir.i_size ≡ n * 16
      → n < 2 ^ 27
      → IsName name l
      → 1 ≤ l
      → IsFlat path (start path) l
      → ((x : ℕ) → x < l → path (start path + x) ≡ name x)
      → ((h : ℕ) → h ≤ n + 1 → matches (padded name l) (entry h) ≡ false)
      → ((h : ℕ) → (is_free (entry h) ≡ true) ⊎ (h ≡ n) → (x : ℕ) → x < 11 → (entry h).bytes x ≡ 0)
      → (s' : Dirs) × (new_dir_entry root nr name type s ≡ some s')
        × (search_file array path root s' ≡ some (nr, s'))
  search_file-new_dir_entry e size lt v ge flat same other_names clean =
      let (s', made, finds) =
        search_dir-new_dir_entry root n nr type l name sb s e size lt v other_names clean in
      let (file, runs, bytes) =
        search_file-flat array path root l s' ge (omega (arith, v.fits)) flat in
      let agree : (x : ℕ) → x < 11 → file x ≡ padded name l x =
        λ x b. bytes x b ∙ ground (arith, v.fits, same x) in
      (s', made, runs ∙ ap (λ x. some (x, s')) (finds file agree))
