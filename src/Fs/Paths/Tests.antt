-- ===== src/Fs/Paths/Tests.antt =====
-- A root directory of three entries, of which the second is free, and a file `b` entered there.
use bird_os.Prelude.{
  ℕ, ◌+◌, ◌/◌, ◌<◌, ◌≡◌, ◌⊎◌, inl, inr, refl, true, false, some, ◌==◌, ltb, if◌then◌else◌, update,
  arith,
}
use bird_os.Fs.Types.{Inode}
use bird_os.Fs.Inodes.{get_super_block}
unfoldable use bird_os.Fs.Inodes.{super_loop}
use bird_os.Fs.Directory.{DirEntry, Dirs, new_dir_entry, search_dir}
use bird_os.Fs.Paths.{stripped, search_file, strip_path}
unfoldable use bird_os.Fs.Directory.{same_bytes}
use bird_os.Fs.Directory.Search.{entry_at, matches, Finds, search_dir-Finds}
use bird_os.Fs.Directory.Insert.{is_free}
use bird_os.Fs.Directory.Lookup.{IsName, padded}
use bird_os.Fs.Paths.Flat.{IsFlat, start, kept, strip_path-flat}
use bird_os.Fs.Paths.Create.{search_file-new_dir_entry}
use bird_os.Fs.Tests.{two_sharers, root_sb, five}

abbrev root_inode : Inode
root_inode = record five { i_mode = 0x4000; i_size = 48; i_start_sect = 300; i_num = 1 }

abbrev one_char : ℕ → ℕ → ℕ
one_char c x = if x == 0 then c else 0

abbrev entries : ℕ → ℕ → ℕ → DirEntry
entries dev sect j = record {
  inode_nr = if j == 0 then 1 else if j == 2 then 5 else 0;
  bytes = one_char (if j == 0 then 0x2e else if j == 2 then 0x61 else 0);
}

abbrev root_dir : Dirs
root_dir = record {
  fs = record two_sharers { inode_table = update two_sharers.inode_table 0 root_inode };
  entries = entries;
}

abbrev b : ℕ → ℕ
b = one_char 0x62

abbrev path_b : ℕ → ℕ
path_b x = if x == 0 then 0x2f else if x == 1 then 0x62 else 0

search_dir-Finds_example :
    Finds ((48 + 511) / 512) 300 0 (48 / 16) b (entries 0x320) (search_dir root_inode b root_dir)
search_dir-Finds_example = search_dir-Finds root_inode b root_dir (omega arith)

path_b-IsFlat : IsFlat path_b (start path_b) 1
path_b-IsFlat = record {
  ended = refl;
  not_ended = λ x lt. ground (arith, lt);
  no_slash = λ x lt. ground (arith, lt);
}

strip_path-flat_example :
    (file : ℕ → ℕ) × (strip_path (one_char 7) path_b 0 root_dir ≡ stripped file 0 root_dir.fs)
    × ((x : ℕ)
        → file x ≡ (
            if ltb x (kept 1)
            then path_b (start path_b + x)
            else if x == kept 1
            then 0
            else one_char 7 x))
strip_path-flat_example =
    strip_path-flat (one_char 7) path_b 0 1 root_dir (omega arith) path_b-IsFlat

b-IsName : IsName b 1
b-IsName = record { fits = omega arith; ended = refl; not_before = λ x lt. ground (arith, lt) }

supers : get_super_block 0x320 root_dir.fs ≡ some root_sb
unfolding super_loop
supers = refl

other_name : (h : ℕ) → matches (padded b 1) (entry_at (entries 0x320) 300 h) ≡ false
unfolding same_bytes
other_name h =
    let e : (0x62 == (entry_at (entries 0x320) 300 h).bytes 0) ≡ false = ground arith in rw e refl

clean :
    (h : ℕ)
    → (is_free (entry_at (entries 0x320) 300 h) ≡ true) ⊎ (h ≡ 3)
    → (x : ℕ) → x < 11
    → (entry_at (entries 0x320) 300 h).bytes x ≡ 0
clean h (inl e) x lt = ground (arith, e)
clean h (inr e) x lt = ground (arith, e)

search_file-new_dir_entry_example :
    (s' : Dirs) × (new_dir_entry 0 6 b 0x66 root_dir ≡ some s')
    × (search_file (one_char 7) path_b 0 s' ≡ some (6, s'))
search_file-new_dir_entry_example =
    search_file-new_dir_entry 0 3 6 0x66 1 b path_b (one_char 7) root_sb root_dir supers refl
      (omega arith) b-IsName (omega arith) path_b-IsFlat (λ x lt. ground (arith, lt))
      (λ h lt. other_name h) clean
