-- ===== src/Fs/Tests.antt =====
-- The theorems on the file system at concrete tables, and runs of its operations.
use bird_os.Prelude.{
  ℕ, Bool, false, leb, ◌-◌, ◌/◌, ◌%◌, ◌+◌, ◌*◌, ◌≢◌, ltb, ◌≤◌, ◌<◌, ◌≡◌, refl, true, ◌&&◌, ◌||◌,
  none, some, ◌==◌, if◌then◌else◌, arith, update,
}
use bird_os.Fs.Types.{Fs, Inode, SuperBlock, nr_files}
use bird_os.Fs.Inodes.{get_super_block}
unfoldable use bird_os.Fs.Inodes.{
  super_loop, get_inode, inode_loop, share_inode, read_inode, sync_inode,
}
use bird_os.Fs.Inodes.Table.{Unique, holds}
use bird_os.Fs.Inodes.Cache.{Returns, get_inode-Returns, get_inode-Unique}
use bird_os.Fs.Inodes.Sync.{Reads, read_inode-sync_inode, sync_inode-clobbers}
use bird_os.Fs.Descriptors.{opened, fs_fork, fs_exit}
unfoldable use bird_os.Fs.Descriptors.{do_lseek}
use bird_os.Fs.Descriptors.Seek.{Sought, do_lseek-Sought}
use bird_os.Fs.Descriptors.Fork.{uses, Small}
use bird_os.Fs.Descriptors.Exit.{kept, fs_exit-fs_fork}
use bird_os.Fs.Bitmap.{free_imap_bit}
unfoldable use bird_os.Fs.Bitmap.{alloc_imap_bit, alloc_in_sector, free_byte, is_full, clear_bit}
use bird_os.Fs.Bitmap.Imap.{
  Allocates, imap_bit, alloc_imap_bit-Allocates, free_imap_bit-alloc_imap_bit,
}
use bird_os.Fs.Bitmap.Smap.{alloc_smap_bit}
use bird_os.Fs.Bitmap.Smap.Alloc.{Starts, alloc_smap_bit-Starts}
use bird_os.Fs.Bitmap.Free.{free_sects}
use bird_os.Fs.Bitmap.Free.Laws.{free_sects-clears}

abbrev pub root_sb : SuperBlock
root_sb = record { nr_imap_sects = 1; nr_smap_sects = 4; n_1st_sect = 300; sb_dev = 0x320 }

abbrev unused : Inode
unused = record {
  i_mode = 0;
  i_size = 0;
  i_start_sect = 0;
  i_nr_sects = 0;
  i_node_length = 0;
  i_sects_pos = λ i. 0;
  i_dev = 0;
  i_cnt = 0;
  i_num = 0;
}

-- Inode 5 of the root device, used once
abbrev pub five : Inode
five = record unused {
  i_mode = 0x8000;
  i_size = 1000;
  i_start_sect = 2348;
  i_nr_sects = 2048;
  i_dev = 0x320;
  i_cnt = 1;
  i_num = 5;
}

-- Descriptor 0 leads to inode 5 in slot 2; process 7 has it as file 1, and process 8 as well.
abbrev pub two_sharers : Fs
two_sharers = record {
  inode_table = update (λ i. unused) 2 five;
  f_desc_table = λ d. record {
    fd_mode = 2;
    fd_pos = 10;
    fd_cnt = 0;
    fd_inode = if d == 0 then some 2 else none;
  };
  super_block = λ i. root_sb;
  filp = λ pid i. if ((pid == 7) || (pid == 8)) && (i == 1) then some 0 else none;
  fsbuf = λ w. 0;
  disk = λ dev sect w. w;
}

found : get_super_block 0x320 two_sharers ≡ some root_sb
unfolding super_loop
found = refl

get_inode-Returns_example : Returns 0x320 5 two_sharers (get_inode 0x320 5 two_sharers)
get_inode-Returns_example = get_inode-Returns 0x320 5 two_sharers root_sb found (omega arith)

pub shares : get_inode 0x320 5 two_sharers ≡ some (some 2, share_inode 2 two_sharers)
unfolding get_inode inode_loop
shares = refl

only_two : (p dev num : ℕ) → holds (two_sharers.inode_table p) dev num ≡ true → p ≡ 2
only_two p dev num h = ground (arith, h)

two_sharers-Unique : Unique two_sharers.inode_table
two_sharers-Unique p q dev num lp lq hp hq =
    omega (arith, only_two p dev num hp, only_two q dev num hq)

get_inode-Unique_example : Unique (share_inode 2 two_sharers).inode_table
get_inode-Unique_example =
    get_inode-Unique 0x320 5 two_sharers root_sb (some 2) (share_inode 2 two_sharers) found shares
      two_sharers-Unique

read_inode-sync_inode_example :
    (s' : Fs) × (sync_inode 2 two_sharers ≡ some s')
    × Reads 3
        (λ v.
          (v.i_mode ≡ 0x8000) × (v.i_size ≡ 1000) × (v.i_start_sect ≡ 2348) × (v.i_nr_sects ≡ 2048))
        (read_inode 3 0x320 5 s')
read_inode-sync_inode_example = read_inode-sync_inode 2 3 two_sharers root_sb found

sync_inode-clobbers_example :
    (s' : Fs) × (sync_inode 2 two_sharers ≡ some s')
    × Reads 3 (λ v. (v.i_mode ≡ 0) × (v.i_size ≡ 0)) (read_inode 3 0x320 6 s')
sync_inode-clobbers_example =
    sync_inode-clobbers 2 3 two_sharers root_sb found (omega arith) (omega arith)

is_open : opened 7 1 two_sharers ≡ some (0, 2)
unfolding opened
is_open = refl

-- 990 bytes on, to the end of the file
do_lseek-Sought_example : Sought 0 1000 two_sharers (do_lseek 7 1 990 2 two_sharers)
do_lseek-Sought_example =
    do_lseek-Sought 7 1 990 2 two_sharers 0 2 is_open (omega arith) (omega arith)

one_file :
    (j d : ℕ)
    → 0 ≤ j
    → j < 64
    → two_sharers.filp 8 j ≡ some d
    → (p : ℕ) × ((two_sharers.f_desc_table d).fd_inode ≡ some p)
one_file j d lo hi e = (2, ground (arith, e))

counts-Small : Small nr_files two_sharers
counts-Small = (λ d. omega arith, λ p. ground arith)

-- Process 8 forks off as a child and exits: the descriptor's count was 0, so it loses its inode,
-- though process 7 has it.
fs_exit-fs_fork_example :
    (s1 : Fs) × (s2 : Fs) × (fs_fork 8 two_sharers ≡ some s1)
    × (fs_exit 8 s1 ≡ some s2)
    × ((d : ℕ) → (s2.f_desc_table d).fd_cnt ≡ 0)
    × ((p : ℕ) → (s2.inode_table p).i_cnt ≡ (two_sharers.inode_table p).i_cnt)
    × ((j : ℕ) → j < nr_files → s2.filp 8 j ≡ none)
    × ((d : ℕ)
        → (s2.f_desc_table d).fd_inode
          ≡ kept (uses (two_sharers.filp 8) nr_files 0 d) 0 (two_sharers.f_desc_table d).fd_inode)
fs_exit-fs_fork_example = fs_exit-fs_fork 8 two_sharers one_file counts-Small

-- A map in whose first sector the inodes 0 to 10 are in use
abbrev eleven_used : ℕ → ℕ → ℕ → Bool
eleven_used sect j k = ltb (j * 8 + k) 11

abbrev eleven_set : ℕ → ℕ → ℕ → Bool
eleven_set = update eleven_used 2 (update (eleven_used 2) 1 (update (eleven_used 2 1) 3 true))

eleven : alloc_imap_bit root_sb eleven_used ≡ some (11, eleven_set)
unfolding alloc_imap_bit alloc_in_sector free_byte is_full clear_bit
eleven = refl

alloc_imap_bit-Allocates_example : Allocates eleven_used (alloc_imap_bit root_sb eleven_used)
alloc_imap_bit-Allocates_example = alloc_imap_bit-Allocates eleven_used root_sb (omega arith)

free_imap_bit-alloc_imap_bit_example :
    (maps : ℕ → ℕ → ℕ → Bool) × (free_imap_bit 11 eleven_set ≡ some maps)
    × ((m : ℕ) → imap_bit m maps ≡ imap_bit m eleven_used)
    × ((i : ℕ) → i ≢ 2 → maps i ≡ eleven_used i)
free_imap_bit-alloc_imap_bit_example =
    free_imap_bit-alloc_imap_bit root_sb eleven_used eleven_set 11 (omega arith) (omega arith)
      eleven

-- A sector map whose first 100 bits are set
abbrev hundred_used : ℕ → ℕ → ℕ → Bool
hundred_used sect j k = (sect == 3) && ltb (j * 8 + k) 100

alloc_smap_bit-Starts_example :
    Starts 300 3 0 (4096 * 4) 2048 hundred_used (alloc_smap_bit root_sb 2048 hundred_used)
alloc_smap_bit-Starts_example =
    alloc_smap_bit-Starts root_sb 2048 hundred_used (omega arith) (omega arith)

-- The map in which all is set, and file `five` deleted
abbrev all_used : ℕ → ℕ → ℕ → Bool
all_used sect j k = true

free_sects-clears_example : free_sects root_sb five all_used (1800 / 512) (1800 % 512) 5 ≡ (
    if leb ((2 + 1) * 4096 + (2348 - 300 + 1)) (1800 * 8 + 5)
      && ltb (1800 * 8 + 5) ((2 + 1) * 4096 + (2348 - 300 + 1) + 2048)
    then false
    else true)
free_sects-clears_example =
    free_sects-clears root_sb five all_used 1800 5 (omega arith) (omega arith) (omega arith)
