-- ===== src/Fs/ReadWrite/Tests.antt =====
-- Transfers of inode 5 in the tables of Fs/Tests.antt, at position 10 of its 1000 bytes.
use bird_os.Prelude.{ℕ, ◌+◌, ◌-◌, ◌*◌, ◌/◌, ◌%◌, ◌<◌, ◌≡◌, refl, some, arith}
use bird_os.Fs.Types.{Fs}
unfoldable use bird_os.Fs.Inodes.{super_loop}
use bird_os.Fs.Descriptors.{do_lseek, seek_set}
use bird_os.Fs.ReadWrite.{Files, Io, returned, do_rdwt, umin}
use bird_os.Fs.ReadWrite.Moves.{Moved}
use bird_os.Fs.ReadWrite.Plan.{Sane}
use bird_os.Fs.ReadWrite.Effect.{ended_at}
use bird_os.Fs.ReadWrite.Tables.{IsOpen}
use bird_os.Fs.ReadWrite.Laws.{do_rdwt-Moved, do_rdwt-overruns}
use bird_os.Fs.ReadWrite.RoundTrip.{do_rdwt-roundtrip}
use bird_os.Fs.Tests.{two_sharers, root_sb, five}

abbrev files : Files
files = record {
  fs = two_sharers;
  content = λ dev x. x % 256;
  buffer = λ x. 0;
  mem = λ x. (x * 7) % 256;
}

is_open : IsOpen 7 1 0 2 root_sb two_sharers
unfolding super_loop
is_open = record { desc = refl; mode = refl; node = refl; regular = refl; device = refl }

sane : (buf len : ℕ) → buf + len < 0x10000 → Sane five 0x400000 buf len
sane buf len lt = record {
  on_disk = omega arith;
  in_sects = omega arith;
  asked = omega arith;
  in_mem = omega arith;
}

-- 3000 bytes written, more than the file has
do_rdwt-Moved_example :
    (n : ℕ) × (f' : Files) × (do_rdwt Io.write 7 1 0x400000 0x2000 3000 files ≡ returned n f')
    × (n ≡ umin 3000 ((umin (10 + 3000) (2048 * 512) / 512 + 1) * 512 - 10))
    × Moved Io.write 0x320 (2348 * 512 + 10) (0x400000 + 0x2000) n files f'
    × (f'.fs ≡ ended_at 0 2 (10 + n) root_sb two_sharers)
do_rdwt-Moved_example =
    do_rdwt-Moved Io.write 7 1 0 2 0x400000 0x2000 3000 files root_sb is_open
      (sane 0x2000 3000 (omega arith)) (omega arith) (omega arith)

-- 3000 bytes read, though the file has only 990 more
do_rdwt-overruns_example :
    (n : ℕ) × (f' : Files) × (do_rdwt Io.read 7 1 0x400000 0x2000 3000 files ≡ returned n f')
    × (1000 < 10 + n)
    × Moved Io.read 0x320 (2348 * 512 + 10) (0x400000 + 0x2000) n files f'
    × ((f'.fs.inode_table 2).i_size ≡ 10 + n)
do_rdwt-overruns_example =
    do_rdwt-overruns Io.read 7 1 0 2 0x400000 0x2000 3000 files root_sb is_open
      (sane 0x2000 3000 (omega arith)) (omega arith) (omega arith) (omega arith)

do_rdwt-roundtrip_example :
    (f1 : Files) × (t2 : Fs) × (f3 : Files) × (do_rdwt Io.write 7 1 0x400000 0x2000 3000 files
      ≡ returned 3000 f1)
    × (do_lseek 7 1 10 seek_set f1.fs ≡ some (10, t2))
    × (do_rdwt Io.read 7 1 0x400000 0x4000 3000 (record f1 { fs = t2 }) ≡ returned 3000 f3)
    × ((x : ℕ) → x < 3000 → f3.mem (0x400000 + 0x4000 + x) ≡ files.mem (0x400000 + 0x2000 + x))
do_rdwt-roundtrip_example =
    do_rdwt-roundtrip 7 1 0 2 0x400000 0x2000 0x4000 3000 files root_sb is_open
      (sane 0x2000 3000 (omega arith)) (omega arith) (omega arith) (omega arith)
