-- ===== src/Fs/ReadWrite/Plan.antt =====
-- The sectors and the end of the transfer that `do_rdwt` of fs/read_write.c works out, within the
-- bounds of the machine's integers.
use bird_os.Prelude.{ℕ, ◌+◌, ◌-◌, ◌*◌, ◌/◌, ◌%◌, ◌^◌, ◌≤◌, ◌<◌, ◌≡◌, sub_u32, add_u32, arith}
use bird_os.Fs.Types.{Inode}
use bird_os.Fs.ReadWrite.{Io, pos_end, umin, sects_of, rest_of}

-- How far a transfer can go: to the end of the file, or of its sectors.
abbrev pub limit : Io → Inode → ℕ
limit Io.read v = v.i_size
limit Io.write v = v.i_nr_sects * 512

-- The file lies within the first 2^31 bytes of the device and is not longer than its sectors, and
-- the caller's buffer lies within the memory.
pub record Sane (v : Inode) (base buf len : ℕ) : Type 0 where
  pub on_disk : v.i_start_sect + v.i_nr_sects + 2049 < 2 ^ 22
  pub in_sects : v.i_size ≤ v.i_nr_sects * 512
  pub asked : len < 2 ^ 31
  pub in_mem : base + buf + len < 2 ^ 32

abbrev pub end_of : Io → ℕ → ℕ → Inode → ℕ
end_of io pos len v = umin (pos + len) (limit io v)

module _ (v : Inode) (base buf len pos : ℕ) (s : Sane v base buf len) where
  pub limit_le : (io : Io) → limit io v ≤ v.i_nr_sects * 512
  limit_le Io.read = s.in_sects
  limit_le Io.write = omega arith

  pub pos_end_lem : (io : Io) → pos ≤ limit io v → pos_end io pos len v ≡ end_of io pos len v
  pos_end_lem Io.read le = ground (arith, s.asked, s.in_sects, s.on_disk)
  pos_end_lem Io.write le = ground (arith, s.asked, s.in_sects, s.on_disk)

  pub sect_lem :
      (a : ℕ)
      → a ≤ v.i_nr_sects * 512
      → add_u32 v.i_start_sect (sects_of a) ≡ v.i_start_sect + a / 512
  sect_lem a le = ground (arith, s.on_disk)

  pub rest_lem : (a : ℕ) → a ≤ v.i_nr_sects * 512 → rest_of a ≡ a % 512
  rest_lem a le = ground (arith, s.on_disk)

  pub sects_lem :
      (a b : ℕ)
      → a ≤ b
      → b ≤ v.i_nr_sects * 512
      → add_u32 (sub_u32 (v.i_start_sect + b / 512) (v.i_start_sect + a / 512)) 1
        ≡ b / 512 - a / 512 + 1
  sects_lem a b le lb = omega (arith, s.on_disk)
