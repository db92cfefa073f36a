-- ===== src/Fs/Bitmap/Smap.antt =====
-- The sector map: `alloc_smap_bit` of fs/open.c.
pub mod Marks
pub mod Search
pub mod Sectors
pub mod Alloc
use bird_os.Prelude.{
  ℕ, zero, suc, ◌+◌, ◌-◌, ◌*◌, ◌≡◌, refl, ◌∙◌, Bool, true, false, ◌==◌, if◌then◌else◌, Bool-cases,
  inl, inr, arith, update,
}
use bird_os.Fs.Types.{SuperBlock, sector_size}
use bird_os.Fs.Bitmap.{Byte, Sector}
unfoldable use bird_os.Fs.Bitmap.{is_full, clear_bit}

-- The bits of a byte set from bit `k` on, with `n` bits left in it, until `left` sectors are
-- allocated; the byte, and what is left.
unfoldable pub mark_bits : ℕ → ℕ → ℕ → Byte → Byte × ℕ
mark_bits zero k left b = (b, left)
mark_bits (suc n) k left b =
    let marked : Byte = update b k true in
    let rest = mark_bits n (k + 1) (left - 1) marked in if left - 1 == 0 then (marked, 0) else rest

-- How far the allocation has come: the buffer, the number of sectors still to allocate, and the
-- first sector, 0 before it is found.
pub record Progress : Type 0 where
  pub fsbuf : Sector
  pub left : ℕ
  pub free_sect_nr : ℕ

-- Byte `j`, from bit `k` on
unfoldable pub mark_byte : ℕ → ℕ → Progress → Progress
mark_byte j k s =
    let (b, left) = mark_bits (8 - k) k s.left (s.fsbuf j) in
    record s { fsbuf = update s.fsbuf j b; left = left }

-- Byte `j` of sector `i` of the map. The number of the first data sector, `n_1st`, is at least 1.
unfoldable pub alloc_in_byte : ℕ → ℕ → ℕ → Progress → Progress
alloc_in_byte n_1st i j s =
    let k : ℕ = clear_bit 8 0 (s.fsbuf j) in
    if s.free_sect_nr == 0
    then if is_full 8 (s.fsbuf j)
      then s
      else mark_byte j k (record s { free_sect_nr = (i * sector_size + j) * 8 + k + n_1st - 1 })
    else mark_byte j 0 s

-- The bytes of a sector from `j` on, with `n` of them left.
unfoldable pub byte_loop : ℕ → ℕ → ℕ → ℕ → Progress → Progress
byte_loop zero n_1st i j s = s
byte_loop (suc n) n_1st i j s = elim (s.left == 0) [
  | true ↦ s
  | false ↦ byte_loop n n_1st i (j + 1) (alloc_in_byte n_1st i j s)
]

-- The sectors of the map from sector `i` on, with `n` of them left; `blk0` is the map's first
-- sector on the disk.
unfoldable pub sect_loop : ℕ → ℕ → ℕ → ℕ → ℕ → ℕ → (ℕ → Sector) → ℕ × (ℕ → Sector)
sect_loop zero n_1st blk0 i left free maps = (free, maps)
sect_loop (suc n) n_1st blk0 i left free maps =
    let s : Progress =
      byte_loop sector_size n_1st i 0
        (record { fsbuf = maps (blk0 + i); left = left; free_sect_nr = free }) in
    let written : ℕ → Sector =
      if s.free_sect_nr == 0 then maps else update maps (blk0 + i) s.fsbuf in
    elim (s.left == 0) [
      | true ↦ (s.free_sect_nr, written)
      | false ↦ sect_loop n n_1st blk0 (i + 1) s.left s.free_sect_nr written
    ]

unfoldable pub alloc_smap_bit : SuperBlock → ℕ → (ℕ → Sector) → ℕ × (ℕ → Sector)
alloc_smap_bit sb nr_sects_to_alloc maps =
    sect_loop sb.nr_smap_sects sb.n_1st_sect (1 + 1 + sb.nr_imap_sects) 0 nr_sects_to_alloc 0 maps
