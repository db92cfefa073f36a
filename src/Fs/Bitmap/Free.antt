-- ===== src/Fs/Bitmap/Free.antt =====
-- How `do_unlink` of fs/link.c frees the sectors of a file in the sector map.
pub mod Steps
pub mod Laws
use mathlib.Core.Path.{fun_ext}
use bird_os.Prelude.{
  ℕ, zero, suc, ◌+◌, ◌-◌, ◌*◌, ◌/◌, ◌%◌, ◌^◌, ◌≤◌, ◌<◌, ◌≡◌, refl, sym, ap, ap₂, ◌∙◌, inl, inr,
  Bool, true, false, ◌&&◌, ◌==◌, ltb, leb, if◌then◌else◌, Bool-cases, add_u32, sub_u32, update,
  arith,
}
use bird_os.Fs.Types.{SuperBlock, Inode, sector_size}
use bird_os.Fs.Bitmap.{Byte, Sector}

-- The loop over the first byte from bit `k` on, with `n` bits left in it: the byte, and what is
-- left of the sectors to free.
unfoldable pub clear_bits : ℕ → ℕ → ℕ → Byte → Byte × ℕ
clear_bits zero k left b = (b, left)
clear_bits (suc n) k left b =
    let rest = clear_bits n (k + 1) (left - 1) (update b k false) in
    if left == 0 then (b, left) else rest

-- Where the loop over the bytes stands: byte `i` of the sector `sect`, which `fsbuf` holds.
pub record Walk : Type 0 where
  pub sect : ℕ
  pub i : ℕ
  pub fsbuf : Sector
  pub maps : ℕ → Sector

-- At the end of a sector it is written and the next one read.
unfoldable pub next_sector : Walk → Walk
next_sector w =
    if w.i == sector_size
    then (let written : ℕ → Sector = update w.maps w.sect w.fsbuf in
        record { sect = w.sect + 1; i = 0; fsbuf = written (w.sect + 1); maps = written })
    else w

-- One byte between the first and the last is cleared.
unfoldable pub clear_byte : Walk → Walk
clear_byte w =
    let v : Walk = next_sector w in
    record v { i = v.i + 1; fsbuf = update v.fsbuf v.i (λ x. false) }

unfoldable pub clear_bytes : ℕ → Walk → Walk
clear_bytes zero w = w
clear_bytes (suc k) w = clear_bytes k (clear_byte w)

-- The last byte, of which the first `left` bits are cleared, and the last sector written
unfoldable pub clear_last : ℕ → Walk → ℕ → Sector
clear_last left w =
    let v : Walk = next_sector w in
    update v.maps v.sect (update v.fsbuf v.i (λ x. if ltb x left then false else v.fsbuf v.i x))

-- The bits of `nr_sects` sectors from bit `bit_idx` of the map on, whose first sector is `blk0`.
-- Both numbers are `int`s and taken to be below 2^31, far above the size of a disk's map.
unfoldable pub free_smap_bits : ℕ → ℕ → ℕ → (ℕ → Sector) → ℕ → Sector
free_smap_bits blk0 bit_idx nr_sects maps =
    let byte_idx : ℕ = bit_idx / 8 in
    let byte_cnt : ℕ = (nr_sects - (8 - bit_idx % 8)) / 8 in
    let s : ℕ = blk0 + byte_idx / sector_size in
    let j : ℕ = byte_idx % sector_size in
    let (b, left) = clear_bits (8 - bit_idx % 8) (bit_idx % 8) nr_sects (maps s j) in
    clear_last (left - 8 * byte_cnt) (
      clear_bytes byte_cnt
        (record { sect = s; i = j + 1; fsbuf = update (maps s) j b; maps = maps }))

-- `do_unlink` frees those of the inode's sectors.
unfoldable pub free_sects : SuperBlock → Inode → (ℕ → Sector) → ℕ → Sector
free_sects sb v maps =
    free_smap_bits (2 + sb.nr_imap_sects) (add_u32 (sub_u32 v.i_start_sect sb.n_1st_sect) 1)
      v.i_nr_sects maps
