-- ===== src/Fs/Bitmap.antt =====
-- The bit maps of the disk: `alloc_imap_bit` of fs/open.c, with `alloc_smap_bit` in Smap, and how
-- `do_unlink` of fs/link.c frees the bit of an inode, with the bits of its sectors in Free. A byte is
-- a function from the index of a bit to the bit, a sector of a map and the buffer that it is read
-- into are functions from the index of a byte. The super block and the sectors of the device are
-- arguments.
pub mod Bytes
pub mod Smap
pub mod Imap
pub mod Free
use bird_os.Prelude.{
  ℕ, zero, suc, ◌+◌, ◌-◌, ◌*◌, ◌/◌, ◌%◌, Bool, true, false, ◌&&◌, not, Option, none, some,
  if◌then◌else◌, ltb, update,
}
use bird_os.Fs.Types.{SuperBlock, sector_size}

abbrev pub Byte : Type 0
Byte = ℕ → Bool

abbrev pub Sector : Type 0
Sector = ℕ → Byte

-- The first `n` bits are set; `is_full 8 b` is `b == 0xFF`.
unfoldable pub is_full : ℕ → Byte → Bool
is_full zero b = true
is_full (suc n) b = is_full n b && b n

-- The first bit that is not set, from bit `k` on, among the `n` left.
unfoldable pub clear_bit : ℕ → ℕ → Byte → ℕ
clear_bit zero k b = k
clear_bit (suc n) k b = let rest = clear_bit n (k + 1) b in if b k then rest else k

-- The first byte that has a bit not set, from byte `j` on, among the `n` left.
unfoldable pub free_byte : ℕ → ℕ → Sector → Option ℕ
free_byte zero j buf = none
free_byte (suc n) j buf =
    let rest = free_byte n (j + 1) buf in if is_full 8 (buf j) then rest else some j

-- One round of the loop over the sectors, for sector `i` of the map: it always returns.
unfoldable pub alloc_in_sector : ℕ → (ℕ → Sector) → ℕ × (ℕ → Sector)
alloc_in_sector i maps =
    let fsbuf : Sector = maps (1 + 1 + i) in
    elim (free_byte sector_size 0 fsbuf) [
      | none ↦ (0, maps)
      | some j ↦
          let k : ℕ = clear_bit 8 0 (fsbuf j) in
          (
            (i * sector_size + j) * 8 + k,
            update maps (1 + 1 + i) (update fsbuf j (update (fsbuf j) k true)),
          )
    ]

-- `none` is the panic behind the loop.
unfoldable pub alloc_imap_bit : SuperBlock → (ℕ → Sector) → Option (ℕ × (ℕ → Sector))
alloc_imap_bit sb maps = if ltb 0 sb.nr_imap_sects then some (alloc_in_sector 0 maps) else none

-- The bit of inode `inode_nr` cleared by `do_unlink`; `none` is the failed assert.
unfoldable pub free_imap_bit : ℕ → (ℕ → Sector) → Option (ℕ → Sector)
free_imap_bit inode_nr maps =
    let byte_idx : ℕ = inode_nr / 8 in
    let bit_idx : ℕ = inode_nr % 8 in
    let fsbuf : Sector = maps 2 in
    let j : ℕ = byte_idx % sector_size in
    if ltb byte_idx sector_size
    then some (update maps 2 (update fsbuf j (update (fsbuf j) bit_idx false)))
    else none
