-- ===== src/Fs/ReadWrite.antt =====
-- Reading and writing of files: `do_rdwt` of fs/read_write.c. `base` is the linear address where
-- the caller's segment begins, which `va2la` adds. The disk's driver moves whole sectors between the
-- disk and `fsbuf`, at most 256 for a request: `hd_rdwt` of kernel/hd.c keeps their number in a byte,
-- with 0 for 256. With more it does not come back, and the result is `none`. The sectors of inodes are
-- those of `Fs`, all others are `content`.
pub mod Moves
pub mod Loop
pub mod Plan
pub mod Effect
pub mod Tables
pub mod Laws
pub mod RoundTrip
mod Tests
use bird_os.Prelude.{
  ℕ, zero, suc, ◌+◌, ◌-◌, ◌*◌, ◌/◌, ◌%◌, ◌^◌, Bool, true, false, ◌&&◌, ◌||◌, not, Option, none,
  some, ◌==◌, ltb, leb, if◌then◌else◌, add_u32, sub_u32, update, bit_and,
}
use bird_os.Fs.Types.{Fs, Inode, FileDesc, sector_size, nr_file_desc, nr_inode}
use bird_os.Fs.Inodes.{set_inode, sync_inode}
use bird_os.Fs.Descriptors.{opened, set_desc, sgt, negative}

-- The file system's tables, the content of the devices by byte, `fsbuf` by byte, and the memory by
-- linear address.
pub record Files : Type 0 where
  pub fs : Fs
  pub content : ℕ → ℕ → ℕ
  pub buffer : ℕ → ℕ
  pub mem : ℕ → ℕ

-- DEV_READ and DEV_WRITE, or READ and WRITE
pub data Io : Type 0 where
  read : Io
  write : Io

-- FSBUF_SIZE >> SECTOR_SIZE_SHIFT
abbrev pub fsbuf_sects : ℕ
fsbuf_sects = 2048

abbrev pub i_type_mask : ℕ
i_type_mask = 0xf000

abbrev pub i_regular : ℕ
i_regular = 0x8000

abbrev pub i_directory : ℕ
i_directory = 0x4000

abbrev pub i_char_special : ℕ
i_char_special = 0x2000

-- The bit O_RDWR of a mode
abbrev pub is_rdwr : ℕ → Bool
is_rdwr mode = not ((mode / 2) % 2 == 0)

-- MAJOR and MINOR
abbrev pub major : ℕ → ℕ
major dev = (dev / 256) % 256

abbrev pub minor : ℕ → ℕ
minor dev = dev % 256

abbrev pub umin : ℕ → ℕ → ℕ
umin a b = if ltb a b then a else b

-- `min` of two `int`s
abbrev pub smin : ℕ → ℕ → ℕ
smin a b = if sgt b a then a else b

abbrev pub mul_u32 : ℕ → ℕ → ℕ
mul_u32 a b = (a * b) % 2 ^ 32

-- `a >> 9` and `a % 512` of an `int`
abbrev pub sects_of : ℕ → ℕ
sects_of a = if negative a then a / 512 + (2 ^ 32 - 2 ^ 23) else a / 512

abbrev pub rest_of : ℕ → ℕ
rest_of a = if negative a then sub_u32 0 (sub_u32 0 a % 512) else a % 512

-- An `int` as the `u64` that `rw_sector` takes
abbrev pub position : ℕ → ℕ
position a = if negative a then a + (2 ^ 64 - 2 ^ 32) else a

-- `phys_copy` between two arrays: `n` bytes from `s` on come to stand from `d` on.
abbrev pub phys_copy : ℕ → (ℕ → ℕ) → ℕ → (ℕ → ℕ) → ℕ → ℕ → ℕ
phys_copy n from s to d = λ x. if leb d x && ltb x (d + n) then from (s + (x - d)) else to x

-- MAX_IO_BYTES, a number of sectors
abbrev pub max_io_sects : ℕ
max_io_sects = 256

-- `rw_sector` from the disk to `fsbuf`, and back
unfoldable pub read_sector : ℕ → ℕ → ℕ → Files → Option Files
read_sector dev pos bytes f =
    if ltb max_io_sects (bytes / sector_size)
    then none
    else some (record f { buffer = phys_copy bytes (f.content dev) pos f.buffer 0 })

unfoldable pub write_sector : ℕ → ℕ → ℕ → Files → Option Files
write_sector dev pos bytes f =
    if ltb max_io_sects (bytes / sector_size)
    then none
    else some (record f {
      content = update f.content dev (phys_copy bytes f.buffer 0 (f.content dev) pos);
    })

-- What does not change in the loop: the direction, the device, the linear address of the caller's
-- buffer, the descriptor, `rw_sect_max` and `chunk`.
pub record Job : Type 0 where
  pub io : Io
  pub dev : ℕ
  pub base : ℕ
  pub buf : ℕ
  pub desc : ℕ
  pub rw_sect_max : ℕ
  pub chunk : ℕ

-- The copies of one round
unfoldable pub copy_round : Io → Job → ℕ → ℕ → ℕ → ℕ → Files → Option Files
copy_round read j i off bytes_rw bytes f =
    elim (read_sector j.dev (position (mul_u32 i sector_size)) (mul_u32 j.chunk sector_size) f) [
      | none ↦ none
      | some got ↦ some (record got {
        mem = phys_copy bytes got.buffer off got.mem (add_u32 j.base (add_u32 j.buf bytes_rw));
      })
    ]
copy_round write j i off bytes_rw bytes f =
    elim (read_sector j.dev (position (mul_u32 i sector_size)) (mul_u32 j.chunk sector_size) f) [
      | none ↦ none
      | some got ↦
          write_sector j.dev (position (mul_u32 i sector_size)) (mul_u32 j.chunk sector_size)
            record got {
              buffer =
                  phys_copy bytes got.mem (add_u32 j.base (add_u32 j.buf bytes_rw)) got.buffer off;
            }
    ]

-- The bytes of one round
abbrev pub round_bytes : ℕ → ℕ → ℕ → ℕ
round_bytes chunk off left = smin left (sub_u32 (mul_u32 chunk sector_size) off)

-- `fd_pos += bytes`
abbrev pub advance : ℕ → ℕ → Files → Files
advance d bytes f = record f {
  fs =
      set_desc d
        (record (f.fs.f_desc_table d) { fd_pos = add_u32 (f.fs.f_desc_table d).fd_pos bytes }) f.fs;
}

-- The loop from sector `i` on, with fuel `k`.
unfoldable pub rdwt_loop : ℕ → Job → ℕ → ℕ → ℕ → ℕ → Files → Option (ℕ × Files)
rdwt_loop zero j i off bytes_rw left f = none
rdwt_loop (suc k) j i off bytes_rw left f = elim (sgt i j.rw_sect_max) [
  | true ↦ some (bytes_rw, f)
  | false ↦
      let bytes : ℕ = round_bytes j.chunk off left in
      elim (copy_round j.io j i off bytes_rw bytes f) [
        | none ↦ none
        | some f' ↦
            rdwt_loop k j (add_u32 i j.chunk) 0 (add_u32 bytes_rw bytes) (sub_u32 left bytes)
              (advance j.desc bytes f')
      ]
]

-- The size of the file is updated when the position has passed it.
unfoldable pub grow : ℕ → ℕ → ℕ → Files → Option (ℕ × Files)
grow d p n f =
    let pos : ℕ = (f.fs.f_desc_table d).fd_pos in
    if ltb (f.fs.inode_table p).i_size pos
    then elim (sync_inode p (set_inode p (record (f.fs.inode_table p) { i_size = pos }) f.fs)) [
      | none ↦ none
      | some fs' ↦ some (n, record f { fs = fs' })
    ]
    else some (n, f)

-- The end of the transfer: that of the file, or that of the sectors that it has.
abbrev pub pos_end : Io → ℕ → ℕ → Inode → ℕ
pos_end read pos len v = umin (add_u32 pos len) v.i_size
pos_end write pos len v = umin (add_u32 pos len) (mul_u32 v.i_nr_sects sector_size)

-- The transfer of a regular file or a directory. The loop has no more rounds than the file has
-- sectors from the first to the last.
unfoldable pub transfer : Io → ℕ → ℕ → ℕ → ℕ → ℕ → Files → Option (ℕ × Files)
transfer io d p base buf len f =
    let v : Inode = f.fs.inode_table p in
    let pos : ℕ = (f.fs.f_desc_table d).fd_pos in
    let first : ℕ = add_u32 v.i_start_sect (sects_of pos) in
    let last : ℕ = add_u32 v.i_start_sect (sects_of (pos_end io pos len v)) in
    let sects : ℕ = add_u32 (sub_u32 last first) 1 in
    let job : Job = record {
      io = io;
      dev = v.i_dev;
      base = base;
      buf = buf;
      desc = d;
      rw_sect_max = last;
      chunk = smin sects fsbuf_sects;
    } in
    elim (rdwt_loop (sects + 1) job first (rest_of pos) 0 len f) [
      | none ↦ none
      | some (n, f') ↦ grow d p n f'
    ]

-- How `do_rdwt` ends: a failed assert or a request that the disk's driver does not come back from,
-- its result, or the message to the driver of a terminal,
-- after which it returns the count of the answer.
pub data Outcome : Type 0 where
  failed : Outcome
  returned : ℕ → Files → Outcome
  asks_driver : Io → ℕ → ℕ → ℕ → Files → Outcome

abbrev pub outcome : Option (ℕ × Files) → Outcome
outcome none = failed
outcome (some (n, f)) = returned n f

abbrev pub is_write : Io → Bool
is_write read = false
is_write write = true

-- The part of `do_rdwt` on descriptor `d` and inode slot `p`
unfoldable pub rdwt_inode : Io → ℕ → ℕ → ℕ → ℕ → ℕ → Files → Outcome
rdwt_inode io d p base buf len f =
    let mode : ℕ = (f.fs.inode_table p).i_mode in
    let imode : ℕ = bit_and mode i_type_mask in
    let dev : ℕ = (f.fs.inode_table p).i_start_sect in
    if imode == i_char_special
    then (if major dev == 4 then asks_driver io (minor dev) buf len f else failed)
    else if (imode == i_directory) && is_write io
    then returned 0 f
    else if not ((mode == i_regular) || (mode == i_directory))
    then failed
    else outcome (transfer io d p base buf len f)

unfoldable pub do_rdwt : Io → ℕ → ℕ → ℕ → ℕ → ℕ → Files → Outcome
do_rdwt io pid fd base buf len f = elim (f.fs.filp pid fd) [
  | none ↦ failed
  | some d ↦
      if not (is_rdwr (f.fs.f_desc_table d).fd_mode)
      then returned 0 f
      else elim ((f.fs.f_desc_table d).fd_inode) [
        | none ↦ failed
        | some p ↦ rdwt_inode io d p base buf len f
      ]
]

-- The end of `do_rdwt` after the answer of the driver, for a file of `len` bytes asked for.
unfoldable pub answered : ℕ → ℕ → Option ℕ
answered len cnt = if cnt == len then some cnt else none
