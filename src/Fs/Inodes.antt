-- ===== src/Fs/Inodes.antt =====
-- The table of inodes in memory, fs/main.c: `get_super_block`, `get_inode`, `put_inode` and
-- `sync_inode`. The disk's driver is taken to move the words of a sector between the disk and
-- `fsbuf`.
pub mod Table
pub mod Cache
pub mod Sync
use bird_os.Prelude.{
  ℕ, zero, suc, ◌+◌, ◌-◌, ◌*◌, ◌/◌, ◌%◌, Bool, ◌&&◌, not, Option, none, some, ◌==◌, ltb,
  if◌then◌else◌, add_u32, sub_u32, update,
}
use bird_os.Fs.Types.{Fs, Inode, SuperBlock, nr_inode, nr_super_block, inode_size, sector_size}

-- RD_SECT and WR_SECT, where `fsbuf` holds words
abbrev pub rd_sect : ℕ → ℕ → Fs → Fs
rd_sect dev sect s = record s {
  fsbuf = λ w. if ltb w (sector_size / 4) then s.disk dev sect w else s.fsbuf w;
}

abbrev pub wr_sect : ℕ → ℕ → Fs → Fs
wr_sect dev sect s =
    let words : ℕ → ℕ = λ w. if ltb w (sector_size / 4) then s.fsbuf w else s.disk dev sect w in
    record s { disk = update s.disk dev (update (s.disk dev) sect words) }

-- The search of `get_super_block` from slot `i` on, with `k` slots left.
unfoldable pub super_loop : ℕ → ℕ → ℕ → (ℕ → SuperBlock) → Option SuperBlock
super_loop zero i dev t = none
super_loop (suc k) i dev t =
    let rest = super_loop k (i + 1) dev t in if (t i).sb_dev == dev then some (t i) else rest

abbrev pub get_super_block : ℕ → Fs → Option SuperBlock
get_super_block dev s = super_loop nr_super_block 0 dev s.super_block

-- The sector that holds inode `num`, and its first word there. Inode 0 is none, for which
-- `get_inode` returns before it comes here.
unfoldable pub blk_nr : SuperBlock → ℕ → ℕ
blk_nr sb num = 1 + 1 + sb.nr_imap_sects + sb.nr_smap_sects + (num - 1) / (sector_size / inode_size)

unfoldable pub inode_word : ℕ → ℕ
inode_word num = (num - 1) % (sector_size / inode_size) * (inode_size / 4)

-- What the search of `get_inode` finds: the slot of the inode, or the first free slot.
pub data Found : Type 0 where
  hit : ℕ → Found
  miss : Option ℕ → Found

-- The search of `get_inode` from slot `p` on, with `k` slots left and the first free slot in `q`.
unfoldable pub inode_loop : ℕ → ℕ → Option ℕ → ℕ → ℕ → (ℕ → Inode) → Found
inode_loop zero p q dev num t = miss q
inode_loop (suc k) p q dev num t =
    let used : Bool = not ((t p).i_cnt == 0) in
    let q' : Option ℕ = if used then q else elim q [ none ↦ some p | some f ↦ some f ] in
    let rest = inode_loop k (p + 1) q' dev num t in
    if used && (((t p).i_dev == dev) && ((t p).i_num == num)) then hit p else rest

abbrev pub set_inode : ℕ → Inode → Fs → Fs
set_inode p v s = record s { inode_table = update s.inode_table p v }

-- Slot `q` filled with the words that `fsbuf` holds from `w` on; `i_sects_pos` is not read.
unfoldable pub load_inode : ℕ → ℕ → Fs → Fs
load_inode q w s =
    set_inode q
      record (s.inode_table q) {
        i_mode = s.fsbuf w;
        i_size = s.fsbuf (w + 1);
        i_start_sect = s.fsbuf (w + 2);
        i_nr_sects = s.fsbuf (w + 3);
        i_node_length = s.fsbuf (w + 8);
      }
      s

unfoldable pub claim_inode : ℕ → ℕ → ℕ → Fs → Fs
claim_inode q dev num s =
    set_inode q record (s.inode_table q) { i_dev = dev; i_num = num; i_cnt = 1 } s

unfoldable pub share_inode : ℕ → Fs → Fs
share_inode p s =
    set_inode p record (s.inode_table p) { i_cnt = add_u32 (s.inode_table p).i_cnt 1 } s

-- A slot that is free, claimed for the inode and read from the disk.
unfoldable pub read_inode : ℕ → ℕ → ℕ → Fs → Option (Option ℕ × Fs)
read_inode q dev num s =
    let claimed : Fs = claim_inode q dev num s in
    elim (get_super_block dev claimed) [
      | none ↦ none
      | some sb ↦ some (some q, load_inode q (inode_word num) (rd_sect dev (blk_nr sb num) claimed))
    ]

unfoldable pub get_inode : ℕ → ℕ → Fs → Option (Option ℕ × Fs)
get_inode dev num s =
    if num == 0 then some (none, s) else elim (inode_loop nr_inode 0 none dev num s.inode_table) [
      | hit p ↦ some (some p, share_inode p s)
      | miss none ↦ none
      | miss (some q) ↦ read_inode q dev num s
    ]

-- The test of `i_cnt` there has an empty body.
unfoldable pub put_inode : ℕ → Fs → Fs
put_inode p s = set_inode p record (s.inode_table p) { i_cnt = sub_u32 (s.inode_table p).i_cnt 1 } s

-- The six words that `sync_inode` writes into `fsbuf` from `w` on, in its order.
unfoldable pub store_inode : Inode → ℕ → (ℕ → ℕ) → ℕ → ℕ
store_inode v w b =
    let b1 : ℕ → ℕ = update b w v.i_mode in
    let b2 : ℕ → ℕ = update b1 (w + 1) v.i_size in
    let b3 : ℕ → ℕ = update b2 (w + 2) v.i_start_sect in
    let b4 : ℕ → ℕ = update b3 (w + 3) v.i_nr_sects in
    let b5 : ℕ → ℕ = update b4 (w + 8) v.i_node_length in
    update b5 (w + 9) (v.i_sects_pos v.i_node_length)

-- The inode's sector read, changed and written.
unfoldable pub write_inode : Inode → SuperBlock → Fs → Fs
write_inode v sb s =
    let read : Fs = rd_sect v.i_dev (blk_nr sb v.i_num) s in
    wr_sect v.i_dev (blk_nr sb v.i_num)
      (record read { fsbuf = store_inode v (inode_word v.i_num) read.fsbuf })

unfoldable pub sync_inode : ℕ → Fs → Option Fs
sync_inode p s = elim (get_super_block (s.inode_table p).i_dev s) [
  | none ↦ none
  | some sb ↦ some (write_inode (s.inode_table p) sb s)
]
