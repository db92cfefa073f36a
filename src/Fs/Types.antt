-- ===== src/Fs/Types.antt =====
-- The data of the file system, from include/sys/fs.h, include/sys/const.h and
-- include/sys/global.h. An `int` is its bit pattern below 2^32, a pointer into a table is an index,
-- and `none` is the null pointer. `none` as the result of an operation is a panic or a failed
-- assert. A sector of inodes, and the buffer `fsbuf` that it is read into, are words of 32 bits.
use bird_os.Prelude.{ℕ, Option}

abbrev pub sector_size : ℕ
sector_size = 512

abbrev pub inode_size : ℕ
inode_size = 32

abbrev pub nr_files : ℕ
nr_files = 64

abbrev pub nr_file_desc : ℕ
nr_file_desc = 64

abbrev pub nr_inode : ℕ
nr_inode = 64

abbrev pub nr_super_block : ℕ
nr_super_block = 8

abbrev pub nr_default_file_sects : ℕ
nr_default_file_sects = 2048

-- struct super_block, the fields that the code below reads
pub record SuperBlock : Type 0 where
  pub nr_imap_sects : ℕ
  pub nr_smap_sects : ℕ
  pub n_1st_sect : ℕ
  pub sb_dev : ℕ

-- struct inode, without its padding
pub record Inode : Type 0 where
  pub i_mode : ℕ
  pub i_size : ℕ
  pub i_start_sect : ℕ
  pub i_nr_sects : ℕ
  pub i_node_length : ℕ
  pub i_sects_pos : ℕ → ℕ
  pub i_dev : ℕ
  pub i_cnt : ℕ
  pub i_num : ℕ

-- struct file_desc
pub record FileDesc : Type 0 where
  pub fd_mode : ℕ
  pub fd_pos : ℕ
  pub fd_cnt : ℕ
  pub fd_inode : Option ℕ

-- The tables, `filp` of every process, and the inode sectors of the disk: the word at an index of
-- a sector of a device.
pub record Fs : Type 0 where
  pub inode_table : ℕ → Inode
  pub f_desc_table : ℕ → FileDesc
  pub super_block : ℕ → SuperBlock
  pub filp : ℕ → ℕ → Option ℕ
  pub fsbuf : ℕ → ℕ
  pub disk : ℕ → ℕ → ℕ → ℕ
