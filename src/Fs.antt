-- ===== src/Fs.antt =====
-- fs/main.c, fs/open.c, fs/link.c, fs/misc.c and fs/read_write.c: the file system's tables, its bit
-- maps, the descriptors of the processes, reading and writing, and directories and paths.
pub mod Types
pub mod Inodes
pub mod Descriptors
pub mod Bitmap
pub mod ReadWrite
pub mod Directory
pub mod Paths
pub mod Remove
pub mod NewInode
mod Tests
