-- ===== src/Fs.antt =====
-- fs.c: the file system on the blocks of a disk, as the calls of one transaction see it. `Bits` has
-- the bits of a byte, `Layout` the numbers in a block, `State` the state of a call; `Blocks` is the
-- allocator of blocks and `Bitmap` is about it; `Inode` is the table of inodes and `Cache` is about
-- it; `Update` has the inodes on the disk and `Words`, `Stable` and `Inodes` are about them;
-- `Content` has the bytes of a file, `Dir` directories, `Path` path names, and `Calls`, `Open` and
-- `Flock` the system calls of sysfile.c on paths and the locks of files; `Reads` and `Walk` are
-- about those, `Follow` is what a path leads to, and `Semaphore` the lock of a file.
pub mod Bits
pub mod Layout
pub mod State
pub mod Blocks
pub mod Bitmap
pub mod Inode
pub mod Update
pub mod Content
pub mod Dir
pub mod Path
pub mod Calls
pub mod Open
pub mod Flock
pub mod Semaphore
pub mod Follow
pub mod Walk
pub mod Reads
pub mod Cache
pub mod Stable
pub mod Words
pub mod Inodes
mod Tests
