-- ===== src/Fs.antt =====
-- kernel/fs and the part of kernel/drivers/disk below it.
pub mod Bytes
pub mod Disk
pub mod Volume
pub mod Bitmap
pub mod Inode
pub mod MapBlock
pub mod File
pub mod Directory
pub mod Safety
pub mod Mount
pub mod Names
pub mod Path
pub mod Mounting
pub mod Partitions
mod Sample
mod Tests
