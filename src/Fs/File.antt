-- ===== src/Fs/File.antt =====
-- The files of a volume in kernel/fs/block/blockController.c: whole inodes read, freed, made,
-- cut short and made longer, above the mapping of one block.
pub mod Fields
pub mod Read
pub mod Free
pub mod Write
pub mod Make
pub mod Change
pub mod Insert
pub mod Keeps
pub mod Append
mod Tests
