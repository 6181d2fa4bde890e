-- ===== src/Fs/Directory.antt =====
-- kernel/fs/ext2/directoryController.c and directoryEntry.h: directories as the entries of their
-- blocks, and the operations on the names of a directory.
pub mod Block
pub mod Scan
pub mod Link
pub mod Keeps
pub mod Lookup
pub mod Sample
mod Tests
