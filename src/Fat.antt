-- ===== src/Fat.antt =====
-- kernel/fs/fat.c: the FAT12 driver.
pub mod Table
pub mod Chain
pub mod Sync
pub mod Names
pub mod Entries
pub mod Trim
pub mod Io
pub mod Dir
mod Tests
