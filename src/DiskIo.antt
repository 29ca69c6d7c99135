-- ===== src/DiskIo.antt =====
-- The disk access under both file systems: crypt_ReadFile, crypt_WriteFile and crypt_SetFilePointer
-- of Fsys.cpp, CDiskRepartition.cpp below them, and filesys/fat/disc.cpp above them.
pub mod Host
mod Ram
pub mod Partition
pub mod Layer
pub mod Disc
