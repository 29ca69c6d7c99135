-- ===== src/Ntfs.antt =====
-- The NTFS code under filesys/ntfs, part by part.
pub mod Mst
pub mod Device
pub mod Names
pub mod Utf
pub mod Compress
pub mod Journal
pub mod Number
pub mod Runs
pub mod Collate
pub mod Lookup
pub mod Trim
pub mod Pairs
pub mod Unpack
pub mod Boot
pub mod Bitmap
