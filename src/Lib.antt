-- ===== src/Lib.antt =====
-- Rohos Disk Browser: the encryption, the disk access and the NTFS core under its file browser.
--
-- The program opens a password protected disk, an image file or a hidden partition of a drive, and
-- browses the file system in it without a driver. All sector traffic of the FAT and NTFS code goes
-- through the layer of Fsys.cpp, which encrypts and decrypts on the fly with the routines of
-- crypt.cpp. The NTFS code, C sources under filesys/ntfs that are built into the program, reads the
-- boot sector, the records with their multi sector protection, and the runlists that say where an
-- attribute's clusters are.
--
-- Crypto models crypt.cpp. Crypto/Cbc has the CBC loops that its functions share: `xor_block` is
-- XORBlock, `cbc_encrypt` and `cbc_decrypt` are the loops over the blocks. Crypto/Sectors has
-- `encrypt` and `decrypt`, where the vector of a sector is `sector_iv`. Crypto/Buffer has
-- `encrypt_buffer` and `decrypt_buffer` (EncryptBuffer, DecryptBuffer) with PKCS#5 padding.
-- Crypto/Derive is DeriveKeyFromPassw_v2 and GetArraySecByte2.
-- The buffers are lists of bytes, the memory from a pointer on, and `none` is an access past the
-- end. The AES code of crypt-1.17 is an interface, Crypto/Cipher, with the laws that crypt.cpp relies
-- on; Crypto/Toy is a cipher with these laws, which the examples run.
--
-- DiskIo models the disk access. DiskIo/Host is the interface of the Win32 file calls; DiskIo/Ram is
-- a file with that behaviour; only a seek inside the file is taken to succeed. DiskIo/Partition is CDiskRepartition.cpp (ReadData, WriteData,
-- SetFilePointer2); DiskIo/Layer is crypt_SetFilePointer, crypt_ReadFile and crypt_WriteFile of
-- Fsys.cpp over the globals filePos, diskDataOffset, is_encrypted_partition and theDiskPartition;
-- DiskIo/Disc is filesys/fat/disc.cpp and CFsys::ReadDiskData.
--
-- Paths models make_right_path and strpath_to_token of parse.cpp, which cut the path of the browser
-- into its names. `split` stands for the strstr loop, with the names that it adds.
--
-- Ntfs models files of filesys/ntfs. Ntfs/Mst is mst.c (ntfs_mst_pre_write_fixup,
-- ntfs_mst_post_read_fixup, ntfs_mst_post_write_fixup), Ntfs/Boot is bootsect.c, Ntfs/Bitmap the
-- operations on single bits of bitmap.c. Ntfs/Runs, Number, Pairs, Unpack, Lookup and Trim are
-- runlist.c: the runlist itself, the signed numbers of a mapping pairs array
-- (ntfs_write_significant_bytes), building the array and computing its size
-- (ntfs_mapping_pairs_build, ntfs_get_size_for_mapping_pairs), reading it
-- (ntfs_mapping_pairs_decompress_i without an old runlist), ntfs_rl_vcn_to_lcn, and ntfs_rl_truncate,
-- ntfs_rl_sparse and ntfs_rl_get_compressed_size. Ntfs/Names is the comparison of names in unistr.c,
-- and Ntfs/Collate is collate.c, the order of index entries. Ntfs/Utf has the conversions of unistr.c
-- between UTF-16 and UTF-8 (ntfs_utf16_to_utf8, ntfs_utf8_to_utf16 and their size loops); the two
-- encodings of a string of characters, as the standards define them, are in Ntfs/Utf/Codes.
-- Ntfs/Compress is ntfs_decompress of compress.c; Ntfs/Compress/Format describes the format that it
-- reads by tokens, groups and sub-blocks, with the bytes that they stand for. Ntfs/Journal has the
-- checks of the restart pages of logfile.c and ntfs_is_logfile_clean, and Ntfs/Journal/Search the
-- search for the pages, ntfs_check_logfile. Ntfs/Device is device.c (ntfs_pread, ntfs_pwrite, and in
-- Ntfs/Device/Clusters ntfs_cluster_read and ntfs_cluster_write) over the function pointers of struct
-- ntfs_device_operations: `IsDevice` of Ntfs/Device/Laws is what the code relies on of them, and
-- Ntfs/Device/Pieces a device in memory that moves two bytes at a time.
--
-- Offsets and 64-bit numbers are natural numbers with the wrap-around written out where the source
-- computes on machine words; a signed one is its two's complement word. The sector loops run as often
-- as `for (j = 0; j < sz; j += 512)` does for an `sz` of at most 2 ^ 32 - 512, above which the DWORD
-- counter would wrap. The loops over the bytes of a number have a fuel of 8, and the loop that reads a
-- mapping pairs array one turn more than it has bytes; the theorems on them show that it is enough, for
-- any bytes. The u16 index of that loop is modelled with its wrap to 0.
-- The loops over an UTF-8 string and over a compression block have a turn for each of their bytes, and
-- the loops of device.c one turn more than there are bytes to move, and
-- the search of the journal 25 turns, as its place doubles up to the largest size of 4 GiB.
--
-- Not modelled: the dialogs and the other MFC code, the FAT library, and of the NTFS code the parts
-- that work on open inodes (attributes, the MFT, indexes, directories, allocation), the
-- merging of runlists, and the formatter mkntfs.c.
pub mod Crypto
pub mod DiskIo
pub mod Ntfs
pub mod Paths
pub mod Prelude
