-- ===== src/Crypto.antt =====
-- crypt.cpp: the encryption layer. AES of crypt-1.17 is taken through the interface `Cipher`.
pub mod Bytes
pub mod Cipher
pub mod Toy
pub mod Cbc
pub mod Sectors
pub mod Buffer
pub mod Derive
