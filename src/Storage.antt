-- ===== src/Storage.antt =====
-- include/lucanthrope/storage, lib/storage, and the streams of lib/IO over its files.
pub mod RamFile
pub mod FileMap
pub mod RamFileIndexOutput
pub mod RamFileIndexInput
pub mod WriteRead
pub mod Directory
pub mod RamDirectory
