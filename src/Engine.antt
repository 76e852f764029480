-- ===== src/Engine.antt =====
-- The storage engine (src/storage_engine.c, include/storage_engine.h).
pub mod SlottedPage
pub mod Rle
pub mod Lz4
pub mod Compress
pub mod Memtable
pub mod Bloom
pub mod SsTable
pub mod Lsm
pub mod Manager
mod Tests
