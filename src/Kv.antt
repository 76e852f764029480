-- ===== src/Kv.antt =====
-- The key-value store: src/storage.c and include/storage.h.
pub mod Table
pub mod Log
pub mod Store
mod Tests
