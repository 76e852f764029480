-- ===== src/Page.antt =====
-- The page layer: src/pager.c, src/buffer_pool.c and src/btree.c.
pub mod Pager
pub mod Pool
pub mod Leaf
pub mod BTable
mod Tests
