-- ===== src/Page/BTable.antt =====
-- The table of src/btree.c: a root leaf in the buffer pool. A NULL page, which the code would read
-- or write through, is `none`.
pub mod Write
pub mod Ops
use inventixdb.Base.{
  ℕ, suc, ◌+◌, ◌/◌, [], ◌∷◌, Option, none, some, Bytes, ◌==◌, if◌then◌else◌, store, ◌>>=◌,
}
use inventixdb.Page.Pager.{page_size}
use inventixdb.Page.Pool.{
  BufferPool, Frame, frame, buffer_pool_init, get_page, unpin, mark_dirty, update, close,
}
use inventixdb.Page.Pool.Inv.{page_bytes}
use inventixdb.Page.Leaf.{num_cells, is_root_offset, leaf_node_init, search, leaf_insert}

-- `Table`
pub record BTable : Type 0 where
  pub root_page_num : ℕ
  pub pool : BufferPool

-- A call of `buffer_pool_get_page` whose result is used: the pool, and the slot of the page.
unfoldable pub pinned_page : BufferPool → ℕ → Bytes → Option (BufferPool × ℕ)
pinned_page b id garbage =
    let (b', slot) = get_page b id garbage in elim slot [ none ↦ none | some i ↦ some (b', i) ]

-- A write through the page pointer
abbrev pub write_page : BufferPool → ℕ → Bytes → BufferPool
write_page b i page = update b i (record (frame b.frames i) { page = some page })

-- `db_open` of a file with these bytes; `garbage` is what `malloc` returns.
unfoldable pub db_open : Bytes → Bytes → Option BTable
db_open file garbage =
    let b = buffer_pool_init file in
    let fresh = (do
      (b, i) ← pinned_page b 0 garbage
      let page = leaf_node_init (page_bytes (frame b.frames i).page)
      let b' = write_page b i (store is_root_offset (1 ∷ []) page)
      some (record { root_page_num = 0; pool = unpin (mark_dirty b' 0) 0 })) in
    if b.pager.file_length / page_size == 0
    then fresh
    else some (record { root_page_num = 0; pool = b })

-- `db_close`: what is left is the file.
unfoldable pub db_close : BTable → Bytes
db_close t = close t.pool

-- `table_start`: the cursor's cell, and whether it is at the end
unfoldable pub table_start : BTable → Bytes → Option (BTable × ℕ × ℕ)
table_start t garbage = do
  (b, i) ← pinned_page t.pool t.root_page_num garbage
  let n = num_cells (page_bytes (frame b.frames i).page)
  some (record t { pool = unpin b t.root_page_num }, 0, if n == 0 then 1 else 0)

-- `table_find`: the cursor's cell on the root page
unfoldable pub table_find : BTable → ℕ → Bytes → Option (BTable × ℕ)
table_find t key garbage = do
  (b, i) ← pinned_page t.pool t.root_page_num garbage
  let page = page_bytes (frame b.frames i).page
  c ← search (suc (num_cells page)) page key 0 (num_cells page)
  some (record t { pool = unpin b t.root_page_num }, c)

-- `leaf_node_insert` at a cell of a page; a full leaf is left alone.
unfoldable pub leaf_node_insert : BTable → ℕ → ℕ → ℕ → Bytes → Bytes → Option BTable
leaf_node_insert t page_num c key row garbage = do
  (b, i) ← pinned_page t.pool page_num garbage
  let page = page_bytes (frame b.frames i).page
  some (record t {
    pool = elim (leaf_insert page c key row) [
      | none ↦ unpin b page_num
      | some page' ↦ unpin (mark_dirty (write_page b i page') page_num) page_num
    ];
  })
