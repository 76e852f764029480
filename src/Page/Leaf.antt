-- ===== src/Page/Leaf.antt =====
-- The leaf page (src/btree.c, include/btree.h): its layout, the search and the insertion. A page is
-- its 4096 bytes; a `uint32_t` in it is stored little-endian.
pub mod Cells
pub mod Search
pub mod Insert
use inventixdb.Base.{
  ℕ, zero, suc, ◌+◌, ◌-◌, ◌*◌, ◌/◌, ◌%◌, ◌^◌, [], ◌∷◌, ◌++◌, Option, none, some, Bytes, ltb, leb,
  ◌==◌, if◌then◌else◌, load, store, le_bytes, from_le,
}

-- `NODE_TYPE_OFFSET`, `IS_ROOT_OFFSET`, `LEAF_NODE_NUM_CELLS_OFFSET`, `LEAF_NODE_HEADER_SIZE`
abbrev pub node_type_offset : ℕ
node_type_offset = 0

abbrev pub is_root_offset : ℕ
is_root_offset = 1

abbrev pub num_cells_offset : ℕ
num_cells_offset = 6

abbrev pub header_size : ℕ
header_size = 10

-- `LEAF_NODE_KEY_SIZE`, `ROW_SIZE`, `LEAF_NODE_CELL_SIZE`
abbrev pub key_size : ℕ
key_size = 4

abbrev pub row_size : ℕ
row_size = 512

abbrev pub cell_size : ℕ
cell_size = key_size + row_size

-- `LEAF_NODE_MAX_CELLS`, which is 7
abbrev pub max_cells : ℕ
max_cells = (4096 - header_size) / cell_size

-- `leaf_node_cell`, as an offset
abbrev pub cell_offset : ℕ → ℕ
cell_offset i = header_size + i * cell_size

-- `*leaf_node_num_cells`
abbrev pub num_cells : Bytes → ℕ
num_cells page = from_le (load num_cells_offset 4 page)

abbrev pub set_num_cells : Bytes → ℕ → Bytes
set_num_cells page n = store num_cells_offset (le_bytes 4 n) page

-- `*leaf_node_key`
abbrev pub key_at : Bytes → ℕ → ℕ
key_at page i = from_le (load (cell_offset i) key_size page)

abbrev pub set_key : Bytes → ℕ → ℕ → Bytes
set_key page i key = store (cell_offset i) (le_bytes 4 key) page

-- The target of `leaf_node_value`
abbrev pub set_value : Bytes → ℕ → Bytes → Bytes
set_value page i row = store (cell_offset i + key_size) row page

-- `leaf_node_init`; the type byte 1 is `NODE_LEAF`.
unfoldable pub leaf_node_init : Bytes → Bytes
leaf_node_init page =
    set_num_cells (store is_root_offset (0 ∷ []) (store node_type_offset (1 ∷ []) page)) 0

-- The search loop of `table_find` between `min_index` and `one_past_max_index`, on fuel: the cell
-- number of the cursor.
unfoldable pub search : ℕ → Bytes → ℕ → ℕ → ℕ → Option ℕ
search zero page key lo hi = none
search (suc fuel) page key lo hi =
    let index = ((lo + hi) % 2 ^ 32) / 2 in
    let left = search fuel page key lo index in
    let right = search fuel page key (index + 1) hi in
    if hi == lo
    then some lo
    else (if key == key_at page index
        then some index
        else (if ltb key (key_at page index) then left else right))

-- The loop that makes room: `for (i = num_cells; i > c; i--) memcpy(cell i, cell i - 1)`, with the
-- rounds that are left.
unfoldable pub shift_cells : ℕ → ℕ → Bytes → Bytes
shift_cells c zero page = page
shift_cells c (suc k) page =
    shift_cells c k
      (store (cell_offset (c + suc k)) (load (cell_offset (c + k)) cell_size page) page)

-- `leaf_node_insert` on the page at a cursor; `none` is a full leaf.
unfoldable pub leaf_insert : Bytes → ℕ → ℕ → Bytes → Option Bytes
leaf_insert page c key row =
    let n = num_cells page in
    if leb max_cells n
    then none
    else (let shifted = if ltb c n then shift_cells c (n - c) page else page in
        some (set_value (set_key (set_num_cells shifted (n + 1)) c key) c row))
