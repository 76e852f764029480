-- ===== src/Kv/Store.antt =====
-- The store of src/storage.c: the table in memory, the rows mirrored into the table of src/btree.c,
-- and the two files. Each function runs under the store's lock. File operations succeed, but for
-- the opening of the snapshot's temporary file, which is the argument `opens`.
pub mod Durable
use inventixdb.Base.{
  ◌>>=◌, ℕ, zero, suc, ◌+◌, ◌-◌, ◌*◌, ◌%◌, ◌^◌, Bool, true, false, ◌&&◌, ◌||◌, List, [], ◌∷◌, ◌++◌,
  Option, none, some, Bytes, ltb, leb, ◌==◌, if◌then◌else◌, str_eq, length, take, replicate, codes,
}
use inventixdb.Kv.Table.{
  ValueType, row, json, schema, Value, Table, Outcome, hit, vacant, full, spinning, fresh, find,
  put_internal, get_internal, delete_at,
}
use inventixdb.Kv.Log.{Op, put, del, log_record, snapshot_file, replay, load_snapshot}
use inventixdb.Page.Leaf.{row_size}
use inventixdb.Page.BTable.{BTable, table_find, leaf_node_insert}

-- The snapshot and the log; a file that does not exist is recovered as an empty one is.
pub record Disk : Type 0 where
  pub snap : Bytes
  pub log : Bytes

-- `struct KvStore`; `log_fp` is the log opened for appending, or NULL.
pub record KvStore : Type 0 where
  pub table : Table
  pub btree_table : BTable
  pub log_open : Bool
  pub log_size : ℕ
  pub disk : Disk

-- `kv_snapshot_internal`: the log is closed first, and opened again, empty, at the end.
unfoldable pub snapshot_internal : KvStore → Bool → KvStore
snapshot_internal s opens =
    if opens
    then record s {
      disk = record { snap = snapshot_file s.table.entries; log = [] };
      log_open = true;
      log_size = 0;
    }
    else record s { log_open = false }

-- `kv_append_log`, with the threshold of `get_checkpoint_threshold`
unfoldable pub append_log : ℕ → KvStore → Op → Bool → KvStore
append_log threshold s op opens =
    let s' = record s {
      disk = record { snap = s.disk.snap; log = s.disk.log ++ log_record op };
      log_size = s.log_size + length (log_record op);
    } in
    if s.log_open then (if ltb threshold s'.log_size then snapshot_internal s' opens else s') else s

-- The locked part of `kv_put`
unfoldable pub put_locked : ℕ → KvStore → Bytes → Value → Bool → KvStore
put_locked threshold s k v opens =
    append_log threshold (record s { table = put_internal s.table k v }) (put k v) opens

unfoldable pub delete_found : ℕ → KvStore → Bytes → Bool → Outcome → KvStore
delete_found threshold s k opens (hit i) =
    append_log threshold (record s { table = delete_at s.table (hit i) }) (del k) opens
delete_found threshold s k opens (vacant i) = s
delete_found threshold s k opens full = s
delete_found threshold s k opens spinning = s

-- `kv_delete`: only the deletion of a key that is found is logged.
unfoldable pub kv_delete : ℕ → KvStore → Bytes → Bool → KvStore
kv_delete threshold s k opens =
    delete_found threshold s k opens (find s.table.entries s.table.capacity k)

-- `kv_get`
unfoldable pub kv_get : KvStore → Bytes → Option Value
kv_get s k = get_internal s.table k

-- `strncmp(s, prefix, strlen(prefix)) == 0`
unfoldable pub starts_with : Bytes → Bytes → Bool
starts_with [] s = true
starts_with (p ∷ ps) [] = false
starts_with (p ∷ ps) (c ∷ s) = (p == c) && starts_with ps s

-- What follows the last ':' (`strrchr`), or `none`
unfoldable pub after_last_colon : Bytes → Option Bytes
after_last_colon [] = none
after_last_colon (c ∷ s) = elim (after_last_colon s) [
  | some rest ↦ some rest
  | none ↦ if c == b':' then some s else none
]

abbrev is_digit : ℕ → Bool
is_digit c = leb b'0' c && leb c b'9'

digits : Bytes → ℕ → ℕ
digits [] n = n
digits (c ∷ s) n = if is_digit c then digits s (n * 10 + (c - b'0')) else n

signed_digits : Bytes → ℕ
unfolding digits
signed_digits [] = 0
signed_digits (c ∷ s) =
    if c == b'-'
    then (2 ^ 32 - digits s 0 % 2 ^ 32) % 2 ^ 32
    else (if c == b'+' then digits s 0 % 2 ^ 32 else digits (c ∷ s) 0 % 2 ^ 32)

-- `(uint32_t)atoi(s)`; a number out of the range of `int`, for which C promises nothing, is reduced.
unfoldable pub atoi : Bytes → ℕ
unfolding signed_digits
atoi [] = 0
atoi (c ∷ s) = if c == b' ' || (leb 9 c && leb c 13) then atoi s else signed_digits (c ∷ s)

-- The row number of a key "TBL:…:<id>", when the value is to be mirrored
unfoldable pub mirrored_id : Bytes → ValueType → ℕ
unfolding starts_with after_last_colon atoi
mirrored_id k json = 0
mirrored_id k schema = 0
mirrored_id k row =
    if starts_with (codes "TBL:") k
    then (elim (after_last_colon k) [ none ↦ 0 | some rest ↦ atoi rest ])
    else 0

-- `btree_row`: the first 512 bytes of the value, and zeros
abbrev pub row_buffer : Bytes → Bytes
row_buffer bytes =
    let copied = take row_size bytes in copied ++ replicate (row_size - length copied) 0

-- The part of `kv_put` that writes to the B+ tree; `none` is a page that could not be had.
unfoldable pub mirror : BTable → Bytes → Value → Bytes → Option BTable
unfolding mirrored_id
mirror t k v garbage =
    let id = mirrored_id k v.type in
    if id == 0 then some t else (do
      (t, c) ← table_find t id garbage
      leaf_node_insert t t.root_page_num c id (row_buffer v.bytes) garbage)

-- `kv_put`
unfoldable pub kv_put : ℕ → KvStore → Bytes → Value → Bool → Bytes → Option KvStore
unfolding mirror put_locked
kv_put threshold s k v opens garbage = do
  t ← mirror s.btree_table k v garbage
  some (put_locked threshold (record s { btree_table = t }) k v opens)

-- `kv_snapshot`
unfoldable pub kv_snapshot : KvStore → Bool → KvStore
kv_snapshot s opens = snapshot_internal s opens

-- `kv_recover` into a table with `cap` slots; `none` is undefined behaviour on a damaged file.
unfoldable pub kv_recover : ℕ → Disk → Option Table
kv_recover cap d = do t ← load_snapshot (fresh cap) d.snap; replay (suc (length d.log)) t d.log

-- `kv_create`
unfoldable pub kv_create : ℕ → BTable → Disk → Option KvStore
kv_create cap btree d = do
  t ← kv_recover cap d
  some (record { table = t; btree_table = btree; log_open = true; log_size = 0; disk = d })
