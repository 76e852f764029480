-- ===== src/Engine/Lsm.antt =====
-- The LSM tree (src/storage_engine.c, include/storage_engine.h): memtable, tables on disk and the
-- write-ahead log, and the engine that dispatches to it. An operation's argument of type `Outcome` says
-- the time and whether the files that a flush opens do open; other file operations and allocations
-- succeed.
pub mod Flush
pub mod Store
pub mod Calls
use inventixdb.Base.{
  ℕ, ◌+◌, ◌%◌, ◌^◌, Bool, true, false, List, [], ◌∷◌, ◌++◌, Option, none, some, Bytes, leb, ◌==◌,
  if◌then◌else◌, length, replicate, le_bytes,
}
use inventixdb.Engine.Memtable.{
  LsmEntry, MemTable, memtable_create, memtable_put, memtable_get, memtable_delete,
}
use inventixdb.Engine.SsTable.{
  SsTable, sstable_create, sstable_write_node, Lookup, absent, undefined, found, show_entry,
  lookup_table,
}

-- `LSMTree`. A level lists its tables from the newest to the oldest; `wal_file` is the contents of the
-- open log, `none` the NULL pointer.
pub record LsmTree : Type 0 where
  pub memtable : MemTable
  pub immutable : Option MemTable
  pub levels : List (List SsTable)
  pub next_sstable_id : ℕ
  pub wal_file : Option Bytes
  pub compacting : Bool

-- The clock, and whether `fopen` of the new table and of the emptied log succeed
pub record Outcome : Type 0 where
  pub now : ℕ
  pub table_opens : Bool
  pub wal_opens : Bool

abbrev pub level_count : ℕ
level_count = 4

abbrev pub memtable_size : ℕ
memtable_size = 1048576

-- `wal` is what `fopen` of the log in mode "ab+" gives.
unfoldable pub lsm_create : Option Bytes → LsmTree
lsm_create wal = record {
  memtable = memtable_create;
  immutable = none;
  levels = replicate level_count [];
  next_sstable_id = 1;
  wal_file = wal;
  compacting = false;
}

unfoldable pub add_table : SsTable → List (List SsTable) → List (List SsTable)
add_table sst [] = []
add_table sst (level0 ∷ deeper) = (sst ∷ level0) ∷ deeper

unfoldable pub count_level0 : List (List SsTable) → ℕ
count_level0 [] = 0
count_level0 (level0 ∷ deeper) = length level0

-- A prototype in the source: it merges nothing.
unfoldable pub lsm_compact : LsmTree → LsmTree
lsm_compact tree =
    let started : LsmTree = record tree { compacting = true } in
    record started { compacting = false }

-- The new log, when there was one
unfoldable pub truncate_wal : Bool → Option Bytes → Option Bytes
truncate_wal opens none = none
truncate_wal opens (some log) = if opens then some [] else none

-- The part of `lsm_flush_memtable` after the table was written
unfoldable pub install_table : Outcome → SsTable → LsmTree → LsmTree
install_table out sst tree =
    let levels = add_table sst tree.levels in
    let installed : LsmTree = record tree {
      memtable = memtable_create;
      levels = levels;
      wal_file = truncate_wal out.wal_opens tree.wal_file;
    } in
    if leb 4 (count_level0 levels) then lsm_compact installed else installed

unfoldable pub lsm_flush_memtable : Outcome → LsmTree → LsmTree
lsm_flush_memtable out tree =
    if tree.memtable.count == 0
    then tree
    else (let numbered : LsmTree = record tree { next_sstable_id = tree.next_sstable_id + 1 } in
        if out.table_opens
        then install_table out
            (sstable_write_node tree.memtable.root (sstable_create tree.next_sstable_id)) numbered
        else numbered)

unfoldable pub encode_record : Bytes → Bytes → Bytes
encode_record k v = le_bytes 4 (length k) ++ (k ++ (le_bytes 8 (length v) ++ v))

unfoldable pub log_put : Bytes → Bytes → Option Bytes → Option Bytes
log_put k v none = none
log_put k v (some log) = some (log ++ encode_record k v)

unfoldable pub lsm_put : Outcome → LsmTree → Bytes → Bytes → LsmTree
lsm_put out tree k v =
    let put : LsmTree = record tree {
      memtable = memtable_put tree.memtable k v out.now;
      wal_file = log_put k v tree.wal_file;
    } in
    if leb memtable_size put.memtable.size then lsm_flush_memtable out put else put

unfoldable pub lsm_delete : Outcome → LsmTree → Bytes → LsmTree
lsm_delete out tree k = record tree { memtable = memtable_delete tree.memtable k out.now }

-- `lsm_close` of a tree, up to the release of its memory: the tables and the log it leaves
unfoldable pub lsm_close : Outcome → LsmTree → LsmTree
lsm_close out tree = if tree.memtable.count == 0 then tree else lsm_flush_memtable out tree

unfoldable pub or_else : Lookup → Lookup → Lookup
or_else absent next = next
or_else undefined next = undefined
or_else (found v deleted) next = found v deleted

abbrev pub lookup_memtable : MemTable → Bytes → Lookup
lookup_memtable mt k = show_entry (memtable_get mt k)

unfoldable pub lookup_immutable : Option MemTable → Bytes → Lookup
lookup_immutable none k = absent
lookup_immutable (some mt) k = lookup_memtable mt k

unfoldable pub lookup_tables : List SsTable → Bytes → Lookup
lookup_tables [] k = absent
lookup_tables (sst ∷ older) k = or_else (lookup_table sst k) (lookup_tables older k)

unfoldable pub lookup_levels : List (List SsTable) → Bytes → Lookup
lookup_levels [] k = absent
lookup_levels (level ∷ deeper) k = or_else (lookup_tables level k) (lookup_levels deeper k)

-- What `lsm_get` returns: -1, 0 with a value, or the use of an unset variable
pub data Got : Type 0 where
  failure unset : Got
  success : Bytes → Got

unfoldable pub answer : Lookup → Got
answer absent = failure
answer undefined = unset
answer (found v true) = failure
answer (found v false) = success v

unfoldable pub lsm_lookup : LsmTree → Bytes → Lookup
lsm_lookup tree k =
    or_else (lookup_memtable tree.memtable k)
      (or_else (lookup_immutable tree.immutable k) (lookup_levels tree.levels k))

unfoldable pub lsm_get : LsmTree → Bytes → Got
lsm_get tree k = answer (lsm_lookup tree k)
