-- ===== src/Engine/SsTable.antt =====
-- The SSTables of the LSM tree (src/storage_engine.c): a memtable written to a file in order, and the
-- search of that file. Files open for reading and writes to them are complete; `size_t` takes eight
-- bytes.
pub mod Search
use inventixdb.Base.{
  ℕ, zero, suc, ◌+◌, ◌^◌, Bool, true, false, List, [], ◌∷◌, ◌++◌, Option, none, some, Bytes, ltb,
  not, ◌==◌, if◌then◌else◌, length, drop, replicate, str_eq, le_bytes, from_le, ◌>>=◌, fread,
  c_string,
}
use inventixdb.Engine.Memtable.{LsmEntry, MemTableNode, leaf, node}
use inventixdb.Engine.Bloom.{bloom_add, bloom_may_contain}

-- `SSTable`, with the contents of its file; its `id` stands for the file's name.
pub record SsTable : Type 0 where
  pub id : ℕ
  pub entry_count : ℕ
  pub bloom_filter : List Bool
  pub file : Bytes

abbrev pub bloom_bits : ℕ
bloom_bits = 8192

unfoldable pub sstable_create : ℕ → SsTable
sstable_create id = record {
  id = id;
  entry_count = 0;
  bloom_filter = replicate bloom_bits false;
  file = [];
}

unfoldable pub encode_entry : LsmEntry → Bytes
encode_entry e =
    le_bytes 4 (length e.key)
    ++ (e.key ++ (if e.deleted then 1 else 0) ∷ (le_bytes 8 (length e.value) ++ e.value))

unfoldable pub write_entry : SsTable → LsmEntry → SsTable
write_entry sst e = record sst {
  file = sst.file ++ encode_entry e;
  bloom_filter = bloom_add sst.bloom_filter e.key;
  entry_count = sst.entry_count + 1;
}

unfoldable pub sstable_write_node : MemTableNode → SsTable → SsTable
sstable_write_node leaf sst = sst
sstable_write_node (node l e r h) sst =
    sstable_write_node r (write_entry (sstable_write_node l sst) e)

-- What a search ends with: no entry, the entry's value and whether it is a tombstone, or the use of
-- fields that a short read left unset.
pub data Lookup : Type 0 where
  absent undefined : Lookup
  found : Bytes → Bool → Lookup

-- The entry that `memtable_get` returned
unfoldable pub show_entry : Option LsmEntry → Lookup
show_entry none = absent
show_entry (some e) = found e.value e.deleted

-- The key, the `deleted` byte and the length of the value of an entry whose key has `key_len` bytes; a
-- length that `malloc` and `fseek` cannot take counts as a short read.
unfoldable pub read_entry : ℕ → Bytes → Option (Bytes × ℕ × ℕ × Bytes)
read_entry key_len bs = do
  (k, bs) ← fread key_len bs
  (deleted, bs) ← fread 1 bs
  (value_len, bs) ← fread 8 bs
  if ltb (from_le value_len) (2 ^ 63)
      then some (c_string k, from_le deleted, from_le value_len, bs)
      else none

unfoldable pub read_value : ℕ → ℕ → Bytes → Lookup
read_value deleted value_len bs = elim (fread value_len bs) [
  | none ↦ undefined
  | some (v, rest) ↦ found v (not (deleted == 0))
]

-- The loop of `sstable_get`; each pass reads at least four bytes, so that fuel above the length of the
-- file is enough.
unfoldable pub search_from : ℕ → Bytes → Bytes → Lookup
search_from zero bs q = absent
search_from (suc fuel) bs q = elim (fread 4 bs) [
  | none ↦ absent
  | some (key_len, rest) ↦ elim (read_entry (from_le key_len) rest) [
    | none ↦ undefined
    | some (k, deleted, value_len, values) ↦ elim (str_eq k q) [
      | true ↦ read_value deleted value_len values
      | false ↦ search_from fuel (drop value_len values) q
    ]
  ]
]

unfoldable pub sstable_get : SsTable → Bytes → Lookup
sstable_get sst q = search_from (suc (length sst.file)) sst.file q

-- The step of `lsm_get` for one table
unfoldable pub lookup_table : SsTable → Bytes → Lookup
lookup_table sst q = if bloom_may_contain sst.bloom_filter q then sstable_get sst q else absent
