-- ===== src/Kv/Log.antt =====
-- The files of src/storage.c: the append-only log that `kv_append_log` writes and `kv_recover`
-- replays, and the snapshot of `kv_snapshot_internal`. `int` and the enumeration take 4 bytes,
-- `size_t` takes 8, and integers are stored little-endian.
pub mod Replay
use inventixdb.Base.{
  ℕ, zero, suc, ◌+◌, ◌^◌, Bool, true, false, List, [], ◌∷◌, ◌++◌, Option, none, some, Bytes, ltb,
  leb, ◌==◌, if◌then◌else◌, length, take, drop, le_bytes, from_le, ◌>>=◌, fread, c_string,
}
use inventixdb.Kv.Table.{
  ValueType, row, json, schema, Value, Entry, Table, put_internal, delete_internal,
}

-- A change that the log records.
pub data Op : Type 0 where
  put : Bytes → Value → Op
  del : Bytes → Op

abbrev type_code : ValueType → ℕ
type_code row = 0
type_code json = 1
type_code schema = 2

abbrev type_of_code : ℕ → Option ValueType
type_of_code zero = some row
type_of_code (suc zero) = some json
type_of_code (suc (suc zero)) = some schema
type_of_code (suc (suc (suc n))) = none

-- `klen` and the key
unfoldable pub key_fields : Bytes → Bytes
key_fields k = le_bytes 4 (length k) ++ k

-- `size`, `vtype` and the data
unfoldable pub value_fields : Value → Bytes
value_fields v = le_bytes 8 (length v.bytes) ++ le_bytes 4 (type_code v.type) ++ v.bytes

-- What `kv_append_log` writes: 1 is PUT, 2 is DELETE.
unfoldable pub log_record : Op → Bytes
log_record (put k v) = 1 ∷ (key_fields k ++ value_fields v)
log_record (del k) = 2 ∷ key_fields k

-- The entries of a snapshot, in slot order.
unfoldable pub snapshot_entries : List Entry → Bytes
snapshot_entries [] = []
snapshot_entries (e ∷ es) =
    let rest = snapshot_entries es in
    if e.occupied then key_fields e.key ++ (value_fields e.val ++ rest) else rest

unfoldable pub valid_count : List Entry → ℕ
valid_count [] = 0
valid_count (e ∷ es) = if e.occupied then valid_count es + 1 else valid_count es

-- The file that `kv_snapshot_internal` writes.
unfoldable pub snapshot_file : List Entry → Bytes
snapshot_file es = le_bytes 4 (valid_count es) ++ snapshot_entries es

-- A key whose length was read. `none` is undefined behaviour: a negative length, or a short read,
-- which leaves the buffer uninitialised.
unfoldable pub read_key : ℕ → Bytes → Option (Bytes × Bytes)
read_key klen bs =
    if ltb klen (2 ^ 31) then (do (raw, rest) ← fread klen bs; some (c_string raw, rest)) else none

-- `size`, `vtype` and the data; `none` is a short read, or a type that is never written.
unfoldable pub read_value : Bytes → Option (Value × Bytes)
read_value bs = do
  (size, bs) ← fread 8 bs
  (code, bs) ← fread 4 bs
  type ← type_of_code (from_le code)
  (payload, bs) ← fread (from_le size) bs
  some (record { bytes = payload; type = type }, bs)

-- What the loop does with an operation code once the key is read.
unfoldable pub apply_record : ℕ → Bytes → Table → Bytes → Option (Table × Bytes)
apply_record op key t bs =
    if op == 1
    then (do (v, bs) ← read_value bs; some (put_internal t key v, bs))
    else (if op == 2 then some (delete_internal t key, bs) else some (t, bs))

-- The replay loop of `kv_recover`, on fuel; the end of the file or a short `klen` ends it.
unfoldable pub replay : ℕ → Table → Bytes → Option Table
replay zero t bs = none
replay (suc fuel) t [] = some t
replay (suc fuel) t (op ∷ bs) = elim (fread 4 bs) [
  | none ↦ some t
  | some (klen, rest) ↦ do
    (key, rest) ← read_key (from_le klen) rest
    (t', rest) ← apply_record op key t rest
    replay fuel t' rest
]

-- The snapshot loop of `kv_recover`.
unfoldable pub load_entries : ℕ → Table → Bytes → Option Table
load_entries zero t bs = some t
load_entries (suc n) t bs = do
  (klen, bs) ← fread 4 bs
  (key, bs) ← read_key (from_le klen) bs
  (v, bs) ← read_value bs
  load_entries n (put_internal t key v) bs

-- A snapshot with no count, or a negative one, is not loaded.
unfoldable pub load_snapshot : Table → Bytes → Option Table
load_snapshot t bs = elim (fread 4 bs) [
  | none ↦ some t
  | some (count, rest) ↦
      if ltb (from_le count) (2 ^ 31) then load_entries (from_le count) t rest else some t
]

-- The state that a sequence of changes leads to.
unfoldable pub apply_op : Table → Op → Table
apply_op t (put k v) = put_internal t k v
apply_op t (del k) = delete_internal t k

unfoldable pub apply_ops : Table → List Op → Table
apply_ops t [] = t
apply_ops t (o ∷ os) = apply_ops (apply_op t o) os

unfoldable pub log_file : List Op → Bytes
log_file [] = []
log_file (o ∷ os) = log_record o ++ log_file os
