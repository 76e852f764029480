-- ===== src/Kv/Log/Replay.antt =====
-- What `kv_append_log` of src/storage.c wrote, `kv_recover` reads back.
use inventixdb.Base.{
  ℕ, zero, suc, ◌^◌, ◌<◌, ◌≤◌, ◌≡◌, refl, ◌∙◌, ap, List, [], ◌∷◌, ◌++◌, append_assoc, some, arith,
  Bytes, lt→ltb, length, length-append, All, le_bytes, from_le, from_le-le_bytes, fread_append,
  fread-le_bytes, fread_short, c_string_lem, IsKey,
}
use inventixdb.Kv.Table.{ValueType, row, json, schema, Value, Table}
use inventixdb.Kv.Log.{
  Op, put, del, type_code, type_of_code, key_fields, value_fields, log_record, read_key, read_value,
  apply_record, replay, apply_op, apply_ops, log_file,
}

-- A value whose length fits a `size_t`.
abbrev pub IsValue : Value → Type 0
IsValue v = length v.bytes < 2 ^ 64

-- A change that the store can be asked for.
abbrev pub IsOp : Op → Type 0
IsOp (put k v) = IsKey k × IsValue v
IsOp (del k) = IsKey k

pub read_key_lem :
    (k rest : Bytes)
    → IsKey k
    → read_key (from_le (le_bytes 4 (length k))) (k ++ rest) ≡ some (k, rest)
unfolding read_key
read_key_lem k rest h = rw (
  from_le-le_bytes 4 (length k) (omega arith),
  lt→ltb _ _ h.short,
  fread_append k rest,
  c_string_lem k h.no_nul,
)

type_of_code_lem : (t : ValueType) → type_of_code (from_le (le_bytes 4 (type_code t))) ≡ some t
unfolding from_le le_bytes
type_of_code_lem row = refl
type_of_code_lem json = refl
type_of_code_lem schema = refl

pub read_value_lem :
    (v : Value) (rest : Bytes) → IsValue v → read_value (value_fields v ++ rest) ≡ some (v, rest)
unfolding read_value value_fields
read_value_lem v rest h = rw (
  append_assoc,
  append_assoc,
  fread-le_bytes 8 (length v.bytes),
  fread-le_bytes 4 (type_code v.type),
  type_of_code_lem v.type,
  from_le-le_bytes 8 (length v.bytes) (omega arith),
  fread_append v.bytes rest,
)

-- One record is replayed as the change that it records.
replay_record :
    (fuel : ℕ) (t : Table) (o : Op) (rest : Bytes)
    → IsOp o
    → replay (suc fuel) t (log_record o ++ rest) ≡ replay fuel (apply_op t o) rest
unfolding replay log_record key_fields apply_record apply_op
replay_record fuel t (put k v) rest h = rw (
  append_assoc,
  append_assoc,
  fread-le_bytes 4 (length k),
  read_key_lem k (value_fields v ++ rest) h.0,
  read_value_lem v rest h.1,
  replay,
)
replay_record fuel t (del k) rest h =
    rw (append_assoc, fread-le_bytes 4 (length k), read_key_lem k rest h, replay)

-- The start of a record whose writing was cut off before the key: at most the operation code and
-- three bytes of `klen`.
abbrev pub IsTorn : Bytes → Type 0
IsTorn bs = length bs ≤ 4

replay_torn : (fuel : ℕ) (t : Table) (bs : Bytes) → IsTorn bs → replay (suc fuel) t bs ≡ some t
unfolding replay
replay_torn fuel t [] h = refl
replay_torn fuel t (op ∷ bs) h = rw (fread_short 4 bs (omega arith), replay)

length_record : (o : Op) → 1 ≤ length (log_record o)
unfolding log_record
length_record (put k v) = omega arith
length_record (del k) = omega arith

replay_fuel :
    (fuel : ℕ) (t : Table) (os : List Op) (torn : Bytes)
    → length (log_file os ++ torn) < fuel
    → All IsOp os
    → IsTorn torn
    → replay fuel t (log_file os ++ torn) ≡ some (apply_ops t os)
unfolding log_file apply_ops
replay_fuel zero t os torn hf ok h = absurd (omega arith)
replay_fuel (suc fuel) t [] torn hf ok h = replay_torn fuel t torn h
replay_fuel (suc fuel) t (o ∷ os) torn hf ok h = rw append_assoc (
    replay_record fuel t o (log_file os ++ torn) ok.0
    ∙ replay_fuel fuel (apply_op t o) os torn
        (omega (
          arith,
          length-append (log_record o) (log_file os ++ torn),
          length_record o,
          ap length (append_assoc (log_record o) (log_file os) torn),
        ))
        ok.1 h)

-- Replaying a log brings back the table that its changes lead to, from whatever table the replay
-- starts, also when the last record was cut off within its first four bytes. Fuel beyond the
-- length of the file is enough.
pub replay_lem :
    (t : Table) (os : List Op) (torn : Bytes)
    → All IsOp os
    → IsTorn torn
    → replay (suc (length (log_file os ++ torn))) t (log_file os ++ torn) ≡ some (apply_ops t os)
replay_lem t os torn ok h = replay_fuel _ t os torn (omega arith) ok h
