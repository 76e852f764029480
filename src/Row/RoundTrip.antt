-- ===== src/Row/RoundTrip.antt =====
-- `row_deserialize` of src/row.c reads what `row_serialize` wrote, up to 1000 columns.
use inventixdb.Base.{
  ◌^◌, ◌<◌, ◌≡◌, refl, List, [], ◌∷◌, ◌++◌, append_assoc, some, ltb, if◌then◌else◌, arith, Bytes,
  lt→ltb, length, All, le_bytes, from_le, from_le-le_bytes, fread_append, fread-le_bytes,
}
use inventixdb.Row.{
  serialize_values, row_serialize, refused, columns, read_columns, row_deserialize,
}

-- Strings whose lengths fit an `int`
abbrev pub AreShort : List Bytes → Type 0
AreShort = All (λ v. length v < 2 ^ 31)

read_columns_lem :
    (vs : List Bytes) (rest : Bytes)
    → AreShort vs
    → read_columns (length vs) (serialize_values vs ++ rest) ≡ some vs
unfolding read_columns serialize_values
read_columns_lem [] rest h = refl
read_columns_lem (v ∷ vs) rest h =
    rw
      (
        append_assoc,
        append_assoc,
        fread-le_bytes 4 (length v),
        from_le-le_bytes 4 (length v) (omega (arith, h.0)),
        lt→ltb _ _ h.0,
        fread_append v,
        read_columns_lem vs rest h.1,
      )
      refl

-- A row of at most 1000 columns is read back as it was written, whatever follows it; a longer row is
-- written, but its reader refuses it. Each column and the number of columns is below `2 ^ 31`.
pub deserialize-serialize :
    (vs : List Bytes) (rest : Bytes)
    → AreShort vs
    → length vs < 2 ^ 31
    → row_deserialize (row_serialize vs ++ rest)
      ≡ (if ltb 1000 (length vs) then refused else columns vs)
unfolding row_deserialize row_serialize
deserialize-serialize vs rest short few =
    let count : from_le (le_bytes 4 (length vs)) ≡ length vs =
      from_le-le_bytes 4 (length vs) (omega arith) in
    rw
      (
        append_assoc,
        fread-le_bytes 4 (length vs),
        count,
        read_columns_lem vs rest short,
        row_deserialize,
      )
      refl
