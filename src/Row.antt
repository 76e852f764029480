-- ===== src/Row.antt =====
-- Rows as bytes (src/row.c): the number of columns, and each column with its length. An `int` takes
-- four bytes, little-endian.
pub mod RoundTrip
mod Tests
use inventixdb.Base.{
  ℕ, zero, suc, ◌^◌, List, [], ◌∷◌, ◌++◌, Option, none, some, Bytes, ltb, if◌then◌else◌, length,
  le_bytes, from_le, ◌>>=◌, fread,
}

unfoldable pub serialize_values : List Bytes → Bytes
serialize_values [] = []
serialize_values (v ∷ vs) = le_bytes 4 (length v) ++ (v ++ serialize_values vs)

-- The buffer of `row_serialize`; its `out_size` is the length.
unfoldable pub row_serialize : List Bytes → Bytes
row_serialize vs = le_bytes 4 (length vs) ++ serialize_values vs

-- What `row_deserialize` ends with: NULL, a read past the end of the data (which it does not check)
-- or of a negative length, or the columns.
pub data Columns : Type 0 where
  refused out_of_bounds : Columns
  columns : List Bytes → Columns

-- The loop over `count` columns; `none` is a read out of bounds.
unfoldable pub read_columns : ℕ → Bytes → Option (List Bytes)
read_columns zero bs = some []
read_columns (suc n) bs = do
  (len, bs) ← fread 4 bs
  (v, bs) ← if ltb (from_le len) (2 ^ 31) then fread (from_le len) bs else none
  vs ← read_columns n bs
  some (v ∷ vs)

-- A negative `count` is above `2 ^ 31` here, and refused with those above 1000.
unfoldable pub row_deserialize : Bytes → Columns
row_deserialize bs = elim (fread 4 bs) [
  | none ↦ refused
  | some (count, rest) ↦
      if ltb 1000 (from_le count)
      then refused
      else elim (read_columns (from_le count) rest) [ none ↦ out_of_bounds | some vs ↦ columns vs ]
]
