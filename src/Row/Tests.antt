-- ===== src/Row/Tests.antt =====
-- A run of src/row.c on one row.
use inventixdb.Base.{◌≡◌, List, [], ◌∷◌, ◌++◌, arith, Bytes}
use inventixdb.Row.{row_serialize, row_deserialize, columns}
use inventixdb.Row.RoundTrip.{deserialize-serialize}

abbrev two_columns : List Bytes
two_columns = (49 ∷ []) ∷ (97 ∷ 98 ∷ []) ∷ []

deserialize-serialize_example :
    row_deserialize (row_serialize two_columns ++ 0 ∷ []) ≡ columns two_columns
deserialize-serialize_example =
    deserialize-serialize two_columns (0 ∷ []) (omega arith) (omega arith)
