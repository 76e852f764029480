-- ===== src/Engine/Manager.antt =====
-- The storage engine manager (src/storage_engine.c): the calls that dispatch on the type of the engine.
use inventixdb.Base.{ℕ, ◌+◌, ◌%◌, ◌^◌, ◌<◌, ◌≡◌, refl, Bytes, if◌then◌else◌, length, str_eq, IsKey}
use inventixdb.Engine.Lsm.{LsmTree, Outcome, lsm_put, lsm_delete, lsm_get, Got, unset, success}
use inventixdb.Engine.Lsm.Flush.{IsLsm}
use inventixdb.Engine.Lsm.Store.{get-put}

-- `engine->type` with `engine->engine`; the column store's data is not part of the model.
pub data Engine : Type 0 where
  row_store column_store : Engine
  lsm_tree : LsmTree → Engine

-- `StorageEngine`
pub record StorageEngine : Type 0 where
  pub engine : Engine
  pub reads : ℕ
  pub writes : ℕ
  pub bytes_written : ℕ

unfoldable pub engine_put : Outcome → Engine → Bytes → Bytes → Engine
engine_put out row_store k v = row_store
engine_put out column_store k v = column_store
engine_put out (lsm_tree tree) k v = lsm_tree (lsm_put out tree k v)

-- It returns 0 in every case.
unfoldable pub storage_engine_put : Outcome → StorageEngine → Bytes → Bytes → StorageEngine
storage_engine_put out e k v = record e {
  engine = engine_put out e.engine k v;
  writes = (e.writes + 1) % 2 ^ 64;
  bytes_written = (e.bytes_written + length v) % 2 ^ 64;
}

-- The row and the column store return 0 and leave the caller's variables as they are.
unfoldable pub engine_get : Engine → Bytes → Got
engine_get row_store k = unset
engine_get column_store k = unset
engine_get (lsm_tree tree) k = lsm_get tree k

unfoldable pub storage_engine_get : StorageEngine → Bytes → StorageEngine × Got
storage_engine_get e k = (record e { reads = (e.reads + 1) % 2 ^ 64 }, engine_get e.engine k)

unfoldable pub engine_delete : Outcome → Engine → Bytes → Engine
engine_delete out row_store k = row_store
engine_delete out column_store k = column_store
engine_delete out (lsm_tree tree) k = lsm_tree (lsm_delete out tree k)

unfoldable pub storage_engine_delete : Outcome → StorageEngine → Bytes → StorageEngine
storage_engine_delete out e k = record e { engine = engine_delete out e.engine k }

-- An engine with its LSM tree in order
abbrev pub IsEngine : Engine → Type 0
IsEngine row_store = Unit
IsEngine column_store = Unit
IsEngine (lsm_tree tree) = IsLsm tree

-- What a get after a put gives, by the type of the engine
abbrev pub GetsPut : Engine → Engine → Bytes → Bytes → Bytes → Type 0
GetsPut row_store after k v q = engine_get after q ≡ unset
GetsPut column_store after k v q = engine_get after q ≡ unset
GetsPut (lsm_tree tree) after k v q =
    engine_get after q ≡ (if str_eq k q then success v else lsm_get tree q)

get-put_engine :
    (out : Outcome) (e : Engine) (k v q : Bytes)
    → IsEngine e
    → IsKey k
    → length v < 2 ^ 63
    → GetsPut e (engine_put out e k v) k v q
unfolding engine_put engine_get
get-put_engine out row_store k v q ok key short = refl
get-put_engine out column_store k v q ok key short = refl
get-put_engine out (lsm_tree tree) k v q ok key short = (get-put out tree k v q ok key short).1

-- A put is counted with its bytes, modulo `2 ^ 64`. The get after it reads the value just put under its
-- key and, under another key, what was there, when the engine is an LSM tree in order; with a row or a
-- column store it reports success and sets no value.
pub engine_get-put :
    (out : Outcome) (e : StorageEngine) (k v q : Bytes)
    → IsEngine e.engine
    → IsKey k
    → length v < 2 ^ 63
    → ((storage_engine_put out e k v).bytes_written ≡ (e.bytes_written + length v) % 2 ^ 64)
      × GetsPut e.engine (storage_engine_put out e k v).engine k v q
unfolding storage_engine_put
engine_get-put out e k v q ok key short = (refl, get-put_engine out e.engine k v q ok key short)
