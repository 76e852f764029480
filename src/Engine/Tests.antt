-- ===== src/Engine/Tests.antt =====
-- Runs of src/storage_engine.c on small inputs.
use inventixdb.Base.{
  ℕ, suc, ◌≢◌, ◌^◌, ◌≡◌, refl, true, List, [], ◌∷◌, none, arith, Bytes, if◌then◌else◌, ◌==◌, ◌-◌,
  str_eq, IsKey,
}
use inventixdb.Engine.Rle.{compress_rle, decompress_rle}
use inventixdb.Engine.Rle.RoundTrip.{decompress-compress_rle}
use inventixdb.Engine.Lsm.{
  LsmTree, Outcome, lsm_create, lsm_put, lsm_get, lsm_close, failure, answer, lookup_levels,
}
use inventixdb.Engine.Lsm.Store.{get-put}
use inventixdb.Engine.Lsm.Calls.{
  LsmCall, put, delete, flush, calls, get-calls, create-IsLsm, levels-close, expected, overlay,
}
use inventixdb.Engine.Manager.{StorageEngine, lsm_tree, engine_get-put, storage_engine_put, GetsPut}

abbrev key_a : Bytes
key_a = 97 ∷ []

abbrev key_b : Bytes
key_b = 98 ∷ []

abbrev bytes_xy : Bytes
bytes_xy = 120 ∷ 121 ∷ []

nonzero : (n : ℕ) → suc n ≢ 0
nonzero n e = absurd (omega (arith, e))

key_a-IsKey : IsKey key_a
key_a-IsKey = record { short = omega arith; no_nul = (nonzero 96, tt) }

abbrev opened : Outcome
opened = record { now = 0; table_opens = true; wal_opens = true }

abbrev new_tree : LsmTree
new_tree = lsm_create none

abbrev some_calls : List LsmCall
some_calls =
    put opened key_a bytes_xy ∷ flush opened ∷ delete opened key_a ∷ put opened key_b bytes_xy ∷ []

key_b-IsKey : IsKey key_b
key_b-IsKey = record { short = omega arith; no_nul = (nonzero 97, tt) }

get-calls_example : lsm_get (calls (lsm_create none) some_calls) key_a ≡ failure
unfolding expected overlay str_eq
get-calls_example =
    get-calls none some_calls key_a
      ((key_a-IsKey, omega arith), (tt, (key_a-IsKey, ((key_b-IsKey, omega arith), tt))))

abbrev one_put : LsmTree
one_put = lsm_put opened new_tree key_a bytes_xy

levels-close_example : answer (lookup_levels (lsm_close opened one_put).levels key_a) ≡ (
    if one_put.memtable.count == 0
    then answer (lookup_levels one_put.levels key_a)
    else lsm_get one_put key_a)
levels-close_example =
    levels-close opened one_put key_a
      (get-put opened new_tree key_a bytes_xy key_a (create-IsLsm none) key_a-IsKey (omega arith)).0
      refl

abbrev lsm_engine : StorageEngine
lsm_engine = record {
  engine = lsm_tree new_tree;
  reads = 0;
  writes = 0;
  bytes_written = 2 ^ 64 - 1;
}

engine_get-put_example :
    ((storage_engine_put opened lsm_engine key_a bytes_xy).bytes_written ≡ 1)
    × GetsPut lsm_engine.engine
        (storage_engine_put opened lsm_engine key_a bytes_xy).engine
        key_a
        bytes_xy
        key_a
engine_get-put_example =
    engine_get-put opened lsm_engine key_a bytes_xy key_a (create-IsLsm none) key_a-IsKey
      (omega arith)

abbrev some_bytes : Bytes
some_bytes = 7 ∷ 9 ∷ []

decompress-compress_rle_example :
    decompress_rle (compress_rle (7 ∷ some_bytes) 10) 3 ≡ 7 ∷ some_bytes
decompress-compress_rle_example =
    decompress-compress_rle 7 some_bytes 10 3 (omega arith) (omega arith) (omega arith)
