-- ===== src/Kv/Tests.antt =====
-- Runs of the key-value store of src/storage.c on small tables, and the theorems at such inputs.
use inventixdb.Base.{
  ℕ, ◌≡◌, ◌≢◌, refl, inr, none, some, [], ◌∷◌, ◌++◌, arith, Bytes, str_eq, le_bytes,
}
use inventixdb.Kv.Table.{
  Table, Value, row, fresh, hash, probe, find, hit, put_internal, get_internal, delete_internal,
}
use inventixdb.Kv.Table.Walk.{entry}
use inventixdb.Kv.Table.Map.{IsTable, put_internal-IsTable}
use inventixdb.Kv.Table.Lookup.{fresh-IsTable, get-put_self, get-put_other}
use inventixdb.Kv.Table.Delete.{Passes, get-delete_other, delete_hides}
use inventixdb.Kv.Log.{put, del, log_file, log_record, key_fields, value_fields, replay, apply_ops}
use inventixdb.Kv.Log.Replay.{replay_lem}
use inventixdb.Kv.Store.{KvStore, kv_recover}
use inventixdb.Kv.Store.Durable.{changes, created, recover-changes, kv_create-IsDurable}
use inventixdb.Page.Pool.{buffer_pool_init}

abbrev val : ℕ → Value
val n = record { bytes = n ∷ []; type = row }

-- The two keys have the same home slot in a table of four.
abbrev key_a : Bytes
key_a = 97 ∷ []

abbrev key_e : Bytes
key_e = 101 ∷ []

a_ne_e : key_a ≢ key_e
a_ne_e e = ground arith

abbrev one : Table
one = put_internal (fresh 4) key_a (val 1)

abbrev two : Table
two = put_internal one key_e (val 2)

one-IsTable : IsTable one
one-IsTable = put_internal-IsTable (fresh 4) key_a (val 1) (fresh-IsTable 4 (omega arith))

two-IsTable : IsTable two
two-IsTable = put_internal-IsTable one key_e (val 2) one-IsTable

hash_a : hash key_a ≡ 177670
unfolding hash
hash_a = refl

get-put_self_example : get_internal two key_e ≡ some (val 2)
unfolding fresh put_internal find probe hash
get-put_self_example = get-put_self one key_e (val 2) one-IsTable (inr (0, omega arith, refl))

get-put_other_example : get_internal two key_a ≡ get_internal one key_a
get-put_other_example = get-put_other one key_e key_a (val 2) one-IsTable (λ e. ground arith)

-- The lookup of the first key ends at its home, before the second key's slot.
a_clear : (i : ℕ) → find two.entries 4 key_e ≡ hit i → ¬ Passes two key_a i
unfolding fresh put_internal find probe hash str_eq
a_clear i e p = cc ((p.passed 0 (omega arith)).1)

get-delete_other_example : get_internal (delete_internal two key_e) key_a ≡ some (val 1)
unfolding fresh put_internal get_internal find probe hash str_eq
get-delete_other_example = get-delete_other two key_e key_a two-IsTable (λ e. ground arith) a_clear

e-Passes : Passes two key_e 2
unfolding fresh put_internal find probe hash str_eq
e-Passes = record {
  depth = 0;
  depth_lt = omega arith;
  place = refl;
  passed = λ d h. let e : d ≡ 0 = omega arith in rw e (refl, refl);
}

delete_hides_example :
    (get_internal (delete_internal two key_a) key_e ≡ none)
    × (entry (delete_internal two key_a).entries 3 ≡ entry two.entries 3)
    × ((entry two.entries 3).key ≡ key_e)
unfolding fresh put_internal find probe hash str_eq
delete_hides_example = delete_hides two key_a key_e 2 3 two-IsTable a_ne_e refl refl e-Passes

replay_lem_example :
    replay 28 (fresh 4) (log_file (put key_a (val 1) ∷ del key_a ∷ []) ++ 1 ∷ 5 ∷ [])
    ≡ some (apply_ops (fresh 4) (put key_a (val 1) ∷ del key_a ∷ []))
unfolding log_file log_record key_fields value_fields le_bytes
replay_lem_example =
    replay_lem (fresh 4) (put key_a (val 1) ∷ del key_a ∷ []) (1 ∷ 5 ∷ []) (omega arith)
      (omega arith)

-- A store on an empty disk, whose leaf table is not used.
abbrev new_store : KvStore
new_store = created 4 (record { root_page_num = 0; pool = buffer_pool_init [] })

recover-changes_example :
    let s' = changes 1000 new_store (put key_a (val 1) ∷ del key_a ∷ []) in
    (kv_recover 4 (record { snap = s'.disk.snap; log = s'.disk.log ++ 1 ∷ 5 ∷ [] }) ≡ some s'.table)
    × (s'.table ≡ apply_ops (fresh 4) (put key_a (val 1) ∷ del key_a ∷ []))
unfolding log_file log_record key_fields value_fields le_bytes
recover-changes_example =
    recover-changes 4 1000 new_store (put key_a (val 1) ∷ del key_a ∷ []) (1 ∷ 5 ∷ [])
      (kv_create-IsDurable 4 (record { root_page_num = 0; pool = buffer_pool_init [] })).1
      (omega arith) (omega arith) (omega arith)
