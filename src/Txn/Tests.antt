-- ===== src/Txn/Tests.antt =====
-- Runs of the transaction manager of src/transaction.c over the store of src/storage.c.
use inventixdb.Base.{
  ℕ, ◌≡◌, ◌≢◌, ◌⊎◌, inl, inr, refl, sym, ap, ◌∙◌, [], ◌∷◌, none, some, true, false, Bytes, str_eq,
  codes, arith, get_or, replicate, get_or-replicate, length-replicate,
}
use inventixdb.Kv.Table.{
  Value, row, Entry, empty_entry, home, hash, fresh, get_internal, find, probe,
}
use inventixdb.Kv.Table.Home.{IsHome}
use inventixdb.Kv.Store.{KvStore, kv_get}
use inventixdb.Kv.Store.Durable.{created}
use inventixdb.Page.Pool.{buffer_pool_init}
use inventixdb.Txn.{
  Manager, Transaction, StoreOps, active, txn_manager_init, txn_begin, txn_savepoint,
  txn_log_insert, txn_log_update,
}
use inventixdb.Txn.Inv.{IsManager}
use inventixdb.Txn.Inv.Calls.{called, begin, destroy, called-IsManager, init-IsManager}
use inventixdb.Txn.Undo.{IsMap, Steps}
use inventixdb.Txn.OnStore.{store_ops, store-IsMap}

abbrev row_of : ℕ → Value
row_of n = record { bytes = n ∷ []; type = row }

abbrev the_key : Bytes
the_key = 107 ∷ []

abbrev new_key : Bytes
new_key = 108 ∷ []

-- Their home slots in a table of four differ.
abbrev TheKeys : Bytes → Type 0
TheKeys k = (k ≡ the_key) ⊎ (k ≡ new_key)

abbrev empty_store : KvStore
empty_store = created 4 (record { root_page_num = 0; pool = buffer_pool_init [] })

homes_differ : home 4 the_key ≢ home 4 new_key
unfolding hash
homes_differ e = absurd (omega arith)

the_keys_apart : (j k : Bytes) → TheKeys j → TheKeys k → home 4 j ≡ home 4 k → j ≡ k
the_keys_apart j k (inl a) (inl b) e = a ∙ sym b
the_keys_apart j k (inl a) (inr b) e =
    absurd (homes_differ (ap (home 4) (sym a) ∙ e ∙ ap (home 4) b))
the_keys_apart j k (inr a) (inl b) e =
    absurd (homes_differ (ap (home 4) (sym b) ∙ sym e ∙ ap (home 4) a))
the_keys_apart j k (inr a) (inr b) e = a ∙ sym b

no_entry : (i : ℕ) → (get_or (replicate 4 empty_entry) i empty_entry).occupied ≡ false
no_entry i = ap (λ (e : Entry). e.occupied) (get_or-replicate 4 i empty_entry)

empty-IsHome : IsHome TheKeys empty_store.table
unfolding fresh
empty-IsHome = record {
  sized = length-replicate 4 empty_entry;
  nonempty = omega arith;
  apart = the_keys_apart;
  at_home = λ k h occ. cc (no_entry (home 4 k), occ);
}

abbrev ops : StoreOps KvStore
ops = store_ops 1000 true

-- A store with one row
abbrev one_row : KvStore
one_row = ops.kv_put empty_store the_key (row_of 1)

abbrev map : IsMap ops TheKeys (λ s. IsHome TheKeys s.table)
map = store-IsMap 1000 true TheKeys

one-IsHome : IsHome TheKeys one_row.table
one-IsHome = map.good-put empty_store the_key (row_of 1) empty-IsHome (inl refl)

has_row : ops.kv_get one_row the_key ≡ some (row_of 1)
unfolding str_eq
has_row = map.get-put empty_store the_key (row_of 1) the_key empty-IsHome (inl refl) (inl refl)

abbrev begun : Manager
begun = (txn_begin txn_manager_init none none 0).0

abbrev changed_row : KvStore
changed_row = ops.kv_put one_row the_key (row_of 2)

abbrev two_rows : KvStore
two_rows = ops.kv_put changed_row new_key (row_of 3)

-- The second key is not there before its insertion.
none_empty : ops.kv_get empty_store new_key ≡ none
unfolding kv_get get_internal find probe hash fresh
none_empty = refl

none_yet : ops.kv_get changed_row new_key ≡ none
unfolding str_eq
none_yet =
    map.get-put one_row the_key (row_of 2) new_key one-IsHome (inl refl) (inr refl)
    ∙ map.get-put empty_store the_key (row_of 1) new_key empty-IsHome (inl refl) (inr refl)
    ∙ none_empty

abbrev changed : Manager
changed =
    txn_log_insert (txn_log_update begun none (some the_key) (some (1 ∷ []))) none (some new_key)

change : Steps ops TheKeys (codes "public") begun one_row changed two_rows
change =
    Steps.inserted _ changed_row none new_key (row_of 3)
      (Steps.updated begun one_row none the_key (row_of 2) 1 [] Steps.start has_row (inl refl))
      none_yet (inr refl)

-- A transaction is open.
begun-IsManager : IsManager 0 begun
unfolding txn_begin called
begun-IsManager = called-IsManager ops txn_manager_init one_row (begin none none 0) init-IsManager

called-IsManager_example : IsManager 1 (called ops begun one_row destroy)
unfolding txn_begin
called-IsManager_example = called-IsManager ops begun one_row destroy begun-IsManager

-- The transaction that was just begun
abbrev open_txn : Transaction
open_txn = record {
  txn_id = 1;
  state = active;
  start_time = 0;
  user = codes "unknown";
  database = codes "public";
  operations = [];
  operation_count = 0;
  savepoints = [];
  inserts = 0;
  deletes = 0;
  updates = 0;
}

abbrev marked : Manager
marked = (txn_savepoint begun (some the_key)).0

abbrev changed_after : Manager
changed_after =
    txn_log_insert (txn_log_update marked none (some the_key) (some (1 ∷ []))) none (some new_key)
