-- ===== src/Txn/OnStore.antt =====
-- The rollbacks of src/transaction.c on the store of src/storage.c, whose `kv_put` and `kv_delete` they
-- call. A put is its locked part: the row that `kv_put` also copies into the leaf table of src/btree.c
-- is not what `kv_get` reads.
use inventixdb.Base.{
  ℕ, ◌+◌, ◌≡◌, inl, inr, refl, sym, subst, ap, ◌∙◌, Bool, true, false, Bool-cases, Bytes, length,
  ltb,
}
use inventixdb.Kv.Table.{
  Value, Outcome, hit, vacant, full, spinning, find, put_internal, get_internal, delete_at,
  delete_internal,
}
use inventixdb.Kv.Table.Home.{IsHome, put-IsHome, delete-IsHome, get-put_home, get-delete_home}
use inventixdb.Kv.Log.{Op, put, del, log_record}
use inventixdb.Kv.Store.{
  KvStore, snapshot_internal, append_log, put_locked, delete_found, kv_delete, kv_get,
}
use inventixdb.Txn.{StoreOps}
use inventixdb.Txn.Undo.{IsMap}

-- The calls on the store, with the checkpoint threshold and whether a snapshot's file opens
abbrev pub store_ops : ℕ → Bool → StoreOps KvStore
store_ops threshold opens = record {
  kv_put = λ s k v. put_locked threshold s k v opens;
  kv_delete = λ s k. kv_delete threshold s k opens;
  kv_get = λ s k. kv_get s k;
}

snapshot-table : (s : KvStore) (opens : Bool) → (snapshot_internal s opens).table ≡ s.table
unfolding snapshot_internal
snapshot-table s true = refl
snapshot-table s false = refl

-- Logging, and the checkpoint that it may take, leave the table alone.
append_log-table :
    (threshold : ℕ) (s : KvStore) (o : Op) (opens : Bool)
    → (append_log threshold s o opens).table ≡ s.table
unfolding append_log
append_log-table threshold s o opens = elim (Bool-cases s.log_open) [
  | inr closed ↦ rw (closed, append_log) refl
  | inl opened ↦ elim (Bool-cases (ltb threshold (s.log_size + length (log_record o)))) [
    | inl over ↦ rw (opened, over, append_log) (snapshot-table _ opens)
    | inr under ↦ rw (opened, under, append_log) refl
  ]
]

put_locked-table :
    (threshold : ℕ) (s : KvStore) (k : Bytes) (v : Value) (opens : Bool)
    → (put_locked threshold s k v opens).table ≡ put_internal s.table k v
unfolding put_locked
put_locked-table threshold s k v opens = append_log-table threshold _ (put k v) opens

kv_delete-table :
    (threshold : ℕ) (s : KvStore) (k : Bytes) (opens : Bool)
    → (kv_delete threshold s k opens).table ≡ delete_internal s.table k
unfolding kv_delete delete_internal delete_found delete_at
kv_delete-table threshold s k opens = by_outcome (find s.table.entries s.table.capacity k)
  where
    by_outcome : (o : Outcome) → (delete_found threshold s k opens o).table ≡ delete_at s.table o
    by_outcome (hit i) = append_log-table threshold _ (del k) opens
    by_outcome (vacant i) = refl
    by_outcome full = refl
    by_outcome spinning = refl

-- On keys with a home slot each the store is a map.
pub store-IsMap :
    (threshold : ℕ) (opens : Bool) (Key : Bytes → Type 0)
    → IsMap (store_ops threshold opens) Key (λ s. IsHome Key s.table)
unfolding kv_get
store-IsMap threshold opens Key = record {
  good-put = λ s k v ok h.
      subst (IsHome Key) (sym (put_locked-table threshold s k v opens))
        (put-IsHome Key s.table k v ok h);
  good-delete = λ s k ok h.
      subst (IsHome Key) (sym (kv_delete-table threshold s k opens))
        (delete-IsHome Key s.table k ok h);
  get-put = λ s k v j ok hk hj.
      ap (λ t. get_internal t j) (put_locked-table threshold s k v opens)
      ∙ get-put_home Key s.table k v j ok hk hj;
  get-delete = λ s k j ok hk hj.
      ap (λ t. get_internal t j) (kv_delete-table threshold s k opens)
      ∙ get-delete_home Key s.table k j ok hk hj;
}
