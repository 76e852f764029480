-- ===== src/Txn/Undo.antt =====
-- `txn_rollback` of src/transaction.c brings back what the store held when the transaction began.
pub mod Restore
use inventixdb.Base.{
  ℕ, ◌≡◌, ◌⊎◌, inl, inr, refl, sym, ap, subst, ◌∙◌, List, [], ◌∷◌, ◌++◌, Option, none, some, Bool,
  true, false, Option-cases, Bool-cases, Bytes, str_eq, str_eq_iff, if◌then◌else◌, codes, All,
}
use inventixdb.Kv.Table.{Value, row, schema}
use inventixdb.Txn.{
  Manager, Transaction, TransactionOpType, TxnOperation, StoreOps, active, insert, delete, update,
  create_table, drop_table, create_index, is_active_state, kept_value, create_operation, or_default,
  txn_begin, schema_key, put_back, delete_key, delete_schema, put_schema, undo, undo_all,
  txn_rollback, has_savepoint, remove_savepoint, active_txn, txn_savepoint, txn_release_savepoint,
  on_active, with_txn, txn_log_insert, txn_log_delete, txn_log_update, txn_log_create_table,
  txn_log_drop_table, txn_log_create_index,
}

-- In a good state and on the given keys the store is a map, and it stays good.
pub record IsMap {S : Type 0} (ops : StoreOps S) (Key : Bytes → Type 0) (Good : S → Type 0)
    : Type 0 where
  pub good-put : (s : S) (k : Bytes) (v : Value) → Good s → Key k → Good (ops.kv_put s k v)
  pub good-delete : (s : S) (k : Bytes) → Good s → Key k → Good (ops.kv_delete s k)
  pub get-put :
      (s : S) (k : Bytes) (v : Value) (j : Bytes)
      → Good s
      → Key k
      → Key j
      → ops.kv_get (ops.kv_put s k v) j ≡ (if str_eq k j then some v else ops.kv_get s j)
  pub get-delete :
      (s : S) (k j : Bytes)
      → Good s
      → Key k
      → Key j
      → ops.kv_get (ops.kv_delete s k) j ≡ (if str_eq k j then none else ops.kv_get s j)

-- A key that may be missing
abbrev pub KeyOf : (Bytes → Type 0) → Option Bytes → Type 0
KeyOf Key none = Unit
KeyOf Key (some k) = Key k

abbrev pub SchemaKeyOf : (Bytes → Type 0) → Bytes → Option Bytes → Type 0
SchemaKeyOf Key db none = Unit
SchemaKeyOf Key db (some t) = Key (schema_key db t)

-- The key that the undo of an operation writes
abbrev pub KeyOfType :
    (Bytes → Type 0) → Bytes → TransactionOpType → Option Bytes → Option Bytes → Type 0
KeyOfType Key db insert k t = KeyOf Key k
KeyOfType Key db delete k t = KeyOf Key k
KeyOfType Key db update k t = KeyOf Key k
KeyOfType Key db create_table k t = SchemaKeyOf Key db t
KeyOfType Key db drop_table k t = SchemaKeyOf Key db t
KeyOfType Key db create_index k t = Unit

abbrev pub HasKeys : (Bytes → Type 0) → Bytes → List TxnOperation → Type 0
HasKeys Key db log = All (λ op. KeyOfType Key db op.type op.key op.table_name) log

module _ {S : Type 0} (ops : StoreOps S) (Key : Bytes → Type 0) where
  -- The changes of a transaction on the database `db`, each with the call that logs it; its
  -- savepoints may be set and released meanwhile. The keys and the schema keys are of the given ones.
  pub data Steps (db : Bytes) (m : Manager) (s : S) : Manager → S → Type 0 where
    start : Steps db m s m s
    inserted :
        (m1 : Manager) (s1 : S) (table : Option Bytes) (k : Bytes) (v : Value)
        → Steps db m s m1 s1
        → ops.kv_get s1 k ≡ none
        → Key k
        → Steps db m s (txn_log_insert m1 table (some k)) (ops.kv_put s1 k v)
    updated :
        (m1 : Manager) (s1 : S) (table : Option Bytes) (k : Bytes) (v : Value) (b : ℕ) (bs : Bytes)
        → Steps db m s m1 s1
        → ops.kv_get s1 k ≡ some (record { bytes = b ∷ bs; type = row })
        → Key k
        → Steps db m s (txn_log_update m1 table (some k) (some (b ∷ bs))) (ops.kv_put s1 k v)
    deleted :
        (m1 : Manager) (s1 : S) (table : Option Bytes) (k : Bytes) (b : ℕ) (bs : Bytes)
        → Steps db m s m1 s1
        → ops.kv_get s1 k ≡ some (record { bytes = b ∷ bs; type = row })
        → Key k
        → Steps db m s (txn_log_delete m1 table (some k) (some (b ∷ bs))) (ops.kv_delete s1 k)
    created :
        (m1 : Manager) (s1 : S) (table : Bytes) (j : Option Bytes) (v : Value)
        → Steps db m s m1 s1
        → ops.kv_get s1 (schema_key db table) ≡ none
        → Key (schema_key db table)
        → Steps db m s
            (txn_log_create_table m1 (some table) j)
            (ops.kv_put s1 (schema_key db table) v)
    dropped :
        (m1 : Manager) (s1 : S) (table j : Bytes) (rows : Option Bytes)
        → Steps db m s m1 s1
        → ops.kv_get s1 (schema_key db table) ≡ some (record { bytes = j ++ 0 ∷ []; type = schema })
        → Key (schema_key db table)
        → Steps db m s
            (txn_log_drop_table m1 (some table) (some j) rows)
            (ops.kv_delete s1 (schema_key db table))
    indexed :
        (m1 : Manager) (s1 : S) (table column : Option Bytes)
        → Steps db m s m1 s1
        → Steps db m s (txn_log_create_index m1 table column) s1
    saved :
        (m1 : Manager) (s1 : S) (name : Option Bytes)
        → Steps db m s m1 s1
        → Steps db m s (txn_savepoint m1 name).0 s1
    released :
        (m1 : Manager) (s1 : S) (name : Bytes)
        → Steps db m s m1 s1
        → Steps db m s (txn_release_savepoint m1 name).0 s1

module _ {S : Type 0} (ops : StoreOps S) (Key : Bytes → Type 0) (Good : S → Type 0) where
  -- Two good states with the same lookups of the keys
  abbrev pub Same : S → S → Type 0
  Same s s' = Good s × Good s' × ((j : Bytes) → Key j → ops.kv_get s j ≡ ops.kv_get s' j)

  pub Same-trans : (s u w : S) → Same s u → Same u w → Same s w
  Same-trans s u w a b = (a.0, b.1, λ j h. a.2 j h ∙ b.2 j h)

  -- A transaction is open whose undo log leads from `s` back to `base`.
  pub record LeadsBack (db : Bytes) (base : S) (m : Manager) (s : S) : Type 0 where
    pub txn : Transaction
    pub is_current : m.current_txn ≡ some txn
    pub is_active : txn.state ≡ active
    pub is_database : txn.database ≡ db
    pub keys : HasKeys Key db txn.operations
    pub good : Good s
    pub restores : Same (undo_all ops db txn.operations s) base

  module _ (map : IsMap ops Key Good) where
    put-Same :
        (s s' : S) (k : Bytes) (v : Value)
        → Key k
        → Same s s'
        → Same (ops.kv_put s k v) (ops.kv_put s' k v)
    put-Same s s' k v hk h = (
      map.good-put s k v h.0 hk,
      map.good-put s' k v h.1 hk,
      λ j hj.
          map.get-put s k v j h.0 hk hj
          ∙ ap (λ o. if str_eq k j then some v else o) (h.2 j hj)
          ∙ sym (map.get-put s' k v j h.1 hk hj),
    )

    pub delete-Same :
        (s s' : S) (k : Bytes) → Key k → Same s s' → Same (ops.kv_delete s k) (ops.kv_delete s' k)
    delete-Same s s' k hk h = (
      map.good-delete s k h.0 hk,
      map.good-delete s' k h.1 hk,
      λ j hj.
          map.get-delete s k j h.0 hk hj
          ∙ ap (λ o. if str_eq k j then none else o) (h.2 j hj)
          ∙ sym (map.get-delete s' k j h.1 hk hj),
    )

    pub put_back-Same :
        (s s' : S) (k v : Option Bytes)
        → KeyOf Key k
        → Same s s'
        → Same (put_back ops s k v) (put_back ops s' k v)
    unfolding put_back
    put_back-Same s s' none v hk h = h
    put_back-Same s s' (some k) none hk h = h
    put_back-Same s s' (some k) (some v) hk h = put-Same s s' k _ hk h

    pub delete_key-Same :
        (s s' : S) (k : Option Bytes)
        → KeyOf Key k
        → Same s s'
        → Same (delete_key ops s k) (delete_key ops s' k)
    unfolding delete_key
    delete_key-Same s s' none hk h = h
    delete_key-Same s s' (some k) hk h = delete-Same s s' k hk h

    delete_schema-Same :
        (s s' : S) (db : Bytes) (t : Option Bytes)
        → SchemaKeyOf Key db t
        → Same s s'
        → Same (delete_schema ops s db t) (delete_schema ops s' db t)
    unfolding delete_schema
    delete_schema-Same s s' db none hk h = h
    delete_schema-Same s s' db (some t) hk h = delete-Same s s' (schema_key db t) hk h

    put_schema-Same :
        (s s' : S) (db : Bytes) (t j : Option Bytes)
        → SchemaKeyOf Key db t
        → Same s s'
        → Same (put_schema ops s db t j) (put_schema ops s' db t j)
    unfolding put_schema
    put_schema-Same s s' db none j hk h = h
    put_schema-Same s s' db (some t) none hk h = h
    put_schema-Same s s' db (some t) (some j) hk h = put-Same s s' (schema_key db t) _ hk h

    undo_by_type :
        (s s' : S) (db : Bytes) (type : TransactionOpType) (t k v j : Option Bytes)
        → KeyOfType Key db type k t
        → Same s s'
        → let op : TxnOperation = record {
          type = type;
          table_name = t;
          key = k;
          old_value = v;
          schema_json = j;
        } in
          Same (undo ops db op s) (undo ops db op s')
    unfolding undo
    undo_by_type s s' db insert t k v j hk h = delete_key-Same s s' k hk h
    undo_by_type s s' db delete t k v j hk h = put_back-Same s s' k v hk h
    undo_by_type s s' db update t k v j hk h = put_back-Same s s' k v hk h
    undo_by_type s s' db create_table t k v j hk h = delete_schema-Same s s' db t hk h
    undo_by_type s s' db drop_table t k v j hk h = put_schema-Same s s' db t j hk h
    undo_by_type s s' db create_index t k v j hk h = h

    -- The undo log does the same to stores with the same lookups.
    pub undo_all-Same :
        (s s' : S) (db : Bytes) (log : List TxnOperation)
        → HasKeys Key db log
        → Same s s'
        → Same (undo_all ops db log s) (undo_all ops db log s')
    unfolding undo_all
    undo_all-Same s s' db [] hk h = h
    undo_all-Same s s' db (op ∷ log) hk h =
        undo_all-Same (undo ops db op s) (undo ops db op s') db log hk.1
          (undo_by_type s s' db op.type op.table_name op.key op.old_value op.schema_json hk.0 h)

    -- A put of a new key, undone by its deletion
    pub delete-put :
        (s : S) (k : Bytes) (v : Value)
        → Good s
        → Key k
        → ops.kv_get s k ≡ none
        → Same (ops.kv_delete (ops.kv_put s k v) k) s
    delete-put s k v g hk e =
        let g' = map.good-put s k v g hk in
        (
          map.good-delete (ops.kv_put s k v) k g' hk,
          g,
          λ j hj. elim (Bool-cases (str_eq k j)) [
            | inl same ↦
                let at : k ≡ j = (str_eq_iff k j).0 same in
                map.get-delete (ops.kv_put s k v) k j g' hk hj
                ∙ rw same (sym e ∙ ap (ops.kv_get s) at)
            | inr other ↦
                map.get-delete (ops.kv_put s k v) k j g' hk hj
                ∙ rw other (map.get-put s k v j g hk hj ∙ rw other refl)
          ],
        )

    -- A put over a put, or over a deletion, of the old value
    pub put-put :
        (s : S) (k : Bytes) (v old : Value)
        → Good s
        → Key k
        → ops.kv_get s k ≡ some old
        → Same (ops.kv_put (ops.kv_put s k v) k old) s
    put-put s k v old g hk e =
        let g' = map.good-put s k v g hk in
        (
          map.good-put (ops.kv_put s k v) k old g' hk,
          g,
          λ j hj. elim (Bool-cases (str_eq k j)) [
            | inl same ↦
                let at : k ≡ j = (str_eq_iff k j).0 same in
                map.get-put (ops.kv_put s k v) k old j g' hk hj
                ∙ rw same (sym e ∙ ap (ops.kv_get s) at)
            | inr other ↦
                map.get-put (ops.kv_put s k v) k old j g' hk hj
                ∙ rw other (map.get-put s k v j g hk hj ∙ rw other refl)
          ],
        )

    pub put-delete :
        (s : S) (k : Bytes) (old : Value)
        → Good s
        → Key k
        → ops.kv_get s k ≡ some old
        → Same (ops.kv_put (ops.kv_delete s k) k old) s
    put-delete s k old g hk e =
        let g' = map.good-delete s k g hk in
        (
          map.good-put (ops.kv_delete s k) k old g' hk,
          g,
          λ j hj. elim (Bool-cases (str_eq k j)) [
            | inl same ↦
                let at : k ≡ j = (str_eq_iff k j).0 same in
                map.get-put (ops.kv_delete s k) k old j g' hk hj
                ∙ rw same (sym e ∙ ap (ops.kv_get s) at)
            | inr other ↦
                map.get-put (ops.kv_delete s k) k old j g' hk hj
                ∙ rw other (map.get-delete s k j g hk hj ∙ rw other refl)
          ],
        )

    -- A change that its operation undoes, with the call that logs it
    pub logged :
        (db : Bytes) (base : S) (m : Manager) (s s' : S) (op : TxnOperation)
        (change : Transaction → Transaction)
        → LeadsBack db base m s
        → ((t : Transaction) → (change t).state ≡ t.state)
        → ((t : Transaction) → (change t).database ≡ t.database)
        → ((t : Transaction) → (change t).operations ≡ op ∷ t.operations)
        → KeyOfType Key db op.type op.key op.table_name
        → Good s'
        → Same (undo ops db op s') s
        → LeadsBack db base (on_active m change) s'
    unfolding on_active active_txn undo_all
    logged db base m s s' op change l st dt os hk g h = record {
      txn = change l.txn;
      is_current = rw (l.is_current, l.is_active, active_txn, on_active) refl;
      is_active = st l.txn ∙ l.is_active;
      is_database = dt l.txn ∙ l.is_database;
      keys = subst (HasKeys Key db) (sym (os l.txn)) (hk, l.keys);
      good = g;
      restores =
          subst (λ log. Same (undo_all ops db log s') base) (sym (os l.txn))
            (Same-trans (undo_all ops db l.txn.operations (undo ops db op s'))
              (undo_all ops db l.txn.operations s) base
              (undo_all-Same (undo ops db op s') s db l.txn.operations l.keys h) l.restores);
    }
