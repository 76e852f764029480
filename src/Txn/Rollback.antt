-- ===== src/Txn/Rollback.antt =====
-- The rounds of both rollbacks of src/transaction.c, and `txn_rollback`. The store is a parameter with
-- `kv_put`, `kv_delete` and `kv_get`.
use inventixdb.Base.{
  ℕ, ◌-◌, [], ◌∷◌, ◌++◌, List, Option, none, some, Bool, true, false, Bytes, ltb, if◌then◌else◌,
}
use inventixdb.Kv.Table.{Value, row, schema}
use inventixdb.Txn.State.{
  insert, delete, update, create_table, drop_table, create_index, TxnOperation, Manager,
  is_active_state, next, schema_key, savepoint_schema_key,
}

-- The operations of the store that a rollback calls, and its lookup.
pub record StoreOps (S : Type 0) : Type 0 where
  pub kv_put : S → Bytes → Value → S
  pub kv_delete : S → Bytes → S
  pub kv_get : S → Bytes → Option Value

module _ {S : Type 0} (ops : StoreOps S) where
  -- Undo of a row change: a put of the old value if key and value are there.
  unfoldable pub put_back : S → Option Bytes → Option Bytes → S
  put_back s none v = s
  put_back s (some k) none = s
  put_back s (some k) (some v) = ops.kv_put s k (record { bytes = v; type = row })

  unfoldable pub delete_key : S → Option Bytes → S
  delete_key s none = s
  delete_key s (some k) = ops.kv_delete s k

  unfoldable pub delete_schema : S → Bytes → Option Bytes → S
  delete_schema s db none = s
  delete_schema s db (some t) = ops.kv_delete s (schema_key db t)

  -- The schema is stored with its closing NUL.
  unfoldable pub put_schema : S → Bytes → Option Bytes → Option Bytes → S
  put_schema s db none j = s
  put_schema s db (some t) none = s
  put_schema s db (some t) (some j) =
      ops.kv_put s (schema_key db t) (record { bytes = j ++ 0 ∷ []; type = schema })

  -- One round of the loop of `txn_rollback`
  unfoldable pub undo : Bytes → TxnOperation → S → S
  undo db op s = elim op.type [
    | insert ↦ delete_key s op.key
    | delete ↦ put_back s op.key op.old_value
    | update ↦ put_back s op.key op.old_value
    | create_table ↦ delete_schema s db op.table_name
    | drop_table ↦ put_schema s db op.table_name op.schema_json
    | create_index ↦ s
  ]

  unfoldable pub undo_all : Bytes → List TxnOperation → S → S
  undo_all db [] s = s
  undo_all db (op ∷ rest) s = undo_all db rest (undo db op s)

  unfoldable pub txn_rollback : Manager → S → Manager × S × Bool
  txn_rollback m s = elim m.current_txn [
    | none ↦ (m, s, false)
    | some t ↦
        if is_active_state t.state
        then (
          record m {
            current_txn = none;
            total_rollbacks = next m.total_rollbacks;
            auto_commit = true;
          },
          undo_all t.database t.operations s,
          true,
        )
        else (m, s, false)
  ]

  unfoldable pub delete_savepoint_schema : S → Option Bytes → S
  delete_savepoint_schema s none = s
  delete_savepoint_schema s (some t) = ops.kv_delete s (savepoint_schema_key t)

  -- One round of the loop of `txn_rollback_to_savepoint`
  unfoldable pub undo_partial : TxnOperation → S → S
  undo_partial op s = elim op.type [
    | insert ↦ delete_key s op.key
    | delete ↦ put_back s op.key op.old_value
    | update ↦ put_back s op.key op.old_value
    | create_table ↦ delete_savepoint_schema s op.table_name
    | drop_table ↦ s
    | create_index ↦ s
  ]

  -- Its loop, from the newest operation on: what is left of the log, its count, and the store.
  unfoldable pub undo_to : ℕ → List TxnOperation → ℕ → S → List TxnOperation × ℕ × S
  undo_to target [] count s = ([], count, s)
  undo_to target (op ∷ rest) count s =
      let further = undo_to target rest (count - 1) (undo_partial op s) in
      if ltb target count then further else (op ∷ rest, count, s)
