-- ===== src/Txn/Log.antt =====
-- The `txn_log_` functions of src/transaction.c, which extend the undo log.
use inventixdb.Base.{◌+◌, ◌∷◌, Option, none, some, Bytes}
use inventixdb.Txn.State.{
  insert, delete, update, create_table, drop_table, create_index, TxnOperation, Transaction,
  Manager, create_operation, active_txn, with_txn,
}

-- The push at the front of the log, common to all `txn_log_` functions
abbrev pub push : TxnOperation → Transaction → Transaction
push op t = record t { operations = op ∷ t.operations; operation_count = t.operation_count + 1 }

unfoldable pub on_active : Manager → (Transaction → Transaction) → Manager
on_active m change = elim (active_txn m) [ none ↦ m | some t ↦ with_txn m (change t) ]

abbrev pub txn_log_insert : Manager → Option Bytes → Option Bytes → Manager
txn_log_insert m table key =
    on_active m
      (λ t. record (push (create_operation insert table key none) t) { inserts = t.inserts + 1 })

abbrev pub txn_log_delete : Manager → Option Bytes → Option Bytes → Option Bytes → Manager
txn_log_delete m table key old =
    on_active m
      (λ t. record (push (create_operation delete table key old) t) { deletes = t.deletes + 1 })

abbrev pub txn_log_update : Manager → Option Bytes → Option Bytes → Option Bytes → Manager
txn_log_update m table key old =
    on_active m
      (λ t. record (push (create_operation update table key old) t) { updates = t.updates + 1 })

abbrev pub txn_log_create_table : Manager → Option Bytes → Option Bytes → Manager
txn_log_create_table m table json =
    on_active m
      (push (record (create_operation create_table table none none) { schema_json = json }))

-- The rows are kept even if they are empty.
abbrev pub txn_log_drop_table : Manager → Option Bytes → Option Bytes → Option Bytes → Manager
txn_log_drop_table m table json rows = on_active m (
    push (record (create_operation drop_table table none none) {
      schema_json = json;
      old_value = rows;
    }))

abbrev pub txn_log_create_index : Manager → Option Bytes → Option Bytes → Manager
txn_log_create_index m table column =
    on_active m (push (create_operation create_index table column none))
