-- ===== src/Txn/Partial.antt =====
-- `txn_rollback_to_savepoint` of src/transaction.c brings back the rows of the savepoint.
pub mod Restore
use inventixdb.Base.{
  ℕ, ◌+◌, ◌-◌, ◌≤◌, ◌≡◌, ◌⊎◌, inl, inr, refl, sym, ap, subst, ◌∙◌, List, [], ◌∷◌, Option, none,
  some, Bool, true, false, ◌||◌, Bool-cases, Bytes, length, ltb, le→ltb, lt→ltb, arith, str_eq,
  str_eq_iff, str_eq_refl, All,
}
use inventixdb.Kv.Table.{Value, row}
use inventixdb.Txn.{
  Manager, Transaction, TransactionOpType, TxnOperation, Savepoint, StoreOps, active, insert,
  delete, update, create_table, drop_table, create_index, is_active_state, kept_value,
  create_operation, put_back, delete_key, undo_partial, undo_to, delete_savepoint_schema,
  from_savepoint, has_savepoint, active_txn, txn_savepoint, txn_rollback_to_savepoint, on_active,
  with_txn, txn_log_insert, txn_log_delete, txn_log_update, savepoint_schema_key,
}
use inventixdb.Txn.Inv.{IsManager, IsTransaction, IsCurrent}
use inventixdb.Txn.Undo.{
  IsMap, KeyOf, Same, Same-trans, delete-Same, put_back-Same, delete_key-Same, delete-put, put-put,
  put-delete,
}

module _ {S : Type 0} (ops : StoreOps S) where
  pub undo_to_stop :
      (log : List TxnOperation) (s : S)
      → undo_to ops (length log) log (length log) s ≡ (log, length log, s)
  unfolding undo_to
  undo_to_stop [] s = refl
  undo_to_stop (op ∷ log) s = rw (le→ltb (length (op ∷ log)) (length (op ∷ log)) (omega arith)) refl

abbrev pub SavepointKeyOf : (Bytes → Type 0) → Option Bytes → Type 0
SavepointKeyOf Key none = Unit
SavepointKeyOf Key (some t) = Key (savepoint_schema_key t)

-- The key that the rollback to a savepoint writes for an operation
abbrev pub RowKeyOf : (Bytes → Type 0) → TransactionOpType → Option Bytes → Option Bytes → Type 0
RowKeyOf Key insert k t = KeyOf Key k
RowKeyOf Key delete k t = KeyOf Key k
RowKeyOf Key update k t = KeyOf Key k
RowKeyOf Key create_table k t = SavepointKeyOf Key t
RowKeyOf Key drop_table k t = Unit
RowKeyOf Key create_index k t = Unit

abbrev pub HasRowKeys : (Bytes → Type 0) → List TxnOperation → Type 0
HasRowKeys Key log = All (λ op. RowKeyOf Key op.type op.key op.table_name) log

module _ {S : Type 0} (ops : StoreOps S) (Key : Bytes → Type 0) where
  -- Changes of rows of the given keys, each with the call that logs it, and further savepoints
  pub data RowSteps (m : Manager) (s : S) : Manager → S → Type 0 where
    start : RowSteps m s m s
    inserted :
        (m1 : Manager) (s1 : S) (table : Option Bytes) (k : Bytes) (v : Value)
        → RowSteps m s m1 s1
        → ops.kv_get s1 k ≡ none
        → Key k
        → RowSteps m s (txn_log_insert m1 table (some k)) (ops.kv_put s1 k v)
    updated :
        (m1 : Manager) (s1 : S) (table : Option Bytes) (k : Bytes) (v : Value) (b : ℕ) (bs : Bytes)
        → RowSteps m s m1 s1
        → ops.kv_get s1 k ≡ some (record { bytes = b ∷ bs; type = row })
        → Key k
        → RowSteps m s (txn_log_update m1 table (some k) (some (b ∷ bs))) (ops.kv_put s1 k v)
    deleted :
        (m1 : Manager) (s1 : S) (table : Option Bytes) (k : Bytes) (b : ℕ) (bs : Bytes)
        → RowSteps m s m1 s1
        → ops.kv_get s1 k ≡ some (record { bytes = b ∷ bs; type = row })
        → Key k
        → RowSteps m s (txn_log_delete m1 table (some k) (some (b ∷ bs))) (ops.kv_delete s1 k)
    saved :
        (m1 : Manager) (s1 : S) (name : Option Bytes)
        → RowSteps m s m1 s1
        → RowSteps m s (txn_savepoint m1 name).0 s1

module _ {S : Type 0} (ops : StoreOps S) (Key : Bytes → Type 0) (Good : S → Type 0) where
  -- The open transaction has the savepoint, set when its log was `log`, and undoing down to there
  -- leads from `s` back to `base`.
  pub record LeadsBackTo (name : Bytes) (log : List TxnOperation) (base : S) (m : Manager) (s : S)
      : Type 0 where
    pub txn : Transaction
    pub is_current : m.current_txn ≡ some txn
    pub is_active : txn.state ≡ active
    pub reaches : length log ≤ txn.operation_count
    pub mark : Savepoint
    pub keys : HasRowKeys Key txn.operations
    pub good : Good s
    pub older : List Savepoint
    pub marks : from_savepoint name txn.savepoints ≡ mark ∷ older
    pub mark_count : mark.operation_count ≡ length log
    pub left : (undo_to ops (length log) txn.operations txn.operation_count s).0 ≡ log
    pub restores :
        Same ops Key Good (undo_to ops (length log) txn.operations txn.operation_count s).2 base

  module _ (map : IsMap ops Key Good) where
    partial_by_type :
        (s s' : S) (type : TransactionOpType) (t k v j : Option Bytes)
        → RowKeyOf Key type k t
        → Same ops Key Good s s'
        → let op : TxnOperation = record {
          type = type;
          table_name = t;
          key = k;
          old_value = v;
          schema_json = j;
        } in
          Same ops Key Good (undo_partial ops op s) (undo_partial ops op s')
    unfolding undo_partial delete_savepoint_schema
    partial_by_type s s' insert t k v j hk h = delete_key-Same ops Key Good map s s' k hk h
    partial_by_type s s' delete t k v j hk h = put_back-Same ops Key Good map s s' k v hk h
    partial_by_type s s' update t k v j hk h = put_back-Same ops Key Good map s s' k v hk h
    partial_by_type s s' create_table none k v j hk h = h
    partial_by_type s s' create_table (some t) k v j hk h =
        delete-Same ops Key Good map s s' (savepoint_schema_key t) hk h
    partial_by_type s s' drop_table t k v j hk h = h
    partial_by_type s s' create_index t k v j hk h = h

    -- The loop leaves the same log for stores with the same lookups, and the same lookups.
    undo_to-Same :
        (target : ℕ) (log : List TxnOperation) (count : ℕ) (s s' : S)
        → HasRowKeys Key log
        → Same ops Key Good s s'
        → ((undo_to ops target log count s).0 ≡ (undo_to ops target log count s').0)
          × Same ops Key Good (undo_to ops target log count s).2 (undo_to ops target log count s').2
    unfolding undo_to
    undo_to-Same target [] count s s' hk h = (refl, h)
    undo_to-Same target (op ∷ log) count s s' hk h = elim (Bool-cases (ltb target count)) [
      | inl more ↦ rw more (
          undo_to-Same target log (count - 1) (undo_partial ops op s) (undo_partial ops op s') hk.1
            (partial_by_type s s' op.type op.table_name op.key op.old_value op.schema_json hk.0 h))
      | inr done ↦ rw done (refl, h)
    ]

    -- One more logged change that its operation undoes
    pub logged_after :
        (name : Bytes) (log : List TxnOperation) (base : S) (m : Manager) (s s' : S)
        (op : TxnOperation) (change : Transaction → Transaction)
        → LeadsBackTo name log base m s
        → ((t : Transaction) → (change t).state ≡ t.state)
        → ((t : Transaction) → (change t).savepoints ≡ t.savepoints)
        → ((t : Transaction) → (change t).operations ≡ op ∷ t.operations)
        → ((t : Transaction) → (change t).operation_count ≡ t.operation_count + 1)
        → RowKeyOf Key op.type op.key op.table_name
        → Good s'
        → Same ops Key Good (undo_partial ops op s') s
        → LeadsBackTo name log base (on_active m change) s'
    unfolding on_active active_txn undo_to
    logged_after name log base m s s' op change l st sv os cs hk g h = record {
      txn = change l.txn;
      is_current = rw (l.is_current, l.is_active, active_txn, on_active) refl;
      is_active = st l.txn ∙ l.is_active;
      reaches = omega (arith, l.reaches, cs l.txn);
      keys = subst (HasRowKeys Key) (sym (os l.txn)) (hk, l.keys);
      good = g;
      mark = l.mark;
      older = l.older;
      marks = ap (from_savepoint name) (sv l.txn) ∙ l.marks;
      mark_count = l.mark_count;
      left = ap (λ r. r.0) shown ∙ same.0 ∙ l.left;
      restores =
          subst (λ u. Same ops Key Good u base) (sym (ap (λ r. r.2) shown))
            (Same-trans ops Key Good _ _ base same.1 l.restores);
    }
      where
        same :
            ((undo_to ops
                (length log)
                l.txn.operations
                l.txn.operation_count
                (undo_partial ops op s')).0
              ≡ (undo_to ops (length log) l.txn.operations l.txn.operation_count s).0)
            × Same ops Key Good
                (undo_to ops
                  (length log)
                  l.txn.operations
                  l.txn.operation_count
                  (undo_partial ops op s')).2
                (undo_to ops (length log) l.txn.operations l.txn.operation_count s).2
        same = undo_to-Same (length log) l.txn.operations l.txn.operation_count _ s l.keys h

        one_round :
            undo_to ops (length log) (op ∷ l.txn.operations) (l.txn.operation_count + 1) s'
            ≡ undo_to ops
                (length log)
                l.txn.operations
                l.txn.operation_count
                (undo_partial ops op s')
        one_round =
            let above : ltb (length log) (l.txn.operation_count + 1) ≡ true =
              lt→ltb (length log) (l.txn.operation_count + 1) (omega (arith, l.reaches)) in
            let less : (l.txn.operation_count + 1) - 1 ≡ l.txn.operation_count = omega arith in
            rw (above, less) refl

        shown :
            undo_to ops (length log) (change l.txn).operations (change l.txn).operation_count s'
            ≡ undo_to ops
                (length log)
                l.txn.operations
                l.txn.operation_count
                (undo_partial ops op s')
        shown =
            ap (λ xs. undo_to ops (length log) xs (change l.txn).operation_count s') (os l.txn)
            ∙ ap (λ n. undo_to ops (length log) (op ∷ l.txn.operations) n s') (cs l.txn)
            ∙ one_round
