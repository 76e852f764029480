-- ===== src/Txn/Savepoints.antt =====
-- The savepoints of src/transaction.c.
use inventixdb.Base.{
  [], ◌∷◌, List, Option, none, some, Bool, true, false, ◌||◌, Bytes, str_eq, if◌then◌else◌,
}
use inventixdb.Txn.State.{Savepoint, Manager, active_txn, with_txn}
use inventixdb.Txn.Rollback.{StoreOps, undo_to}

-- The list from the savepoint of that name on; empty without one.
unfoldable pub from_savepoint : Bytes → List Savepoint → List Savepoint
from_savepoint name [] = []
from_savepoint name (sp ∷ sps) =
    let later = from_savepoint name sps in if str_eq sp.name name then sp ∷ sps else later

unfoldable pub has_savepoint : Bytes → List Savepoint → Bool
has_savepoint name [] = false
has_savepoint name (sp ∷ sps) = str_eq sp.name name || has_savepoint name sps

unfoldable pub remove_savepoint : Bytes → List Savepoint → List Savepoint
remove_savepoint name [] = []
remove_savepoint name (sp ∷ sps) =
    let rest = remove_savepoint name sps in if str_eq sp.name name then sps else sp ∷ rest

unfoldable pub txn_savepoint : Manager → Option Bytes → Manager × Bool
txn_savepoint m none = (m, false)
txn_savepoint m (some []) = (m, false)
txn_savepoint m (some (c ∷ cs)) = elim (active_txn m) [
  | none ↦ (m, false)
  | some t ↦ if has_savepoint (c ∷ cs) t.savepoints then (m, false) else (
    with_txn m (record t {
      savepoints = record { name = c ∷ cs; operation_count = t.operation_count } ∷ t.savepoints;
    }),
    true,
  )
]

unfoldable pub txn_rollback_to_savepoint :
    {S : Type 0} → StoreOps S → Manager → S → Bytes → Manager × S × Bool
txn_rollback_to_savepoint ops m s name = elim (active_txn m) [
  | none ↦ (m, s, false)
  | some t ↦ elim (from_savepoint name t.savepoints) [
    | [] ↦ (m, s, false)
    | sp ∷ older ↦
        let (left, count, s') = undo_to ops sp.operation_count t.operations t.operation_count s in
        (
          with_txn m
              (record t { operations = left; operation_count = count; savepoints = sp ∷ older }),
          s',
          true,
        )
  ]
]

unfoldable pub txn_release_savepoint : Manager → Bytes → Manager × Bool
txn_release_savepoint m name = elim (active_txn m) [
  | none ↦ (m, false)
  | some t ↦
      if has_savepoint name t.savepoints
      then (with_txn m (record t { savepoints = remove_savepoint name t.savepoints }), true)
      else (m, false)
]
