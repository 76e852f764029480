-- ===== src/Txn/Inv/Calls.antt =====
-- Every call of src/transaction.c keeps the transaction manager well formed.
use inventixdb.Base.{
  ℕ, ◌+◌, ◌≡◌, inl, inr, ◌⊎◌, if◌then◌else◌, refl, List, [], ◌∷◌, Option, none, some, Bool, true,
  false, Option-cases, Bool-cases, arith, Bytes, subst, ap,
}
use inventixdb.Txn.{
  Manager, StoreOps, txn_manager_init, txn_manager_destroy, txn_set_auto_commit, txn_begin,
  txn_commit, txn_rollback, from_savepoint, has_savepoint, txn_savepoint, txn_rollback_to_savepoint,
  txn_release_savepoint, txn_log_insert, txn_log_delete, txn_log_update, txn_log_create_table,
  txn_log_drop_table, txn_log_create_index,
}
use inventixdb.Txn.Inv.{
  IsManager, Below, Distinct, open_count, active_txn_cases, with_txn-IsManager, on_active-IsManager,
  push-IsTransaction, remove-Below, remove-Distinct, from_savepoint-Below, undo_to_count,
}

-- What the manager is asked to do
pub data Call : Type 0 where
  begin : Option Bytes → Option Bytes → ℕ → Call
  commit rollback destroy : Call
  set_auto_commit : Bool → Call
  savepoint : Option Bytes → Call
  rollback_to release : Bytes → Call
  log_insert log_create_table log_create_index : Option Bytes → Option Bytes → Call
  log_delete log_update log_drop_table : Option Bytes → Option Bytes → Option Bytes → Call

-- The manager after a call
unfoldable pub called : {S : Type 0} → StoreOps S → Manager → S → Call → Manager
called ops m s (begin user database now) = (txn_begin m user database now).0
called ops m s commit = (txn_commit m).0
called ops m s rollback = (txn_rollback ops m s).0
called ops m s destroy = txn_manager_destroy m
called ops m s (set_auto_commit enabled) = txn_set_auto_commit m enabled
called ops m s (savepoint name) = (txn_savepoint m name).0
called ops m s (rollback_to name) = (txn_rollback_to_savepoint ops m s name).0
called ops m s (release name) = (txn_release_savepoint m name).0
called ops m s (log_insert table key) = txn_log_insert m table key
called ops m s (log_create_table table json) = txn_log_create_table m table json
called ops m s (log_create_index table column) = txn_log_create_index m table column
called ops m s (log_delete table key old) = txn_log_delete m table key old
called ops m s (log_update table key old) = txn_log_update m table key old
called ops m s (log_drop_table table json rows) = txn_log_drop_table m table json rows

-- The transactions that were open when the manager was destroyed, after one more call
abbrev pub left_open : ℕ → Manager → Call → ℕ
left_open d m (begin user database now) = d
left_open d m commit = d
left_open d m rollback = d
left_open d m destroy = d + open_count m.current_txn
left_open d m (set_auto_commit enabled) = d
left_open d m (savepoint name) = d
left_open d m (rollback_to name) = d
left_open d m (release name) = d
left_open d m (log_insert table key) = d
left_open d m (log_create_table table json) = d
left_open d m (log_create_index table column) = d
left_open d m (log_delete table key old) = d
left_open d m (log_update table key old) = d
left_open d m (log_drop_table table json rows) = d

pub init-IsManager : IsManager 0 txn_manager_init
init-IsManager = record { current = tt; totals = refl }

begin-IsManager :
    {d : ℕ} (m : Manager) (user database : Option Bytes) (now : ℕ)
    → IsManager d m
    → IsManager d (txn_begin m user database now).0
unfolding txn_begin
begin-IsManager m user database now ok = elim (Option-cases m.current_txn) [
  | inl e ↦
      rw (e, txn_begin)
        (record {
          current = record { is_active = refl; counted = refl; below = tt; distinct = tt };
          totals = omega (arith, ok.totals, ap open_count e);
        })
  | inr (t, e) ↦ rw (e, txn_begin) ok
]

-- `txn_set_auto_commit` touches the mode only.
auto_commit-IsManager :
    {d : ℕ} (m : Manager) (enabled : Bool)
    → IsManager d m
    → IsManager d (txn_set_auto_commit m enabled)
unfolding txn_set_auto_commit
auto_commit-IsManager {d = d} m enabled ok = elim (Option-cases m.current_txn) [
  | inl e ↦ rw (e, txn_set_auto_commit) (record { current = ok.current; totals = ok.totals })
  | inr (t, e) ↦ rw (e, txn_set_auto_commit) (set_it enabled)
]
  where
    set_it : (b : Bool) → IsManager d (if b then record m { auto_commit = b } else m)
    set_it true = record { current = ok.current; totals = ok.totals }
    set_it false = ok

commit-IsManager : {d : ℕ} (m : Manager) → IsManager d m → IsManager d (txn_commit m).0
unfolding txn_commit
commit-IsManager m ok = elim (active_txn_cases m ok) [
  | inl (e, e') ↦ rw (e', txn_commit) ok
  | inr (t, e, e', it) ↦
      rw (e', it.is_active, txn_commit)
        (record { current = tt; totals = omega (arith, ok.totals, ap open_count e') })
]

rollback-IsManager :
    {d : ℕ} {S : Type 0} (ops : StoreOps S) (m : Manager) (s : S)
    → IsManager d m
    → IsManager d (txn_rollback ops m s).0
unfolding txn_rollback
rollback-IsManager ops m s ok = elim (active_txn_cases m ok) [
  | inl (e, e') ↦ rw (e', txn_rollback) ok
  | inr (t, e, e', it) ↦
      rw (e', it.is_active, txn_rollback)
        (record { current = tt; totals = omega (arith, ok.totals, ap open_count e') })
]

savepoint-IsManager :
    {d : ℕ} (m : Manager) (name : Option Bytes)
    → IsManager d m
    → IsManager d (txn_savepoint m name).0
unfolding txn_savepoint
savepoint-IsManager m none ok = ok
savepoint-IsManager m (some []) ok = ok
savepoint-IsManager m (some (c ∷ cs)) ok = elim (active_txn_cases m ok) [
  | inl (e, e') ↦ rw (e, txn_savepoint) ok
  | inr (t, e, e', it) ↦ elim (Bool-cases (has_savepoint (c ∷ cs) t.savepoints)) [
    | inl taken ↦ rw (e, taken, txn_savepoint) ok
    | inr new ↦
        rw (e, new, txn_savepoint)
          (with_txn-IsManager m t _ ok e' (record {
            is_active = it.is_active;
            counted = it.counted;
            below = (omega arith, it.below);
            distinct = (new, it.distinct);
          }))
  ]
]

release-IsManager :
    {d : ℕ} (m : Manager) (name : Bytes)
    → IsManager d m
    → IsManager d (txn_release_savepoint m name).0
unfolding txn_release_savepoint
release-IsManager m name ok = elim (active_txn_cases m ok) [
  | inl (e, e') ↦ rw (e, txn_release_savepoint) ok
  | inr (t, e, e', it) ↦ elim (Bool-cases (has_savepoint name t.savepoints)) [
    | inl found ↦
        rw (e, found, txn_release_savepoint)
          (with_txn-IsManager m t _ ok e' (record {
            is_active = it.is_active;
            counted = it.counted;
            below = remove-Below name t.operation_count t.savepoints it.below;
            distinct = remove-Distinct name t.savepoints it.distinct;
          }))
    | inr absent ↦ rw (e, absent, txn_release_savepoint) ok
  ]
]

List-cases {ℓ} : {A : Type ℓ} (xs : List A) → (xs ≡ []) ⊎ ((x : A) × (ys : List A) × (xs ≡ x ∷ ys))
List-cases [] = inl refl
List-cases (x ∷ xs) = inr (x, xs, refl)

rollback_to-IsManager :
    {d : ℕ} {S : Type 0} (ops : StoreOps S) (m : Manager) (s : S) (name : Bytes)
    → IsManager d m
    → IsManager d (txn_rollback_to_savepoint ops m s name).0
unfolding txn_rollback_to_savepoint
rollback_to-IsManager ops m s name ok = elim (active_txn_cases m ok) [
  | inl (e, e') ↦ rw (e, txn_rollback_to_savepoint) ok
  | inr (t, e, e', it) ↦ elim (List-cases (from_savepoint name t.savepoints)) [
    | inl absent ↦ rw (e, absent, txn_rollback_to_savepoint) ok
    | inr (sp, older, found) ↦
        let kept = from_savepoint-Below name t.operation_count t.savepoints it.below it.distinct in
        let b = subst (Below t.operation_count) found kept.0 in
        let d = subst Distinct found kept.1 in
        let stop =
          undo_to_count ops sp.operation_count t.operations t.operation_count s it.counted b.0 in
        rw (e, found, txn_rollback_to_savepoint)
          (with_txn-IsManager m t _ ok e' (record {
            is_active = it.is_active;
            counted = omega (arith, stop);
            below = (omega (arith, stop), b.1);
            distinct = d;
          }))
  ]
]

-- Every call of the transaction manager, `txn_manager_destroy` included, keeps a well-formed manager
-- so: the open transaction is active, its count is the length of its undo log, its savepoints have
-- different names and stand in the order of their operations, and every transaction begun is
-- committed, rolled back or open, but for those that were open when the manager was destroyed, each of
-- which is neither.
pub called-IsManager :
    {S : Type 0} {d : ℕ} (ops : StoreOps S) (m : Manager) (s : S) (c : Call)
    → IsManager d m
    → IsManager (left_open d m c) (called ops m s c)
unfolding called
called-IsManager ops m s (begin user database now) ok = begin-IsManager m user database now ok
called-IsManager ops m s commit ok = commit-IsManager m ok
called-IsManager ops m s rollback ok = rollback-IsManager ops m s ok
called-IsManager ops m s destroy ok = record { current = tt; totals = omega (arith, ok.totals) }
called-IsManager ops m s (set_auto_commit enabled) ok = auto_commit-IsManager m enabled ok
called-IsManager ops m s (savepoint name) ok = savepoint-IsManager m name ok
called-IsManager ops m s (rollback_to name) ok = rollback_to-IsManager ops m s name ok
called-IsManager ops m s (release name) ok = release-IsManager m name ok
called-IsManager ops m s (log_insert table key) ok =
    on_active-IsManager m _ ok (λ t it. push-IsTransaction t _ _ _ _ it)
called-IsManager ops m s (log_create_table table json) ok =
    on_active-IsManager m _ ok (λ t it. push-IsTransaction t _ _ _ _ it)
called-IsManager ops m s (log_create_index table column) ok =
    on_active-IsManager m _ ok (λ t it. push-IsTransaction t _ _ _ _ it)
called-IsManager ops m s (log_delete table key old) ok =
    on_active-IsManager m _ ok (λ t it. push-IsTransaction t _ _ _ _ it)
called-IsManager ops m s (log_update table key old) ok =
    on_active-IsManager m _ ok (λ t it. push-IsTransaction t _ _ _ _ it)
called-IsManager ops m s (log_drop_table table json rows) ok =
    on_active-IsManager m _ ok (λ t it. push-IsTransaction t _ _ _ _ it)
