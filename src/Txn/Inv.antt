-- ===== src/Txn/Inv.antt =====
-- The state of the transaction manager (src/transaction.c) stays well formed under every call.
pub mod Calls
use inventixdb.Base.{
  ℕ, suc, ◌+◌, ◌-◌, ◌%◌, ◌^◌, ◌≤◌, ◌<◌, ◌≡◌, ◌⊎◌, inl, inr, refl, ap, subst, ◌∙◌, ◌||◌, List, [],
  ◌∷◌, Option, none, some, Bool, true, false, Option-cases, Bool-cases, arith, Bytes, str_eq,
  length, ltb, lt→ltb, ltb→lt, if◌then◌else◌,
}
use inventixdb.Txn.{
  Manager, TransactionManager, Transaction, TxnOperation, Savepoint, StoreOps, active,
  is_active_state, txn_manager_init, txn_manager_destroy, txn_set_auto_commit, txn_begin,
  txn_commit, txn_rollback, undo_to, undo_partial, from_savepoint, has_savepoint, remove_savepoint,
  active_txn, txn_savepoint, txn_rollback_to_savepoint, txn_release_savepoint, on_active,
  txn_log_insert, txn_log_delete, txn_log_update, txn_log_create_table, txn_log_drop_table,
  txn_log_create_index,
}

-- From the newest on, no savepoint has more operations than the one before it, and none more than `n`.
abbrev pub Below : ℕ → List Savepoint → Type 0
Below n [] = Unit
Below n (sp ∷ sps) = (sp.operation_count ≤ n) × Below sp.operation_count sps

-- No two savepoints share their name.
abbrev pub Distinct : List Savepoint → Type 0
Distinct [] = Unit
Distinct (sp ∷ sps) = (has_savepoint sp.name sps ≡ false) × Distinct sps

-- An open transaction is active, counts the operations of its log, and its savepoints have different
-- names and stand in the order of their operations.
pub record IsTransaction (t : Transaction) : Type 0 where
  pub is_active : t.state ≡ active
  pub counted : t.operation_count ≡ length t.operations
  pub below : Below t.operation_count t.savepoints
  pub distinct : Distinct t.savepoints

abbrev pub IsCurrent : Option Transaction → Type 0
IsCurrent none = Unit
IsCurrent (some t) = IsTransaction t

abbrev pub open_count : Option Transaction → ℕ
open_count none = 0
open_count (some t) = 1

-- Every transaction that was begun is committed, rolled back or open, but for `d` that were open when
-- the manager was destroyed.
pub record IsManager (d : ℕ) (m : Manager) : Type 0 where
  pub current : IsCurrent m.current_txn
  pub totals :
      m.total_transactions
      ≡ (m.total_commits + m.total_rollbacks + open_count m.current_txn + d) % 2 ^ 64

Below-mono : (n k : ℕ) (sps : List Savepoint) → n ≤ k → Below n sps → Below k sps
Below-mono n k [] h b = tt
Below-mono n k (sp ∷ sps) h b = (omega (arith, b.0), b.1)

-- What the calls find in a well-formed state
pub active_txn_cases :
    {d : ℕ} (m : Manager)
    → IsManager d m
    → ((active_txn m ≡ none) × (m.current_txn ≡ none))
      ⊎ ((t : Transaction) × (active_txn m ≡ some t) × (m.current_txn ≡ some t) × IsTransaction t)
unfolding active_txn
active_txn_cases m ok = elim (Option-cases m.current_txn) [
  | inl e ↦ inl (rw (e, active_txn) refl, e)
  | inr (t, e) ↦
      let it = subst IsCurrent e ok.current in inr (t, rw (e, it.is_active, active_txn) refl, e, it)
]

pub with_txn-IsManager :
    {d : ℕ} (m : Manager) (t t' : Transaction)
    → IsManager d m
    → m.current_txn ≡ some t
    → IsTransaction t'
    → IsManager d (record m { current_txn = some t' })
with_txn-IsManager {d = d} m t t' ok e it = record {
  current = it;
  totals =
      ok.totals ∙ ap (λ o. (m.total_commits + m.total_rollbacks + open_count o + d) % 2 ^ 64) e;
}

pub on_active-IsManager :
    {d : ℕ} (m : Manager) (change : Transaction → Transaction)
    → IsManager d m
    → ((t : Transaction) → IsTransaction t → IsTransaction (change t))
    → IsManager d (on_active m change)
unfolding on_active
on_active-IsManager m change ok h = elim (active_txn_cases m ok) [
  | inl (e, e') ↦ rw (e, on_active) ok
  | inr (t, e, e', it) ↦ rw (e, on_active) (with_txn-IsManager m t (change t) ok e' (h t it))
]

-- A transaction with one more operation in its log
pub push-IsTransaction :
    (t : Transaction) (op : TxnOperation) (a b c : ℕ)
    → IsTransaction t
    → IsTransaction (record t {
      operations = op ∷ t.operations;
      operation_count = t.operation_count + 1;
      inserts = a;
      deletes = b;
      updates = c;
    })
push-IsTransaction t op a b c it = record {
  is_active = it.is_active;
  counted = omega (arith, it.counted);
  below = Below-mono t.operation_count (t.operation_count + 1) t.savepoints (omega arith) it.below;
  distinct = it.distinct;
}

pub remove-Below :
    (name : Bytes) (n : ℕ) (sps : List Savepoint)
    → Below n sps
    → Below n (remove_savepoint name sps)
unfolding remove_savepoint
remove-Below name n [] b = tt
remove-Below name n (sp ∷ sps) b = elim (Bool-cases (str_eq sp.name name)) [
  | inl here ↦ rw here (Below-mono sp.operation_count n sps b.0 b.1)
  | inr other ↦ rw other (b.0, remove-Below name sp.operation_count sps b.1)
]

pub or_false : (a b : Bool) → (a || b) ≡ false → (a ≡ false) × (b ≡ false)
or_false true b h = absurd (cc h)
or_false false b h = (refl, h)

-- Removing a savepoint brings no new name.
has-remove :
    (name other : Bytes) (sps : List Savepoint)
    → has_savepoint other sps ≡ false
    → has_savepoint other (remove_savepoint name sps) ≡ false
unfolding has_savepoint remove_savepoint
has-remove name other [] h = h
has-remove name other (sp ∷ sps) h = elim (Bool-cases (str_eq sp.name name)) [
  | inl here ↦ rw here (or_false (str_eq sp.name other) _ h).1
  | inr differs ↦
      let split = or_false (str_eq sp.name other) (has_savepoint other sps) h in
      rw (differs, split.0) (has-remove name other sps split.1)
]

pub remove-Distinct :
    (name : Bytes) (sps : List Savepoint) → Distinct sps → Distinct (remove_savepoint name sps)
unfolding remove_savepoint
remove-Distinct name [] d = tt
remove-Distinct name (sp ∷ sps) d = elim (Bool-cases (str_eq sp.name name)) [
  | inl here ↦ rw here d.1
  | inr differs ↦ rw differs (has-remove name sp.name sps d.0, remove-Distinct name sps d.1)
]

-- The savepoints from a name on are in order and distinct, and none is above the bound.
pub from_savepoint-Below :
    (name : Bytes) (n : ℕ) (sps : List Savepoint)
    → Below n sps
    → Distinct sps
    → Below n (from_savepoint name sps) × Distinct (from_savepoint name sps)
unfolding from_savepoint
from_savepoint-Below name n [] b d = (tt, tt)
from_savepoint-Below name n (sp ∷ sps) b d = elim (Bool-cases (str_eq sp.name name)) [
  | inl here ↦ rw here (b, d)
  | inr differs ↦
      rw differs (from_savepoint-Below name n sps (Below-mono sp.operation_count n sps b.0 b.1) d.1)
]

-- The loop of the rollback to a savepoint stops at its count.
pub undo_to_count :
    {S : Type 0} (ops : StoreOps S) (target : ℕ) (log : List TxnOperation) (count : ℕ) (s : S)
    → count ≡ length log
    → target ≤ count
    → ((undo_to ops target log count s).1 ≡ target)
      × (length (undo_to ops target log count s).0 ≡ target)
unfolding undo_to
undo_to_count ops target [] count s e h = (omega arith, omega arith)
undo_to_count ops target (op ∷ log) count s e h = elim (Bool-cases (ltb target count)) [
  | inl more ↦ rw more (
      undo_to_count ops target log (count - 1) (undo_partial ops op s) (omega arith)
        (omega (arith, ltb→lt _ _ more)))
  | inr done ↦ rw done (ground arith, ground arith)
]
