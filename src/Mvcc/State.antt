-- ===== src/Mvcc/State.antt =====
-- The state of src/mvcc.c: the slots of the active transactions, the lock table and the counters. A
-- pointer into a slot is the identifier of its transaction. A `LockEntry *` is a serial number, as no
-- two calls of `calloc` give the same live block.
use inventixdb.Base.{
  ℕ, ◌+◌, ◌%◌, ◌^◌, List, [], ◌∷◌, Option, none, some, Bool, true, false, Bytes, ◌==◌,
  if◌then◌else◌,
}

pub data IsolationLevel : Type 0 where
  read_uncommitted read_committed repeatable_read serializable : IsolationLevel

-- The value of the C enumeration
abbrev pub level : IsolationLevel → ℕ
level read_uncommitted = 0
level read_committed = 1
level repeatable_read = 2
level serializable = 3

pub data TxnState : Type 0 where
  active preparing committed aborted committing : TxnState

abbrev pub is_active_state : TxnState → Bool
is_active_state active = true
is_active_state preparing = false
is_active_state committed = false
is_active_state aborted = false
is_active_state committing = false

pub record TransactionSnapshot : Type 0 where
  pub xmin : ℕ
  pub xmax : ℕ
  pub active_txns : List ℕ
  pub snapshot_ts : ℕ

pub data LockMode : Type 0 where
  lock_none shared exclusive update share_row_exclusive access_exclusive : LockMode

pub record LockEntry : Type 0 where
  pub serial : ℕ
  pub resource_id : Bytes
  pub mode : LockMode
  pub granularity : ℕ
  pub holder : ℕ

-- The chain of each bucket, and the next serial number. `freed_read` says whether an entry was read
-- that `mvcc_release_lock` had freed, which C leaves undefined.
pub record LockTable : Type 0 where
  pub entries : ℕ → List LockEntry
  pub total_locks : ℕ
  pub next_serial : ℕ
  pub freed_read : Bool

-- A written row: the table, the row, and the versions as addresses
pub record WriteEntry : Type 0 where
  pub table_name : Bytes
  pub row_id : ℕ
  pub old_version : ℕ
  pub new_version : ℕ

pub record ReadEntry : Type 0 where
  pub table_name : Bytes
  pub row_id : ℕ

pub record SavepointMark : Type 0 where
  pub name : Bytes
  pub write_set_mark : ℕ
  pub read_set_mark : ℕ

-- `TransactionDescriptor`; the counts are the lengths of the lists, newest element first.
pub record TransactionDescriptor : Type 0 where
  pub txn_id : ℕ
  pub state : TxnState
  pub isolation : IsolationLevel
  pub start_ts : ℕ
  pub commit_ts : ℕ
  pub start_time : ℕ
  pub snapshot : Option TransactionSnapshot
  pub write_set : List WriteEntry
  pub read_set : Option (List ReadEntry)
  pub held_locks : List LockEntry
  pub savepoints : List SavepointMark
  pub user_name : Option Bytes

abbrev pub Slots : Type 0
Slots = List (Option TransactionDescriptor)

pub record MvccManager : Type 0 where
  pub next_txn_id : ℕ
  pub current_timestamp : ℕ
  pub active_txns : Slots
  pub active_count : ℕ
  pub commit_log : List (ℕ × ℕ)
  pub lock_table : LockTable
  pub total_commits : ℕ
  pub total_aborts : ℕ
  pub lock_waits : ℕ

-- `x + 1` on a `uint64_t`
abbrev pub next64 : ℕ → ℕ
next64 x = (x + 1) % 2 ^ 64

-- The loop of `mvcc_get_transaction`
unfoldable pub lookup : ℕ → Slots → Option TransactionDescriptor
lookup id [] = none
lookup id (none ∷ rest) = lookup id rest
lookup id (some t ∷ rest) = let later = lookup id rest in if t.txn_id == id then some t else later

abbrev pub mvcc_get_transaction : MvccManager → ℕ → Option TransactionDescriptor
mvcc_get_transaction m id = lookup id m.active_txns

-- A transaction that is not in a slot counts as aborted.
abbrev pub state_of : Option TransactionDescriptor → TxnState
state_of none = aborted
state_of (some t) = t.state

abbrev pub mvcc_get_state : MvccManager → ℕ → TxnState
mvcc_get_state m id = state_of (mvcc_get_transaction m id)

abbrev pub mvcc_get_isolation : MvccManager → ℕ → IsolationLevel
mvcc_get_isolation m id = elim (mvcc_get_transaction m id) [
  | none ↦ read_committed
  | some t ↦ t.isolation
]

abbrev pub mvcc_is_active : MvccManager → ℕ → Bool
mvcc_is_active m id = elim (mvcc_get_transaction m id) [
  | none ↦ false
  | some t ↦ is_active_state t.state
]

-- The first free slot takes the transaction; without one it is not registered.
unfoldable pub register : TransactionDescriptor → Slots → Slots
register t [] = []
register t (none ∷ rest) = some t ∷ rest
register t (some u ∷ rest) = some u ∷ register t rest

unfoldable pub has_free : Slots → Bool
has_free [] = false
has_free (none ∷ rest) = true
has_free (some t ∷ rest) = has_free rest

-- A write through the pointer of the transaction
unfoldable pub change_txn : ℕ → (TransactionDescriptor → TransactionDescriptor) → Slots → Slots
change_txn id f [] = []
change_txn id f (none ∷ rest) = none ∷ change_txn id f rest
change_txn id f (some t ∷ rest) =
    let later = change_txn id f rest in if t.txn_id == id then some (f t) ∷ rest else some t ∷ later

-- The slot of the transaction is cleared.
unfoldable pub unregister : ℕ → Slots → Slots
unregister id [] = []
unregister id (none ∷ rest) = none ∷ unregister id rest
unregister id (some t ∷ rest) =
    let later = unregister id rest in if t.txn_id == id then none ∷ rest else some t ∷ later
