-- ===== src/Txn/State.antt =====
-- The state of the transaction manager (src/transaction.c, include/transaction.h), and the calls that
-- do not touch the undo log. A `char *` that may be NULL is an `Option`. `malloc` succeeds.
use inventixdb.Base.{
  ℕ, ◌+◌, ◌%◌, ◌^◌, [], ◌∷◌, ◌++◌, List, Option, none, some, Bool, true, false, Bytes, codes,
  if◌then◌else◌, take,
}

pub data TransactionState : Type 0 where
  no_transaction active committed aborted : TransactionState

pub data TransactionOpType : Type 0 where
  insert delete update create_table drop_table create_index : TransactionOpType

-- `old_value_size` is the length of the old value.
pub record TxnOperation : Type 0 where
  pub type : TransactionOpType
  pub table_name : Option Bytes
  pub key : Option Bytes
  pub old_value : Option Bytes
  pub schema_json : Option Bytes

pub record Savepoint : Type 0 where
  pub name : Bytes
  pub operation_count : ℕ

pub record Transaction : Type 0 where
  pub txn_id : ℕ
  pub state : TransactionState
  pub start_time : ℕ
  pub user : Bytes
  pub database : Bytes
  pub operations : List TxnOperation
  pub operation_count : ℕ
  pub savepoints : List Savepoint
  pub inserts : ℕ
  pub deletes : ℕ
  pub updates : ℕ

pub record TransactionManager : Type 0 where
  pub current_txn : Option Transaction
  pub next_txn_id : ℕ
  pub auto_commit : Bool
  pub total_commits : ℕ
  pub total_rollbacks : ℕ
  pub total_transactions : ℕ

abbrev pub Manager : Type 0
Manager = TransactionManager

abbrev pub is_active_state : TransactionState → Bool
is_active_state active = true
is_active_state no_transaction = false
is_active_state committed = false
is_active_state aborted = false

-- `x++` on an `unsigned long`
abbrev pub next : ℕ → ℕ
next x = (x + 1) % 2 ^ 64

-- `create_operation` keeps an old value only if it has bytes.
unfoldable pub kept_value : Option Bytes → Option Bytes
kept_value none = none
kept_value (some []) = none
kept_value (some (b ∷ bs)) = some (b ∷ bs)

unfoldable pub create_operation :
    TransactionOpType → Option Bytes → Option Bytes → Option Bytes → TxnOperation
create_operation type table key old = record {
  type = type;
  table_name = table;
  key = key;
  old_value = kept_value old;
  schema_json = none;
}

abbrev pub txn_manager_init : Manager
txn_manager_init = record {
  current_txn = none;
  next_txn_id = 1;
  auto_commit = true;
  total_commits = 0;
  total_rollbacks = 0;
  total_transactions = 0;
}

abbrev pub txn_manager_destroy : Manager → Manager
txn_manager_destroy m = record m { current_txn = none }

-- An open transaction keeps auto-commit from being disabled.
unfoldable pub txn_set_auto_commit : Manager → Bool → Manager
txn_set_auto_commit m enabled =
    let set_it = record m { auto_commit = enabled } in
    elim m.current_txn [ none ↦ set_it | some t ↦ if enabled then set_it else m ]

abbrev pub or_default : Option Bytes → Bytes → Bytes
or_default none d = d
or_default (some s) d = s

-- `txn_begin`; the Boolean is whether the call returns 0.
unfoldable pub txn_begin : Manager → Option Bytes → Option Bytes → ℕ → Manager × Bool
txn_begin m user database now = elim m.current_txn [
  | some t ↦ (m, false)
  | none ↦ (
    record m {
      current_txn = some (record {
        txn_id = m.next_txn_id;
        state = active;
        start_time = now;
        user = or_default user (codes "unknown");
        database = or_default database (codes "public");
        operations = [];
        operation_count = 0;
        savepoints = [];
        inserts = 0;
        deletes = 0;
        updates = 0;
      });
      next_txn_id = next m.next_txn_id;
      total_transactions = next m.total_transactions;
      auto_commit = false;
    },
    true,
  )
]

unfoldable pub txn_commit : Manager → Manager × Bool
txn_commit m = elim m.current_txn [
  | none ↦ (m, false)
  | some t ↦
      if is_active_state t.state
      then (
        record m { current_txn = none; total_commits = next m.total_commits; auto_commit = true },
        true,
      )
      else (m, false)
]

-- `DB:%s:META:TBL:%s` in a buffer of 512 bytes
abbrev pub schema_key : Bytes → Bytes → Bytes
schema_key database table = take 511 (codes "DB:" ++ database ++ codes ":META:TBL:" ++ table)

-- `__schema__%s` in a buffer of 256 bytes
abbrev pub savepoint_schema_key : Bytes → Bytes
savepoint_schema_key table = take 255 (codes "__schema__" ++ table)

abbrev pub txn_is_active : Manager → Bool
txn_is_active m = elim m.current_txn [ none ↦ false | some t ↦ is_active_state t.state ]

abbrev pub txn_get_state : Manager → TransactionState
txn_get_state m = elim m.current_txn [ none ↦ no_transaction | some t ↦ t.state ]

abbrev pub txn_get_id : Manager → ℕ
txn_get_id m = elim m.current_txn [ none ↦ 0 | some t ↦ t.txn_id ]

-- The transaction that a call works on, if it is active.
unfoldable pub active_txn : Manager → Option Transaction
active_txn m = elim m.current_txn [
  | none ↦ none
  | some t ↦ if is_active_state t.state then some t else none
]

abbrev pub with_txn : Manager → Transaction → Manager
with_txn m t = record m { current_txn = some t }
