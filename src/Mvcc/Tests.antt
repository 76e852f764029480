-- ===== src/Mvcc/Tests.antt =====
-- Runs of src/mvcc.c with two transactions.
use inventixdb.Base.{
  ◌≡◌, refl, [], ◌∷◌, none, some, true, false, ◌&&◌, not, ltb, replicate, arith, Bytes, ◌==◌,
  if◌then◌else◌,
}
use inventixdb.Mvcc.State.{
  MvccManager, TransactionDescriptor, read_committed, is_active_state, mvcc_get_transaction, lookup,
  register, shared, LockEntry, change_txn,
}
use inventixdb.Mvcc.Locks.{bucket}
use inventixdb.Mvcc.Visible.{
  MvccTupleHeader, mvcc_is_visible, mvcc_take_snapshot, mvcc_tuple_visible,
}
use inventixdb.Mvcc.Snapshot.{runs, is_visible-take_snapshot}
use inventixdb.Mvcc.Slots.{IsMvcc}
use inventixdb.Mvcc.Calls.{new_txn, mvcc_begin_transaction, mvcc_commit_transaction}
use inventixdb.Mvcc.Calls.Begin.{begin_lem}
use inventixdb.Mvcc.Calls.Commit.{committed_hidden}

-- `mvcc_init`, with four slots
abbrev idle : MvccManager
idle = record {
  next_txn_id = 1;
  current_timestamp = 0;
  active_txns = replicate 4 none;
  active_count = 0;
  commit_log = [];
  lock_table = record { entries = λ b. []; total_locks = 0; next_serial = 0; freed_read = false };
  total_commits = 0;
  total_aborts = 0;
  lock_waits = 0;
}

idle-IsMvcc : IsMvcc idle
idle-IsMvcc = record { unique = tt; given = tt; counted = refl }

abbrev one : MvccManager
one = (mvcc_begin_transaction idle read_committed none 0).0

one-IsMvcc : IsMvcc one
one-IsMvcc = (begin_lem idle read_committed none 0 idle-IsMvcc (omega arith)).1

abbrev two : MvccManager
two = (mvcc_begin_transaction one read_committed none 0).0

-- The first transaction, as `one` has it
abbrev first : TransactionDescriptor
first = new_txn (record idle { next_txn_id = 2; current_timestamp = 1 }) 1 read_committed none 0

first_there : mvcc_get_transaction one 1 ≡ some first
unfolding mvcc_begin_transaction lookup register new_txn
first_there = refl

first_active : is_active_state first.state ≡ true
unfolding new_txn
first_active = refl

abbrev tuple : MvccTupleHeader
tuple = record { xmin = 1; xmax = 0; hint_committed = false; hint_aborted = false }

two-IsMvcc : IsMvcc two
unfolding mvcc_begin_transaction
two-IsMvcc = (begin_lem one read_committed none 0 one-IsMvcc (omega arith)).1

first_in_two : mvcc_get_transaction two 1 ≡ some first
unfolding mvcc_begin_transaction lookup register new_txn
first_in_two = refl

committed_hidden_example : mvcc_tuple_visible (mvcc_commit_transaction two 1).0 tuple 2 ≡ false
committed_hidden_example =
    committed_hidden two first tuple 2 two-IsMvcc first_in_two first_active refl
      (λ e. absurd (omega arith))

is_visible-take_snapshot_example :
    mvcc_is_visible 1 (some (mvcc_take_snapshot two 2))
    ≡ (ltb 1 two.next_txn_id && not (runs 2 1 two.active_txns))
is_visible-take_snapshot_example = is_visible-take_snapshot two 2 1

abbrev the_row : Bytes
the_row = 114 ∷ []

-- The state in which the first transaction has the shared lock
abbrev own_entry : LockEntry
own_entry = record { serial = 0; resource_id = the_row; mode = shared; granularity = 0; holder = 1 }

abbrev shared_state : MvccManager
shared_state = record one {
  lock_table = record {
    entries = λ b. if b == bucket the_row then own_entry ∷ [] else [];
    total_locks = 1;
    next_serial = 1;
    freed_read = false;
  };
}

-- The first transaction with that lock
abbrev with_lock : TransactionDescriptor
with_lock = record first { held_locks = own_entry ∷ [] }

abbrev holding : MvccManager
holding = record shared_state { active_txns = change_txn 1 (λ t. with_lock) one.active_txns }
