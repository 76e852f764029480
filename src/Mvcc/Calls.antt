-- ===== src/Mvcc/Calls.antt =====
-- Begin, commit and abort of src/mvcc.c, its savepoints, and the tracking of reads and writes.
pub mod Commit
pub mod Begin
use inventixdb.Base.{
  ℕ, ◌+◌, ◌-◌, List, [], ◌∷◌, ◌++◌, Option, none, some, Bool, true, false, ◌&&◌, ◌||◌, not, Bytes,
  str_eq, ltb, leb, if◌then◌else◌, length, drop,
}
use inventixdb.Mvcc.State.{
  IsolationLevel, level, serializable, TxnState, active, preparing, committed, aborted, committing,
  is_active_state, WriteEntry, ReadEntry, SavepointMark, TransactionDescriptor, Slots, MvccManager,
  next64, lookup, mvcc_get_transaction, register, has_free, change_txn, unregister,
}
use inventixdb.Mvcc.Visible.{mvcc_take_snapshot}
use inventixdb.Mvcc.Locks.{mvcc_release_all_locks}

-- The transaction that `mvcc_begin_transaction` makes in the state `m`, whose counters have moved on
unfoldable pub new_txn : MvccManager → ℕ → IsolationLevel → Option Bytes → ℕ → TransactionDescriptor
new_txn m id isolation user now = record {
  txn_id = id;
  state = active;
  isolation = isolation;
  start_ts = m.current_timestamp;
  commit_ts = 0;
  start_time = now;
  snapshot = if leb 2 (level isolation) then some (mvcc_take_snapshot m id) else none;
  write_set = [];
  read_set = if leb 3 (level isolation) then some [] else none;
  held_locks = [];
  savepoints = [];
  user_name = user;
}

-- `mvcc_begin_transaction`; `now` is the wall clock.
unfoldable pub mvcc_begin_transaction :
    MvccManager → IsolationLevel → Option Bytes → ℕ → MvccManager × ℕ
mvcc_begin_transaction m isolation user now =
    let id = m.next_txn_id in
    let ticked = record m {
      next_txn_id = next64 id;
      current_timestamp = next64 m.current_timestamp;
    } in
    (
      record ticked {
        active_txns = register (new_txn ticked id isolation user now) m.active_txns;
        active_count = if has_free m.active_txns then m.active_count + 1 else m.active_count;
      },
      id,
    )

-- The last part of commit and abort: the slot is freed.
abbrev pub leave : MvccManager → ℕ → MvccManager
leave m id = record m {
  active_txns = unregister id m.active_txns;
  active_count = m.active_count - 1;
}

abbrev pub with_state : MvccManager → ℕ → TxnState → MvccManager
with_state m id state = record m {
  active_txns = change_txn id (λ t. record t { state = state }) m.active_txns;
}

-- `mvcc_abort_transaction`; the loop over the write set does nothing.
unfoldable pub mvcc_abort_transaction : MvccManager → ℕ → MvccManager × Bool
mvcc_abort_transaction m id = elim (mvcc_get_transaction m id) [
  | none ↦ (m, false)
  | some t ↦
      let released = mvcc_release_all_locks (with_state m id aborted) id in
      (leave (record released { total_aborts = released.total_aborts + 1 }) id, true)
]

-- `mvcc_check_write_conflict` and `mvcc_check_read_conflict`: both only look whether the transaction
-- is there.
abbrev pub mvcc_check_conflict : MvccManager → ℕ → Bool
mvcc_check_conflict m id = elim (mvcc_get_transaction m id) [ none ↦ true | some t ↦ false ]

-- `mvcc_commit_transaction` from the state `TXN_STATE_COMMITTING` on
unfoldable pub finish_commit : MvccManager → ℕ → MvccManager
finish_commit m id =
    let ts = next64 m.current_timestamp in
    let logged = record m {
      current_timestamp = ts;
      active_txns =
          change_txn id (λ t. record t { state = committing; commit_ts = ts }) m.active_txns;
      commit_log = m.commit_log ++ (id, ts) ∷ [];
    } in
    let done = with_state (mvcc_release_all_locks logged id) id committed in
    leave (record done { total_commits = done.total_commits + 1 }) id

unfoldable pub mvcc_commit_transaction : MvccManager → ℕ → MvccManager × Bool
mvcc_commit_transaction m id = elim (mvcc_get_transaction m id) [
  | none ↦ (m, false)
  | some t ↦
      if not (is_active_state t.state)
      then (m, false)
      else (if leb 3 (level t.isolation) && (mvcc_check_conflict m id || mvcc_check_conflict m id)
          then ((mvcc_abort_transaction m id).0, false)
          else (finish_commit m id, true))
]

-- A call on the descriptor of a transaction
abbrev pub on_txn :
    MvccManager → ℕ → (TransactionDescriptor → TransactionDescriptor) → MvccManager × Bool
on_txn m id f = elim (mvcc_get_transaction m id) [
  | none ↦ (m, false)
  | some t ↦ (record m { active_txns = change_txn id f m.active_txns }, true)
]

-- `mvcc_create_savepoint` while the array of eight has room
abbrev pub mvcc_create_savepoint : MvccManager → ℕ → Bytes → MvccManager × Bool
mvcc_create_savepoint m id name = on_txn m id (λ t. record t {
  savepoints =
      record {
        name = name;
        write_set_mark = length t.write_set;
        read_set_mark = elim t.read_set [ none ↦ 0 | some rs ↦ length rs ];
      }
      ∷ t.savepoints;
})

-- The newest savepoint of the name, and the older ones
unfoldable pub savepoints_from : Bytes → List SavepointMark → List SavepointMark
savepoints_from name [] = []
savepoints_from name (sp ∷ older) =
    let rest = savepoints_from name older in if str_eq sp.name name then sp ∷ older else rest

-- The oldest `n` elements of a list that has its newest element first
abbrev pub oldest {ℓ} : {A : Type ℓ} → ℕ → List A → List A
oldest n xs = drop (length xs - n) xs

unfoldable pub mvcc_rollback_to_savepoint : MvccManager → ℕ → Bytes → MvccManager × Bool
mvcc_rollback_to_savepoint m id name = elim (mvcc_get_transaction m id) [
  | none ↦ (m, false)
  | some t ↦ elim (savepoints_from name t.savepoints) [
    | [] ↦ (m, false)
    | sp ∷ older ↦ on_txn m id (λ u. record u {
      write_set = oldest sp.write_set_mark u.write_set;
      read_set = elim u.read_set [ none ↦ none | some rs ↦ some (oldest sp.read_set_mark rs) ];
      savepoints = sp ∷ older;
    })
  ]
]

-- The savepoints without the oldest one of the name: the search starts at the first of the array.
unfoldable pub remove_oldest : Bytes → List SavepointMark → Option (List SavepointMark)
remove_oldest name [] = none
remove_oldest name (sp ∷ older) = elim (remove_oldest name older) [
  | some rest ↦ some (sp ∷ rest)
  | none ↦ if str_eq sp.name name then some older else none
]

unfoldable pub mvcc_release_savepoint : MvccManager → ℕ → Bytes → MvccManager × Bool
mvcc_release_savepoint m id name = elim (mvcc_get_transaction m id) [
  | none ↦ (m, false)
  | some t ↦ elim (remove_oldest name t.savepoints) [
    | none ↦ (m, false)
    | some left ↦ on_txn m id (λ u. record u { savepoints = left })
  ]
]

abbrev pub mvcc_track_write : MvccManager → ℕ → WriteEntry → MvccManager × Bool
mvcc_track_write m id w = on_txn m id (λ t. record t { write_set = w ∷ t.write_set })

-- A transaction without a read set refuses.
unfoldable pub mvcc_track_read : MvccManager → ℕ → ReadEntry → MvccManager × Bool
mvcc_track_read m id r = elim (mvcc_get_transaction m id) [
  | none ↦ (m, false)
  | some t ↦ elim t.read_set [
    | none ↦ (m, false)
    | some rs ↦ on_txn m id (λ u. record u { read_set = some (r ∷ rs) })
  ]
]

abbrev pub mvcc_2pc_prepare : MvccManager → ℕ → MvccManager × Bool
mvcc_2pc_prepare m id = on_txn m id (λ t. record t { state = preparing })

-- The loop of `mvcc_choose_victim`: the youngest transaction of the cycle that is in a slot.
unfoldable pub youngest : MvccManager → ℕ → ℕ → List ℕ → ℕ
youngest m victim start [] = victim
youngest m victim start (id ∷ rest) =
    let keep = youngest m victim start rest in
    elim (mvcc_get_transaction m id) [
      | none ↦ keep
      | some t ↦
          let take_it = youngest m id t.start_ts rest in
          if ltb start t.start_ts then take_it else keep
    ]

abbrev pub mvcc_choose_victim : MvccManager → List ℕ → ℕ
mvcc_choose_victim m [] = 0
mvcc_choose_victim m (id ∷ rest) = youngest m id 0 (id ∷ rest)

-- The loop of `mvcc_get_oldest_active_txn`, whose result the code returns as an `int`
unfoldable pub oldest_active : ℕ → Slots → ℕ
oldest_active least [] = least
oldest_active least (none ∷ rest) = oldest_active least rest
oldest_active least (some t ∷ rest) =
    let lower = oldest_active t.txn_id rest in
    let same = oldest_active least rest in
    if is_active_state t.state && ltb t.txn_id least then lower else same
