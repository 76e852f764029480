-- ===== src/Mvcc/Visible.antt =====
-- Which tuples and row versions a transaction sees (src/mvcc.c).
use inventixdb.Base.{
  ℕ, List, [], ◌∷◌, Option, none, some, Bool, true, false, not, ◌&&◌, ◌||◌, Bytes, ltb, leb, ◌==◌,
  if◌then◌else◌,
}
use inventixdb.Mvcc.State.{
  IsolationLevel, level, TxnState, committed, aborted, TransactionSnapshot, Slots, MvccManager,
  is_active_state, mvcc_get_transaction, mvcc_get_state, next64,
}

-- The loop of `mvcc_take_snapshot` for the transaction `self`: the smallest identifier met and those
-- of the other active transactions.
unfoldable pub scan_active : ℕ → ℕ → Slots → ℕ × List ℕ
scan_active self xmin [] = (xmin, [])
scan_active self xmin (none ∷ rest) = scan_active self xmin rest
scan_active self xmin (some t ∷ rest) =
    let lowest = if ltb t.txn_id xmin then t.txn_id else xmin in
    let (least, ids) = scan_active self lowest rest in
    let without = scan_active self xmin rest in
    if is_active_state t.state && not (t.txn_id == self) then (least, t.txn_id ∷ ids) else without

unfoldable pub mvcc_take_snapshot : MvccManager → ℕ → TransactionSnapshot
mvcc_take_snapshot m self =
    let (least, ids) = scan_active self m.next_txn_id m.active_txns in
    record {
      xmin = least;
      xmax = m.next_txn_id;
      active_txns = ids;
      snapshot_ts = m.current_timestamp;
    }

unfoldable pub was_active : ℕ → List ℕ → Bool
was_active id [] = false
was_active id (a ∷ rest) = (a == id) || was_active id rest

-- `mvcc_is_visible`; without a snapshot everything is visible.
unfoldable pub mvcc_is_visible : ℕ → Option TransactionSnapshot → Bool
mvcc_is_visible id none = true
mvcc_is_visible id (some s) =
    if ltb id s.xmin
    then true
    else (if leb s.xmax id then false else not (was_active id s.active_txns))

-- `MVCCTupleHeader`, with the fields that the code reads; `xmax` 0 is a live tuple.
pub record MvccTupleHeader : Type 0 where
  pub xmin : ℕ
  pub xmax : ℕ
  pub hint_committed : Bool
  pub hint_aborted : Bool

abbrev pub is_committed : TxnState → Bool
is_committed committed = true
is_committed _ = false

abbrev pub is_aborted : TxnState → Bool
is_aborted aborted = true
is_aborted _ = false

-- The part of `mvcc_tuple_visible` about `xmin` when no hint bit is set
unfoldable pub creator_hidden : TxnState → IsolationLevel → Bool
creator_hidden state isolation =
    if is_aborted state then true else not (is_committed state) && ltb 0 (level isolation)

-- The part about `xmax`: the tuple is deleted for the reader.
unfoldable pub deleted_for : MvccManager → ℕ → ℕ → Option TransactionSnapshot → Bool
deleted_for m xmax reader snapshot =
    if xmax == 0
    then false
    else (if xmax == reader
        then true
        else is_committed (mvcc_get_state m xmax) && mvcc_is_visible xmax snapshot)

unfoldable pub mvcc_tuple_visible : MvccManager → MvccTupleHeader → ℕ → Bool
mvcc_tuple_visible m tuple reader = elim (mvcc_get_transaction m reader) [
  | none ↦ false
  | some r ↦
      if tuple.xmin == reader
      then (tuple.xmax == 0) || not (tuple.xmax == reader)
      else (if tuple.hint_aborted
          then false
          else (if not tuple.hint_committed
                && creator_hidden (mvcc_get_state m tuple.xmin) r.isolation
              then false
              else (if not (mvcc_is_visible tuple.xmin r.snapshot)
                  then false
                  else not (deleted_for m tuple.xmax reader r.snapshot))))
]

pub record RowVersion : Type 0 where
  pub created_by : ℕ
  pub deleted_by : ℕ
  pub create_ts : ℕ
  pub delete_ts : ℕ
  pub data_bytes : Bytes

unfoldable pub version_visible_to : RowVersion → ℕ → Option TransactionSnapshot → Bool
version_visible_to v reader snapshot =
    if v.created_by == reader
    then (v.deleted_by == 0) || not (v.deleted_by == reader)
    else (if not (mvcc_is_visible v.created_by snapshot)
        then false
        else not (not (v.deleted_by == 0) && mvcc_is_visible v.deleted_by snapshot))

unfoldable pub mvcc_version_visible : MvccManager → RowVersion → ℕ → Bool
mvcc_version_visible m v reader = elim (mvcc_get_transaction m reader) [
  | none ↦ false
  | some r ↦ version_visible_to v reader r.snapshot
]

unfoldable pub mvcc_create_version : MvccManager → ℕ → Bytes → MvccManager × RowVersion
mvcc_create_version m id bytes =
    let ts = next64 m.current_timestamp in
    (
      record m { current_timestamp = ts },
      record { created_by = id; deleted_by = 0; create_ts = ts; delete_ts = 0; data_bytes = bytes },
    )

unfoldable pub mvcc_mark_deleted : MvccManager → RowVersion → ℕ → MvccManager × RowVersion
mvcc_mark_deleted m v id =
    let ts = next64 m.current_timestamp in
    (record m { current_timestamp = ts }, record v { deleted_by = id; delete_ts = ts })

-- `mvcc_get_visible_version` on a chain that is listed from its newest version on, the order in which
-- the walk back meets the versions
unfoldable pub mvcc_get_visible_version : MvccManager → List RowVersion → ℕ → Option RowVersion
mvcc_get_visible_version m [] reader = none
mvcc_get_visible_version m (v ∷ older) reader =
    let rest = mvcc_get_visible_version m older reader in
    if mvcc_version_visible m v reader then some v else rest
