-- ===== src/Mvcc/Calls/Commit.antt =====
-- What commit and abort of src/mvcc.c leave behind.
use inventixdb.Base.{
  ℕ, ◌-◌, ◌≡◌, ◌≢◌, inl, inr, refl, sym, ap, subst, ◌∙◌, [], ◌∷◌, ◌++◌, none, some, true, false,
  Bool-cases, Option-cases, leb, ◌==◌, arith, List, All,
}
use inventixdb.Mvcc.State.{
  TransactionDescriptor, MvccManager, LockEntry, LockTable, aborted, is_active_state, level, next64,
  lookup, change_txn, unregister, mvcc_get_transaction,
}
use inventixdb.Mvcc.Locks.{mvcc_release_all_locks, has_serial, bucket}
use inventixdb.Mvcc.Visible.{MvccTupleHeader, mvcc_tuple_visible, creator_hidden}
use inventixdb.Mvcc.Slots.{
  IsMvcc, Unique, Under, taken, unregister-change, lookup-change, lookup-unregister_self,
  lookup-unregister_other, unregister-Unique, unregister-Under, taken-unregister,
}
use inventixdb.Mvcc.Calls.{
  mvcc_abort_transaction, mvcc_commit_transaction, finish_commit, mvcc_check_conflict, with_state,
}

-- The transaction left its slot, and nothing else changed there.
pub record Left (m : MvccManager) (id : ℕ) (m' : MvccManager) : Type 0 where
  pub slots : m'.active_txns ≡ unregister id m.active_txns
  pub count : m'.active_count ≡ m.active_count - 1
  pub ids : m'.next_txn_id ≡ m.next_txn_id

pub Left-IsMvcc :
    (m : MvccManager) (id : ℕ) (t : TransactionDescriptor) (m' : MvccManager)
    → IsMvcc m
    → mvcc_get_transaction m id ≡ some t
    → Left m id m'
    → IsMvcc m'
Left-IsMvcc m id t m' ok e l = record {
  unique = subst Unique (sym l.slots) (unregister-Unique id m.active_txns ok.unique);
  given =
      subst (λ s. Under m'.next_txn_id s) (sym l.slots)
        (subst (λ n. Under n (unregister id m.active_txns)) (sym l.ids)
          (unregister-Under id m.next_txn_id m.active_txns ok.given));
  counted =
      omega (arith, l.count, ok.counted, taken-unregister id m.active_txns t e, ap taken l.slots);
}

-- Releasing the locks of a transaction that is in a slot
released :
    (m : MvccManager) (id : ℕ) (t : TransactionDescriptor)
    → mvcc_get_transaction m id ≡ some t
    → (((mvcc_release_all_locks m id).active_txns
          ≡ change_txn id (λ u. record u { held_locks = [] }) m.active_txns)
        × ((mvcc_release_all_locks m id).active_count ≡ m.active_count)
        × ((mvcc_release_all_locks m id).next_txn_id ≡ m.next_txn_id)
        × ((mvcc_release_all_locks m id).commit_log ≡ m.commit_log))
unfolding mvcc_release_all_locks
released m id t e = rw (e, mvcc_release_all_locks) (refl, refl, refl, refl)

finish_commit-Left :
    (m : MvccManager) (id : ℕ) (t : TransactionDescriptor)
    → mvcc_get_transaction m id ≡ some t
    → Left m id (finish_commit m id)
      × ((finish_commit m id).commit_log ≡ m.commit_log ++ (id, next64 m.current_timestamp) ∷ [])
unfolding finish_commit
finish_commit-Left m id t e =
    let r = released _ id _ (lookup-change id _ m.active_txns t (λ u. refl) e) in
    (
      record {
        slots =
            unregister-change id _ _ (λ u. refl)
            ∙ ap (unregister id) r.0
            ∙ unregister-change id _ _ (λ u. refl)
            ∙ unregister-change id _ m.active_txns (λ u. refl);
        count = ap (λ n. n - 1) r.1;
        ids = r.2;
      },
      r.3,
    )

abort-Left :
    (m : MvccManager) (id : ℕ) (t : TransactionDescriptor)
    → mvcc_get_transaction m id ≡ some t
    → ((mvcc_abort_transaction m id).1 ≡ true) × Left m id (mvcc_abort_transaction m id).0
unfolding mvcc_abort_transaction
abort-Left m id t e =
    let r =
      released (with_state m id aborted) id _ (lookup-change id _ m.active_txns t (λ u. refl) e) in
    rw (e, mvcc_abort_transaction)
      (
        refl,
        record {
          slots =
              ap (unregister id) r.0
              ∙ unregister-change id _ _ (λ u. refl)
              ∙ unregister-change id _ m.active_txns (λ u. refl);
          count = ap (λ n. n - 1) r.1;
          ids = r.2;
        },
      )

no_conflict :
    (m : MvccManager) (id : ℕ) (t : TransactionDescriptor)
    → mvcc_get_transaction m id ≡ some t
    → mvcc_check_conflict m id ≡ false
no_conflict m id t e = rw (e, mvcc_check_conflict) refl

commit_runs :
    (m : MvccManager) (id : ℕ) (t : TransactionDescriptor)
    → mvcc_get_transaction m id ≡ some t
    → is_active_state t.state ≡ true
    → mvcc_commit_transaction m id ≡ (finish_commit m id, true)
unfolding mvcc_commit_transaction
commit_runs m id t e act = elim (Bool-cases (leb 3 (level t.isolation))) [
  | inl strict ↦ rw (e, act, strict, no_conflict m id t e, mvcc_commit_transaction) refl
  | inr loose ↦ rw (e, act, loose, mvcc_commit_transaction) refl
]

-- What a commit leaves of the transactions, whatever the lock table holds
commit_slots :
    (m : MvccManager) (id : ℕ) (t : TransactionDescriptor)
    → IsMvcc m
    → mvcc_get_transaction m id ≡ some t
    → is_active_state t.state ≡ true
    → let (m', done) = mvcc_commit_transaction m id in
      (done ≡ true)
      × (mvcc_get_transaction m' id ≡ none)
      × ((j : ℕ) → id ≢ j → mvcc_get_transaction m' j ≡ mvcc_get_transaction m j)
      × (m'.commit_log ≡ m.commit_log ++ (id, next64 m.current_timestamp) ∷ [])
      × IsMvcc m'
commit_slots m id t ok e act =
    let (l, log) = finish_commit-Left m id t e in
    rw (commit_runs m id t e act) (
      refl,
      ap (lookup id) l.slots ∙ lookup-unregister_self id m.active_txns ok.unique,
      λ j ne. ap (lookup j) l.slots ∙ lookup-unregister_other id j m.active_txns ne,
      log,
      Left-IsMvcc m id t (finish_commit m id) ok e l,
    )

-- No two of the locks are the same entry.
abbrev pub NoTwice : List LockEntry → Type 0
NoTwice [] = Unit
NoTwice (l ∷ rest) = All (λ r. l.serial ≢ r.serial) rest × NoTwice rest

-- Every held lock is in its chain, and none is held twice.
abbrev pub IsOwned : List LockEntry → LockTable → Type 0
IsOwned held t =
    All (λ l. has_serial l.serial (t.entries (bucket l.resource_id)) ≡ true) held × NoTwice held

-- Aborting a transaction that is in a slot succeeds, whatever its state: it leaves its slot, every
-- other transaction stays as it was, and the state stays well formed.
pub abort_lem :
    (m : MvccManager) (id : ℕ) (t : TransactionDescriptor)
    → IsMvcc m
    → mvcc_get_transaction m id ≡ some t
    → let (m', done) = mvcc_abort_transaction m id in
      (done ≡ true)
      × (mvcc_get_transaction m' id ≡ none)
      × ((j : ℕ) → id ≢ j → mvcc_get_transaction m' j ≡ mvcc_get_transaction m j)
      × IsMvcc m'
abort_lem m id t ok e =
    let (done, l) = abort-Left m id t e in
    (
      done,
      ap (lookup id) l.slots ∙ lookup-unregister_self id m.active_txns ok.unique,
      λ j ne. ap (lookup j) l.slots ∙ lookup-unregister_other id j m.active_txns ne,
      Left-IsMvcc m id t (mvcc_abort_transaction m id).0 ok e l,
    )

-- A tuple of a transaction that is in no slot, without the hint that it committed
hidden_without_slot :
    (m : MvccManager) (tuple : MvccTupleHeader) (reader : ℕ)
    → mvcc_get_transaction m tuple.xmin ≡ none
    → tuple.hint_committed ≡ false
    → tuple.xmin ≢ reader
    → mvcc_tuple_visible m tuple reader ≡ false
unfolding mvcc_tuple_visible creator_hidden
hidden_without_slot m tuple reader gone hint ne =
    let apart : (tuple.xmin == reader) ≡ false = ground arith in
    elim (Option-cases (mvcc_get_transaction m reader)) [
      | inl e ↦ rw (e, mvcc_tuple_visible) refl
      | inr (r, e) ↦ elim (Bool-cases tuple.hint_aborted) [
        | inl dead ↦ rw (e, apart, dead, mvcc_tuple_visible) refl
        | inr live ↦ rw (e, apart, live, hint, gone, mvcc_tuple_visible) refl
      ]
    ]

-- After a successful commit no other transaction sees a tuple of the committed transaction whose hint
-- bit is not set.
pub committed_hidden :
    (m : MvccManager) (t : TransactionDescriptor) (tuple : MvccTupleHeader) (reader : ℕ)
    → IsMvcc m
    → mvcc_get_transaction m tuple.xmin ≡ some t
    → is_active_state t.state ≡ true
    → tuple.hint_committed ≡ false
    → tuple.xmin ≢ reader
    → mvcc_tuple_visible (mvcc_commit_transaction m tuple.xmin).0 tuple reader ≡ false
committed_hidden m t tuple reader ok e act hint ne =
    hidden_without_slot (mvcc_commit_transaction m tuple.xmin).0 tuple reader
      (commit_slots m tuple.xmin t ok e act).1 hint ne
