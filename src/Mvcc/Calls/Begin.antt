-- ===== src/Mvcc/Calls/Begin.antt =====
-- `mvcc_begin_transaction` of src/mvcc.c registers a new active transaction.
use inventixdb.Base.{ℕ, ◌+◌, ◌^◌, ◌<◌, ◌≡◌, ◌≢◌, refl, Option, some, true, Bytes, arith}
use inventixdb.Mvcc.State.{
  IsolationLevel, TransactionDescriptor, MvccManager, active, next64, has_free,
  mvcc_get_transaction,
}
use inventixdb.Mvcc.Slots.{
  IsMvcc, register-Under, register-Unique, taken-register, lookup-register_self,
  lookup-register_other,
}
use inventixdb.Mvcc.Calls.{mvcc_begin_transaction, new_txn}

-- While identifiers are left, beginning a transaction gives it the next identifier, keeps the state
-- well formed and every other transaction as it was; with a free slot the new
-- transaction is there, active and with its isolation level.
pub begin_lem :
    (m : MvccManager) (isolation : IsolationLevel) (user : Option Bytes) (now : ℕ)
    → IsMvcc m
    → m.next_txn_id + 1 < 2 ^ 64
    → let (m', id) = mvcc_begin_transaction m isolation user now in
      (id ≡ m.next_txn_id)
      × IsMvcc m'
      × (has_free m.active_txns ≡ true
          → (t : TransactionDescriptor) × (mvcc_get_transaction m' id ≡ some t)
            × (t.state ≡ active)
            × (t.isolation ≡ isolation))
      × ((j : ℕ) → id ≢ j → mvcc_get_transaction m' j ≡ mvcc_get_transaction m j)
unfolding mvcc_begin_transaction new_txn
begin_lem m isolation user now ok small =
    let next : next64 m.next_txn_id ≡ m.next_txn_id + 1 = omega arith in
    let ticked : MvccManager = record m {
      next_txn_id = next64 m.next_txn_id;
      current_timestamp = next64 m.current_timestamp;
    } in
    let t = new_txn ticked m.next_txn_id isolation user now in
    (
      refl,
      record {
        unique = register-Unique m.next_txn_id t m.active_txns ok.unique ok.given (omega arith);
        given =
            register-Under m.next_txn_id (next64 m.next_txn_id) t m.active_txns
              (omega (arith, next)) (omega (arith, next)) ok.given;
        counted = taken-register t m.active_txns m.active_count ok.counted;
      },
      λ free. (
        t,
        lookup-register_self m.next_txn_id t m.active_txns ok.given (omega arith) free,
        refl,
        refl,
      ),
      λ j ne. lookup-register_other j t m.active_txns ne,
    )
