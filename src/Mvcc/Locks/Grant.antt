-- ===== src/Mvcc/Locks/Grant.antt =====
-- What a request for a lock of src/mvcc.c ends with.
use inventixdb.Base.{
  ℕ, ◌+◌, ◌-◌, ◌≡◌, inl, inr, refl, sym, ap, ◌∙◌, List, [], ◌∷◌, some, Bool, true, false,
  Bool-cases, Bytes, str_eq_refl, ◌==◌, ==_iff, leb, arith, if◌then◌else◌,
}
use inventixdb.Mvcc.State.{
  LockMode, shared, exclusive, LockEntry, TransactionDescriptor, MvccManager, mvcc_get_transaction,
}
use inventixdb.Mvcc.Locks.{
  bucket, strength, entries_from, find_lock_entry, set_chain, new_entry, hold, granted, refused,
  waits, meet, acquire_round, remove_entry, mvcc_release_lock, held_from, mvcc_has_lock,
}

same_id : (n : ℕ) → (n == n) ≡ true
same_id n = (==_iff n n).1 refl

strong_enough : (n : ℕ) → leb n n ≡ true
strong_enough n = ground arith

-- The chain of the resource once its first lock was added
added :
    (m : MvccManager) (id : ℕ) (resource : Bytes) (mode : LockMode) (gran : ℕ) (l : LockEntry)
    (chain : List LockEntry)
    → l.resource_id ≡ resource
    → (hold m id l (l ∷ chain) 1).lock_table.entries (bucket resource) ≡ l ∷ chain
added m id resource mode gran l chain e =
    let same : (bucket resource == bucket l.resource_id) ≡ true =
      ap (λ r. bucket resource == bucket r) e ∙ same_id (bucket resource) in
    rw same refl

chain_back :
    (m : MvccManager) (resource : Bytes) (l : LockEntry) (b : ℕ)
    → (if b == bucket resource
        then m.lock_table.entries (bucket resource)
        else (if b == bucket resource
            then l ∷ m.lock_table.entries (bucket resource)
            else m.lock_table.entries b))
      ≡ m.lock_table.entries b
chain_back m resource l b = elim (Bool-cases (b == bucket resource)) [
  | inl here ↦ rw here (ap m.lock_table.entries (sym ((==_iff b (bucket resource)).0 here)))
  | inr other ↦ rw other refl
]

total_back : (n : ℕ) → (n + 1) - 1 ≡ n
total_back n = omega arith

release_first :
    (m : MvccManager) (id : ℕ) (resource : Bytes) (l : LockEntry) (chain : List LockEntry)
    → m.lock_table.entries (bucket resource) ≡ l ∷ chain
    → l.resource_id ≡ resource
    → l.holder ≡ id
    → mvcc_release_lock m id resource ≡ (
      record m {
        lock_table = record (set_chain m.lock_table resource chain) {
          total_locks = m.lock_table.total_locks - 1;
        };
      },
      true,
    )
unfolding mvcc_release_lock remove_entry
release_first m id resource l chain e r h =
    rw (e, r, h, str_eq_refl resource, same_id id, mvcc_release_lock) refl

-- A transaction in a slot that asks for a resource without entries gets the lock at once and has it
-- then, in the mode asked for; releasing it succeeds and leaves every chain and the number of locks as
-- they were.
pub acquire-release :
    (m : MvccManager) (id : ℕ) (t : TransactionDescriptor) (resource : Bytes) (mode : LockMode)
    (gran : ℕ) (timed_out : Bool)
    → mvcc_get_transaction m id ≡ some t
    → find_lock_entry m.lock_table resource ≡ []
    → (m' : MvccManager) × (acquire_round m id resource mode gran timed_out ≡ granted m')
      × (mvcc_has_lock m' id resource mode ≡ true)
      × ((mvcc_release_lock m' id resource).1 ≡ true)
      × ((b : ℕ)
          → (mvcc_release_lock m' id resource).0.lock_table.entries b ≡ m.lock_table.entries b)
      × ((mvcc_release_lock m' id resource).0.lock_table.total_locks ≡ m.lock_table.total_locks)
unfolding acquire_round mvcc_has_lock entries_from held_from
acquire-release m id t resource mode gran timed_out e free =
    let lock = new_entry m id resource mode gran in
    let chain = m.lock_table.entries (bucket resource) in
    let here = same_id (bucket resource) in
    let m' = hold m id lock (lock ∷ chain) 1 in
    let freed =
      release_first m' id resource lock chain (added m id resource mode gran lock chain refl) refl
        refl in
    (
      m',
      rw (e, free, acquire_round) refl,
      rw (here, str_eq_refl resource, same_id id, strong_enough (strength mode)) refl,
      ap (λ r. r.1) freed,
      λ b. ap (λ r. r.0.lock_table.entries b) freed ∙ chain_back m resource lock b,
      ap (λ r. r.0.lock_table.total_locks) freed ∙ total_back m.lock_table.total_locks,
    )

-- A transaction whose own SHARED lock is the first entry for a resource never gets the EXCLUSIVE
-- lock: each round waits until the time limit, and then the call is refused.
pub upgrade_refused :
    (m : MvccManager) (id : ℕ) (t : TransactionDescriptor) (resource : Bytes) (gran : ℕ)
    (e : LockEntry) (rest : List LockEntry)
    → mvcc_get_transaction m id ≡ some t
    → find_lock_entry m.lock_table resource ≡ e ∷ rest
    → e.holder ≡ id
    → e.mode ≡ shared
    → (acquire_round m id resource exclusive gran false ≡ waits)
      × (acquire_round m id resource exclusive gran true
          ≡ refused (record m { lock_waits = m.lock_waits + 1 }))
unfolding acquire_round meet
upgrade_refused m id t resource gran e rest there found own mode = (
  rw (there, found, own, same_id id, mode, acquire_round, meet) refl,
  rw (there, found, own, same_id id, mode, acquire_round, meet) refl,
)
