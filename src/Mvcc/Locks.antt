-- ===== src/Mvcc/Locks.antt =====
-- The row locks of src/mvcc.c: one chain of entries for each bucket of the lock table.
pub mod Grant
use inventixdb.Base.{
  ℕ, ◌+◌, ◌-◌, ◌*◌, ◌%◌, ◌^◌, List, [], ◌∷◌, ◌++◌, Option, none, some, Bool, true, false, not, ◌&&◌,
  Bytes, str_eq, leb, ◌==◌, if◌then◌else◌,
}
use inventixdb.Mvcc.State.{
  LockMode, lock_none, shared, exclusive, update, share_row_exclusive, access_exclusive, LockEntry,
  LockTable, MvccManager, mvcc_get_transaction, change_txn,
}

-- `hash_string`, on bytes below 128; an `int` is added to a 32-bit hash.
unfoldable pub hash_from : ℕ → Bytes → ℕ
hash_from h [] = h
hash_from h (c ∷ cs) = hash_from (((h * 32) % 2 ^ 32 + h + c) % 2 ^ 32) cs

abbrev pub bucket : Bytes → ℕ
bucket resource = hash_from 5381 resource % 4096

-- The value of the C enumeration
abbrev pub strength : LockMode → ℕ
strength lock_none = 0
strength shared = 1
strength exclusive = 2
strength update = 3
strength share_row_exclusive = 4
strength access_exclusive = 5

-- The rows of the matrix in `locks_conflict`
abbrev pub compat : LockMode → LockMode → Bool
compat lock_none requested = true
compat shared lock_none = true
compat shared shared = true
compat shared update = true
compat shared _ = false
compat update lock_none = true
compat update shared = true
compat update _ = false
compat exclusive lock_none = true
compat exclusive _ = false
compat share_row_exclusive lock_none = true
compat share_row_exclusive _ = false
compat access_exclusive lock_none = true
compat access_exclusive _ = false

abbrev pub locks_conflict : LockMode → LockMode → Bool
locks_conflict held requested = not (compat held requested)

-- `find_lock_entry`: the first entry for the resource and those behind it in the chain
unfoldable pub entries_from : Bytes → List LockEntry → List LockEntry
entries_from resource [] = []
entries_from resource (e ∷ rest) =
    let later = entries_from resource rest in
    if str_eq e.resource_id resource then e ∷ rest else later

abbrev pub find_lock_entry : LockTable → Bytes → List LockEntry
find_lock_entry t resource = entries_from resource (t.entries (bucket resource))

abbrev pub set_chain : LockTable → Bytes → List LockEntry → LockTable
set_chain t resource chain = record t {
  entries = λ b. if b == bucket resource then chain else t.entries b;
}

-- `existing->mode = mode` through the pointer
unfoldable pub set_mode : ℕ → LockMode → List LockEntry → List LockEntry
set_mode serial mode [] = []
set_mode serial mode (e ∷ rest) =
    let later = set_mode serial mode rest in
    if e.serial == serial then record e { mode = mode } ∷ rest else e ∷ later

-- How one round of `mvcc_acquire_lock` ends: the call returns 0, it returns -1, or it waits.
pub data Attempt : Type 0 where
  granted refused : MvccManager → Attempt
  waits : Attempt

abbrev pub new_entry : MvccManager → ℕ → Bytes → LockMode → ℕ → LockEntry
new_entry m id resource mode gran = record {
  serial = m.lock_table.next_serial;
  resource_id = resource;
  mode = mode;
  granularity = gran;
  holder = id;
}

-- The entry is held by the transaction too. `raise` is 1 where `total_locks` is counted.
abbrev pub hold : MvccManager → ℕ → LockEntry → List LockEntry → ℕ → MvccManager
hold m id lock chain raise = record m {
  lock_table = record (set_chain m.lock_table lock.resource_id chain) {
    total_locks = m.lock_table.total_locks + raise;
    next_serial = m.lock_table.next_serial + 1;
  };
  active_txns = change_txn id (λ t. record t { held_locks = lock ∷ t.held_locks }) m.active_txns;
}

-- The round once an entry for the resource was found
unfoldable pub meet : MvccManager → ℕ → Bytes → LockMode → ℕ → Bool → LockEntry → Attempt
meet m id resource mode gran timed_out e =
    let chain = m.lock_table.entries (bucket resource) in
    let lock = new_entry m id resource mode gran in
    if (e.holder == id) && leb (strength mode) (strength e.mode)
    then granted m
    else (if (e.holder == id) && compat e.mode mode
        then granted (record m {
          lock_table = set_chain m.lock_table resource (set_mode e.serial mode chain);
        })
        else (if locks_conflict e.mode mode
            then (if timed_out then refused (record m { lock_waits = m.lock_waits + 1 }) else waits)
            else granted (hold m id lock (chain ++ lock ∷ []) 0)))

-- One round of `mvcc_acquire_lock`; `timed_out` is whether the time limit has passed.
unfoldable pub acquire_round : MvccManager → ℕ → Bytes → LockMode → ℕ → Bool → Attempt
acquire_round m id resource mode gran timed_out = elim (mvcc_get_transaction m id) [
  | none ↦ refused m
  | some t ↦ elim (find_lock_entry m.lock_table resource) [
    | [] ↦
        let lock = new_entry m id resource mode gran in
        granted (hold m id lock (lock ∷ m.lock_table.entries (bucket resource)) 1)
    | e ∷ rest ↦ meet m id resource mode gran timed_out e
  ]
]

-- The chain without the first entry of the transaction for the resource, if there is one
unfoldable pub remove_entry : Bytes → ℕ → List LockEntry → Option (List LockEntry)
remove_entry resource id [] = none
remove_entry resource id (e ∷ rest) =
    let later = remove_entry resource id rest in
    if str_eq e.resource_id resource && (e.holder == id)
    then some rest
    else elim later [ none ↦ none | some r ↦ some (e ∷ r) ]

-- `mvcc_release_lock`; the entry stays among the held locks of the transaction.
unfoldable pub mvcc_release_lock : MvccManager → ℕ → Bytes → MvccManager × Bool
mvcc_release_lock m id resource =
    elim (remove_entry resource id (m.lock_table.entries (bucket resource))) [
      | none ↦ (m, false)
      | some chain ↦ (
        record m {
          lock_table = record (set_chain m.lock_table resource chain) {
            total_locks = m.lock_table.total_locks - 1;
          };
        },
        true,
      )
    ]

unfoldable pub remove_serial : ℕ → List LockEntry → List LockEntry
remove_serial serial [] = []
remove_serial serial (e ∷ rest) =
    let later = remove_serial serial rest in if e.serial == serial then rest else e ∷ later

unfoldable pub has_serial : ℕ → List LockEntry → Bool
has_serial serial [] = false
has_serial serial (e ∷ rest) =
    let later = has_serial serial rest in if e.serial == serial then true else later

-- The loop of `mvcc_release_all_locks`. It reads `resource_id` of every held lock; a held lock that is
-- not in the table any more was freed.
unfoldable pub release_held : List LockEntry → LockTable → LockTable
release_held [] t = t
release_held (l ∷ rest) t =
    let chain = t.entries (bucket l.resource_id) in
    release_held rest (
      if has_serial l.serial chain
      then record (set_chain t l.resource_id (remove_serial l.serial chain)) {
        total_locks = t.total_locks - 1;
      }
      else record t { freed_read = true })

unfoldable pub mvcc_release_all_locks : MvccManager → ℕ → MvccManager
mvcc_release_all_locks m id = elim (mvcc_get_transaction m id) [
  | none ↦ m
  | some t ↦ record m {
    lock_table = release_held t.held_locks m.lock_table;
    active_txns = change_txn id (λ u. record u { held_locks = [] }) m.active_txns;
  }
]

-- The loop of `mvcc_has_lock`, from the first entry for the resource to the end of the chain
unfoldable pub held_from : ℕ → LockMode → List LockEntry → Bool
held_from id mode [] = false
held_from id mode (e ∷ rest) =
    let later = held_from id mode rest in
    if (e.holder == id) && leb (strength mode) (strength e.mode) then true else later

unfoldable pub mvcc_has_lock : MvccManager → ℕ → Bytes → LockMode → Bool
mvcc_has_lock m id resource mode = held_from id mode (find_lock_entry m.lock_table resource)
