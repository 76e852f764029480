-- ===== src/Kv/Table.antt =====
-- The open-addressing hash table of the key-value store (src/storage.c): `hash`, the probe loop
-- that `kv_put_internal`, `kv_get` and `kv_delete` each contain, and what they do with its outcome.
pub mod Walk
pub mod Map
pub mod Lookup
pub mod Delete
pub mod Home
use inventixdb.Base.{
  ℕ, zero, suc, ◌+◌, ◌-◌, ◌*◌, ◌%◌, ◌^◌, Bool, true, false, List, [], ◌∷◌, Option, none, some,
  Bytes, ltb, ◌==◌, if◌then◌else◌, str_eq, get_or, set, replicate,
}

-- `ValueType`, the C enumeration
pub data ValueType : Type 0 where
  row json schema : ValueType

-- `Value`; `size` is the length of `bytes`, which is what every writer stores.
pub record Value : Type 0 where
  pub bytes : Bytes
  pub type : ValueType

-- `KVEntry`. A slot that was never written, or was deleted, has `occupied = 0`.
pub record Entry : Type 0 where
  pub key : Bytes
  pub val : Value
  pub occupied : Bool

-- What `calloc` leaves in a slot.
abbrev pub empty_entry : Entry
empty_entry = record { key = []; val = record { bytes = []; type = row }; occupied = false }

-- The fields of `struct KvStore` that the table operations use.
pub record Table : Type 0 where
  pub entries : List Entry
  pub capacity : ℕ
  pub count : ℕ

-- A `char` (signed) converted to `unsigned long`.
abbrev char_to_ulong : ℕ → ℕ
char_to_ulong c = if ltb c 128 then c else 2 ^ 64 - (256 - c)

hash_from : ℕ → Bytes → ℕ
hash_from h [] = h
hash_from h (c ∷ s) = hash_from ((h * 32 + h + char_to_ulong c) % 2 ^ 64) s

-- `hash`, djb2 on 64 bits
unfoldable pub hash : Bytes → ℕ
unfolding hash_from
hash s = hash_from 5381 s

-- `h % store->capacity`
abbrev pub home : ℕ → Bytes → ℕ
home cap k = hash k % cap

-- How the probe loop ends: at an entry with the key, at a free slot, or back at its start.
-- `spinning` stands for a loop that is still running when the fuel is spent.
pub data Outcome : Type 0 where
  hit vacant : ℕ → Outcome
  full spinning : Outcome

-- `while (entries[idx].occupied) { if (strcmp(…) == 0) …; idx = (idx + 1) % capacity;
--  if (idx == start_idx) …; }`
unfoldable pub probe : List Entry → ℕ → Bytes → ℕ → ℕ → ℕ → Outcome
probe es cap k start zero idx = spinning
probe es cap k start (suc fuel) idx =
    let e = get_or es idx empty_entry in
    let next = (idx + 1) % cap in
    let rest = probe es cap k start fuel next in
    if e.occupied
    then (if str_eq e.key k then hit idx else if next == start then full else rest)
    else vacant idx

-- The loop of one operation; `capacity` rounds are enough (`Walk.find-Walk`).
unfoldable pub find : List Entry → ℕ → Bytes → Outcome
unfolding probe
find es cap k = probe es cap k (home cap k) cap (home cap k)

abbrev pub occupied_entry : Bytes → Value → Entry
occupied_entry k v = record { key = k; val = v; occupied = true }

-- `count++` runs also when a key is overwritten.
abbrev pub store_at : Table → ℕ → Bytes → Value → Table
store_at t i k v = record t { entries = set t.entries i (occupied_entry k v); count = t.count + 1 }

unfoldable pub put_at : Table → Bytes → Value → Outcome → Table
put_at t k v (hit i) = store_at t i k v
put_at t k v (vacant i) = store_at t i k v
put_at t k v full = t
put_at t k v spinning = t

-- `kv_put_internal`
unfoldable pub put_internal : Table → Bytes → Value → Table
unfolding put_at
put_internal t k v = put_at t k v (find t.entries t.capacity k)

unfoldable pub get_at : List Entry → Outcome → Option Value
get_at es (hit i) = some (get_or es i empty_entry).val
get_at es (vacant i) = none
get_at es full = none
get_at es spinning = none

-- The table part of `kv_get`; `none` is NULL.
unfoldable pub get_internal : Table → Bytes → Option Value
unfolding get_at
get_internal t k = get_at t.entries (find t.entries t.capacity k)

-- `entries[idx].occupied = 0`
abbrev pub vacate : List Entry → ℕ → List Entry
vacate es i = set es i (record (get_or es i empty_entry) { occupied = false })

unfoldable pub delete_at : Table → Outcome → Table
delete_at t (hit i) = record t { entries = vacate t.entries i }
delete_at t (vacant i) = t
delete_at t full = t
delete_at t spinning = t

-- The table part of `kv_delete`, and the deletion that `kv_recover` replays.
unfoldable pub delete_internal : Table → Bytes → Table
unfolding delete_at
delete_internal t k = delete_at t (find t.entries t.capacity k)

-- The table that `kv_create` allocates.
unfoldable pub fresh : ℕ → Table
fresh cap = record { entries = replicate cap empty_entry; capacity = cap; count = 0 }

-- The calls that `kv_iterate` makes, in slot order.
unfoldable pub iterate : List Entry → List (Bytes × Value)
iterate [] = []
iterate (e ∷ es) = if e.occupied then (e.key, e.val) ∷ iterate es else iterate es
