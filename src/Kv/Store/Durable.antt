-- ===== src/Kv/Store/Durable.antt =====
-- What a crash loses: between two checkpoints nothing that src/storage.c put or deleted.
use inventixdb.Base.{
  fread, ℕ, ◌+◌, ◌≤◌, ◌≡◌, refl, sym, ap, ◌∙◌, true, false, List, [], ◌∷◌, ◌++◌, append_assoc,
  append-nil, some, arith, Bytes, ltb, le→ltb, length, length-append, All,
}
use inventixdb.Kv.Table.{
  Table, Outcome, hit, vacant, full, spinning, fresh, find, put_internal, delete_internal,
  delete_at,
}
use inventixdb.Kv.Log.{
  Op, put, del, log_record, log_file, replay, load_snapshot, apply_op, apply_ops,
}
use inventixdb.Kv.Log.Replay.{IsOp, IsTorn, replay_lem}
use inventixdb.Page.BTable.{BTable}
use inventixdb.Kv.Store.{
  KvStore, Disk, append_log, put_locked, kv_delete, delete_found, kv_recover, kv_create,
}

-- The log is open and records, after the snapshot, the changes that led to the table.
pub record IsDurable (cap : ℕ) (s : KvStore) : Type 0 where
  pub base : Table
  pub ops : List Op
  pub is_open : s.log_open ≡ true
  pub loaded : load_snapshot (fresh cap) s.disk.snap ≡ some base
  pub logged : s.disk.log ≡ log_file ops
  pub well_formed : All IsOp ops
  pub reached : apply_ops base ops ≡ s.table

-- A change, as a client asks for it.
unfoldable pub change : ℕ → KvStore → Op → KvStore
change threshold s (put k v) = put_locked threshold s k v true
change threshold s (del k) = kv_delete threshold s k true

unfoldable pub changes : ℕ → KvStore → List Op → KvStore
changes threshold s [] = s
changes threshold s (o ∷ os) = changes threshold (change threshold s o) os

log_file-append : (os : List Op) (o : Op) → log_file (os ++ o ∷ []) ≡ log_file os ++ log_record o
unfolding log_file
log_file-append [] o = append-nil (log_record o)
log_file-append (p ∷ os) o =
    ap (λ t. log_record p ++ t) (log_file-append os o)
    ∙ sym (append_assoc (log_record p) (log_file os) (log_record o))

apply_ops-append :
    (t : Table) (os : List Op) (o : Op) → apply_ops t (os ++ o ∷ []) ≡ apply_op (apply_ops t os) o
unfolding apply_ops
apply_ops-append t [] o = refl
apply_ops-append t (p ∷ os) o = apply_ops-append (apply_op t p) os o

All-snoc : (os : List Op) (o : Op) → All IsOp os → IsOp o → All IsOp (os ++ o ∷ [])
All-snoc [] o h k = (k, tt)
All-snoc (p ∷ os) o h k = (h.0, All-snoc os o h.1 k)

-- One logged change that does not reach the threshold.
append_log-IsDurable :
    (cap threshold : ℕ) (s : KvStore) (o : Op) (t : Table)
    → IsDurable cap s
    → IsOp o
    → t ≡ apply_op s.table o
    → s.log_size + length (log_record o) ≤ threshold
    → IsDurable cap (append_log threshold (record s { table = t }) o true)
      × ((append_log threshold (record s { table = t }) o true).log_size
          ≡ s.log_size + length (log_record o))
      × ((append_log threshold (record s { table = t }) o true).table ≡ t)
unfolding append_log
append_log-IsDurable cap threshold s o t d ok e small =
    let below : ltb threshold (s.log_size + length (log_record o)) ≡ false = le→ltb _ _ small in
    rw (d.is_open, below)
      (
        record {
          base = d.base;
          ops = d.ops ++ o ∷ [];
          is_open = refl;
          loaded = d.loaded;
          logged = ap (λ l. l ++ log_record o) d.logged ∙ sym (log_file-append d.ops o);
          well_formed = All-snoc d.ops o d.well_formed ok;
          reached = apply_ops-append d.base d.ops o ∙ ap (λ u. apply_op u o) d.reached ∙ sym e;
        },
        refl,
        refl,
      )

-- What one change does to a durable store.
record Changed (cap threshold : ℕ) (s : KvStore) (o : Op) (s' : KvStore) : Type 0 where
  durable : IsDurable cap s'
  grown : s'.log_size ≤ s.log_size + length (log_record o)
  applied : s'.table ≡ apply_op s.table o

logged-Changed :
    (cap threshold : ℕ) (s : KvStore) (o : Op) (t : Table)
    → IsDurable cap s
    → IsOp o
    → t ≡ apply_op s.table o
    → s.log_size + length (log_record o) ≤ threshold
    → Changed cap threshold s o (append_log threshold (record s { table = t }) o true)
logged-Changed cap threshold s o t d ok e small =
    let r = append_log-IsDurable cap threshold s o t d ok e small in
    record { durable = r.0; grown = omega (arith, r.1); applied = r.2 ∙ e }

change-Changed :
    (cap threshold : ℕ) (s : KvStore) (o : Op)
    → IsDurable cap s
    → IsOp o
    → s.log_size + length (log_record o) ≤ threshold
    → Changed cap threshold s o (change threshold s o)
unfolding change put_locked kv_delete apply_op delete_internal delete_found
change-Changed cap threshold s (put k v) d ok small =
    logged-Changed cap threshold s (put k v) (put_internal s.table k v) d ok refl small
change-Changed cap threshold s (del k) d ok small =
    by_outcome (find s.table.entries s.table.capacity k) refl
  where
    absent :
        (o : Outcome)
        → find s.table.entries s.table.capacity k ≡ o
        → delete_at s.table o ≡ s.table
        → Changed cap threshold s (del k) s
    absent o e same = record {
      durable = d;
      grown = omega arith;
      applied = sym same ∙ ap (delete_at s.table) (sym e);
    }

    by_outcome :
        (o : Outcome)
        → find s.table.entries s.table.capacity k ≡ o
        → Changed cap threshold s (del k) (delete_found threshold s k true o)
    by_outcome (hit i) e =
        logged-Changed cap threshold s (del k) (delete_at s.table (hit i)) d ok
          (ap (delete_at s.table) (sym e)) small
    by_outcome (vacant i) e = absent (vacant i) e refl
    by_outcome full e = absent full e refl
    by_outcome spinning e = absent spinning e refl

-- A durable store is recovered as it was, also from a log whose last record was cut off within its
-- first four bytes.
recover_durable :
    (cap : ℕ) (s : KvStore) (torn : Bytes)
    → IsDurable cap s
    → IsTorn torn
    → kv_recover cap (record { snap = s.disk.snap; log = s.disk.log ++ torn }) ≡ some s.table
unfolding kv_recover
recover_durable cap s torn d h =
    rw (d.loaded, d.logged) (replay_lem d.base d.ops torn d.well_formed h ∙ ap some d.reached)

length-log_file :
    (o : Op) (os : List Op)
    → length (log_file (o ∷ os)) ≡ length (log_record o) + length (log_file os)
unfolding log_file
length-log_file o os = length-append (log_record o) (log_file os)

-- The log of the store is open, and its snapshot and log replay to its table, slot by slot, as those of
-- a store that was created on an empty disk do. Then, after any sequence of puts and deletions of keys
-- and values that fit a record and that stays below the checkpoint threshold, a restart recovers
-- exactly the table that the sequence led to, slot by slot, also when a crash cut off the writing of
-- one more record within its first four bytes.
pub recover-changes :
    (cap threshold : ℕ) (s : KvStore) (os : List Op) (torn : Bytes)
    → IsDurable cap s
    → All IsOp os
    → s.log_size + length (log_file os) ≤ threshold
    → IsTorn torn
    → let s' = changes threshold s os in
      (kv_recover cap (record { snap = s'.disk.snap; log = s'.disk.log ++ torn }) ≡ some s'.table)
      × (s'.table ≡ apply_ops s.table os)
unfolding changes apply_ops
recover-changes cap threshold s [] torn d ok small h = (recover_durable cap s torn d h, refl)
recover-changes cap threshold s (o ∷ os) torn d ok small h =
    let c = change-Changed cap threshold s o d ok.0 (omega (arith, length-log_file o os)) in
    let rest =
      recover-changes cap threshold (change threshold s o) os torn c.durable ok.1
        (omega (arith, length-log_file o os, c.grown)) h in
    (rest.0, rest.1 ∙ ap (λ t. apply_ops t os) c.applied)

abbrev pub empty_disk : Disk
empty_disk = record { snap = []; log = [] }

-- What `kv_create` makes of an empty disk.
abbrev pub created : ℕ → BTable → KvStore
created cap btree = record {
  table = fresh cap;
  btree_table = btree;
  log_open = true;
  log_size = 0;
  disk = empty_disk;
}

pub kv_create-IsDurable :
    (cap : ℕ) (btree : BTable)
    → (kv_create cap btree empty_disk ≡ some (created cap btree))
      × IsDurable cap (created cap btree)
unfolding kv_create kv_recover load_snapshot replay fread log_file apply_ops
kv_create-IsDurable cap btree = (
  refl,
  record {
    base = fresh cap;
    ops = [];
    is_open = refl;
    loaded = refl;
    logged = refl;
    well_formed = tt;
    reached = refl;
  },
)
