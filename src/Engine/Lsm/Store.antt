-- ===== src/Engine/Lsm/Store.antt =====
-- The LSM tree as a map (src/storage_engine.c): what `lsm_get` returns after puts, deletes and the
-- flushes that they cause.
use inventixdb.Base.{
  ◌<◌, ◌^◌, ◌≡◌, refl, sym, subst, ap, ◌∙◌, true, false, List, [], ◌∷◌, some, inl, inr, arith,
  Bytes, Bool-cases, leb, if◌then◌else◌, length, All, str_eq, IsKey,
}
use inventixdb.Engine.Memtable.{
  LsmEntry, MemTableNode, memtable_insert_node, memtable_put, memtable_delete, strcmp,
}
use inventixdb.Engine.Memtable.Content.{
  first, insert_sorted, Ordering-cases, insert_sorted-Sorted, first-insert_sorted,
}
use inventixdb.Engine.Memtable.Refine.{entries, entries-insert}
use inventixdb.Engine.SsTable.{found, show_entry}
use inventixdb.Engine.SsTable.Search.{Fits}
use inventixdb.Engine.Lsm.{
  LsmTree, Outcome, lsm_put, lsm_delete, lsm_flush_memtable, lsm_get, success, answer, or_else,
  log_put, memtable_size,
}
use inventixdb.Engine.Lsm.Flush.{IsMemTable, IsLsm, lookup_lem, flush_lem}

insert-Fits :
    (new : LsmEntry) (es : List LsmEntry) → Fits new → All Fits es → All Fits (insert_sorted new es)
unfolding insert_sorted
insert-Fits new [] f h = (f, tt)
insert-Fits new (e ∷ es) f h = elim (Ordering-cases (strcmp new.key e.key)) [
  | inl less ↦ rw (less, insert_sorted) (f, h)
  | inr (inl more) ↦ rw (more, insert_sorted) (h.0, insert-Fits new es f h.1)
  | inr (inr same) ↦ rw (same, insert_sorted) (record { key = h.0.key; value = f.value }, h.1)
]

insert-IsMemTable :
    (t : MemTableNode) (new : LsmEntry)
    → Fits new
    → IsMemTable t
    → IsMemTable (memtable_insert_node t new)
insert-IsMemTable t new f ok = record {
  sorted = rw (entries-insert t new ok.sorted) (insert_sorted-Sorted new (entries t) ok.sorted);
  fits = rw (entries-insert t new ok.sorted) (insert-Fits new (entries t) f ok.fits);
}

-- The tree after `new` went into its memtable, and what a flush leaves of it
pub record Wrote (tree other : LsmTree) (new : LsmEntry) : Type 0 where
  pub kept : IsLsm other
  pub shows :
      (q : Bytes)
      → lsm_get other q
        ≡ (if str_eq new.key q then answer (found new.value new.deleted) else lsm_get tree q)

insert_lem :
    (tree other : LsmTree) (new : LsmEntry)
    → IsLsm tree
    → Fits new
    → other.memtable.root ≡ memtable_insert_node tree.memtable.root new
    → other.immutable ≡ tree.immutable
    → other.levels ≡ tree.levels
    → Wrote tree other new
unfolding lsm_get show_entry or_else
insert_lem tree other new ok fits root single levels =
    let kept : IsLsm other = record {
      memtable =
          subst IsMemTable (sym root) (insert-IsMemTable tree.memtable.root new fits ok.memtable);
      no_immutable = single ∙ ok.no_immutable;
      level0 = rw (levels) ok.level0;
    } in
    let in_memtable : (q : Bytes)
        → first q (entries other.memtable.root)
          ≡ (if str_eq new.key q then some new else first q (entries tree.memtable.root)) =
      λ q.
        ap (λ t. first q (entries t)) root
        ∙ ap (first q) (entries-insert tree.memtable.root new ok.memtable.sorted)
        ∙ first-insert_sorted new (entries tree.memtable.root) q in
    record {
      kept = kept;
      shows = λ q. elim (Bool-cases (str_eq new.key q)) [
        | inl here ↦ rw (lookup_lem other q kept, in_memtable q, here) refl
        | inr away ↦
            rw (lookup_lem other q kept, in_memtable q, away, levels, lookup_lem tree q ok) refl
      ];
    }

abbrev put_entry : Outcome → Bytes → Bytes → LsmEntry
put_entry out k v = record { key = k; value = v; timestamp = out.now; deleted = false }

abbrev tombstone : Outcome → Bytes → LsmEntry
tombstone out k = record { key = k; value = 0 ∷ []; timestamp = out.now; deleted = true }

flush-Wrote :
    (out : Outcome) (tree other : LsmTree) (new : LsmEntry)
    → Wrote tree other new
    → Wrote tree (lsm_flush_memtable out other) new
unfolding lsm_get
flush-Wrote out tree other new w =
    let s = flush_lem out other w.kept in
    record { kept = s.kept; shows = λ q. ap answer (s.shows q) ∙ w.shows q }

put_lem :
    (out : Outcome) (tree : LsmTree) (k v : Bytes)
    → IsLsm tree
    → Fits (put_entry out k v)
    → Wrote tree (lsm_put out tree k v) (put_entry out k v)
unfolding lsm_put memtable_put
put_lem out tree k v ok fits =
    let put : LsmTree = record tree {
      memtable = memtable_put tree.memtable k v out.now;
      wal_file = log_put k v tree.wal_file;
    } in
    let w = insert_lem tree put (put_entry out k v) ok fits refl refl refl in
    elim (Bool-cases (leb memtable_size put.memtable.size)) [
      | inl full ↦ rw (full) (flush-Wrote out tree put (put_entry out k v) w)
      | inr room ↦ rw (room) w
    ]

pub delete_lem :
    (out : Outcome) (tree : LsmTree) (k : Bytes)
    → IsLsm tree
    → IsKey k
    → Wrote tree (lsm_delete out tree k) (tombstone out k)
unfolding lsm_delete memtable_delete
delete_lem out tree k ok key =
    insert_lem tree (lsm_delete out tree k) (tombstone out k) ok
      (record { key = key; value = omega arith }) refl refl refl

-- A put in a tree whose memtable is sorted, whose entries fit the file format and which has no second
-- memtable keeps this. After it the key has the new value and each other key what it had, also when
-- the put makes the memtable full and it is flushed, whichever files open.
pub get-put :
    (out : Outcome) (tree : LsmTree) (k v q : Bytes)
    → IsLsm tree
    → IsKey k
    → length v < 2 ^ 63
    → IsLsm (lsm_put out tree k v)
      × (lsm_get (lsm_put out tree k v) q ≡ (if str_eq k q then success v else lsm_get tree q))
unfolding answer
get-put out tree k v q ok key short =
    let w = put_lem out tree k v ok (record { key = key; value = short }) in (w.kept, w.shows q)
