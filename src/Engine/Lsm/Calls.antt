-- ===== src/Engine/Lsm/Calls.antt =====
-- Runs of calls of the LSM tree (src/storage_engine.c), and what closing it leaves on disk.
use inventixdb.Base.{
  ◌<◌, ◌^◌, ◌≡◌, refl, ap, ◌∙◌, true, List, [], ◌∷◌, Option, inl, inr, arith, Bytes, Bool-cases,
  ◌==◌, if◌then◌else◌, length, All, str_eq, IsKey,
}
use inventixdb.Engine.Memtable.{memtable_find_node}
use inventixdb.Engine.SsTable.{show_entry}
use inventixdb.Engine.Lsm.{
  LsmTree, Outcome, lsm_create, lsm_put, lsm_delete, lsm_close, lsm_flush_memtable, lsm_lookup,
  lsm_get, Got, failure, success, answer, or_else, lookup_levels, lookup_immutable, lookup_tables,
}
use inventixdb.Engine.Lsm.Flush.{IsLsm, flush_lem, levels-flush, empty-IsMemTable}
use inventixdb.Engine.Lsm.Store.{delete_lem, get-put}

-- The calls that change the tree
pub data LsmCall : Type 0 where
  put : Outcome → Bytes → Bytes → LsmCall
  delete : Outcome → Bytes → LsmCall
  flush : Outcome → LsmCall

unfoldable pub call : LsmTree → LsmCall → LsmTree
call tree (put out k v) = lsm_put out tree k v
call tree (delete out k) = lsm_delete out tree k
call tree (flush out) = lsm_flush_memtable out tree

unfoldable pub calls : LsmTree → List LsmCall → LsmTree
calls tree [] = tree
calls tree (c ∷ cs) = calls (call tree c) cs

abbrev pub IsCall : LsmCall → Type 0
IsCall (put out k v) = IsKey k × (length v < 2 ^ 63)
IsCall (delete out k) = IsKey k
IsCall (flush out) = Unit

-- The map that the calls describe
unfoldable pub overlay : LsmCall → Bytes → Got → Got
overlay (put out k v) q old = if str_eq k q then success v else old
overlay (delete out k) q old = if str_eq k q then failure else old
overlay (flush out) q old = old

unfoldable pub expected : Bytes → Got → List LsmCall → Got
expected q old [] = old
expected q old (c ∷ cs) = expected q (overlay c q old) cs

call_lem :
    (tree : LsmTree) (c : LsmCall) (q : Bytes)
    → IsLsm tree
    → IsCall c
    → IsLsm (call tree c) × (lsm_get (call tree c) q ≡ overlay c q (lsm_get tree q))
unfolding call overlay answer lsm_get
call_lem tree (put out k v) q ok h = get-put out tree k v q ok h.0 h.1
call_lem tree (delete out k) q ok h = let w = delete_lem out tree k ok h in (w.kept, w.shows q)
call_lem tree (flush out) q ok h = let s = flush_lem out tree ok in (s.kept, ap answer (s.shows q))

calls_lem :
    (tree : LsmTree) (cs : List LsmCall) (q : Bytes)
    → IsLsm tree
    → All IsCall cs
    → lsm_get (calls tree cs) q ≡ expected q (lsm_get tree q) cs
unfolding calls expected
calls_lem tree [] q ok h = refl
calls_lem tree (c ∷ cs) q ok h =
    let one = call_lem tree c q ok h.0 in
    calls_lem (call tree c) cs q one.0 h.1 ∙ ap (λ g. expected q g cs) one.1

create_lem : (wal : Option Bytes) (q : Bytes) → lsm_get (lsm_create wal) q ≡ failure
unfolding lsm_get lsm_create answer lsm_lookup or_else show_entry memtable_find_node
    lookup_immutable lookup_levels lookup_tables
create_lem wal q = refl

pub create-IsLsm : (wal : Option Bytes) → IsLsm (lsm_create wal)
unfolding lsm_create
create-IsLsm wal = record { memtable = empty-IsMemTable; no_immutable = refl; level0 = omega arith }

-- After any puts, deletes and flushes of a new tree, whichever files open, `lsm_get` returns the value
-- of the last put of the key, and fails when there is none or a delete of the key follows it. The keys
-- put and deleted are C strings shorter than `2 ^ 31`, the values are shorter than `2 ^ 63`.
pub get-calls :
    (wal : Option Bytes) (cs : List LsmCall) (q : Bytes)
    → All IsCall cs
    → lsm_get (calls (lsm_create wal) cs) q ≡ expected q failure cs
get-calls wal cs q h =
    calls_lem (lsm_create wal) cs q (create-IsLsm wal) h
    ∙ ap (λ g. expected q g cs) (create_lem wal q)

-- When a tree is closed and the new table opens, the tables then show all that `lsm_get` returned, if
-- the memtable counts a put since the last flush; otherwise they show what they did before, without the
-- deletes since the last flush. The tree's memtable is sorted, its entries fit the file format, and it
-- has no second memtable.
pub levels-close :
    (out : Outcome) (tree : LsmTree) (q : Bytes)
    → IsLsm tree
    → out.table_opens ≡ true
    → answer (lookup_levels (lsm_close out tree).levels q)
      ≡ (if tree.memtable.count == 0 then answer (lookup_levels tree.levels q) else lsm_get tree q)
unfolding lsm_close lsm_get
levels-close out tree q ok opens = elim (Bool-cases (tree.memtable.count == 0)) [
  | inl no_put ↦ rw (no_put) refl
  | inr counted ↦
      let put : 0 < tree.memtable.count = ground arith in
      rw (counted) (ap answer (levels-flush out tree q ok opens put))
]
