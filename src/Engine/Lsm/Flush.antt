-- ===== src/Engine/Lsm/Flush.antt =====
-- A flush of the LSM tree (src/storage_engine.c) moves the memtable's entries, tombstones included, to
-- a new table that is searched first.
use inventixdb.Base.{
  ℕ, ◌<◌, ◌≡◌, refl, sym, subst, ◌+◌, ap, true, false, List, [], ◌∷◌, none, inl, inr, arith, Bytes,
  Bool-cases, leb, ◌==◌, length, All,
}
use inventixdb.Engine.Memtable.{MemTable, MemTableNode, memtable_create}
use inventixdb.Engine.Memtable.Content.{first, Sorted}
use inventixdb.Engine.Memtable.Refine.{entries, find-first}
use inventixdb.Engine.SsTable.{
  SsTable, sstable_write_node, sstable_create, lookup_table, Lookup, absent, undefined, found,
  show_entry,
}
use inventixdb.Engine.SsTable.Search.{Fits, lookup_table-write}
use inventixdb.Engine.Lsm.{
  LsmTree, Outcome, add_table, count_level0, lsm_compact, install_table, lsm_flush_memtable,
  or_else, lookup_memtable, lookup_immutable, lookup_tables, lookup_levels, lsm_lookup,
}

-- A memtable sorted by its keys, whose entries fit the file format
pub record IsMemTable (t : MemTableNode) : Type 0 where
  pub sorted : Sorted (entries t)
  pub fits : All Fits (entries t)

pub record IsLsm (tree : LsmTree) : Type 0 where
  pub memtable : IsMemTable tree.memtable.root
  pub no_immutable : tree.immutable ≡ none
  pub level0 : 0 < length tree.levels

pub lookup_memtable_lem :
    (mt : MemTable) (q : Bytes)
    → IsMemTable mt.root
    → lookup_memtable mt q ≡ show_entry (first q (entries mt.root))
lookup_memtable_lem mt q ok = ap show_entry (find-first mt.root q ok.sorted)

or_else-absent : (a : Lookup) → or_else a absent ≡ a
unfolding or_else
or_else-absent absent = refl
or_else-absent undefined = refl
or_else-absent (found v d) = refl

or_else_assoc : (a b c : Lookup) → or_else (or_else a b) c ≡ or_else a (or_else b c)
unfolding or_else
or_else_assoc absent b c = refl
or_else_assoc undefined b c = refl
or_else_assoc (found v d) b c = refl

lookup-add_table :
    (sst : SsTable) (levels : List (List SsTable)) (q : Bytes)
    → 0 < length levels
    → lookup_levels (add_table sst levels) q ≡ or_else (lookup_table sst q) (lookup_levels levels q)
unfolding lookup_levels lookup_tables add_table
lookup-add_table sst [] q h = absurd (omega (arith, h))
lookup-add_table sst (level ∷ deeper) q h =
    or_else_assoc (lookup_table sst q) (lookup_tables level q) (lookup_levels deeper q)

length-add_table :
    (sst : SsTable) (levels : List (List SsTable)) → length (add_table sst levels) ≡ length levels
unfolding add_table
length-add_table sst [] = refl
length-add_table sst (level ∷ deeper) = refl

-- What a lookup in a tree with no second memtable comes to
pub lookup_lem :
    (tree : LsmTree) (q : Bytes)
    → IsLsm tree
    → lsm_lookup tree q
      ≡ or_else (show_entry (first q (entries tree.memtable.root))) (lookup_levels tree.levels q)
unfolding lsm_lookup lookup_immutable or_else
lookup_lem tree q ok = rw (lookup_memtable_lem tree.memtable q ok.memtable, ok.no_immutable) refl

pub record Same (tree other : LsmTree) : Type 0 where
  pub kept : IsLsm other
  pub shows : (q : Bytes) → lsm_lookup other q ≡ lsm_lookup tree q

pub empty-IsMemTable : IsMemTable memtable_create.root
unfolding entries
empty-IsMemTable = record { sorted = tt; fits = tt }

on_disk :
    (id : ℕ) (tree : LsmTree) (q : Bytes)
    → IsLsm tree
    → lookup_levels
        (add_table (sstable_write_node tree.memtable.root (sstable_create id)) tree.levels)
        q
      ≡ lsm_lookup tree q
on_disk id tree q ok =
    rw
      (
        lookup-add_table (sstable_write_node tree.memtable.root (sstable_create id)) tree.levels q
            ok.level0,
        lookup_table-write tree.memtable.root id q ok.memtable.fits,
        lookup_lem tree q ok,
      )
      refl

settled :
    (id : ℕ) (tree other : LsmTree)
    → IsLsm tree
    → other.memtable ≡ memtable_create
    → other.immutable ≡ none
    → other.levels
      ≡ add_table (sstable_write_node tree.memtable.root (sstable_create id)) tree.levels
    → Same tree other
unfolding entries first show_entry or_else
settled id tree other ok emptied single levels =
    let sst = sstable_write_node tree.memtable.root (sstable_create id) in
    let kept : IsLsm other = record {
      memtable = subst (λ mt. IsMemTable mt.root) (sym emptied) empty-IsMemTable;
      no_immutable = single;
      level0 = rw (levels, length-add_table sst tree.levels) ok.level0;
    } in
    record {
      kept = kept;
      shows = λ q. rw (lookup_lem other q kept, emptied, levels) (on_disk id tree q ok);
    }

install_lem :
    (out : Outcome) (id : ℕ) (tree : LsmTree)
    → IsLsm tree
    → Same tree (install_table out (sstable_write_node tree.memtable.root (sstable_create id)) tree)
unfolding install_table lsm_compact
install_lem out id tree ok =
    let sst = sstable_write_node tree.memtable.root (sstable_create id) in
    elim (Bool-cases (leb 4 (count_level0 (add_table sst tree.levels)))) [
      | inl full ↦ rw (full) (settled id tree _ ok refl ok.no_immutable refl)
      | inr room ↦ rw (room) (settled id tree _ ok refl ok.no_immutable refl)
    ]

pub flush_lem :
    (out : Outcome) (tree : LsmTree) → IsLsm tree → Same tree (lsm_flush_memtable out tree)
unfolding lsm_flush_memtable lsm_lookup install_table
flush_lem out tree ok =
    let numbered : LsmTree = record tree { next_sstable_id = tree.next_sstable_id + 1 } in
    let numbered-IsLsm : IsLsm numbered = record {
      memtable = ok.memtable;
      no_immutable = ok.no_immutable;
      level0 = ok.level0;
    } in
    elim (Bool-cases (tree.memtable.count == 0)) [
      | inl none_put ↦ rw (none_put) (record { kept = ok; shows = λ q. refl })
      | inr some_put ↦ elim (Bool-cases out.table_opens) [
        | inl opens ↦
            let s = install_lem out tree.next_sstable_id numbered numbered-IsLsm in
            rw (some_put, opens) (record { kept = s.kept; shows = λ q. s.shows q })
        | inr fails ↦ rw (some_put, fails) (record { kept = numbered-IsLsm; shows = λ q. refl })
      ]
    ]

-- The tables after a flush of a memtable that counts a put
pub levels-flush :
    (out : Outcome) (tree : LsmTree) (q : Bytes)
    → IsLsm tree
    → out.table_opens ≡ true
    → 0 < tree.memtable.count
    → lookup_levels (lsm_flush_memtable out tree).levels q ≡ lsm_lookup tree q
unfolding lsm_flush_memtable install_table lsm_compact
levels-flush out tree q ok opens put =
    let counted : (tree.memtable.count == 0) ≡ false = ground arith in
    let sst = sstable_write_node tree.memtable.root (sstable_create tree.next_sstable_id) in
    elim (Bool-cases (leb 4 (count_level0 (add_table sst tree.levels)))) [
      | inl full ↦ rw (counted, opens, full) (on_disk tree.next_sstable_id tree q ok)
      | inr room ↦ rw (counted, opens, room) (on_disk tree.next_sstable_id tree q ok)
    ]
