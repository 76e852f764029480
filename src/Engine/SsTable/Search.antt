-- ===== src/Engine/SsTable/Search.antt =====
-- A lookup in the file that `sstable_write_node` wrote is a lookup in the memtable
-- (src/storage_engine.c).
use inventixdb.Base.{
  ℕ, zero, suc, ◌+◌, ◌^◌, ◌<◌, ◌≤◌, ◌≡◌, refl, sym, ap, ◌∙◌, Bool, true, false, not, List, [], ◌∷◌,
  ◌++◌, append_assoc, append-nil, none, some, inl, inr, arith, Bytes, lt→ltb, ◌==◌, Bool-cases,
  if◌then◌else◌, length, length-append, length-replicate, replicate, All, str_eq, str_eq_iff,
  le_bytes, from_le, from_le-le_bytes, length-le_bytes, fread, fread_short, fread_append,
  fread-le_bytes, drop_append_length, IsKey, c_string_lem,
}
use inventixdb.Engine.Memtable.{LsmEntry, MemTableNode, leaf, node}
use inventixdb.Engine.Memtable.Content.{first}
use inventixdb.Engine.Memtable.Refine.{entries}
use inventixdb.Engine.Bloom.{
  bloom_add, bloom_may_contain, bloom_add-Grows, may_contain-Grows, may_contain-add,
}
use inventixdb.Engine.SsTable.{
  SsTable, bloom_bits, sstable_create, encode_entry, write_entry, sstable_write_node, found,
  show_entry, read_entry, read_value, search_from, sstable_get, lookup_table,
}

-- An entry whose lengths fit the fields of the file
pub record Fits (e : LsmEntry) : Type 0 where
  pub key : IsKey e.key
  pub value : length e.value < 2 ^ 63

unfoldable pub encode_all : List LsmEntry → Bytes
encode_all [] = []
encode_all (e ∷ es) = encode_entry e ++ encode_all es

deleted_byte : (b : Bool) → not (from_le ((if b then 1 else 0) ∷ []) == 0) ≡ b
unfolding from_le
deleted_byte true = refl
deleted_byte false = refl

read_entry_lem :
    (e : LsmEntry) (rest : Bytes)
    → Fits e
    → read_entry (length e.key) (
        e.key
        ++ ((if e.deleted then 1 else 0) ∷ []
            ++ (le_bytes 8 (length e.value) ++ (e.value ++ rest))))
      ≡ some (e.key, from_le ((if e.deleted then 1 else 0) ∷ []), length e.value, e.value ++ rest)
unfolding read_entry
read_entry_lem e rest fits =
    let tail : Bytes = le_bytes 8 (length e.value) ++ (e.value ++ rest) in
    let flag : Bytes = (if e.deleted then 1 else 0) ∷ [] in
    let one : fread 1 (flag ++ tail) ≡ some (flag, tail) = fread_append flag tail in
    rw
      (
        fread_append e.key,
        one,
        fread-le_bytes 8 (length e.value),
        from_le-le_bytes 8 (length e.value) (omega (arith, fits.value)),
        lt→ltb _ _ fits.value,
        c_string_lem e.key fits.key.no_nul,
      )
      refl

read_value_lem :
    (e : LsmEntry) (rest : Bytes)
    → read_value (from_le ((if e.deleted then 1 else 0) ∷ [])) (length e.value) (e.value ++ rest)
      ≡ found e.value e.deleted
unfolding read_value
read_value_lem e rest = rw (read_value, fread_append e.value, deleted_byte e.deleted) refl

-- One pass of the loop over an entry
search_pass :
    (fuel : ℕ) (e : LsmEntry) (rest q : Bytes)
    → Fits e
    → search_from (suc fuel) (encode_entry e ++ rest) q
      ≡ (if str_eq e.key q then found e.value e.deleted else search_from fuel rest q)
unfolding search_from encode_entry read_entry read_value
search_pass fuel e rest q fits =
    let flag : Bytes = (if e.deleted then 1 else 0) ∷ [] in
    let tail : Bytes = le_bytes 8 (length e.value) ++ (e.value ++ rest) in
    let shape : encode_entry e ++ rest ≡ le_bytes 4 (length e.key) ++ (e.key ++ (flag ++ tail)) =
      rw (append_assoc, append_assoc, append_assoc) refl in
    let key_length : from_le (le_bytes 4 (length e.key)) ≡ length e.key =
      from_le-le_bytes 4 (length e.key) (omega (arith, fits.key.short)) in
    rw
      (
        shape,
        search_from,
        fread-le_bytes 4 (length e.key),
        search_from,
        key_length,
        read_entry_lem e rest fits,
        search_from,
      )
      (elim (Bool-cases (str_eq e.key q)) [
        | inl here ↦ rw (here, read_value_lem e rest) refl
        | inr other ↦ rw (other, drop_append_length e.value) refl
      ])

-- The file of some entries, searched
pub search_from_lem :
    (es : List LsmEntry) (fuel : ℕ) (q : Bytes)
    → All Fits es
    → length es < fuel
    → search_from fuel (encode_all es) q ≡ show_entry (first q es)
unfolding encode_all show_entry first search_from
search_from_lem es zero q fits h = absurd (omega (arith, h))
search_from_lem [] (suc fuel) q fits h = rw (search_from, fread_short 4 [] (omega arith)) refl
search_from_lem (e ∷ es) (suc fuel) q fits h = elim (Bool-cases (str_eq e.key q)) [
  | inl here ↦ rw (search_pass fuel e (encode_all es) q fits.0, here) refl
  | inr other ↦
      rw (search_pass fuel e (encode_all es) q fits.0, other)
        (search_from_lem es fuel q fits.1 (omega (arith, h)))
]

length-encode_all : (es : List LsmEntry) → length es ≤ length (encode_all es)
unfolding encode_all encode_entry
length-encode_all [] = omega arith
length-encode_all (e ∷ es) = omega (
  arith,
  length-append (encode_entry e) (encode_all es),
  length-append (le_bytes 4 (length e.key)) (encode_fields e),
  length-le_bytes 4 (length e.key),
  length-encode_all es,
)
  where
    encode_fields : LsmEntry → Bytes
    encode_fields x =
        x.key ++ (if x.deleted then 1 else 0) ∷ (le_bytes 8 (length x.value) ++ x.value)

-- The filter of some entries
unfoldable pub add_all : List LsmEntry → List Bool → List Bool
add_all [] f = f
add_all (e ∷ es) f = add_all es (bloom_add f e.key)

add_all-append :
    (xs ys : List LsmEntry) (f : List Bool) → add_all (xs ++ ys) f ≡ add_all ys (add_all xs f)
unfolding add_all
add_all-append [] ys f = refl
add_all-append (x ∷ xs) ys f = add_all-append xs ys (bloom_add f x.key)

encode_all-append : (xs ys : List LsmEntry) → encode_all (xs ++ ys) ≡ encode_all xs ++ encode_all ys
unfolding encode_all
encode_all-append [] ys = refl
encode_all-append (x ∷ xs) ys =
    ap (λ t. encode_entry x ++ t) (encode_all-append xs ys)
    ∙ sym (append_assoc (encode_entry x) _ _)

add_all_contains :
    (es : List LsmEntry) (f : List Bool) (q : Bytes)
    → 0 < length f
    → (bloom_may_contain f q ≡ true)
    → bloom_may_contain (add_all es f) q ≡ true
unfolding add_all
add_all_contains [] f q h m = m
add_all_contains (e ∷ es) f q h m =
    let g = bloom_add-Grows f e.key h in
    add_all_contains es (bloom_add f e.key) q (omega (arith, h, g.0))
      (may_contain-Grows f (bloom_add f e.key) q g m)

-- A key outside the filter is in no entry.
outside_filter :
    (es : List LsmEntry) (f : List Bool) (q : Bytes)
    → 0 < length f
    → bloom_may_contain (add_all es f) q ≡ false
    → first q es ≡ none
unfolding add_all first
outside_filter [] f q h m = refl
outside_filter (e ∷ es) f q h m =
    let g = bloom_add-Grows f e.key h in
    let more : 0 < length (bloom_add f e.key) = omega (arith, h, g.0) in
    elim (Bool-cases (str_eq e.key q)) [
      | inl here ↦
          let at : e.key ≡ q = (str_eq_iff e.key q).0 here in
          let inside : bloom_may_contain (bloom_add f e.key) q ≡ true =
            ap (bloom_may_contain (bloom_add f e.key)) (sym at) ∙ may_contain-add f e.key h in
          absurd (cc (sym m ∙ add_all_contains es (bloom_add f e.key) q more inside))
      | inr other ↦ rw (other) (outside_filter es (bloom_add f e.key) q more m)
    ]

-- The table that holds some entries beside those of `sst`
unfoldable holding : SsTable → List LsmEntry → SsTable
holding sst es = record {
  id = sst.id;
  entry_count = sst.entry_count + length es;
  bloom_filter = add_all es sst.bloom_filter;
  file = sst.file ++ encode_all es;
}

holding-nil : (sst : SsTable) → holding sst [] ≡ sst
unfolding holding add_all encode_all
holding-nil sst =
    let n : sst.entry_count + 0 ≡ sst.entry_count = omega arith in rw (n, append-nil sst.file) refl

holding-write_entry :
    (sst : SsTable) (e : LsmEntry) (es : List LsmEntry)
    → holding (write_entry sst e) es ≡ holding sst (e ∷ es)
unfolding holding write_entry add_all encode_all
holding-write_entry sst e es =
    let n : sst.entry_count + 1 + length es ≡ sst.entry_count + suc (length es) = omega arith in
    rw (n, append_assoc sst.file (encode_entry e) (encode_all es)) refl

holding-holding :
    (sst : SsTable) (xs ys : List LsmEntry) → holding (holding sst xs) ys ≡ holding sst (xs ++ ys)
unfolding holding
holding-holding sst xs ys =
    let n : sst.entry_count + length xs + length ys ≡ sst.entry_count + length (xs ++ ys) =
      omega (arith, length-append xs ys) in
    rw
      (
        n,
        append_assoc sst.file (encode_all xs) (encode_all ys),
        add_all-append xs ys sst.bloom_filter,
        encode_all-append xs ys,
      )
      refl

write_node_holding :
    (t : MemTableNode) (sst : SsTable) → sstable_write_node t sst ≡ holding sst (entries t)
unfolding sstable_write_node entries
write_node_holding leaf sst = sym (holding-nil sst)
write_node_holding (node l e r h) sst =
    rw
      (
        write_node_holding l sst,
        write_node_holding r (write_entry (holding sst (entries l)) e),
        holding-write_entry (holding sst (entries l)) e (entries r),
        holding-holding sst (entries l) (e ∷ entries r),
      )
      refl

-- A table written from a memtable shows what the memtable's entries show, and its filter hides none
-- of them.
pub lookup_table-write :
    (t : MemTableNode) (id : ℕ) (q : Bytes)
    → All Fits (entries t)
    → lookup_table (sstable_write_node t (sstable_create id)) q ≡ show_entry (first q (entries t))
unfolding lookup_table sstable_get holding sstable_create show_entry
lookup_table-write t id q fits =
    let empty = replicate bloom_bits false in
    let more : 0 < length empty = omega (arith, length-replicate bloom_bits false) in
    rw (write_node_holding t (sstable_create id))
      (elim (Bool-cases (bloom_may_contain (add_all (entries t) empty) q)) [
        | inl inside ↦ rw (inside) (
            search_from_lem (entries t) (suc (length (encode_all (entries t)))) q fits
              (omega (arith, length-encode_all (entries t))))
        | inr outside ↦ rw (outside, outside_filter (entries t) empty q more outside) refl
      ])
