-- ===== src/Engine/Memtable.antt =====
-- The memtable of the LSM tree (src/storage_engine.c): an AVL tree by `strcmp` on the keys. `time` is
-- the argument `now`; `malloc` succeeds.
pub mod Order
pub mod Content
pub mod Refine
use inventixdb.Base.{
  ℕ, ◌+◌, Bool, true, false, [], ◌∷◌, Option, none, some, Bytes, ltb, if◌then◌else◌, length,
}
use Prim.Native.Nat.{compare, Ordering}

-- `strcmp`, by its sign; bytes compare as `unsigned char`.
unfoldable pub strcmp : Bytes → Bytes → Ordering
strcmp [] [] = Ordering.eq
strcmp [] (y ∷ ys) = Ordering.lt
strcmp (x ∷ xs) [] = Ordering.gt
strcmp (x ∷ xs) (y ∷ ys) =
    let rest = strcmp xs ys in
    elim (compare x y) [
      | Ordering.lt ↦ Ordering.lt
      | Ordering.gt ↦ Ordering.gt
      | Ordering.eq ↦ rest
    ]

-- `LSMEntry`; `value_len` is the length of the value.
pub record LsmEntry : Type 0 where
  pub key : Bytes
  pub value : Bytes
  pub timestamp : ℕ
  pub deleted : Bool

-- `MemTableNode *`
pub data MemTableNode : Type 0 where
  leaf : MemTableNode
  node : MemTableNode → LsmEntry → MemTableNode → ℕ → MemTableNode

abbrev pub avl_height : MemTableNode → ℕ
avl_height leaf = 0
avl_height (node l e r h) = h

-- `1 + (a > b ? a : b)` on the heights of the children
abbrev pub height_over : MemTableNode → MemTableNode → ℕ
height_over l r = if ltb (avl_height r) (avl_height l) then 1 + avl_height l else 1 + avl_height r

abbrev pub join : MemTableNode → LsmEntry → MemTableNode → MemTableNode
join l e r = node l e r (height_over l r)

-- A rotation of a tree without the child that it lifts, where the code would read NULL, leaves it.
unfoldable pub avl_rotate_right : MemTableNode → MemTableNode
avl_rotate_right (node (node a x b g) y c h) = join a x (join b y c)
avl_rotate_right (node leaf y c h) = node leaf y c h
avl_rotate_right leaf = leaf

unfoldable pub avl_rotate_left : MemTableNode → MemTableNode
avl_rotate_left (node a x (node b y c g) h) = join (join a x b) y c
avl_rotate_left (node a x leaf h) = node a x leaf h
avl_rotate_left leaf = leaf

-- `strcmp(key, child->entry.key)` on which side of the child's entry the key went
unfoldable pub side_of : Bytes → MemTableNode → Ordering
side_of k leaf = Ordering.eq
side_of k (node l e r h) = strcmp k e.key

-- The left subtree is too high: `balance > 1`.
unfoldable pub fix_left : Bytes → MemTableNode → LsmEntry → MemTableNode → MemTableNode
fix_left k l e r = elim (side_of k l) [
  | Ordering.lt ↦ avl_rotate_right (join l e r)
  | Ordering.gt ↦ avl_rotate_right (node (avl_rotate_left l) e r (height_over l r))
  | Ordering.eq ↦ join l e r
]

-- The right subtree is too high: `balance < -1`.
unfoldable pub fix_right : Bytes → MemTableNode → LsmEntry → MemTableNode → MemTableNode
fix_right k l e r = elim (side_of k r) [
  | Ordering.lt ↦ avl_rotate_left (node l e (avl_rotate_right r) (height_over l r))
  | Ordering.gt ↦ avl_rotate_left (join l e r)
  | Ordering.eq ↦ join l e r
]

-- The part of `memtable_insert_node` after the recursive call
unfoldable pub rebalance : Bytes → MemTableNode → LsmEntry → MemTableNode → MemTableNode
rebalance k l e r =
    if ltb (avl_height r + 1) (avl_height l)
    then fix_left k l e r
    else (if ltb (avl_height l + 1) (avl_height r) then fix_right k l e r else join l e r)

-- `memtable_insert_node`; an entry with the key keeps its key and its place.
unfoldable pub memtable_insert_node : MemTableNode → LsmEntry → MemTableNode
memtable_insert_node leaf new = node leaf new leaf 1
memtable_insert_node (node l e r h) new =
    let l' = memtable_insert_node l new in
    let r' = memtable_insert_node r new in
    elim (strcmp new.key e.key) [
      | Ordering.lt ↦ rebalance new.key l' e r
      | Ordering.gt ↦ rebalance new.key l e r'
      | Ordering.eq ↦ node l (record new { key = e.key }) r h
    ]

unfoldable pub memtable_find_node : MemTableNode → Bytes → Option LsmEntry
memtable_find_node leaf k = none
memtable_find_node (node l e r h) k =
    let on_left = memtable_find_node l k in
    let on_right = memtable_find_node r k in
    elim (strcmp k e.key) [ Ordering.lt ↦ on_left | Ordering.gt ↦ on_right | Ordering.eq ↦ some e ]

-- `MemTable`; its timestamps are never set.
pub record MemTable : Type 0 where
  pub root : MemTableNode
  pub size : ℕ
  pub count : ℕ

abbrev pub memtable_create : MemTable
memtable_create = record { root = leaf; size = 0; count = 0 }

-- `sizeof(LSMEntry)`
abbrev pub entry_size : ℕ
entry_size = 40

-- The size and the count grow also when an entry is overwritten.
unfoldable pub memtable_put : MemTable → Bytes → Bytes → ℕ → MemTable
memtable_put mt k v now = record {
  root =
      memtable_insert_node mt.root
        (record { key = k; value = v; timestamp = now; deleted = false });
  size = mt.size + length v + length k + entry_size;
  count = mt.count + 1;
}

abbrev pub memtable_get : MemTable → Bytes → Option LsmEntry
memtable_get mt k = memtable_find_node mt.root k

-- The tombstone is counted neither in the size nor in the number of entries.
unfoldable pub memtable_delete : MemTable → Bytes → ℕ → MemTable
memtable_delete mt k now = record mt {
  root =
      memtable_insert_node mt.root
        (record { key = k; value = 0 ∷ []; timestamp = now; deleted = true });
}
