-- ===== src/Engine/Memtable/Refine.antt =====
-- A memtable of src/storage_engine.c lists its entries in the order of their keys; insertion and
-- search are those of that list, and rotations do not change it.
use inventixdb.Base.{
  ◌+◌, ◌≡◌, inl, inr, refl, sym, ap, subst, ◌∙◌, List, [], ◌∷◌, ◌++◌, append_assoc, some,
  Bool-cases, Bytes, ltb, str_eq, str_eq_refl,
}
use inventixdb.Engine.Memtable.{
  strcmp, LsmEntry, MemTableNode, leaf, node, avl_height, height_over, join, avl_rotate_right,
  avl_rotate_left, side_of, fix_left, fix_right, rebalance, memtable_insert_node,
  memtable_find_node,
}
use inventixdb.Engine.Memtable.Order.{Below, eq_of_strcmp, Below-of_gt, Below-trans}
use inventixdb.Engine.Memtable.Content.{
  first, insert_sorted, AllUnder, Sorted, Ordering-cases, Sorted-Split, AllUnder-trans, insert_left,
  insert_past, first_left, first_past,
}

unfoldable pub entries : MemTableNode → List LsmEntry
entries leaf = []
entries (node l e r h) = entries l ++ e ∷ entries r

entries-rotate_right : (t : MemTableNode) → entries (avl_rotate_right t) ≡ entries t
unfolding entries avl_rotate_right
entries-rotate_right leaf = refl
entries-rotate_right (node leaf y c h) = refl
entries-rotate_right (node (node a x b g) y c h) =
    sym (append_assoc (entries a) (x ∷ entries b) (y ∷ entries c))

entries-rotate_left : (t : MemTableNode) → entries (avl_rotate_left t) ≡ entries t
unfolding entries avl_rotate_left
entries-rotate_left leaf = refl
entries-rotate_left (node a x leaf h) = refl
entries-rotate_left (node a x (node b y c g) h) =
    append_assoc (entries a) (x ∷ entries b) (y ∷ entries c)

entries-rebalance :
    (k : Bytes) (l : MemTableNode) (e : LsmEntry) (r : MemTableNode)
    → entries (rebalance k l e r) ≡ entries l ++ e ∷ entries r
unfolding entries rebalance fix_left fix_right
entries-rebalance k l e r = elim (Bool-cases (ltb (avl_height r + 1) (avl_height l))) [
  | inl high ↦ elim (Ordering-cases (side_of k l)) [
    | inl less ↦ rw (high, less, fix_left) (entries-rotate_right (join l e r))
    | inr (inl more) ↦
        rw (high, more, fix_left)
          (entries-rotate_right (node (avl_rotate_left l) e r (height_over l r))
            ∙ ap (λ xs. xs ++ e ∷ entries r) (entries-rotate_left l))
    | inr (inr same) ↦ rw (high, same, fix_left) refl
  ]
  | inr low ↦ elim (Bool-cases (ltb (avl_height l + 1) (avl_height r))) [
    | inl high ↦ elim (Ordering-cases (side_of k r)) [
      | inl less ↦
          rw (low, high, less, fix_right)
            (entries-rotate_left (node l e (avl_rotate_right r) (height_over l r))
              ∙ ap (λ ys. entries l ++ e ∷ ys) (entries-rotate_right r))
      | inr (inl more) ↦ rw (low, high, more, fix_right) (entries-rotate_left (join l e r))
      | inr (inr same) ↦ rw (low, high, same, fix_right) refl
    ]
    | inr even ↦ rw (low, even) refl
  ]
]

-- The tree with a new entry lists what it listed before, with the entry at its place.
pub entries-insert :
    (t : MemTableNode) (new : LsmEntry)
    → Sorted (entries t)
    → entries (memtable_insert_node t new) ≡ insert_sorted new (entries t)
unfolding entries memtable_insert_node insert_sorted
entries-insert leaf new s = refl
entries-insert (node l e r h) new s =
    let p = Sorted-Split (entries l) e (entries r) s in
    elim (Ordering-cases (strcmp new.key e.key)) [
      | inl less ↦
          rw (less, memtable_insert_node, insert_sorted)
            (entries-rebalance new.key (memtable_insert_node l new) e r
              ∙ ap (λ xs. xs ++ e ∷ entries r) (entries-insert l new p.left)
              ∙ sym (insert_left new (entries l) e (entries r) less))
      | inr (inl more) ↦
          let under =
            AllUnder-trans e.key new.key (entries l) p.under (Below-of_gt new.key e.key more) in
          rw
            (
              more,
              insert_past new (entries l) (e ∷ entries r) under,
              more,
              memtable_insert_node,
              insert_sorted,
            )
            (entries-rebalance new.key l e (memtable_insert_node r new)
              ∙ ap (λ ys. entries l ++ e ∷ ys) (entries-insert r new p.right))
      | inr (inr same) ↦
          let k = eq_of_strcmp new.key e.key same in
          let under = subst (λ q. AllUnder q (entries l)) (sym k) p.under in
          rw
            (
              same,
              insert_past new (entries l) (e ∷ entries r) under,
              same,
              memtable_insert_node,
              insert_sorted,
            )
            refl
    ]

-- The search in the tree finds what the list shows.
pub find-first :
    (t : MemTableNode) (k : Bytes)
    → Sorted (entries t)
    → memtable_find_node t k ≡ first k (entries t)
unfolding entries memtable_find_node
find-first leaf k s = unfold first in refl
find-first (node l e r h) k s =
    let p = Sorted-Split (entries l) e (entries r) s in
    elim (Ordering-cases (strcmp k e.key)) [
      | inl less ↦
          rw (less, memtable_find_node)
            (find-first l k p.left ∙ sym (first_left k (entries l) e (entries r) less p.above))
      | inr (inl more) ↦
          let b = Below-of_gt k e.key more in
          rw (more, memtable_find_node)
            (find-first r k p.right
              ∙ sym (first_past k (entries l ++ e ∷ []) (entries r) (through l e k p.under b))
              ∙ ap (first k) (append_assoc (entries l) (e ∷ []) (entries r)))
      | inr (inr same) ↦
          let q = eq_of_strcmp k e.key same in
          rw
            (
              same,
              first_past k (entries l) (e ∷ entries r)
                  (subst (λ z. AllUnder z (entries l)) (sym q) p.under),
              memtable_find_node,
            )
            (at_head k e (entries r) q)
    ]
  where
    through :
        (t : MemTableNode) (x : LsmEntry) (q : Bytes)
        → AllUnder x.key (entries t)
        → Below x.key q
        → AllUnder q (entries t ++ x ∷ [])
    through t x q u b = last (entries t) x q u b
      where
        last :
            (xs : List LsmEntry) (z : LsmEntry) (q : Bytes)
            → AllUnder z.key xs
            → Below z.key q
            → AllUnder q (xs ++ z ∷ [])
        last [] z q u b = (b, tt)
        last (x ∷ xs) z q u b = (Below-trans x.key z.key q u.0 b, last xs z q u.1 b)

    at_head :
        (k : Bytes) (x : LsmEntry) (ys : List LsmEntry) → k ≡ x.key → some x ≡ first k (x ∷ ys)
    at_head k x ys q = unfold first in rw (ap (str_eq x.key) q ∙ str_eq_refl x.key) refl
