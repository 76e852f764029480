-- ===== src/Page/BTable/Ops.antt =====
-- What an insertion into a leaf of the buffer pool (`leaf_node_insert` of src/btree.c) does to the
-- pages.
use inventixdb.Base.{
  ℕ, ◌-◌, ◌^◌, ◌<◌, ◌≤◌, none, leb, dec_lt, ◌≡◌, ◌≢◌, refl, ap, ◌∙◌, ◌⊎◌, inl, inr, true, some,
  arith, Bytes, length,
}
use inventixdb.Page.Pager.{table_max_pages}
use inventixdb.Page.Pool.{BufferPool, Frame, frame, no_page, get_page, update, unpin}
use inventixdb.Page.Pool.Inv.{IsPool, content, page_bytes, index_of_at, frame_outside}
use inventixdb.Page.Pool.Get.{Got, IsStuck, get_page_lem}
use inventixdb.Page.Leaf.{row_size, leaf_insert, max_cells, num_cells}
use inventixdb.Page.Pool.Keep.{same_page-content, same_page-IsPool}
use inventixdb.Page.Leaf.Insert.{Inserted}
use inventixdb.Page.BTable.{BTable, leaf_node_insert}
use inventixdb.Page.BTable.Write.{update_page_at, pinned_page-some, leaf_node_insert_room}

leaf_insert_full :
    (page : Bytes) (c key : ℕ) (row : Bytes)
    → max_cells ≤ num_cells page
    → leaf_insert page c key row ≡ none
unfolding leaf_insert
leaf_insert_full page c key row full =
    let no_room : leb max_cells (num_cells page) ≡ true = ground arith in
    rw (no_room, leaf_insert) refl

-- The frame once a full leaf was looked at
abbrev released_frame : BufferPool → ℕ → Frame
released_frame b i = record (frame b.frames i) { pin_count = (frame b.frames i).pin_count - 1 }

leaf_node_insert_full :
    (t : BTable) (p c key : ℕ) (row garbage : Bytes) (i : ℕ)
    → (get_page t.pool p garbage).1 ≡ some i
    → Got t.pool p (get_page t.pool p garbage).0 i
    → max_cells ≤ num_cells (content t.pool p)
    → p < table_max_pages
    → leaf_node_insert t p c key row garbage
      ≡ some (record t {
        pool =
            update (get_page t.pool p garbage).0 i (released_frame (get_page t.pool p garbage).0 i);
      })
unfolding leaf_node_insert unpin
leaf_node_insert_full t p c key row garbage i e got full small =
    let b = (get_page t.pool p garbage).0 in
    let found = index_of_at b i p got.keeps.valid got.is_id (λ z. omega arith) in
    let refused : leaf_insert (page_bytes (frame b.frames i).page) c key row ≡ none =
      ap (λ o. leaf_insert (page_bytes o) c key row) got.page
      ∙ leaf_insert_full (content t.pool p) c key row full in
    rw (pinned_page-some t.pool p i garbage e, refused, leaf_node_insert)
      (ap (λ (pool : BufferPool). some (record t { pool = pool }))
        (update_page_at b p i (λ f. record f { pin_count = f.pin_count - 1 }) found))

-- What an insertion leaves of the pages: the row is in the leaf, and no other page changed; or the leaf
-- was full, and no page changed.
pub record Placed (b : BufferPool) (p c key : ℕ) (row : Bytes) (b' : BufferPool) : Type 0 where
  pub valid : IsPool b'
  pub page :
      ((num_cells (content b p) < max_cells) × Inserted (content b p) c key row (content b' p))
      ⊎ ((max_cells ≤ num_cells (content b p)) × (content b' p ≡ content b p))
  pub others : (q : ℕ) → q < table_max_pages → p ≢ q → content b' q ≡ content b q

-- The pool is valid, the page is in range and stands for a whole leaf, the cursor is at most its number
-- of cells, the key is below `2 ^ 32` and the row has its size. Then either the row goes into the leaf
-- at the cursor as `leaf_insert` puts it there, if the leaf is not full, or a full leaf is left as it
-- is, without the row; in both cases every other page of the pool stands for the same bytes as before,
-- and the pool is valid. Or every slot of the pool is taken by a page that cannot be evicted.
pub leaf_node_insert_lem :
    (t : BTable) (p c key : ℕ) (row garbage : Bytes)
    → IsPool t.pool
    → p < table_max_pages
    → length (content t.pool p) ≡ 4096
    → c ≤ num_cells (content t.pool p)
    → key < 2 ^ 32
    → length row ≡ row_size
    → IsStuck t.pool
      ⊎ ((t' : BTable) × (leaf_node_insert t p c key row garbage ≡ some t')
          × Placed t.pool p c key row t'.pool)
leaf_node_insert_lem t p c key row garbage ok small whole place hk hr =
    elim (dec_lt (num_cells (content t.pool p)) max_cells) [
      | yes room ↦
          elim (leaf_node_insert_room t p c key row garbage ok small
            (record { whole = whole; room = room; place = place }) hk hr) [
              | inl stuck ↦ inl stuck
              | inr (t', e, valid, ins, others) ↦
                  inr (t', e, record { valid = valid; page = inl (room, ins); others = others })
            ]
      | no full ↦ elim (get_page_lem t.pool p garbage ok small) [
        | inl (e, stuck, k) ↦ inl stuck
        | inr (i, e, got) ↦ inr (
          _,
          leaf_node_insert_full t p c key row garbage i e got (omega arith) small,
          left_alone i got (omega arith),
        )
      ]
    ]
  where
    left_alone :
        (i : ℕ)
        → Got t.pool p (get_page t.pool p garbage).0 i
        → max_cells ≤ num_cells (content t.pool p)
        → Placed t.pool p c key row (
            update (get_page t.pool p garbage).0 i (released_frame (get_page t.pool p garbage).0 i))
    left_alone i got full =
        let b = (get_page t.pool p garbage).0 in
        let used : (frame b.frames i).page_id ≢ no_page = λ z. omega (arith, got.is_id) in
        let hi = frame_outside b.frames i used in
        let f = released_frame b i in
        let same = same_page-content b i f hi got.keeps.valid used refl refl (λ d. d) in
        record {
          valid = same_page-IsPool b i f hi got.keeps.valid used refl refl (λ d. d);
          page = inr (full, same p ∙ got.keeps.contents p small);
          others = λ q hq ne. same q ∙ got.keeps.contents q hq;
        }
