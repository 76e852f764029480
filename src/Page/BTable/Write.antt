-- ===== src/Page/BTable/Write.antt =====
-- The page that `leaf_node_insert` of src/btree.c writes, marks and unpins in the buffer pool.
use inventixdb.Base.{
  ℕ, ◌-◌, ◌^◌, ◌<◌, ◌≡◌, ◌≢◌, refl, sym, ap, subst, ◌∙◌, ◌⊎◌, inl, inr, true, false, some, List,
  if◌then◌else◌, arith, Bytes, ◌==◌, ==_iff, length, set, set-set, ℕ_discrete,
}
use inventixdb.Page.Pager.{table_max_pages, page_size}
use inventixdb.Page.Pool.{
  BufferPool, Frame, frame, no_page, index_of, get_page, update, update_page, unpin, mark_dirty,
}
use inventixdb.Page.Pool.Inv.{
  IsPool, Held, content, frame-set_self, index_of_at, index_of_same, frame_outside,
}
use inventixdb.Page.Pool.Replace.{replace-IsPool, replace-content_other, replace-content_new}
use inventixdb.Page.Pool.Get.{Got, IsStuck, get_page_lem}
use inventixdb.Page.Leaf.{row_size, leaf_insert}
use inventixdb.Page.Leaf.Insert.{IsLeaf, Inserted, leaf_insert_lem}
use inventixdb.Page.BTable.{BTable, pinned_page, write_page, leaf_node_insert}

pub update_page_at :
    (b : BufferPool) (id i : ℕ) (change : Frame → Frame)
    → index_of id b.frames ≡ some i
    → update_page b id change ≡ update b i (change (frame b.frames i))
unfolding update_page
update_page_at b id i change e = rw (e, update_page)

-- A change of the frame that was just written.
update_again :
    (b : BufferPool) (id i : ℕ) (f : Frame) (change : Frame → Frame)
    → i < length b.frames
    → f.page_id ≡ (frame b.frames i).page_id
    → index_of id b.frames ≡ some i
    → update_page (update b i f) id change ≡ update b i (change f)
update_again b id i f change hi same e =
    update_page_at (update b i f) id i change
      (index_of_same id b.frames i f (ap (λ t. t == id) same) ∙ e)
    ∙ ap (λ (fs : List Frame). record b { frames = fs })
        (ap (λ g. set (set b.frames i f) i (change g)) (frame-set_self b.frames i f hi)
          ∙ set-set b.frames i f (change f))

-- The frame once the page was written, marked and unpinned.
abbrev written_frame : BufferPool → ℕ → Bytes → Frame
written_frame b i page = record (frame b.frames i) {
  page = some page;
  is_dirty = true;
  pin_count = (frame b.frames i).pin_count - 1;
}

write_mark_unpin :
    (b : BufferPool) (id i : ℕ) (page : Bytes)
    → i < length b.frames
    → index_of id b.frames ≡ some i
    → unpin (mark_dirty (write_page b i page) id) id ≡ update b i (written_frame b i page)
unfolding unpin mark_dirty
write_mark_unpin b id i page hi e =
    ap (λ p. update_page p id (λ f. record f { pin_count = f.pin_count - 1 }))
      (update_again b id i _ (λ f. record f { is_dirty = true }) hi refl e)
    ∙ update_again b id i _ (λ f. record f { pin_count = f.pin_count - 1 }) hi refl e

-- A whole page is written to its pinned frame.
module _ (b : BufferPool) (id i : ℕ) (page : Bytes) (ok : IsPool b) (small : id < table_max_pages)
    (at : (frame b.frames i).page_id ≡ id) (whole : length page ≡ page_size) where
  used : (frame b.frames i).page_id ≢ no_page
  used z = omega arith

  in_pool : i < length b.frames
  in_pool = frame_outside b.frames i used

  own : Held b.pager (written_frame b i page)
  own = record {
    bytes = page;
    is_page = refl;
    whole = whole;
    id_lt = omega arith;
    clean = λ c. cc c;
  }

  written-IsPool : IsPool (update b i (written_frame b i page))
  written-IsPool =
      replace-IsPool b b.pager i (written_frame b i page) in_pool ok (λ j ne. ok.held j) (λ _. own)
        (λ z. absurd (used z)) (λ j ne e. absurd (ne (ok.distinct i j e used)))

  written-content :
      (q : ℕ)
      → content (update b i (written_frame b i page)) q ≡ (if id == q then page else content b q)
  written-content q = elim (ℕ_discrete id q) [
    | yes same ↦
        let test : (id == q) ≡ true = ground arith in
        rw test (
          subst (λ k. content (update b i (written_frame b i page)) k ≡ page) (at ∙ same)
            (replace-content_new b b.pager i (written_frame b i page) in_pool written-IsPool used))
    | no other ↦
        let test : (id == q) ≡ false = ground arith in
        rw test (
          replace-content_other b b.pager i (written_frame b i page) in_pool q
            (λ z. other (sym at ∙ z)) (λ z. other (sym at ∙ z)) refl)
  ]

if_same {ℓ} : {A : Type ℓ} (p : ℕ) (x y : A) → (if p == p then x else y) ≡ x
if_same p x y = rw ((==_iff p p).1 refl)

if_other {ℓ} : {A : Type ℓ} (p q : ℕ) (x y : A) → p ≢ q → (if p == q then x else y) ≡ y
if_other p q x y ne = let test : (p == q) ≡ false = ground arith in rw test

pub pinned_page-some :
    (b : BufferPool) (id i : ℕ) (garbage : Bytes)
    → (get_page b id garbage).1 ≡ some i
    → pinned_page b id garbage ≡ some ((get_page b id garbage).0, i)
unfolding pinned_page
pinned_page-some b id i garbage e = rw (e, pinned_page)

leaf_node_insert_at :
    (t : BTable) (p c key : ℕ) (row garbage : Bytes) (i : ℕ) (page : Bytes)
    → (get_page t.pool p garbage).1 ≡ some i
    → Got t.pool p (get_page t.pool p garbage).0 i
    → leaf_insert (content t.pool p) c key row ≡ some page
    → p < table_max_pages
    → leaf_node_insert t p c key row garbage
      ≡ some (record t {
        pool =
            update
              (get_page t.pool p garbage).0
              i
              (written_frame (get_page t.pool p garbage).0 i page);
      })
unfolding leaf_node_insert
leaf_node_insert_at t p c key row garbage i page e got e' small =
    let b = (get_page t.pool p garbage).0 in
    let hi = frame_outside b.frames i (λ z. omega (arith, got.is_id, z, small)) in
    let found = index_of_at b i p got.keeps.valid got.is_id (λ z. omega arith) in
    rw (pinned_page-some t.pool p i garbage e, got.page, e', leaf_node_insert)
      (ap (λ (pool : BufferPool). some (record t { pool = pool }))
        (write_mark_unpin b p i page hi found))

-- The insertion into a leaf with room
pub leaf_node_insert_room :
    (t : BTable) (p c key : ℕ) (row garbage : Bytes)
    → IsPool t.pool
    → p < table_max_pages
    → IsLeaf (content t.pool p) c
    → key < 2 ^ 32
    → length row ≡ row_size
    → IsStuck t.pool
      ⊎ ((t' : BTable) × (leaf_node_insert t p c key row garbage ≡ some t')
          × IsPool t'.pool
          × Inserted (content t.pool p) c key row (content t'.pool p)
          × ((q : ℕ) → q < table_max_pages → p ≢ q → content t'.pool q ≡ content t.pool q))
leaf_node_insert_room t p c key row garbage ok small leaf hk hr =
    elim (get_page_lem t.pool p garbage ok small) [
      | inl (e, stuck, k) ↦ inl stuck
      | inr (i, e, got) ↦
          let (page, e', ins) = leaf_insert_lem (content t.pool p) c key row leaf hk hr in
          let b = (get_page t.pool p garbage).0 in
          let k = got.keeps in
          let shown = written-content b p i page k.valid small got.is_id ins.sized in
          inr (
            record t { pool = update b i (written_frame b i page) },
            leaf_node_insert_at t p c key row garbage i page e got e' small,
            written-IsPool b p i page k.valid small got.is_id ins.sized,
            subst (Inserted (content t.pool p) c key row) (sym (shown p ∙ if_same p page _)) ins,
            λ q hq ne. shown q ∙ if_other p q page _ ne ∙ k.contents q hq,
          )
    ]
