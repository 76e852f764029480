-- ===== src/Page/Tests.antt =====
-- Runs of the page layer (src/pager.c, src/buffer_pool.c), and the theorems at such inputs.
use inventixdb.Base.{
  ℕ, zero, suc, ◌+◌, ◌<◌, subst, ◌∙◌, true, ◌≡◌, ◌≢◌, ◌⊎◌, refl, [], ◌∷◌, none, some, arith, Bytes,
  replicate, length-replicate, get_or-replicate, ap, length, store, load, from_le, le_bytes,
}
use inventixdb.Page.Pager.{pager_open, pager_read}
use inventixdb.Page.Pool.{
  BufferPool, Frame, frame, empty_frame, no_page, buffer_pool_init, get_page, flush_all, close,
  lru_scan, max_time, index_of,
}
use inventixdb.Page.Pool.Inv.{IsPool, Held, content}
use inventixdb.Page.Pool.Get.{Outcome, IsStuck, get_page_lem}
use inventixdb.Page.Leaf.{leaf_node_init, num_cells, key_at, leaf_insert, search}
use inventixdb.Page.Leaf.Search.{IsSorted, IsPlace, search_lem}
use inventixdb.Page.Leaf.Insert.{IsLeaf, Inserted, leaf_insert_lem, insert-IsSorted}
use inventixdb.Page.BTable.{BTable, leaf_node_insert}
use inventixdb.Page.BTable.Ops.{Placed, leaf_node_insert_lem}
use inventixdb.Page.Pool.Flush.{content-close}

init_frame : (file : Bytes) (i : ℕ) → frame (buffer_pool_init file).frames i ≡ empty_frame
unfolding buffer_pool_init
init_frame file i = get_or-replicate 10 i empty_frame

-- A pool that was just opened is valid.
init-IsPool : (file : Bytes) → IsPool (buffer_pool_init file)
init-IsPool file = record {
  distinct = λ i j e used. absurd (used (ap (λ (x : Frame). x.page_id) (init_frame file i)));
  held = λ i used. absurd (used (ap (λ (x : Frame). x.page_id) (init_frame file i)));
  free = λ i e. ap (λ (x : Frame). x.pin_count) (init_frame file i);
}

abbrev full_page : Bytes
full_page = replicate 4096 7

get_page_lem_example : Outcome (buffer_pool_init []) 3 (get_page (buffer_pool_init []) 3 [])
get_page_lem_example = get_page_lem (buffer_pool_init []) 3 [] (init-IsPool []) (omega arith)

-- One changed page that the file does not have yet.
abbrev changed : Frame
changed = record {
  page = some full_page;
  page_id = 1;
  is_dirty = true;
  pin_count = 0;
  last_used = 4;
}

abbrev dirty_pool : BufferPool
dirty_pool = record { pager = pager_open []; frames = changed ∷ []; clock = 4 }

changed-Held : Held (pager_open []) changed
changed-Held = record {
  bytes = full_page;
  is_page = refl;
  whole = length-replicate {A = ℕ} 4096 7;
  id_lt = omega arith;
  clean = λ e. cc e;
}

dirty_distinct :
    (i j : ℕ)
    → (frame dirty_pool.frames i).page_id ≡ (frame dirty_pool.frames j).page_id
    → (frame dirty_pool.frames i).page_id ≢ no_page
    → i ≡ j
dirty_distinct zero zero e used = refl
dirty_distinct zero (suc j) e used = absurd (omega arith)
dirty_distinct (suc i) j e used = absurd (used refl)

dirty-Held :
    (i : ℕ)
    → (frame dirty_pool.frames i).page_id ≢ no_page
    → Held dirty_pool.pager (frame dirty_pool.frames i)
dirty-Held zero used = changed-Held
dirty-Held (suc i) used = absurd (used refl)

dirty_free :
    (i : ℕ)
    → (frame dirty_pool.frames i).page_id ≡ no_page
    → (frame dirty_pool.frames i).pin_count ≡ 0
dirty_free zero e = refl
dirty_free (suc i) e = refl

content-close_example :
    (pager_read (flush_all dirty_pool).pager 1 [] ≡ content dirty_pool 1)
    × (content (buffer_pool_init (close dirty_pool)) 1 ≡ content dirty_pool 1)
content-close_example =
    content-close dirty_pool 1
      (record { distinct = dirty_distinct; held = dirty-Held; free = dirty_free }) (omega arith)

evicts_oldest :
    lru_scan
      (record changed { last_used = 9 } ∷ record changed { pin_count = 1 } ∷ changed ∷ [])
      0
      max_time
      none
    ≡ some 2
unfolding lru_scan
evicts_oldest = refl

-- An empty leaf, and one and two rows with the key 5 in it.
abbrev leaf0 : Bytes
leaf0 = leaf_node_init (replicate 4096 0)

abbrev a_row : Bytes
a_row = replicate 512 7

leaf0_count : num_cells leaf0 ≡ 0
unfolding leaf_node_init store load from_le le_bytes
leaf0_count = refl

leaf0_whole : length leaf0 ≡ 4096
unfolding leaf_node_init store le_bytes
leaf0_whole = refl

leaf0-IsLeaf : IsLeaf leaf0 0
leaf0-IsLeaf = record {
  whole = leaf0_whole;
  room = omega (arith, leaf0_count);
  place = omega arith;
}

leaf0-IsSorted : IsSorted leaf0 (num_cells leaf0)
leaf0-IsSorted i j ij jn = absurd (omega (arith, leaf0_count))

leaf0-IsPlace : IsPlace leaf0 (num_cells leaf0) 5 0
leaf0-IsPlace = record {
  in_range = omega arith;
  before = λ i h. absurd (omega arith);
  behind = λ i a b. absurd (omega (arith, leaf0_count));
}

abbrev Filled : Type 0
Filled =
    (page' : Bytes) × (leaf_insert leaf0 0 5 a_row ≡ some page') × Inserted leaf0 0 5 a_row page'

first_fill : Filled
first_fill =
    leaf_insert_lem leaf0 0 5 a_row leaf0-IsLeaf (omega arith) (length-replicate {A = ℕ} 512 7)

-- The leaf with the key 5, and with the key 9 behind it
one_count : num_cells first_fill.0 ≡ 1
one_count = first_fill.2.count ∙ ap (λ n. n + 1) leaf0_count

one-IsPlace : IsPlace first_fill.0 (num_cells first_fill.0) 9 1
one-IsPlace = record {
  in_range = omega (arith, one_count);
  before = λ i h.
      let first : 0 ≡ i = omega arith in
      subst (λ n. key_at first_fill.0 n < 9) first (omega (arith, first_fill.2.key_here));
  behind = λ i a b. absurd (omega (arith, one_count));
}

two_keys :
    (page' : Bytes) × (leaf_insert first_fill.0 1 9 a_row ≡ some page')
    × Inserted first_fill.0 1 9 a_row page'
two_keys =
    leaf_insert_lem first_fill.0 1 9 a_row
      (record {
        whole = first_fill.2.sized;
        room = omega (arith, one_count);
        place = omega (arith, one_count);
      })
      (omega arith) (length-replicate {A = ℕ} 512 7)

two-IsSorted : IsSorted two_keys.0 (num_cells two_keys.0)
two-IsSorted =
    insert-IsSorted first_fill.0 two_keys.0 1 9 a_row two_keys.2
      (insert-IsSorted leaf0 first_fill.0 0 5 a_row first_fill.2 leaf0-IsSorted leaf0-IsPlace
        (λ h. absurd (omega (arith, leaf0_count))))
      one-IsPlace (λ h. absurd (omega (arith, one_count)))

search_lem_example :
    (c : ℕ) × (search (suc (num_cells two_keys.0)) two_keys.0 7 0 (num_cells two_keys.0) ≡ some c)
    × IsPlace two_keys.0 (num_cells two_keys.0) 7 c
search_lem_example =
    search_lem two_keys.0 7 two-IsSorted (omega (arith, two_keys.2.count, one_count))

leaf1-IsLeaf : IsLeaf first_fill.0 0
leaf1-IsLeaf = record {
  whole = first_fill.2.sized;
  room = omega (arith, first_fill.2.count, leaf0_count);
  place = omega arith;
}

second_fill :
    (page' : Bytes) × (leaf_insert first_fill.0 0 5 a_row ≡ some page')
    × Inserted first_fill.0 0 5 a_row page'
second_fill =
    leaf_insert_lem first_fill.0 0 5 a_row leaf1-IsLeaf (omega arith)
      (length-replicate {A = ℕ} 512 7)

-- A pool with that leaf as page 1.
abbrev leaf_frame : Frame
leaf_frame = record {
  page = some leaf0;
  page_id = 1;
  is_dirty = true;
  pin_count = 0;
  last_used = 4;
}

abbrev leaf_pool : BufferPool
leaf_pool = record { pager = pager_open []; frames = leaf_frame ∷ []; clock = 4 }

leaf_frame-Held : Held (pager_open []) leaf_frame
leaf_frame-Held = record {
  bytes = leaf0;
  is_page = refl;
  whole = leaf0_whole;
  id_lt = omega arith;
  clean = λ e. cc e;
}

leaf_distinct :
    (i j : ℕ)
    → (frame leaf_pool.frames i).page_id ≡ (frame leaf_pool.frames j).page_id
    → (frame leaf_pool.frames i).page_id ≢ no_page
    → i ≡ j
leaf_distinct zero zero e used = refl
leaf_distinct zero (suc j) e used = absurd (omega arith)
leaf_distinct (suc i) j e used = absurd (used refl)

leaf-Held :
    (i : ℕ)
    → (frame leaf_pool.frames i).page_id ≢ no_page
    → Held leaf_pool.pager (frame leaf_pool.frames i)
leaf-Held zero used = leaf_frame-Held
leaf-Held (suc i) used = absurd (used refl)

leaf_free :
    (i : ℕ)
    → (frame leaf_pool.frames i).page_id ≡ no_page
    → (frame leaf_pool.frames i).pin_count ≡ 0
leaf_free zero e = absurd (omega arith)
leaf_free (suc i) e = refl

leaf_pool-IsPool : IsPool leaf_pool
leaf_pool-IsPool = record { distinct = leaf_distinct; held = leaf-Held; free = leaf_free }

abbrev leaf_table : BTable
leaf_table = record { root_page_num = 1; pool = leaf_pool }

leaf_node_insert_lem_example :
    IsStuck leaf_pool
    ⊎ ((t' : BTable) × (leaf_node_insert leaf_table 1 0 5 a_row [] ≡ some t')
        × Placed leaf_pool 1 0 5 a_row t'.pool)
unfolding content index_of
leaf_node_insert_lem_example =
    leaf_node_insert_lem leaf_table 1 0 5 a_row [] leaf_pool-IsPool (omega arith) leaf0_whole
      (omega arith) (omega arith) (length-replicate {A = ℕ} 512 7)
