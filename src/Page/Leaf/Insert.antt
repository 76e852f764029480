-- ===== src/Page/Leaf/Insert.antt =====
-- What `leaf_node_insert` of src/btree.c makes of a leaf.
use inventixdb.Base.{
  ℕ, suc, ◌+◌, ◌-◌, ◌^◌, ◌<◌, ◌≤◌, ◌≡◌, ◌≢◌, sym, ap, subst, ◌∙◌, false, some, arith, Bytes, ltb,
  leb, Bool-cases, if◌then◌else◌, inl, inr, dec_lt, length, load, take, le_bytes, from_le,
  length-le_bytes, from_le-le_bytes, load-store_same, load-store_after, load-store_before,
  length-store, take-load, ltb→lt,
}
use inventixdb.Page.Leaf.{
  key_size, row_size, cell_size, max_cells, cell_offset, num_cells_offset, num_cells, set_num_cells,
  key_at, set_key, set_value, shift_cells, leaf_insert,
}
use inventixdb.Page.Leaf.Cells.{cell, Shifted, shift_cells-Shifted, cell-store_other}
use inventixdb.Page.Leaf.Search.{IsSorted, IsPlace}

-- A whole page with room, and a place among its cells.
pub record IsLeaf (page : Bytes) (c : ℕ) : Type 0 where
  pub whole : length page ≡ 4096
  pub room : num_cells page < max_cells
  pub place : c ≤ num_cells page

-- `page'` is `page` with the key and the row as cell `c`.
pub record Inserted (page : Bytes) (c key : ℕ) (row page' : Bytes) : Type 0 where
  pub sized : length page' ≡ 4096
  pub count : num_cells page' ≡ num_cells page + 1
  pub header : load 0 num_cells_offset page' ≡ load 0 num_cells_offset page
  pub key_here : key_at page' c ≡ key
  pub row_here : load (cell_offset c + key_size) row_size page' ≡ row
  pub before : (j : ℕ) → j < c → cell page' j ≡ cell page j
  pub behind : (j : ℕ) → c ≤ j → j < num_cells page → cell page' (suc j) ≡ cell page j

-- The three writes that follow the loop.
module _ (page shifted : Bytes) (c key : ℕ) (row : Bytes) (leaf : IsLeaf page c)
    (small : key < 2 ^ 32) (fits : length row ≡ row_size)
    (s : Shifted page c (num_cells page - c) shifted) where
  counted : Bytes
  counted = set_num_cells shifted (num_cells page + 1)

  keyed : Bytes
  keyed = set_key counted c key

  final : Bytes
  final = set_value keyed c row

  counted_sized : length counted ≡ 4096
  unfolding counted
  counted_sized =
      length-store 6 (le_bytes 4 (num_cells page + 1)) shifted
        (omega (arith, s.sized, length-le_bytes 4 (num_cells page + 1)))
      ∙ s.sized

  keyed_sized : length keyed ≡ 4096
  unfolding keyed
  keyed_sized =
      length-store (cell_offset c) (le_bytes 4 key) counted
        (omega (arith, counted_sized, length-le_bytes 4 key, leaf.room, leaf.place))
      ∙ counted_sized

  final_sized : length final ≡ 4096
  unfolding final
  final_sized =
      length-store (cell_offset c + key_size) row keyed
        (omega (arith, keyed_sized, fits, leaf.room, leaf.place))
      ∙ keyed_sized

  cell-counted : (j : ℕ) → cell counted j ≡ cell shifted j
  unfolding counted
  cell-counted j =
      load-store_after 6 (cell_offset j) cell_size (le_bytes 4 (num_cells page + 1)) shifted
        (omega (arith, length-le_bytes 4 (num_cells page + 1)))
        (omega (arith, s.sized, length-le_bytes 4 (num_cells page + 1)))

  -- Only cell `c` is written.
  cell-final : (j : ℕ) → c ≢ j → cell final j ≡ cell shifted j
  unfolding final keyed
  cell-final j ne =
      cell-store_other keyed row c j (cell_offset c + key_size) keyed_sized (omega arith)
        (omega arith) (omega (arith, fits)) ne
      ∙ cell-store_other counted (le_bytes 4 key) c j (cell_offset c) counted_sized (omega arith)
          (omega arith) (omega (arith, length-le_bytes 4 key)) ne
      ∙ cell-counted j

  -- The header before the count is not written, and the count is.
  header-final : load 0 num_cells_offset final ≡ load 0 num_cells_offset page
  unfolding final keyed counted
  header-final =
      load-store_before (cell_offset c + key_size) 0 6 row keyed (omega arith)
      ∙ load-store_before (cell_offset c) 0 6 (le_bytes 4 key) counted (omega arith)
      ∙ load-store_before 6 0 6 (le_bytes 4 (num_cells page + 1)) shifted (omega arith)
      ∙ s.header 0 6 (omega arith)

  count-final : num_cells final ≡ num_cells page + 1
  unfolding final keyed counted
  count-final =
      ap from_le (
        load-store_before (cell_offset c + key_size) 6 4 row keyed (omega arith)
        ∙ load-store_before (cell_offset c) 6 4 (le_bytes 4 key) counted (omega arith)
        ∙ subst (λ n. load 6 n counted ≡ le_bytes 4 (num_cells page + 1))
            (length-le_bytes 4 (num_cells page + 1))
            (load-store_same 6 (le_bytes 4 (num_cells page + 1)) shifted
              (omega (arith, s.sized, length-le_bytes 4 (num_cells page + 1)))))
      ∙ from_le-le_bytes 4 (num_cells page + 1) (omega (arith, leaf.room))

  key-final : key_at final c ≡ key
  unfolding final keyed
  key-final =
      ap from_le (
        load-store_before (cell_offset c + key_size) (cell_offset c) 4 row keyed (omega arith)
        ∙ subst (λ n. load (cell_offset c) n keyed ≡ le_bytes 4 key) (length-le_bytes 4 key)
            (load-store_same (cell_offset c) (le_bytes 4 key) counted
              (omega (arith, counted_sized, length-le_bytes 4 key, leaf.room, leaf.place))))
      ∙ from_le-le_bytes 4 key small

  row-final : load (cell_offset c + key_size) row_size final ≡ row
  unfolding final
  row-final =
      subst (λ n. load (cell_offset c + key_size) n final ≡ row) fits
        (load-store_same (cell_offset c + key_size) row keyed
          (omega (arith, keyed_sized, fits, leaf.room, leaf.place)))

  final-Inserted : Inserted page c key row final
  final-Inserted = record {
    sized = final_sized;
    count = count-final;
    header = header-final;
    key_here = key-final;
    row_here = row-final;
    before = λ j a. cell-final j (λ e. omega arith) ∙ s.before j (omega arith);
    behind =
        λ j a b. cell-final (suc j) (λ e. omega arith) ∙ s.moved j a (omega (arith, leaf.place));
  }

made_room :
    (page : Bytes) (c : ℕ)
    → IsLeaf page c
    → Shifted page c
        (num_cells page - c)
        (if ltb c (num_cells page) then shift_cells c (num_cells page - c) page else page)
unfolding shift_cells
made_room page c leaf = elim (Bool-cases (ltb c (num_cells page))) [
  | inl below ↦ rw below (
      shift_cells-Shifted c (num_cells page - c) page leaf.whole
        (omega (arith, leaf.room, leaf.place, ltb→lt _ _ below)))
  | inr at_end ↦
      let none_left : 0 ≡ num_cells page - c = ground (arith, leaf.place) in
      rw at_end (
        subst (λ k. Shifted page c k page) none_left
          (shift_cells-Shifted c 0 page leaf.whole (omega (arith, leaf.room, leaf.place))))
]

-- A leaf with room takes the key and the row as cell `c`: the cells before it stay, those behind it
-- move on by one place, the count rises by one, and the bytes before the count stay.
pub leaf_insert_lem :
    (page : Bytes) (c key : ℕ) (row : Bytes)
    → IsLeaf page c
    → key < 2 ^ 32
    → length row ≡ row_size
    → (page' : Bytes) × (leaf_insert page c key row ≡ some page') × Inserted page c key row page'
unfolding leaf_insert final keyed counted
leaf_insert_lem page c key row leaf small fits =
    let room : leb max_cells (num_cells page) ≡ false = ground (arith, leaf.room) in
    let shifted =
      if ltb c (num_cells page) then shift_cells c (num_cells page - c) page else page in
    (
      set_value (set_key (set_num_cells shifted (num_cells page + 1)) c key) c row,
      rw (room, leaf_insert),
      final-Inserted page shifted c key row leaf small fits (made_room page c leaf),
    )

-- Equal cells have equal keys.
key_of_cell : (p q : Bytes) (i j : ℕ) → cell p i ≡ cell q j → key_at p i ≡ key_at q j
key_of_cell p q i j e = ap from_le (
    sym (take-load (cell_offset i) 4 cell_size p (omega arith))
    ∙ ap (take 4) e
    ∙ take-load (cell_offset j) 4 cell_size q (omega arith))

module _ (page page' : Bytes) (c key : ℕ) (row : Bytes) (ins : Inserted page c key row page') where
  key_before : (j : ℕ) → j < c → key_at page' j ≡ key_at page j
  key_before j h = key_of_cell page' page j j (ins.before j h)

  key_behind : (j : ℕ) → c < j → j < num_cells page + 1 → key_at page' j ≡ key_at page (j - 1)
  key_behind j a b =
      let e : suc (j - 1) ≡ j = omega arith in
      subst (λ k. key_at page' k ≡ key_at page (j - 1)) e
        (key_of_cell page' page (suc (j - 1)) (j - 1)
          (ins.behind (j - 1) (omega arith) (omega arith)))

  -- A new key at its place leaves the keys rising.
  pub insert-IsSorted :
      IsSorted page (num_cells page)
      → IsPlace page (num_cells page) key c
      → (c < num_cells page → key_at page c ≢ key)
      → IsSorted page' (num_cells page')
  insert-IsSorted sorted place new i j ij jn = elim (dec_lt i c) [
    | yes ic ↦ elim (dec_lt j c) [
      | yes jc ↦
          omega
            (arith, key_before i ic, key_before j jc, sorted i j ij (omega (arith, place.in_range)))
      | no ge ↦ omega (
        arith,
        key_before i ic,
        place.before i ic,
        from_place j (omega arith) (omega (arith, ins.count)),
      )
    ]
    | no after ↦ elim (dec_lt c i) [
      | yes ci ↦ omega (
        arith,
        key_behind i ci (omega (arith, ins.count)),
        key_behind j (omega arith) (omega (arith, ins.count)),
        sorted (i - 1) (j - 1) (omega arith) (omega (arith, ins.count)),
      )
      | no ge ↦
          let here : key_at page' i ≡ key =
            let e : c ≡ i = omega arith in subst (λ k. key_at page' k ≡ key) e ins.key_here in
          omega (
            arith,
            here,
            key_behind j (omega arith) (omega (arith, ins.count)),
            above (j - 1) (omega arith) (omega (arith, ins.count)),
          )
    ]
  ]
    where
      strict : c < num_cells page → key < key_at page c
      strict h = omega (arith, place.behind c (omega arith) h, new h)

      above : (m : ℕ) → c ≤ m → m < num_cells page → key < key_at page m
      above m a b = elim (dec_lt c m) [
        | yes cm ↦ omega (arith, strict (omega arith), sorted c m cm b)
        | no ge ↦
            let e : c ≡ m = omega arith in subst (λ k. key < key_at page k) e (strict (omega arith))
      ]

      from_place : (m : ℕ) → c ≤ m → m < num_cells page + 1 → key ≤ key_at page' m
      from_place m a b = elim (dec_lt c m) [
        | yes cm ↦ omega (arith, key_behind m cm b, above (m - 1) (omega arith) (omega arith))
        | no ge ↦
            let e : c ≡ m = omega arith in
            subst (λ k. key ≤ key_at page' k) e (omega (arith, ins.key_here))
      ]

  -- A key that the leaf already has is stored a second time, in the next cell, with one cell more.
  pub insert_duplicate :
      c < num_cells page
      → key_at page c ≡ key
      → (key_at page' c ≡ key_at page' (suc c))
        × (num_cells page' ≡ num_cells page + 1)
        × ¬ IsSorted page' (num_cells page')
  insert_duplicate present same =
      let twice : key_at page' c ≡ key_at page' (suc c) =
        ins.key_here
        ∙ sym (key_of_cell page' page (suc c) c (ins.behind c (omega arith) present) ∙ same) in
      (
        twice,
        ins.count,
        λ sorted. omega (arith, sorted c (suc c) (omega arith) (omega (arith, ins.count))),
      )
