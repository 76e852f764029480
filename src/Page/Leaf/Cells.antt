-- ===== src/Page/Leaf/Cells.antt =====
-- The cells of a leaf after an insertion (src/btree.c).
use inventixdb.Base.{
  ℕ, zero, suc, ◌+◌, ◌<◌, ◌≤◌, ◌≡◌, ◌≢◌, refl, ap, subst, ◌∙◌, dec_lt, arith, Bytes, length, load,
  store, load-store_same, load-store_after, load-store_before, length-store, length-load,
}
use inventixdb.Page.Leaf.{header_size, cell_size, cell_offset, shift_cells}

abbrev pub cell : Bytes → ℕ → Bytes
cell page i = load (cell_offset i) cell_size page

-- A write of one cell or a part of it changes no other cell, and not the header.
pub cell-store_other :
    (page bs : Bytes) (i j o : ℕ)
    → length page ≡ 4096
    → i ≤ 6
    → cell_offset i ≤ o
    → o + length bs ≤ cell_offset i + cell_size
    → i ≢ j
    → cell (store o bs page) j ≡ cell page j
cell-store_other page bs i j o len hi lo up ne = elim (dec_lt i j) [
  | yes lt ↦ load-store_after o (cell_offset j) cell_size bs page (omega arith) (omega arith)
  | no ge ↦ load-store_before o (cell_offset j) cell_size bs page (omega arith)
]

-- What the loop of `leaf_node_insert` has done after `k` rounds: the cells from `c` on, `k` of them,
-- stand one place further.
pub record Shifted (page : Bytes) (c k : ℕ) (page' : Bytes) : Type 0 where
  pub sized : length page' ≡ 4096
  pub header : (o n : ℕ) → o + n ≤ header_size → load o n page' ≡ load o n page
  pub before : (j : ℕ) → j ≤ c → cell page' j ≡ cell page j
  pub beyond : (j : ℕ) → c + k < j → cell page' j ≡ cell page j
  pub moved : (j : ℕ) → c ≤ j → j < c + k → cell page' (suc j) ≡ cell page j

pub shift_cells-Shifted :
    (c k : ℕ) (page : Bytes)
    → length page ≡ 4096
    → c + k ≤ 6
    → Shifted page c k (shift_cells c k page)
unfolding shift_cells
shift_cells-Shifted c zero page len h = record {
  sized = len;
  header = λ o n a. refl;
  before = λ j a. refl;
  beyond = λ j a. refl;
  moved = λ j a b. absurd (omega arith);
}
shift_cells-Shifted c (suc k) page len h =
    let rest = shift_cells-Shifted c k page1 sized1 (omega arith) in
    record {
      sized = rest.sized;
      header = λ o n a.
          rest.header o n a
          ∙ load-store_before (cell_offset (c + suc k)) o n copied page (omega arith);
      before = λ j a. rest.before j a ∙ untouched j (omega arith);
      beyond = λ j a. rest.beyond j (omega arith) ∙ untouched j (omega arith);
      moved = λ j a b. elim (dec_lt j (c + k)) [
        | yes lt ↦ rest.moved j a lt ∙ untouched j (omega arith)
        | no ge ↦
            let e : suc j ≡ c + suc k = omega arith in
            let e' : c + k ≡ j = omega arith in
            rest.beyond (suc j) (omega arith) ∙ ap (cell page1) e ∙ copied_cell ∙ ap (cell page) e'
      ];
    }
  where
    copied : Bytes
    copied = cell page (c + k)

    copied_size : length copied ≡ cell_size
    copied_size = length-load (cell_offset (c + k)) cell_size page (omega arith)

    page1 : Bytes
    page1 = store (cell_offset (c + suc k)) copied page

    sized1 : length page1 ≡ 4096
    sized1 = length-store (cell_offset (c + suc k)) copied page (omega (arith, copied_size)) ∙ len

    untouched : (j : ℕ) → c + suc k ≢ j → cell page1 j ≡ cell page j
    untouched j ne =
        cell-store_other page copied (c + suc k) j (cell_offset (c + suc k)) len h (omega arith)
          (omega (arith, copied_size)) ne

    copied_cell : cell page1 (c + suc k) ≡ copied
    copied_cell =
        subst (λ n. load (cell_offset (c + suc k)) n page1 ≡ copied) copied_size
          (load-store_same (cell_offset (c + suc k)) copied page (omega (arith, copied_size)))
