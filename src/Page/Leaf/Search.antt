-- ===== src/Page/Leaf/Search.antt =====
-- The search loop of `table_find` in src/btree.c ends, at the place of the key.
use inventixdb.Base.{
  ℕ, zero, suc, ◌+◌, ◌/◌, ◌%◌, ◌^◌, ◌<◌, ◌≤◌, ◌≡◌, some, arith, Bytes, ltb, ltb→lt, ℕ_discrete,
  ◌==◌, Bool-cases, ==_iff, inl, inr,
}
use inventixdb.Page.Leaf.{search, num_cells, key_at}

-- The keys of the first `n` cells rise.
abbrev pub IsSorted : Bytes → ℕ → Type 0
IsSorted page n = (i j : ℕ) → i < j → j < n → key_at page i < key_at page j

-- The place of a key among the first `n` cells: the cells before it have smaller keys; the others
-- have larger ones, or the first of them has the key itself.
pub record IsPlace (page : Bytes) (n key c : ℕ) : Type 0 where
  pub in_range : c ≤ n
  pub before : (i : ℕ) → i < c → key_at page i < key
  pub behind : (i : ℕ) → c ≤ i → i < n → key ≤ key_at page i

search_fuel :
    (fuel : ℕ) (page : Bytes) (n key lo hi : ℕ)
    → IsSorted page n
    → n < 2 ^ 31
    → lo ≤ hi
    → hi ≤ n
    → hi < fuel + lo
    → ((i : ℕ) → i < lo → key_at page i < key)
    → ((i : ℕ) → hi ≤ i → i < n → key < key_at page i)
    → (c : ℕ) × (search fuel page key lo hi ≡ some c) × IsPlace page n key c
unfolding search
search_fuel zero page n key lo hi sorted small h hn hf below above = absurd (omega arith)
search_fuel (suc fuel) page n key lo hi sorted small h hn hf below above =
    elim (Bool-cases (hi == lo)) [
      | inl done ↦ (
        lo,
        rw done,
        record {
          in_range = omega arith;
          before = below;
          behind = λ i a b. omega (arith, above i (ground arith) b);
        },
      )
      | inr more ↦ elim (Bool-cases (key == key_at page mid)) [
        | inl here ↦ (
          mid,
          rw (more, here),
          record {
            in_range = ground arith;
            before = λ i a. at_left i (ground arith) (ground arith) a;
            behind = λ i a b.
                omega (arith, at_right i (ground arith) a b, (==_iff key (key_at page mid)).0 here);
          },
        )
        | inr differs ↦ elim (Bool-cases (ltb key (key_at page mid))) [
          | inl less ↦
              let (c, e, p) =
                search_fuel fuel page n key lo mid sorted small (ground arith) (ground arith)
                  (ground arith) below
                  (λ i a b. omega (arith, at_right i (ground arith) a b, ltb→lt _ _ less)) in
              (c, rw (more, differs, less) e, p)
          | inr more_than ↦
              let (c, e, p) =
                search_fuel fuel page n key (mid + 1) hi sorted small (ground arith) hn
                  (ground arith) (λ i a. at_or_left i (ground arith) (ground arith) (omega arith))
                  above in
              (c, rw (more, differs, more_than) e, p)
        ]
      ]
    ]
  where
    mid : ℕ
    mid = ((lo + hi) % 2 ^ 32) / 2

    at_left : (i : ℕ) → mid < n → key_at page mid ≡ key → i < mid → key_at page i < key
    at_left i hm e a = omega (arith, sorted i mid a hm)

    at_or_left : (i : ℕ) → mid < n → key_at page mid < key → i ≤ mid → key_at page i < key
    at_or_left i hm e a = elim (ℕ_discrete i mid) [
      | yes same ↦ rw same e
      | no other ↦ omega (arith, sorted i mid (omega arith) hm)
    ]

    at_right : (i : ℕ) → mid < n → mid ≤ i → i < n → key_at page mid ≤ key_at page i
    at_right i hm a b = elim (ℕ_discrete i mid) [
      | yes same ↦ rw same (omega arith)
      | no other ↦ omega (arith, sorted mid i (omega arith) b)
    ]

-- On a leaf with fewer than `2 ^ 31` cells whose keys strictly rise, so that none is there twice, the
-- search ends within one round more than the cells, at the place of the key: all cells before it have
-- smaller keys, and no cell from there on has a smaller one.
pub search_lem :
    (page : Bytes) (key : ℕ)
    → IsSorted page (num_cells page)
    → num_cells page < 2 ^ 31
    → (c : ℕ) × (search (suc (num_cells page)) page key 0 (num_cells page) ≡ some c)
      × IsPlace page (num_cells page) key c
search_lem page key sorted small =
    search_fuel _ page (num_cells page) key 0 (num_cells page) sorted small (omega arith)
      (omega arith) (omega arith) (λ i h. absurd (omega arith)) (λ i a b. absurd (omega arith))
