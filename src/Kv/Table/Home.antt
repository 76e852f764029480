-- ===== src/Kv/Table/Home.antt =====
-- A table of src/storage.c in which some keys meet no other key at their home slots: there put, get
-- and delete are those of a map.
use native.Mathlib.Nat.{mod-lt}
use inventixdb.Base.{
  ℕ, ◌+◌, ◌%◌, ◌<◌, ◌≡◌, ◌≢◌, refl, sym, subst, ◌∙◌, ap, inl, inr, true, false, Option, none, some,
  arith, Bytes, str_eq, str_eq_iff, Bool-cases, length, length-set, get_or-set_self, get_or-set_ne,
  set, if◌then◌else◌, ℕ_discrete,
}
use inventixdb.Kv.Table.{
  Table, Entry, empty_entry, Value, hit, vacant, find, home, occupied_entry, store_at, vacate,
  put_at, put_internal, get_at, get_internal, delete_at, delete_internal,
}
use inventixdb.Kv.Table.Walk.{meets, stops, slot_home, entry, find_of_Walk}

-- The keys have different home slots, and no other key is in them.
pub record IsHome (Key : Bytes → Type 0) (t : Table) : Type 0 where
  pub sized : length t.entries ≡ t.capacity
  pub nonempty : 0 < t.capacity
  pub apart : (j k : Bytes) → Key j → Key k → home t.capacity j ≡ home t.capacity k → j ≡ k
  pub at_home :
      (k : Bytes)
      → Key k
      → (entry t.entries (home t.capacity k)).occupied ≡ true
      → (entry t.entries (home t.capacity k)).key ≡ k

-- The value in the home slot
abbrev home_value : Table → Bytes → Option Value
home_value t k =
    let e = entry t.entries (home t.capacity k) in if e.occupied then some e.val else none

module _ (Key : Bytes → Type 0) (t : Table) (ok : IsHome Key t) (k : Bytes) (is_key : Key k) where
  abbrev place : ℕ
  place = home t.capacity k

  in_bounds : place < length t.entries
  in_bounds = rw (ok.sized) (mod-lt _ ok.nonempty)

  at_place : place ≡ (place + 0) % t.capacity
  at_place = sym (slot_home t.capacity place (mod-lt _ ok.nonempty))

  find-hit : (entry t.entries place).occupied ≡ true → find t.entries t.capacity k ≡ hit place
  find-hit occ = find_of_Walk t.entries t.capacity k (hit place) ok.nonempty (
      meets 0 place ok.nonempty at_place (λ d h. absurd (omega arith)) occ
        ((str_eq_iff _ _).1 (ok.at_home k is_key occ)))

  find-vacant :
      (entry t.entries place).occupied ≡ false → find t.entries t.capacity k ≡ vacant place
  find-vacant free =
      find_of_Walk t.entries t.capacity k (vacant place) ok.nonempty
        (stops 0 place ok.nonempty at_place (λ d h. absurd (omega arith)) free)

  get-home : get_internal t k ≡ home_value t k
  unfolding get_internal
  get-home = elim (Bool-cases (entry t.entries place).occupied) [
    | inl occ ↦ rw (find-hit occ, occ, get_at) refl
    | inr free ↦ rw (find-vacant free, free, get_at) refl
  ]

  put-home : (v : Value) → put_internal t k v ≡ store_at t place k v
  unfolding put_internal
  put-home v = elim (Bool-cases (entry t.entries place).occupied) [
    | inl occ ↦ rw (find-hit occ, put_at) refl
    | inr free ↦ rw (find-vacant free, put_at) refl
  ]

  delete-hit :
      (entry t.entries place).occupied ≡ true
      → delete_internal t k ≡ record t { entries = vacate t.entries place }
  unfolding delete_internal
  delete-hit occ = rw (find-hit occ, delete_at) refl

  delete-vacant : (entry t.entries place).occupied ≡ false → delete_internal t k ≡ t
  unfolding delete_internal
  delete-vacant free = rw (find-vacant free, delete_at) refl

  store_self : (e : Entry) → entry (set t.entries place e) place ≡ e
  store_self e = get_or-set_self t.entries place e empty_entry in_bounds

  other_place : (j : Bytes) → Key j → str_eq k j ≡ false → place ≢ home t.capacity j
  other_place j hj ne same = cc (ne, (str_eq_iff k j).1 (ok.apart k j is_key hj same))

  -- A change of the home slot that leaves the key, or nothing, there
  changed-IsHome :
      (e : Entry) (n : ℕ)
      → (e.occupied ≡ true → e.key ≡ k)
      → IsHome Key (record t { entries = set t.entries place e; count = n })
  changed-IsHome e n own = record {
    sized = length-set t.entries place e ∙ ok.sized;
    nonempty = ok.nonempty;
    apart = ok.apart;
    at_home = λ j hj occ. elim (ℕ_discrete place (home t.capacity j)) [
      | yes same ↦
          let here : entry (set t.entries place e) (home t.capacity j) ≡ e =
            ap (entry (set t.entries place e)) (sym same) ∙ store_self e in
          ap (λ (x : Entry). x.key) here
          ∙ own (sym (ap (λ (x : Entry). x.occupied) here) ∙ occ)
          ∙ ok.apart k j is_key hj same
      | no ne ↦
          let kept = get_or-set_ne t.entries place (home t.capacity j) e empty_entry ne in
          ap (λ (x : Entry). x.key) kept
          ∙ ok.at_home j hj (sym (ap (λ (x : Entry). x.occupied) kept) ∙ occ)
    ];
  }

-- Put keeps the table so.
pub put-IsHome :
    (Key : Bytes → Type 0) (t : Table) (k : Bytes) (v : Value)
    → IsHome Key t
    → Key k
    → IsHome Key (put_internal t k v)
put-IsHome Key t k v ok h =
    subst (IsHome Key) (sym (put-home Key t ok k h v))
      (changed-IsHome Key t ok k h (occupied_entry k v) (t.count + 1) (λ e. refl))

-- So does delete.
pub delete-IsHome :
    (Key : Bytes → Type 0) (t : Table) (k : Bytes)
    → IsHome Key t
    → Key k
    → IsHome Key (delete_internal t k)
delete-IsHome Key t k ok h = elim (Bool-cases (entry t.entries (home t.capacity k)).occupied) [
  | inl occ ↦
      subst (IsHome Key) (sym (delete-hit Key t ok k h occ))
        (changed-IsHome Key t ok k h _ t.count (λ e. cc e))
  | inr free ↦ subst (IsHome Key) (sym (delete-vacant Key t ok k h free)) ok
]

-- What a lookup finds after a put
pub get-put_home :
    (Key : Bytes → Type 0) (t : Table) (k : Bytes) (v : Value) (j : Bytes)
    → IsHome Key t
    → Key k
    → Key j
    → get_internal (put_internal t k v) j ≡ (if str_eq k j then some v else get_internal t j)
get-put_home Key t k v j ok hk hj =
    get-home Key (put_internal t k v) (put-IsHome Key t k v ok hk) j hj
    ∙ ap (λ u. home_value u j) (put-home Key t ok k hk v)
    ∙ shown
    ∙ ap (λ o. if str_eq k j then some v else o) (sym (get-home Key t ok j hj))
  where
    shown :
        home_value (store_at t (home t.capacity k) k v) j
        ≡ (if str_eq k j then some v else home_value t j)
    shown = elim (Bool-cases (str_eq k j)) [
      | inl same ↦
          let at : k ≡ j = (str_eq_iff k j).0 same in
          rw same (
            ap (home_value (store_at t (home t.capacity k) k v)) (sym at)
            ∙ ap (λ (e : Entry). if e.occupied then some e.val else none)
                (store_self Key t ok k hk (occupied_entry k v)))
      | inr ne ↦ rw ne (
          ap (λ (e : Entry). if e.occupied then some e.val else none)
            (get_or-set_ne t.entries (home t.capacity k) (home t.capacity j) (occupied_entry k v)
              empty_entry (other_place Key t ok k hk j hj ne)))
    ]

-- What a lookup finds after a deletion
pub get-delete_home :
    (Key : Bytes → Type 0) (t : Table) (k j : Bytes)
    → IsHome Key t
    → Key k
    → Key j
    → get_internal (delete_internal t k) j ≡ (if str_eq k j then none else get_internal t j)
get-delete_home Key t k j ok hk hj =
    get-home Key (delete_internal t k) (delete-IsHome Key t k ok hk) j hj
    ∙ shown
    ∙ ap (λ o. if str_eq k j then none else o) (sym (get-home Key t ok j hj))
  where
    own : home_value (delete_internal t k) k ≡ none
    own = elim (Bool-cases (entry t.entries (home t.capacity k)).occupied) [
      | inl occ ↦
          ap (λ u. home_value u k) (delete-hit Key t ok k hk occ)
          ∙ ap (λ (e : Entry). if e.occupied then some e.val else none)
              (store_self Key t ok k hk
                (record (entry t.entries (home t.capacity k)) { occupied = false }))
      | inr free ↦ ap (λ u. home_value u k) (delete-vacant Key t ok k hk free) ∙ rw free refl
    ]

    other : str_eq k j ≡ false → home_value (delete_internal t k) j ≡ home_value t j
    other ne = elim (Bool-cases (entry t.entries (home t.capacity k)).occupied) [
      | inl occ ↦
          ap (λ u. home_value u j) (delete-hit Key t ok k hk occ)
          ∙ ap (λ (e : Entry). if e.occupied then some e.val else none)
              (get_or-set_ne t.entries (home t.capacity k) (home t.capacity j) _ empty_entry
                (other_place Key t ok k hk j hj ne))
      | inr free ↦ ap (λ u. home_value u j) (delete-vacant Key t ok k hk free)
    ]

    shown : home_value (delete_internal t k) j ≡ (if str_eq k j then none else home_value t j)
    shown = elim (Bool-cases (str_eq k j)) [
      | inl same ↦
          rw same (ap (home_value (delete_internal t k)) (sym ((str_eq_iff k j).0 same)) ∙ own)
      | inr ne ↦ rw ne (other ne)
    ]
