-- ===== src/Kv/Table/Map.antt =====
-- Without deletions the table of src/storage.c is a map: what `kv_put_internal` stores, `kv_get`
-- returns, and no other key changes.
use native.Mathlib.Nat.{mod-lt}
use inventixdb.Base.{
  ℕ, ◌<◌, ◌≡◌, ◌≢◌, refl, sym, subst, ◌∙◌, ap, ◌⊎◌, inl, inr, true, false, List, arith, Bytes,
  str_eq, str_eq_iff, length, length-set, get_or-set_self, get_or-set_ne, set, ℕ_discrete,
}
use inventixdb.Kv.Table.{
  Table, Entry, empty_entry, Value, Outcome, hit, vacant, full, spinning, occupied_entry, store_at,
  find, home, put_at, put_internal,
}
use inventixdb.Kv.Table.Walk.{
  Walk, meets, stops, Busy, Passed, slot, entry, find-Walk, find_of_Walk,
}

-- Every entry of the table is found where it stands.
pub record IsTable (t : Table) : Type 0 where
  pub sized : length t.entries ≡ t.capacity
  pub nonempty : 0 < t.capacity
  pub reachable :
      (p : ℕ)
      → p < t.capacity
      → (entry t.entries p).occupied ≡ true
      → find t.entries t.capacity (entry t.entries p).key ≡ hit p

pub hit-injective : {i p : ℕ} → hit i ≡ hit p → i ≡ p
hit-injective e = ground arith

-- What the loop knows of the entry that it found.
pub record Found (t : Table) (k : Bytes) (i : ℕ) : Type 0 where
  pub steps : ℕ
  pub steps_lt : steps < t.capacity
  pub place : i ≡ slot t.capacity (home t.capacity k) steps
  pub passed : Passed t.entries t.capacity k (home t.capacity k) steps
  pub in_range : i < t.capacity
  pub is_occupied : (entry t.entries i).occupied ≡ true
  pub is_key : (entry t.entries i).key ≡ k

hit_inversion :
    (t : Table) (k : Bytes) (i : ℕ)
    → Walk t.entries t.capacity k (home t.capacity k) (hit i)
    → Found t k i
hit_inversion t k i (meets d _ hd e p occ same) = record {
  steps = d;
  steps_lt = hd;
  place = e;
  passed = p;
  in_range = rw e (mod-lt _ (omega arith));
  is_occupied = occ;
  is_key = (str_eq_iff _ _).0 same;
}

pub find-Found :
    (t : Table) (k : Bytes) (i : ℕ)
    → 0 < t.capacity
    → find t.entries t.capacity k ≡ hit i
    → Found t k i
find-Found t k i h e =
    hit_inversion t k i (
      subst (Walk t.entries t.capacity k (home t.capacity k)) e
        (find-Walk t.entries t.capacity k h))

pub Found-find :
    (t : Table) (k : Bytes) (i : ℕ)
    → 0 < t.capacity
    → Found t k i
    → find t.entries t.capacity k ≡ hit i
Found-find t k i h f =
    find_of_Walk t.entries t.capacity k (hit i) h
      (meets f.steps i f.steps_lt f.place f.passed f.is_occupied ((str_eq_iff _ _).1 f.is_key))

-- The slot that `kv_put_internal` writes.
abbrev pub Lands : Table → Bytes → ℕ → Type 0
Lands t k i = (find t.entries t.capacity k ≡ hit i) ⊎ (find t.entries t.capacity k ≡ vacant i)

pub record Landing (t : Table) (k : Bytes) (i : ℕ) : Type 0 where
  pub steps : ℕ
  pub steps_lt : steps < t.capacity
  pub place : i ≡ slot t.capacity (home t.capacity k) steps
  pub passed : Passed t.entries t.capacity k (home t.capacity k) steps
  pub in_range : i < t.capacity
  pub not_busy : ¬ Busy t.entries k i

vacant_inversion :
    (t : Table) (k : Bytes) (i : ℕ)
    → Walk t.entries t.capacity k (home t.capacity k) (vacant i)
    → Landing t k i × ((entry t.entries i).occupied ≡ false)
vacant_inversion t k i (stops d _ hd e p free) = (
  record {
    steps = d;
    steps_lt = hd;
    place = e;
    passed = p;
    in_range = rw e (mod-lt _ (omega arith));
    not_busy = λ b. cc (b.0, free);
  },
  free,
)

pub vacant-Landing :
    (t : Table) (k : Bytes) (i : ℕ)
    → 0 < t.capacity
    → find t.entries t.capacity k ≡ vacant i
    → Landing t k i × ((entry t.entries i).occupied ≡ false)
vacant-Landing t k i h e =
    vacant_inversion t k i (
      subst (Walk t.entries t.capacity k (home t.capacity k)) e
        (find-Walk t.entries t.capacity k h))

pub Lands-Landing : (t : Table) (k : Bytes) (i : ℕ) → 0 < t.capacity → Lands t k i → Landing t k i
Lands-Landing t k i h (inl e) =
    let f = find-Found t k i h e in
    record {
      steps = f.steps;
      steps_lt = f.steps_lt;
      place = f.place;
      passed = f.passed;
      in_range = f.in_range;
      not_busy = λ b. cc (b.1, (str_eq_iff _ _).1 f.is_key);
    }
Lands-Landing t k i h (inr e) = (vacant-Landing t k i h e).0

-- An entry that a later lookup of `j` finds at `p` differs from the slot written for `k ≢ j`.
pub Lands-ne :
    (t : Table) (k j : Bytes) (i p : ℕ)
    → 0 < t.capacity
    → Lands t k i
    → (entry t.entries p).occupied ≡ true
    → (entry t.entries p).key ≡ j
    → k ≢ j
    → i ≢ p
Lands-ne t k j i p h (inl e) occ key ne same =
    ne (sym (find-Found t k i h e).is_key ∙ ap (λ s. (entry t.entries s).key) same ∙ key)
Lands-ne t k j i p h (inr e) occ key ne same =
    cc (ap (λ s. (entry t.entries s).occupied) same, (vacant-Landing t k i h e).1, occ)

-- Writing slot `i` leaves every other slot as it was.
pub entry-set_ne :
    (es : List Entry) (i p : ℕ) (e : Entry) → i ≢ p → entry (set es i e) p ≡ entry es p
entry-set_ne es i p e ne = get_or-set_ne es i p e _ ne

-- A walk that passed its slots passes them again if the written slot is not among them.
pub Passed-set :
    (es : List Entry) (cap : ℕ) (k : Bytes) (start n i : ℕ) (e : Entry)
    → ¬ Busy es k i
    → Passed es cap k start n
    → Passed (set es i e) cap k start n
Passed-set es cap k start n i e nb p d h =
    rw (entry-set_ne es i (slot cap start d) e (λ same. nb (rw same (p d h)))) (p d h)

-- Nor does it stop at the written slot, if that now holds another key.
pub Passed-store :
    (es : List Entry) (cap : ℕ) (j k : Bytes) (v : Value) (start n i : ℕ)
    → i < length es
    → str_eq k j ≡ false
    → Passed es cap j start n
    → Passed (set es i (occupied_entry k v)) cap j start n
Passed-store es cap j k v start n i hi ne p d h = elim (ℕ_discrete i (slot cap start d)) [
  | yes same ↦ rw (← same, get_or-set_self es i (occupied_entry k v) empty_entry hi) (refl, ne)
  | no other ↦ rw (entry-set_ne es i (slot cap start d) (occupied_entry k v) other) (p d h)
]

module _ (t : Table) (k : Bytes) (v : Value) (i : ℕ) (ok : IsTable t) (l : Lands t k i) where
  in_bounds : i < length t.entries
  in_bounds = rw (ok.sized) (Lands-Landing t k i ok.nonempty l).in_range

  pub store_self : entry (store_at t i k v).entries i ≡ occupied_entry k v
  store_self = get_or-set_self t.entries i (occupied_entry k v) empty_entry in_bounds

  pub store-find_self : find (store_at t i k v).entries t.capacity k ≡ hit i
  store-find_self =
      let s = Lands-Landing t k i ok.nonempty l in
      Found-find (store_at t i k v) k i ok.nonempty (record {
        steps = s.steps;
        steps_lt = s.steps_lt;
        place = s.place;
        passed = Passed-set t.entries t.capacity k _ s.steps i _ s.not_busy s.passed;
        in_range = s.in_range;
        is_occupied = rw store_self refl;
        is_key = rw store_self refl;
      })

  pub store-find_other :
      (j : Bytes) (p : ℕ)
      → k ≢ j
      → find t.entries t.capacity j ≡ hit p
      → find (store_at t i k v).entries t.capacity j ≡ hit p
  store-find_other j p ne e =
      let f = find-Found t j p ok.nonempty e in
      let apart = Lands-ne t k j i p ok.nonempty l f.is_occupied f.is_key ne in
      let same = entry-set_ne t.entries i p (occupied_entry k v) apart in
      Found-find (store_at t i k v) j p ok.nonempty (record {
        steps = f.steps;
        steps_lt = f.steps_lt;
        place = f.place;
        passed =
            Passed-store t.entries t.capacity j k v _ f.steps i in_bounds
              (ground (arith, (str_eq_iff k j).0)) f.passed;
        in_range = f.in_range;
        is_occupied = rw same f.is_occupied;
        is_key = rw same f.is_key;
      })

  -- The key is in no other slot.
  pub key_unique :
      (p : ℕ)
      → p < t.capacity
      → i ≢ p
      → (entry t.entries p).occupied ≡ true
      → k ≢ (entry t.entries p).key
  key_unique p hp other occ same =
      let old =
        subst (λ key. find t.entries t.capacity key ≡ hit p) (sym same) (ok.reachable p hp occ) in
      elim l [ inl e ↦ other (hit-injective (sym e ∙ old)) | inr e ↦ cc (e, old) ]

  store-reachable :
      (p : ℕ)
      → p < t.capacity
      → (entry (store_at t i k v).entries p).occupied ≡ true
      → find (store_at t i k v).entries t.capacity (entry (store_at t i k v).entries p).key ≡ hit p
  store-reachable p hp occ = elim (ℕ_discrete i p) [
    | yes same ↦
        subst
          (λ q.
            find (store_at t i k v).entries t.capacity (entry (store_at t i k v).entries q).key
            ≡ hit q)
          same (rw store_self store-find_self)
    | no other ↦
        let old = entry-set_ne t.entries i p (occupied_entry k v) other in
        let occ' = rw old at occ in
        rw old (store-find_other _ p (key_unique p hp other occ') (ok.reachable p hp occ'))
  ]

  pub store-IsTable : IsTable (store_at t i k v)
  store-IsTable = record {
    sized = length-set t.entries i _ ∙ ok.sized;
    nonempty = ok.nonempty;
    reachable = store-reachable;
  }

-- `kv_put_internal` leaves the table, or writes the slot where its loop ends.
pub put_cases {ℓ} :
    (t : Table) (k : Bytes) (v : Value) (P : Table → Type ℓ)
    → P t
    → ((i : ℕ) → Lands t k i → P (store_at t i k v))
    → P (put_internal t k v)
unfolding put_internal
put_cases t k v P skip write = go (find t.entries t.capacity k) refl
  where
    go : (o : Outcome) → find t.entries t.capacity k ≡ o → P (put_at t k v o)
    go (hit i) e = write i (inl e)
    go (vacant i) e = write i (inr e)
    go full e = skip
    go spinning e = skip

-- `kv_put_internal` keeps every entry of the table reachable.
pub put_internal-IsTable :
    (t : Table) (k : Bytes) (v : Value) → IsTable t → IsTable (put_internal t k v)
put_internal-IsTable t k v ok = put_cases t k v IsTable ok (λ i l. store-IsTable t k v i ok l)
