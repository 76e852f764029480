-- ===== src/Kv/Table/Lookup.antt =====
-- Lookups after a write: `kv_get` against `kv_put_internal` of src/storage.c.
use native.Mathlib.Nat.{mod-lt, mod-eq_of_lt}
use inventixdb.Base.{
  get_or-replicate, length-replicate, ℕ, ◌+◌, ◌-◌, ◌<◌, ◌≡◌, ◌≢◌, refl, sym, subst, ◌∙◌, ap, ◌⊎◌,
  inl, inr, false, none, some, arith, Bytes, Option-cases, ℕ_discrete, dec_lt,
}
use inventixdb.Kv.Table.{
  fresh, Entry, empty_entry, Table, Value, Outcome, hit, vacant, full, spinning, store_at,
  occupied_entry, find, put_at, put_internal, get_at, get_internal, home,
}
use inventixdb.Kv.Table.Walk.{Walk, circles, slot, entry, slot_round, find-Walk}
use inventixdb.Kv.Table.Map.{
  IsTable, Lands, find-Found, put_cases, store_self, store-find_self, store-find_other,
  entry-set_ne, vacant-Landing, Lands-ne,
}

-- The slots hold the value under the key.
pub record Holds (t : Table) (k : Bytes) (v : Value) : Type 0 where
  pub at : ℕ
  pub found : find t.entries t.capacity k ≡ hit at
  pub holds : (entry t.entries at).val ≡ v

pub get-Holds : (t : Table) (k : Bytes) (v : Value) → get_internal t k ≡ some v → Holds t k v
unfolding get_internal
get-Holds t k v = go (find t.entries t.capacity k) refl
  where
    go : (o : Outcome) → find t.entries t.capacity k ≡ o → get_at t.entries o ≡ some v → Holds t k v
    go (hit i) e g = record { at = i; found = e; holds = ground arith }
    go (vacant i) e g = cc
    go full e g = cc
    go spinning e g = cc

pub Holds-get : (t : Table) (k : Bytes) (v : Value) → Holds t k v → get_internal t k ≡ some v
unfolding get_internal
Holds-get t k v h = rw (h.found, h.holds)

-- Every slot lies on the walk from every start.
slot_reached : (cap h p : ℕ) → h < cap → p < cap → (d : ℕ) × (d < cap) × (slot cap h d ≡ p)
slot_reached cap h p hh hp = elim (dec_lt p h) [
  | yes lt ↦ (p + cap - h, omega arith, wrapped lt)
  | no ge ↦ (p - h, omega arith, direct ge)
]
  where
    wrapped : p < h → slot cap h (p + cap - h) ≡ p
    wrapped lt = let e : h + (p + cap - h) ≡ p + cap = omega arith in rw e (slot_round cap p hp)

    direct : ¬ (p < h) → slot cap h (p - h) ≡ p
    direct ge = let e : h + (p - h) ≡ p = omega arith in rw e (mod-eq_of_lt hp)

circle_has_no_free :
    (t : Table) (k : Bytes) (p : ℕ)
    → p < t.capacity
    → (entry t.entries p).occupied ≡ false
    → ¬ Walk t.entries t.capacity k (home t.capacity k) full
circle_has_no_free t k p hp free (circles all) =
    let (d, hd, e) = slot_reached t.capacity (home t.capacity k) p (mod-lt _ (omega arith)) hp in
    cc (rw e at (all d hd).0, free)

-- The loop ends before its fuel does.
spinning_is_no-Walk :
    (t : Table) (k : Bytes) → ¬ Walk t.entries t.capacity k (home t.capacity k) spinning
spinning_is_no-Walk t k w = elim w [ ]

pub find-ne-spinning :
    (t : Table) (k : Bytes) → 0 < t.capacity → find t.entries t.capacity k ≢ spinning
find-ne-spinning t k h e =
    spinning_is_no-Walk t k (
      subst (Walk t.entries t.capacity k (home t.capacity k)) e
        (find-Walk t.entries t.capacity k h))

-- A value that a lookup finds after a write to another key was there before.
old_value :
    (t : Table) (k j : Bytes) (v w : Value) (i : ℕ)
    → IsTable t
    → Lands t k i
    → k ≢ j
    → Holds (store_at t i k v) j w
    → Holds t j w
old_value t k j v w i ok l ne h =
    let f = find-Found (store_at t i k v) j h.at ok.nonempty h.found in
    elim (ℕ_discrete i h.at) [
      | yes same ↦ absurd (
          ne (
            ap (λ e. e.key) (sym (store_self t k v i ok l))
            ∙ ap (λ p. (entry (store_at t i k v).entries p).key) same
            ∙ f.is_key))
      | no other ↦
          let old = entry-set_ne t.entries i h.at (occupied_entry k v) other in
          record {
            at = h.at;
            found =
                subst (λ key. find t.entries t.capacity key ≡ hit h.at) (rw old at f.is_key)
                  (ok.reachable h.at f.in_range (rw old at f.is_occupied));
            holds = rw old at h.holds;
          }
    ]

-- In a table in which every occupied entry is found by its key, as it is before the first deletion, a
-- write changes the lookup of no other key, whether or not the table has room for it.
pub get-put_other :
    (t : Table) (k j : Bytes) (v : Value)
    → IsTable t
    → k ≢ j
    → get_internal (put_internal t k v) j ≡ get_internal t j
get-put_other t k j v ok ne =
    put_cases t k v (λ u. get_internal u j ≡ get_internal t j) refl
      (λ i l.
        same_lookup i l (Option-cases (get_internal t j))
          (Option-cases (get_internal (store_at t i k v) j)))
  where
    same_lookup :
        (i : ℕ)
        → Lands t k i
        → (get_internal t j ≡ none) ⊎ ((w : Value) × (get_internal t j ≡ some w))
        → (get_internal (store_at t i k v) j ≡ none)
          ⊎ ((w : Value) × (get_internal (store_at t i k v) j ≡ some w))
        → get_internal (store_at t i k v) j ≡ get_internal t j
    same_lookup i l (inl e) (inl e') = e' ∙ sym e
    same_lookup i l (inl e) (inr (w, e')) =
        cc (e, Holds-get t j w (old_value t k j v w i ok l ne (get-Holds _ j w e')))
    same_lookup i l (inr (w, e)) o =
        let h = get-Holds t j w e in
        let f = find-Found t j h.at ok.nonempty h.found in
        let apart = Lands-ne t k j i h.at ok.nonempty l f.is_occupied f.is_key ne in
        let kept = entry-set_ne t.entries i h.at (occupied_entry k v) apart in
        Holds-get (store_at t i k v) j w (record {
          at = h.at;
          found = store-find_other t k v i ok l j h.at ne h.found;
          holds = rw kept h.holds;
        })
        ∙ sym e

-- The loop of `kv_put_internal` for the key ends at a slot: the key is stored, or a slot is free.
abbrev pub HasRoom : Table → Bytes → Type 0
HasRoom t k =
    (get_internal t k ≢ none)
    ⊎ ((p : ℕ) × (p < t.capacity) × ((entry t.entries p).occupied ≡ false))

-- A walk round a table that has room for the key does not come back to its start.
HasRoom-find :
    (t : Table) (k : Bytes) → 0 < t.capacity → HasRoom t k → find t.entries t.capacity k ≢ full
unfolding get_internal
HasRoom-find t k h (inl present) e = present (rw (e, get_at))
HasRoom-find t k h (inr (p, hp, free)) e =
    circle_has_no_free t k p hp free (
      subst (Walk t.entries t.capacity k (home t.capacity k)) e
        (find-Walk t.entries t.capacity k h))

-- In a table in which every occupied entry is found by its key, as it is before the first deletion, and
-- which has the key or a free slot, the value just written is what a lookup of the key returns.
pub get-put_self :
    (t : Table) (k : Bytes) (v : Value)
    → IsTable t
    → HasRoom t k
    → get_internal (put_internal t k v) k ≡ some v
unfolding put_internal
get-put_self t k v ok room = go (find t.entries t.capacity k) refl
  where
    written : (i : ℕ) → Lands t k i → get_internal (store_at t i k v) k ≡ some v
    written i l = Holds-get (store_at t i k v) k v (record {
      at = i;
      found = store-find_self t k v i ok l;
      holds = ap (λ e. e.val) (store_self t k v i ok l);
    })

    go : (o : Outcome) → find t.entries t.capacity k ≡ o → get_internal (put_at t k v o) k ≡ some v
    go (hit i) e = written i (inl e)
    go (vacant i) e = written i (inr e)
    go full e = absurd (HasRoom-find t k ok.nonempty room e)
    go spinning e = absurd (find-ne-spinning t k ok.nonempty e)

-- Without room the write is dropped: the table is left as it was.
pub put_full :
    (t : Table) (k : Bytes) (v : Value) → IsTable t → ¬ HasRoom t k → put_internal t k v ≡ t
unfolding put_internal get_internal
put_full t k v ok none_left = go (find t.entries t.capacity k) refl
  where
    go : (o : Outcome) → find t.entries t.capacity k ≡ o → put_at t k v o ≡ t
    go (hit i) e = absurd (none_left (inl (rw e (λ n. cc n))))
    go (vacant i) e =
        let (l, free) = vacant-Landing t k i ok.nonempty e in
        absurd (none_left (inr (i, l.in_range, free)))
    go full e = refl
    go spinning e = refl

find_fresh_free : (cap i : ℕ) → (entry (fresh cap).entries i).occupied ≡ false
unfolding fresh
find_fresh_free cap i = ap (λ (e : Entry). e.occupied) (get_or-replicate cap i empty_entry)

-- The table that `kv_create` allocates is valid, and holds nothing.
pub fresh-IsTable : (cap : ℕ) → 0 < cap → IsTable (fresh cap)
unfolding fresh
fresh-IsTable cap h = record {
  sized = length-replicate cap empty_entry;
  nonempty = h;
  reachable = λ p hp occ. cc (occ, find_fresh_free cap p);
}
