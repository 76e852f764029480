-- ===== src/Kv/Table/Delete.antt =====
-- `kv_delete` of src/storage.c frees the entry's slot and leaves no mark there, so a later probe
-- stops at it: the deletion is right for the key itself, and loses the entries behind the slot.
use native.Mathlib.Nat.{mod-lt, mod-add-mod}
use inventixdb.Base.{
  ℕ, suc, ◌-◌, ◌%◌, ◌<◌, ◌≡◌, ◌≢◌, refl, sym, subst, ◌∙◌, ap, ◌⊎◌, inl, inr, false, none, some,
  arith, Bytes, Option-cases, get_or-set_self, ℕ_discrete, str_eq_iff,
}
use inventixdb.Kv.Table.{
  Table, Entry, empty_entry, Value, Outcome, hit, vacant, full, spinning, vacate, find, delete_at,
  delete_internal, get_internal, home,
}
use inventixdb.Kv.Table.Walk.{stops, Passed, slot, entry, slot-ne, find_of_Walk}
use inventixdb.Kv.Table.Map.{IsTable, find-Found, Found-find, Passed-set, entry-set_ne}
use inventixdb.Kv.Table.Lookup.{Holds, get-Holds, Holds-get}

-- Different numbers of steps below the capacity lead to different slots.
slot_later : (cap h a b : ℕ) → h < cap → a < b → b < cap → slot cap h b ≢ slot cap h a
slot_later cap h a b hh ab hb e =
    slot-ne cap (slot cap h a) (b - a) (mod-lt _ (omega arith)) (omega arith) (omega arith)
      (mod-add-mod _ _ _ ∙ ap (λ t. t % cap) (omega arith) ∙ e)

-- The lookup of `j` passes slot `i`.
pub record Passes (t : Table) (j : Bytes) (i : ℕ) : Type 0 where
  pub depth : ℕ
  pub depth_lt : depth < t.capacity
  pub place : i ≡ slot t.capacity (home t.capacity j) depth
  pub passed : Passed t.entries t.capacity j (home t.capacity j) (suc depth)

-- The table once slot `i` is vacated.
abbrev freed : Table → ℕ → Table
freed t i = record t { entries = vacate t.entries i }

module _ (t : Table) (k : Bytes) (i : ℕ) (ok : IsTable t)
    (e : find t.entries t.capacity k ≡ hit i) where
  freed_slot : (entry (freed t i).entries i).occupied ≡ false
  freed_slot =
      ap (λ (x : Entry). x.occupied)
        (get_or-set_self t.entries i (record (entry t.entries i) { occupied = false }) empty_entry
          (rw (ok.sized) (find-Found t k i ok.nonempty e).in_range))

  freed_other : (p : ℕ) → i ≢ p → entry (freed t i).entries p ≡ entry t.entries p
  freed_other p ne = entry-set_ne t.entries i p _ ne

  -- The lookup of the key stops where its entry was.
  find-freed_self : find (freed t i).entries t.capacity k ≡ vacant i
  find-freed_self =
      let f = find-Found t k i ok.nonempty e in
      find_of_Walk (freed t i).entries t.capacity k (vacant i) ok.nonempty (
        stops f.steps i f.steps_lt f.place
          (Passed-set t.entries t.capacity k _ f.steps i _
            (λ b. cc (b.1, (str_eq_iff _ _).1 f.is_key)) f.passed)
          freed_slot)

  -- So does the lookup of every key that passed the slot.
  find-freed_behind : (j : Bytes) → Passes t j i → find (freed t i).entries t.capacity j ≡ vacant i
  find-freed_behind j b =
      find_of_Walk (freed t i).entries t.capacity j (vacant i) ok.nonempty
        (stops b.depth i b.depth_lt b.place before freed_slot)
    where
      before : Passed (freed t i).entries t.capacity j (home t.capacity j) b.depth
      before d h =
          let ne : i ≢ slot t.capacity (home t.capacity j) d = λ same.
            slot_later t.capacity (home t.capacity j) d b.depth (mod-lt _ ok.nonempty) h b.depth_lt
              (sym b.place ∙ same) in
          rw (freed_other (slot t.capacity (home t.capacity j) d) ne) (b.passed d (omega arith))

  -- The lookup of any other key that was found is not disturbed.
  find-freed_elsewhere :
      (j : Bytes) (p : ℕ)
      → k ≢ j
      → ¬ Passes t j i
      → find t.entries t.capacity j ≡ hit p
      → find (freed t i).entries t.capacity j ≡ hit p
  find-freed_elsewhere j p ne clear found =
      let f = find-Found t j p ok.nonempty found in
      let own = find-Found t k i ok.nonempty e in
      let apart : i ≢ p =
        λ same. ne (sym own.is_key ∙ ap (λ q. (entry t.entries q).key) same ∙ f.is_key) in
      Found-find (freed t i) j p ok.nonempty (record {
        steps = f.steps;
        steps_lt = f.steps_lt;
        place = f.place;
        passed = λ d h.
            rw
              (freed_other (slot t.capacity (home t.capacity j) d) (λ same. clear (record {
                depth = d;
                depth_lt = omega arith;
                place = same;
                passed = λ d' h'. f.passed d' (omega arith);
              })))
              (f.passed d h);
        in_range = f.in_range;
        is_occupied = rw (freed_other p apart) f.is_occupied;
        is_key = rw (freed_other p apart) f.is_key;
      })

  -- A key found after the deletion was found before it.
  Holds-freed : (j : Bytes) (w : Value) → Holds (freed t i) j w → Holds t j w
  Holds-freed j w h =
      let f = find-Found (freed t i) j h.at ok.nonempty h.found in
      elim (ℕ_discrete i h.at) [
        | yes same ↦
            cc (ap (λ p. (entry (freed t i).entries p).occupied) same, freed_slot, f.is_occupied)
        | no other ↦
            let old = freed_other h.at other in
            record {
              at = h.at;
              found =
                  subst (λ key. find t.entries t.capacity key ≡ hit h.at) (rw old at f.is_key)
                    (ok.reachable h.at f.in_range (rw old at f.is_occupied));
              holds = rw old at h.holds;
            }
      ]

-- What `kv_delete` leaves of a table in which its loop ends at `o`.
deleted :
    (t : Table) (k : Bytes) (o : Outcome)
    → find t.entries t.capacity k ≡ o
    → delete_internal t k ≡ delete_at t o
unfolding delete_internal
deleted t k o e = rw e

-- After a deletion the key is not found.
pub get-delete_self :
    (t : Table) (k : Bytes) → IsTable t → get_internal (delete_internal t k) k ≡ none
unfolding get_internal delete_internal
get-delete_self t k ok = go (find t.entries t.capacity k) refl
  where
    go : (o : Outcome) → find t.entries t.capacity k ≡ o → get_internal (delete_at t o) k ≡ none
    go (hit i) e = rw (find-freed_self t k i ok e)
    go (vacant i) e = rw e
    go full e = rw e
    go spinning e = rw e

-- In a table in which every occupied entry is found by its key, as it is before the first deletion, the
-- deletion of a key does not change the lookup of another key that does not pass the freed slot; a key
-- that is not found is deleted without any effect on other keys.
pub get-delete_other :
    (t : Table) (k j : Bytes)
    → IsTable t
    → k ≢ j
    → ((i : ℕ) → find t.entries t.capacity k ≡ hit i → ¬ Passes t j i)
    → get_internal (delete_internal t k) j ≡ get_internal t j
unfolding delete_internal
get-delete_other t k j ok ne clear = go (find t.entries t.capacity k) refl
  where
    kept :
        (i : ℕ)
        → find t.entries t.capacity k ≡ hit i
        → (get_internal t j ≡ none) ⊎ ((w : Value) × (get_internal t j ≡ some w))
        → (get_internal (freed t i) j ≡ none)
          ⊎ ((w : Value) × (get_internal (freed t i) j ≡ some w))
        → get_internal (freed t i) j ≡ get_internal t j
    kept i e (inl a) (inl b) = b ∙ sym a
    kept i e (inl a) (inr (w, b)) =
        cc (a, Holds-get t j w (Holds-freed t k i ok e j w (get-Holds (freed t i) j w b)))
    kept i e (inr (w, a)) b =
        let h = get-Holds t j w a in
        let f = find-Found t j h.at ok.nonempty h.found in
        let own = find-Found t k i ok.nonempty e in
        let apart : i ≢ h.at =
          λ same. ne (sym own.is_key ∙ ap (λ q. (entry t.entries q).key) same ∙ f.is_key) in
        Holds-get (freed t i) j w (record {
          at = h.at;
          found = find-freed_elsewhere t k i ok e j h.at ne (clear i e) h.found;
          holds = rw (freed_other t k i ok e h.at apart) h.holds;
        })
        ∙ sym a

    go :
        (o : Outcome)
        → find t.entries t.capacity k ≡ o
        → get_internal (delete_at t o) j ≡ get_internal t j
    go (hit i) e =
        kept i e (Option-cases (get_internal t j)) (Option-cases (get_internal (freed t i) j))
    go (vacant i) e = refl
    go full e = refl
    go spinning e = refl

-- In a table in which every occupied entry is found by its key, the deletion of a key makes every
-- other key unfindable that was found and whose lookup passes the freed slot, although its entry is
-- still in the table.
pub delete_hides :
    (t : Table) (k j : Bytes) (i p : ℕ)
    → IsTable t
    → k ≢ j
    → find t.entries t.capacity k ≡ hit i
    → find t.entries t.capacity j ≡ hit p
    → Passes t j i
    → (get_internal (delete_internal t k) j ≡ none)
      × (entry (delete_internal t k).entries p ≡ entry t.entries p)
      × ((entry t.entries p).key ≡ j)
unfolding get_internal delete_internal
delete_hides t k j i p ok ne e found b =
    let f = find-Found t j p ok.nonempty found in
    let own = find-Found t k i ok.nonempty e in
    let apart : i ≢ p =
      λ same. ne (sym own.is_key ∙ ap (λ q. (entry t.entries q).key) same ∙ f.is_key) in
    (
      rw (e, delete_at, find-freed_behind t k i ok e j b),
      rw e (freed_other t k i ok e p apart),
      f.is_key,
    )
