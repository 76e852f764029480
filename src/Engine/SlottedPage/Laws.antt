-- ===== src/Engine/SlottedPage/Laws.antt =====
-- The operations of a slotted page (src/storage_engine.c) on a page in order, on every branch.
use inventixdb.Base.{
  ℕ, ◌+◌, ◌*◌, ◌<◌, ◌≤◌, ◌≡◌, ◌⊎◌, inl, inr, refl, sym, ap, ◌∙◌, false, Option, none, some, arith,
  Bytes, Bool-cases, ltb, leb, ◌==◌, if◌then◌else◌, length,
}
use inventixdb.Engine.SlottedPage.{
  SlottedPage, page_size, max_slot_count, slotted_page_free_space, free_slot, make_room, place,
  place_free, slotted_page_insert, slotted_page_get, slotted_page_compact,
}
use inventixdb.Engine.SlottedPage.Slots.{total, free_slot_lem}
use inventixdb.Engine.SlottedPage.Inv.{IsPage, Puts, free_space_lem, place_lem}
use inventixdb.Engine.SlottedPage.Compact.{compact-Compacts}

-- A page in order, with the same slots and the same records
pub record Keeps (p q : SlottedPage) : Type 0 where
  pub kept : IsPage q
  pub count : length q.slots ≡ length p.slots
  pub sum : total q.slots ≡ total p.slots
  pub reads : (j : ℕ) → slotted_page_get q j ≡ slotted_page_get p j

pub make_room_lem :
    (temp : Bytes) (needed : ℕ) (p : SlottedPage)
    → length temp ≡ page_size
    → IsPage p
    → Keeps p (make_room temp needed p)
      × ((needed ≤ slotted_page_free_space (make_room temp needed p))
          ⊎ (page_size < needed + total p.slots + (20 + 4 * length p.slots)))
unfolding make_room
make_room_lem temp needed p buffer ok = elim (Bool-cases (ltb (slotted_page_free_space p) needed)) [
  | inl tight ↦
      let c = compact-Compacts temp p buffer ok in
      let k : Keeps p (slotted_page_compact temp p) = record {
        kept = c.0.kept;
        count = c.0.count;
        sum = c.0.sum;
        reads = c.0.reads;
      } in
      elim (Bool-cases (leb needed (slotted_page_free_space (slotted_page_compact temp p)))) [
        | inl room ↦ rw (tight) (k, inl (ground arith))
        | inr full ↦
            let less : slotted_page_free_space (slotted_page_compact temp p) < needed =
              ground arith in
            rw (tight) (k, inr (omega (arith, less, c.1)))
      ]
  | inr room ↦
      rw (room)
        (record { kept = ok; count = refl; sum = refl; reads = λ j. refl }, inl (ground arith))
]

pub no_room : {A : Type 0} {n f : ℕ} → f < n → (n ≤ f) ⊎ A → A
no_room h (inl k) = absurd (omega arith)
no_room h (inr a) = a

-- What an insertion ends with: the record in a slot that held none, or the page as it was to all
-- readers, because its records leave no room or 256 slots are in use.
abbrev pub Inserted : SlottedPage → Bytes → SlottedPage × Option ℕ → Type 0
Inserted p bytes (q, some i) = Puts p q i (some bytes) × (slotted_page_get p i ≡ none)
Inserted p bytes (q, none) =
    Keeps p q
    × ((max_slot_count ≤ free_slot q.slots)
        ⊎ (page_size < length bytes + 4 + total p.slots + (20 + 4 * length p.slots)))

through : (p q r : SlottedPage) (i : ℕ) (v : Option Bytes) → Keeps p q → Puts q r i v → Puts p r i v
through p q r i v k u = record {
  kept = u.kept;
  reads = λ j. u.reads j ∙ ap (λ o. if i == j then v else o) (k.reads j);
}

place_free_lem :
    (p q : SlottedPage) (bytes : Bytes)
    → 0 < length bytes
    → Keeps p q
    → length bytes + 4 ≤ slotted_page_free_space q
    → Inserted p bytes (place_free bytes q)
unfolding place_free slotted_page_get
place_free_lem p q bytes more k room =
    let f = free_slot_lem q.memory q.slots in
    let s = free_space_lem q k.kept in
    elim (Bool-cases (leb max_slot_count (free_slot q.slots))) [
      | inl full ↦ rw (full) (k, inl (ground arith))
      | inr slot ↦ rw (slot) (
        through p q (place (free_slot q.slots) bytes q) (free_slot q.slots) (some bytes) k (
            place_lem q (free_slot q.slots) bytes k.kept f.0 (ground arith) more
              (ground (arith, s, room))),
        sym (k.reads (free_slot q.slots)) ∙ f.1,
      )
    ]

pub insert-Inserted :
    (temp : Bytes) (p : SlottedPage) (bytes : Bytes)
    → length temp ≡ page_size
    → IsPage p
    → 0 < length bytes
    → Inserted p bytes (slotted_page_insert temp p bytes)
unfolding slotted_page_insert
insert-Inserted temp p bytes buffer ok more =
    let some_bytes : (length bytes == 0) ≡ false = ground arith in
    let m = make_room_lem temp (length bytes + 4) p buffer ok in
    let q = make_room temp (length bytes + 4) p in
    elim (Bool-cases (ltb (slotted_page_free_space q) (length bytes + 4))) [
      | inl full ↦
          let less : slotted_page_free_space q < length bytes + 4 = ground arith in
          rw (some_bytes, full) (m.0, inr (no_room less m.1))
      | inr room ↦ rw (some_bytes, room) (place_free_lem p q bytes more m.0 (ground arith))
    ]
