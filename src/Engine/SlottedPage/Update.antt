-- ===== src/Engine/SlottedPage/Update.antt =====
-- Deletion and update in a slotted page (src/storage_engine.c), on every branch.
use inventixdb.Base.{
  ℕ, ◌+◌, ◌*◌, ◌<◌, ◌≤◌, ◌≡◌, ◌≢◌, ◌⊎◌, inl, inr, refl, sym, ◌∙◌, Bool, true, false, Option, none,
  some, arith, Bytes, Bool-cases, Option-cases, ltb, leb, ◌==◌, if◌then◌else◌, length, get_elem?,
  load,
}
use inventixdb.Engine.SlottedPage.{
  SlotEntry, SlottedPage, page_size, slotted_page_free_space, make_room, place, slotted_page_get,
  slotted_page_delete, slotted_page_update, reinsert, read_slot, read_at, erase,
}
use inventixdb.Engine.SlottedPage.Slots.{total, get_inside, length-put_slot}
use inventixdb.Engine.SlottedPage.Inv.{
  IsPage, Puts, free_space_lem, place_lem, next_count, read_at-some, read_slot_live,
}
use inventixdb.Engine.SlottedPage.Shrink.{erase_lem, overwrite_lem}
use inventixdb.Engine.SlottedPage.Laws.{Keeps, make_room_lem, no_room}

-- What a deletion ends with: the slot now reads as deleted, or it held no record.
abbrev pub Deleted : SlottedPage → ℕ → SlottedPage × Bool → Type 0
Deleted p i (q, true) = Puts p q i none × (slotted_page_get p i ≢ none)
Deleted p i (q, false) = (q ≡ p) × (slotted_page_get p i ≡ none)

-- What an update ends with. When it fails on a record, the record is gone.
abbrev pub Updated : SlottedPage → ℕ → Bytes → SlottedPage × Bool → Type 0
Updated p i bytes (q, true) =
    Puts p q i (if length bytes == 0 then none else some bytes) × (slotted_page_get p i ≢ none)
Updated p i bytes (q, false) =
    ((q ≡ p) × (slotted_page_get p i ≡ none))
    ⊎ (Puts p q i none
        × (slotted_page_get p i ≢ none)
        × (page_size < length bytes + total q.slots + (20 + 4 * length q.slots)))

-- The slot of an index: none, of a deleted record, or of a live one
data SlotAt (p : SlottedPage) (i : ℕ) : Type 0 where
  outside : get_elem? p.slots i ≡ none → slotted_page_get p i ≡ none → SlotAt p i
  holds :
      (e : SlotEntry)
      → get_elem? p.slots i ≡ some e
      → (((e.len == 0) ≡ true) × (slotted_page_get p i ≡ none))
        ⊎ (((e.len == 0) ≡ false) × (slotted_page_get p i ≢ none))
      → SlotAt p i

slot_at : (p : SlottedPage) (i : ℕ) → SlotAt p i
unfolding slotted_page_get read_at read_slot
slot_at p i = elim (Option-cases (get_elem? p.slots i)) [
  | inl none_there ↦ outside none_there (rw (none_there, read_at) refl)
  | inr (e, at) ↦ elim (Bool-cases (e.len == 0)) [
    | inl deleted ↦
        holds e at
          (inl (deleted, read_at-some p.memory p.slots i e at ∙ rw (deleted, read_slot) refl))
    | inr live ↦
        let reads : slotted_page_get p i ≡ some (load e.offset e.len p.memory) =
          read_at-some p.memory p.slots i e at ∙ read_slot_live p.memory e (ground arith) in
        holds e at (inr (live, λ h. absurd (cc (sym reads ∙ h))))
  ]
]

delete_by :
    (p : SlottedPage) (i : ℕ) → IsPage p → SlotAt p i → Deleted p i (slotted_page_delete p i)
unfolding slotted_page_delete
delete_by p i ok (outside none_there h) = rw (none_there, slotted_page_delete) (refl, h)
delete_by p i ok (holds e at (inl d)) = rw (at, slotted_page_delete, d.0) (refl, d.1)
delete_by p i ok (holds e at (inr l)) =
    let live : 0 < e.len = ground (arith, l.0) in
    rw (at, slotted_page_delete, l.0) (erase_lem p i e ok at live, l.1)

-- A deletion on a page in order fails, with the page unchanged, exactly when the slot holds no record;
-- otherwise only this slot reads differently afterwards, as deleted, and the order is kept.
pub delete-Deleted : (p : SlottedPage) (i : ℕ) → IsPage p → Deleted p i (slotted_page_delete p i)
delete-Deleted p i ok = delete_by p i ok (slot_at p i)

Puts-Puts :
    (p q r : SlottedPage) (i : ℕ) (a b : Option Bytes) → Puts p q i a → Puts q r i b → Puts p r i b
Puts-Puts p q r i a b u v = record { kept = v.kept; reads = λ j. v.reads j ∙ inner j }
  where
    inner :
        (j : ℕ)
        → (if i == j then b else slotted_page_get q j)
          ≡ (if i == j then b else slotted_page_get p j)
    inner j = elim (Bool-cases (i == j)) [
      | inl here ↦ rw (here) refl
      | inr away ↦ rw (away) (u.reads j ∙ rw (away) refl)
    ]

after_keeping :
    (p q r : SlottedPage) (i : ℕ) (a : Option Bytes) → Puts p q i a → Keeps q r → Puts p r i a
after_keeping p q r i a u k = record { kept = k.kept; reads = λ j. k.reads j ∙ u.reads j }

reinsert_lem :
    (temp : Bytes) (p q : SlottedPage) (i : ℕ) (bytes : Bytes)
    → length temp ≡ page_size
    → Puts p q i none
    → i < length q.slots
    → 0 < length bytes
    → slotted_page_get p i ≢ none
    → Updated p i bytes (reinsert temp q i bytes)
unfolding reinsert
reinsert_lem temp p q i bytes buffer erased within more held =
    let some_bytes : (length bytes == 0) ≡ false = ground arith in
    let m = make_room_lem temp (length bytes) q buffer erased.kept in
    let r = make_room temp (length bytes) q in
    let u : Puts p r i none = after_keeping p q r i none erased m.0 in
    elim (Bool-cases (ltb (slotted_page_free_space r) (length bytes))) [
      | inl full ↦
          let less : slotted_page_free_space r < length bytes = ground arith in
          rw (full) (inr (u, held, omega (arith, no_room less m.1, m.0.sum, m.0.count)))
      | inr room ↦
          let inside : leb (length r.slots) i ≡ false = ground (arith, m.0.count) in
          let fits : length bytes + (20 + 4 * next_count (length r.slots) i) ≤ r.free_space_end =
            rw (inside) (ground (arith, free_space_lem r u.kept)) in
          rw (room, some_bytes)
            (
              Puts-Puts p r (place i bytes r) i none (some bytes) u (
                  place_lem r i bytes u.kept (omega (arith, m.0.count))
                    (omega (arith, m.0.count, within, u.kept.few)) more fits),
              held,
            )
    ]

update_by :
    (temp : Bytes) (p : SlottedPage) (i : ℕ) (bytes : Bytes)
    → length temp ≡ page_size
    → IsPage p
    → SlotAt p i
    → Updated p i bytes (slotted_page_update temp p i bytes)
unfolding slotted_page_update
update_by temp p i bytes buffer ok (outside none_there h) =
    rw (none_there, slotted_page_update) (inl (refl, h))
update_by temp p i bytes buffer ok (holds e at (inl d)) =
    rw (at, slotted_page_update, d.0) (inl (refl, d.1))
update_by temp p i bytes buffer ok (holds e at (inr l)) =
    let live : 0 < e.len = ground (arith, l.0) in
    elim (Bool-cases (leb (length bytes) e.len)) [
      | inl short ↦
          rw (at, slotted_page_update, l.0, short)
            (overwrite_lem p i e bytes ok at live (ground arith), l.1)
      | inr long ↦
          let within = get_inside p.slots i e at in
          let count = length-put_slot p.slots i (record e { len = 0 }) within in
          rw (at, slotted_page_update, l.0, long)
            (reinsert_lem temp p (erase p i e) i bytes buffer (erase_lem p i e ok at live)
              (omega (arith, within, count)) (ground (arith, live)) l.1)
    ]

-- An update on a page in order changes no other slot and keeps the order. It succeeds with the new
-- record in the slot, or with a deleted slot when the new record is empty. It fails with the page
-- unchanged when the slot holds no record; and when a longer record does not fit, it fails with the old
-- record deleted. The temporary buffer has the size of a page.
pub update-Updated :
    (temp : Bytes) (p : SlottedPage) (i : ℕ) (bytes : Bytes)
    → length temp ≡ page_size
    → IsPage p
    → Updated p i bytes (slotted_page_update temp p i bytes)
update-Updated temp p i bytes buffer ok = update_by temp p i bytes buffer ok (slot_at p i)
