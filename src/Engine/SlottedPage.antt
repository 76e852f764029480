-- ===== src/Engine/SlottedPage.antt =====
-- Slotted pages (src/storage_engine.c, include/storage_engine.h). The slot directory in use is the list
-- of its entries, `slot_count` of them; the records' bytes are the block `memory` of 4096 bytes. The
-- directory takes the bytes from 16 to `16 + 4 * slot_count` of that block, where the invariant allows
-- no record, so the two are kept apart. `uint16_t` and `size_t` arithmetic wraps.
pub mod Slots
pub mod Inv
pub mod Shrink
pub mod Pack
pub mod Compact
pub mod Laws
pub mod Update
pub mod Calls
mod Tests
use inventixdb.Base.{
  ℕ, zero, suc, ◌+◌, ◌-◌, ◌*◌, ◌%◌, ◌^◌, Bool, true, false, List, [], ◌∷◌, Option, none, some,
  Bytes, ltb, leb, ◌==◌, if◌then◌else◌, length, get_elem?, replicate, drop, load, store,
}

-- `SlotEntry`; `len` is its `length`, 0 for a deleted record.
pub record SlotEntry : Type 0 where
  pub offset : ℕ
  pub len : ℕ

-- `SlottedPage` with its header
pub record SlottedPage : Type 0 where
  pub page_id : ℕ
  pub free_space_start : ℕ
  pub free_space_end : ℕ
  pub flags : ℕ
  pub checksum : ℕ
  pub slots : List SlotEntry
  pub memory : Bytes

abbrev pub page_size : ℕ
page_size = 4096

abbrev pub max_slot_count : ℕ
max_slot_count = 256

abbrev pub page_flag_leaf : ℕ
page_flag_leaf = 2

-- `sizeof(SlottedPageHeader)` and the directory of `n` slots
abbrev pub header_size : ℕ → ℕ
header_size n = 16 + n * 4

-- `a - b` as a `uint16_t`
unfoldable pub sub16 : ℕ → ℕ → ℕ
sub16 a b = (a + 2 ^ 16 - b % 2 ^ 16) % 2 ^ 16

unfoldable pub slotted_page_init : ℕ → SlottedPage
slotted_page_init id = record {
  page_id = id;
  free_space_start = header_size 0;
  free_space_end = page_size;
  flags = page_flag_leaf;
  checksum = 0;
  slots = [];
  memory = replicate page_size 0;
}

-- The last subtraction is one of `size_t`.
unfoldable pub slotted_page_free_space : SlottedPage → ℕ
slotted_page_free_space p =
    let used = header_size (length p.slots) in
    if leb p.free_space_end used then 0 else (p.free_space_end - used + 2 ^ 64 - 4) % 2 ^ 64

-- `page->slots[i] = e`, where `i` is at most the number of slots
unfoldable pub put_slot : List SlotEntry → ℕ → SlotEntry → List SlotEntry
put_slot [] i e = e ∷ []
put_slot (x ∷ xs) zero e = e ∷ xs
put_slot (x ∷ xs) (suc i) e = x ∷ put_slot xs i e

-- The first deleted slot, or the number of slots
unfoldable pub free_slot : List SlotEntry → ℕ
free_slot [] = 0
free_slot (x ∷ xs) = let later = free_slot xs in if x.len == 0 then 0 else suc later

-- `write_pos`, the buffer and the slots after the loop of `slotted_page_compact`
pub record Packed : Type 0 where
  pub write_pos : ℕ
  pub temp : Bytes
  pub packed : List SlotEntry

unfoldable pub pack_slot : Bytes → SlotEntry → Packed → Packed
pack_slot m e r =
    let pos = sub16 r.write_pos e.len in
    if e.len == 0 then record r { packed = e ∷ r.packed } else record {
      write_pos = pos;
      temp = store pos (load e.offset e.len m) r.temp;
      packed = record e { offset = pos } ∷ r.packed;
    }

-- The loop runs from the last slot to the first.
unfoldable pub pack_slots : Bytes → Bytes → List SlotEntry → Packed
pack_slots m temp [] = record { write_pos = page_size; temp = temp; packed = [] }
pack_slots m temp (e ∷ es) = pack_slot m e (pack_slots m temp es)

-- `temp` is what the uninitialised buffer holds.
unfoldable pub slotted_page_compact : Bytes → SlottedPage → SlottedPage
slotted_page_compact temp p =
    let r = pack_slots p.memory temp p.slots in
    if length p.slots == 0 then p else record p {
      slots = r.packed;
      memory = store r.write_pos (drop r.write_pos r.temp) p.memory;
      free_space_end = r.write_pos;
    }

-- The page after the code's first look at the free space; the second look finds what the first did
-- unless the page was compacted.
unfoldable pub make_room : Bytes → ℕ → SlottedPage → SlottedPage
make_room temp needed p =
    if ltb (slotted_page_free_space p) needed then slotted_page_compact temp p else p

-- The record goes below the others, and slot `i` points to it.
unfoldable pub place : ℕ → Bytes → SlottedPage → SlottedPage
place i bytes p =
    let offset = sub16 p.free_space_end (length bytes) in
    let slots = put_slot p.slots i (record { offset = offset; len = length bytes % 2 ^ 16 }) in
    record p {
      memory = store offset bytes p.memory;
      slots = slots;
      free_space_start =
          if leb (length p.slots) i
          then header_size (length slots) % 2 ^ 16
          else p.free_space_start;
      free_space_end = offset;
    }

unfoldable pub place_free : Bytes → SlottedPage → SlottedPage × Option ℕ
place_free bytes p =
    let i = free_slot p.slots in
    if leb max_slot_count i then (p, none) else (place i bytes p, some i)

-- The slot, or `none` for -1
unfoldable pub slotted_page_insert : Bytes → SlottedPage → Bytes → SlottedPage × Option ℕ
slotted_page_insert temp p bytes =
    let needed = length bytes + 4 in
    let q = make_room temp needed p in
    if length bytes == 0
    then (p, none)
    else (if ltb (slotted_page_free_space q) needed then (q, none) else place_free bytes q)

unfoldable pub read_slot : Bytes → SlotEntry → Option Bytes
read_slot m e = if e.len == 0 then none else some (load e.offset e.len m)

unfoldable pub read_at : Bytes → List SlotEntry → ℕ → Option Bytes
read_at m slots i = elim (get_elem? slots i) [ none ↦ none | some e ↦ read_slot m e ]

unfoldable pub slotted_page_get : SlottedPage → ℕ → Option Bytes
slotted_page_get p i = read_at p.memory p.slots i

-- `entry->length = 0`
abbrev pub erase : SlottedPage → ℕ → SlotEntry → SlottedPage
erase p i e = record p { slots = put_slot p.slots i (record e { len = 0 }) }

-- The page and whether the call returned 0
unfoldable pub slotted_page_delete : SlottedPage → ℕ → SlottedPage × Bool
slotted_page_delete p i = elim (get_elem? p.slots i) [
  | none ↦ (p, false)
  | some e ↦ if e.len == 0 then (p, false) else (erase p i e, true)
]

unfoldable pub overwrite : SlottedPage → ℕ → SlotEntry → Bytes → SlottedPage
overwrite p i e bytes = record p {
  memory = store e.offset bytes p.memory;
  slots = put_slot p.slots i (record e { len = length bytes });
}

-- The part of `slotted_page_update` after the record was deleted
unfoldable pub reinsert : Bytes → SlottedPage → ℕ → Bytes → SlottedPage × Bool
reinsert temp p i bytes =
    let q = make_room temp (length bytes) p in
    if ltb (slotted_page_free_space q) (length bytes) then (q, false) else (place i bytes q, true)

unfoldable pub slotted_page_update : Bytes → SlottedPage → ℕ → Bytes → SlottedPage × Bool
slotted_page_update temp p i bytes = elim (get_elem? p.slots i) [
  | none ↦ (p, false)
  | some e ↦
      if e.len == 0
      then (p, false)
      else (if leb (length bytes) e.len
          then (overwrite p i e bytes, true)
          else reinsert temp (erase p i e) i bytes)
]
