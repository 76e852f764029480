-- ===== src/Engine/SlottedPage/Pack.antt =====
-- The loop of `slotted_page_compact` (src/storage_engine.c).
use inventixdb.Base.{
  ℕ, zero, suc, ◌+◌, ◌<◌, ◌≤◌, ◌≡◌, inl, inr, refl, true, sym, ap, ◌∙◌, List, [], ◌∷◌, none, some,
  arith, Bytes, Bool-cases, ◌==◌, if◌then◌else◌, length, All, load, store, load-store_same,
  length-store, length-load,
}
use inventixdb.Engine.SlottedPage.{
  SlotEntry, Packed, page_size, pack_slot, pack_slots, sub16, read_slot, read_at,
}
use inventixdb.Engine.SlottedPage.Slots.{
  InPage, Apart, Pairwise, total, All-at, All-map, read_slot-store,
}
use inventixdb.Engine.SlottedPage.Inv.{read_at_frame, sub16_lem, Clear-below, InPage-lower}
use inventixdb.Engine.SlottedPage.Shrink.{in_page}

-- What the loop keeps
pub record Packs (m : Bytes) (es : List SlotEntry) (r : Packed) : Type 0 where
  pub pos : r.write_pos + total es ≡ page_size
  pub sum : total r.packed ≡ total es
  pub size : length r.temp ≡ page_size
  pub count : length r.packed ≡ length es
  pub inside : All (InPage r.write_pos) r.packed
  pub apart : Pairwise r.packed
  pub reads : (j : ℕ) → read_at r.temp r.packed j ≡ read_at m es j

-- A record in front of packed ones, with the buffer
record Adds (m : Bytes) (e : SlotEntry) (r s : Packed) (v : SlotEntry) : Type 0 where
  pub slots : s.packed ≡ v ∷ r.packed
  pub len : v.len ≡ e.len
  pub pos : s.write_pos + e.len ≡ r.write_pos
  pub size : length s.temp ≡ page_size
  pub inside : InPage s.write_pos v
  pub apart : All (Apart v) r.packed
  pub new : read_slot s.temp v ≡ read_slot m e
  pub old : (f : SlotEntry) → InPage r.write_pos f → read_slot s.temp f ≡ read_slot r.temp f

Adds-Packs :
    (m : Bytes) (e : SlotEntry) (es : List SlotEntry) (r s : Packed) (v : SlotEntry)
    → Packs m es r
    → Adds m e r s v
    → Packs m (e ∷ es) s
unfolding total read_at
Adds-Packs m e es r s v p a = record {
  pos = omega (arith, p.pos, a.pos);
  sum = rw (a.slots) (omega (arith, p.sum, a.len));
  size = a.size;
  count = ap length a.slots ∙ ap suc p.count;
  inside = rw (a.slots) (
    a.inside,
    All-map (InPage r.write_pos) (InPage s.write_pos) r.packed
        (λ f. InPage-lower s.write_pos r.write_pos f (omega (arith, a.pos))) p.inside,
  );
  apart = rw (a.slots) (a.apart, p.apart);
  reads = λ j. ap (λ fs. read_at s.temp fs j) a.slots ∙ here j;
}
  where
    here : (j : ℕ) → read_at s.temp (v ∷ r.packed) j ≡ read_at m (e ∷ es) j
    here zero = a.new
    here (suc j) =
        read_at_frame r.temp s.temp r.packed r.packed j refl
          (λ f k. a.old f (All-at (InPage r.write_pos) r.packed j f p.inside k))
        ∙ p.reads j

pub read_slot_deleted : (m : Bytes) (f : SlotEntry) → (f.len == 0) ≡ true → read_slot m f ≡ none
unfolding read_slot
read_slot_deleted m f z = rw (z) refl

pub read_slot-load :
    (m n : Bytes) (f : SlotEntry)
    → load f.offset f.len m ≡ load f.offset f.len n
    → read_slot m f ≡ read_slot n f
unfolding read_slot
read_slot-load m n f h = ap (λ b. if f.len == 0 then none else some b) h

add_deleted :
    (m : Bytes) (e : SlotEntry) (es : List SlotEntry) (r : Packed)
    → e.len ≡ 0
    → Packs m es r
    → Adds m e r (record r { packed = e ∷ r.packed }) e
unfolding read_slot
add_deleted m e es r z p =
    let test : (e.len == 0) ≡ true = ground arith in
    record {
      slots = refl;
      len = refl;
      pos = omega arith;
      size = p.size;
      inside = inl z;
      apart = All-map (InPage r.write_pos) (Apart e) r.packed (λ f k. inl z) p.inside;
      new = rw (test) refl;
      old = λ f k. refl;
    }

add_live :
    (m : Bytes) (e : SlotEntry) (es : List SlotEntry) (r : Packed) (pos : ℕ)
    → length m ≡ page_size
    → pos + e.len ≡ r.write_pos
    → e.offset + e.len ≤ page_size
    → Packs m es r
    → Adds m e r
        (record {
          write_pos = pos;
          temp = store pos (load e.offset e.len m) r.temp;
          packed = record e { offset = pos } ∷ r.packed;
        })
        (record e { offset = pos })
unfolding read_slot
add_live m e es r pos size at k p =
    let bytes = load e.offset e.len m in
    let n : length bytes ≡ e.len = length-load e.offset e.len m (omega (arith, k, size)) in
    let inside : pos + length bytes ≤ length r.temp = omega (arith, n, at, p.pos, p.size) in
    record {
      slots = refl;
      len = refl;
      pos = at;
      size = length-store pos bytes r.temp inside ∙ p.size;
      inside = inr (omega arith, omega (arith, at, p.pos));
      apart =
          All-map (InPage r.write_pos) (Apart (record e { offset = pos })) r.packed
            (λ f q. inr (Clear-below r.write_pos pos e.len f (omega (arith, at)) q)) p.inside;
      new =
          ap (λ b. if e.len == 0 then none else some b)
            (ap (λ c. load pos c (store pos bytes r.temp)) (sym n)
              ∙ load-store_same pos bytes r.temp inside);
      old = λ f q.
          read_slot-store pos bytes r.temp f inside
            (Clear-below r.write_pos pos (length bytes) f (omega (arith, n, at)) q);
    }

pack_slot_lem :
    (m : Bytes) (e : SlotEntry) (es : List SlotEntry) (r : Packed)
    → length m ≡ page_size
    → e.len + total es ≤ page_size
    → InPage 0 e
    → Packs m es r
    → Packs m (e ∷ es) (pack_slot m e r)
unfolding pack_slot
pack_slot_lem m e es r size fits inside p = elim (Bool-cases (e.len == 0)) [
  | inl deleted ↦
      let z : e.len ≡ 0 = ground arith in
      rw (deleted)
        (Adds-Packs m e es r (record r { packed = e ∷ r.packed }) e p (add_deleted m e es r z p))
  | inr live ↦
      let more : 0 < e.len = ground arith in
      let at : sub16 r.write_pos e.len + e.len ≡ r.write_pos = omega (
        arith,
        fits,
        p.pos,
        sub16_lem r.write_pos e.len (omega (arith, fits, p.pos)) (omega (arith, p.pos)),
      ) in
      rw (live) (
        Adds-Packs m e es r _ (record e { offset = sub16 r.write_pos e.len }) p
          (add_live m e es r (sub16 r.write_pos e.len) size at (in_page 0 e more inside).1 p))
]

pub pack_slots_lem :
    (m temp : Bytes) (es : List SlotEntry)
    → length m ≡ page_size
    → length temp ≡ page_size
    → total es ≤ page_size
    → All (InPage 0) es
    → Packs m es (pack_slots m temp es)
unfolding pack_slots total read_at
pack_slots_lem m temp [] size buffer fits inside = record {
  pos = omega arith;
  sum = refl;
  size = buffer;
  count = refl;
  inside = tt;
  apart = tt;
  reads = λ j. refl;
}
pack_slots_lem m temp (e ∷ es) size buffer fits inside =
    pack_slot_lem m e es (pack_slots m temp es) size fits inside.0
      (pack_slots_lem m temp es size buffer (omega (arith, fits)) inside.1)
