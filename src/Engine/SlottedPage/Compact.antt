-- ===== src/Engine/SlottedPage/Compact.antt =====
-- Compaction of a slotted page (src/storage_engine.c) keeps every record and leaves no gap.
use inventixdb.Base.{
  ℕ, ◌+◌, ◌*◌, ◌<◌, ◌≡◌, inl, inr, refl, true, sym, ◌∙◌, List, [], ◌∷◌, ◌⊎◌, arith, Bytes,
  Bool-cases, ◌==◌, length, All, store, drop, length-store, load-store-drop, length-drop,
}
use inventixdb.Engine.SlottedPage.{
  SlotEntry, SlottedPage, Packed, page_size, pack_slots, read_slot, slotted_page_get,
  slotted_page_compact, slotted_page_free_space,
}
use inventixdb.Engine.SlottedPage.Slots.{InPage, total, All-at, All-map}
use inventixdb.Engine.SlottedPage.Inv.{IsPage, read_at_frame, InPage-lower, free_space_lem}
use inventixdb.Engine.SlottedPage.Pack.{Packs, read_slot_deleted, read_slot-load, pack_slots_lem}

-- What a compaction does to a page in order: all records read as before, and the free space is all that
-- they leave.
pub record Compacts (p q : SlottedPage) : Type 0 where
  pub kept : IsPage q
  pub count : length q.slots ≡ length p.slots
  pub sum : total q.slots ≡ total p.slots
  pub tight : total q.slots + q.free_space_end ≡ page_size
  pub reads : (j : ℕ) → slotted_page_get q j ≡ slotted_page_get p j

compacts_lem :
    (p : SlottedPage) (r : Packed)
    → IsPage p
    → 0 < length p.slots
    → Packs p.memory p.slots r
    → Compacts p (record p {
      slots = r.packed;
      memory = store r.write_pos (drop r.write_pos r.temp) p.memory;
      free_space_end = r.write_pos;
    })
unfolding slotted_page_get
compacts_lem p r ok nonempty k =
    let tail : r.write_pos + length (drop r.write_pos r.temp) ≡ length p.memory =
      omega
        (arith, length-drop r.write_pos r.temp (omega (arith, k.pos, k.size)), k.size, ok.size) in
    record {
      kept = record {
        size =
            length-store r.write_pos (drop r.write_pos r.temp) p.memory (omega (arith, tail))
            ∙ ok.size;
        start = omega (arith, ok.start, k.count);
        room = omega (arith, ok.room, ok.fits, k.pos, k.count);
        inside = k.inside;
        apart = k.apart;
        fits = omega (arith, k.pos, k.sum);
        few = omega (arith, k.count, ok.few);
        fresh = inl (omega (arith, k.count, nonempty));
      };
      count = k.count;
      sum = k.sum;
      tight = omega (arith, k.pos, k.sum);
      reads = λ j.
          read_at_frame r.temp (store r.write_pos (drop r.write_pos r.temp) p.memory) r.packed
            r.packed j refl (λ f q. copied f (All-at (InPage r.write_pos) r.packed j f k.inside q))
          ∙ k.reads j;
    }
  where
    copied :
        (f : SlotEntry)
        → InPage r.write_pos f
        → read_slot (store r.write_pos (drop r.write_pos r.temp) p.memory) f ≡ read_slot r.temp f
    copied f (inl z) =
        let deleted : (f.len == 0) ≡ true = ground arith in
        read_slot_deleted _ f deleted ∙ sym (read_slot_deleted r.temp f deleted)
    copied f (inr q) =
        read_slot-load _ r.temp f
          (load-store-drop r.write_pos f.offset f.len r.temp p.memory q.0 (k.size ∙ sym ok.size))

any_page : (p : SlottedPage) → IsPage p → All (InPage 0) p.slots
any_page p ok =
    All-map (InPage p.free_space_end) (InPage 0) p.slots
      (λ f. InPage-lower 0 p.free_space_end f (omega arith)) ok.inside

no_total : (es : List SlotEntry) → length es ≡ 0 → total es ≡ 0
unfolding total
no_total [] h = refl
no_total (e ∷ es) h = absurd (omega arith)

fresh_end :
    (p : SlottedPage)
    → length p.slots ≡ 0
    → (0 < length p.slots) ⊎ (p.free_space_end ≡ page_size)
    → p.free_space_end ≡ page_size
fresh_end p z (inl used) = absurd (omega (arith, z, used))
fresh_end p z (inr k) = k

unmoved :
    (p : SlottedPage) → IsPage p → total p.slots ≡ 0 → p.free_space_end ≡ page_size → Compacts p p
unmoved p ok sum at_end = record {
  kept = ok;
  count = refl;
  sum = refl;
  tight = omega (arith, sum, at_end);
  reads = λ j. refl;
}

-- Compaction of a page in order keeps the order, the number of slots and what every slot reads, and
-- leaves as free all bytes that the records and the directory, with one more entry, do not take. The
-- temporary buffer has the size of a page.
pub compact-Compacts :
    (temp : Bytes) (p : SlottedPage)
    → length temp ≡ page_size
    → IsPage p
    → Compacts p (slotted_page_compact temp p)
      × (slotted_page_free_space (slotted_page_compact temp p)
            + total p.slots
            + (20 + 4 * length p.slots)
          ≡ page_size)
unfolding slotted_page_compact
compact-Compacts temp p buffer ok = (
  here,
  omega (
    arith,
    free_space_lem (slotted_page_compact temp p) here.kept,
    here.sum,
    here.count,
    here.tight,
  ),
)
  where
    here : Compacts p (slotted_page_compact temp p)
    here = elim (Bool-cases (length p.slots == 0)) [
      | inl empty ↦
          let none_used : length p.slots ≡ 0 = ground arith in
          rw (empty) (unmoved p ok (no_total p.slots none_used) (fresh_end p none_used ok.fresh))
      | inr more ↦
          let used : 0 < length p.slots = ground arith in
          rw (more) (
            compacts_lem p (pack_slots p.memory temp p.slots) ok used (
              pack_slots_lem p.memory temp p.slots ok.size buffer (omega (arith, ok.fits))
                (any_page p ok)))
    ]
