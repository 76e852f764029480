-- ===== src/Engine/SlottedPage/Shrink.antt =====
-- A record deleted, or overwritten in place by one that is not longer (src/storage_engine.c).
use inventixdb.Base.{
  ℕ, ◌+◌, ◌<◌, ◌≤◌, ◌≡◌, inl, inr, refl, subst, ap, ◌∙◌, [], none, some, arith, Bytes, ◌==◌,
  if◌then◌else◌, length, get_elem?, store, load-store_same, length-store, store-nil,
}
use inventixdb.Engine.SlottedPage.{
  SlotEntry, SlottedPage, page_size, put_slot, read_slot, read_at, slotted_page_get, erase,
  overwrite,
}
use inventixdb.Engine.SlottedPage.Slots.{
  InPage, Clear, Apart, total-put_slot, len_at_lem, length-put_slot, get-put_slot, get-put_slot_ne,
  get_inside, All-at, All-put_slot, Shrinks, Pairwise-shrink, Pairwise-at, read_slot-store,
}
use inventixdb.Engine.SlottedPage.Inv.{IsPage, Puts, if_at, read_at_frame, read_at-some}

pub in_page :
    (lo : ℕ) (e : SlotEntry)
    → 0 < e.len
    → InPage lo e
    → (lo ≤ e.offset) × (e.offset + e.len ≤ page_size)
in_page lo e h (inl z) = absurd (omega arith)
in_page lo e h (inr k) = k

InPage-shrink : (lo : ℕ) (e v : SlotEntry) → Shrinks e v → InPage lo e → InPage lo v
InPage-shrink lo e v s (inl z) = inl (omega (arith, s.1, z))
InPage-shrink lo e v s (inr k) = inr (omega (arith, s.0, k.0), omega (arith, s.0, s.1, k.1))

Clear-of : (e f : SlotEntry) (n : ℕ) → 0 < e.len → n ≤ e.len → Apart e f → Clear e.offset n f
Clear-of e f n h k (inl z) = absurd (omega arith)
Clear-of e f n h k (inr (inl z)) = inl z
Clear-of e f n h k (inr (inr (inl before))) = inr (inl before)
Clear-of e f n h k (inr (inr (inr after))) = inr (inr (omega (arith, after, k)))

read_new :
    (m : Bytes) (e : SlotEntry) (bytes : Bytes)
    → e.offset + length bytes ≤ length m
    → read_slot (store e.offset bytes m) (record e { len = length bytes })
      ≡ (if length bytes == 0 then none else some bytes)
unfolding read_slot
read_new m e bytes h =
    ap (λ r. if length bytes == 0 then none else some r) (load-store_same e.offset bytes m h)

-- `overwrite` of slot `i` with no more bytes than it has
pub overwrite_lem :
    (p : SlottedPage) (i : ℕ) (e : SlotEntry) (bytes : Bytes)
    → IsPage p
    → get_elem? p.slots i ≡ some e
    → 0 < e.len
    → length bytes ≤ e.len
    → Puts p (overwrite p i e bytes) i (if length bytes == 0 then none else some bytes)
unfolding overwrite slotted_page_get
overwrite_lem p i e bytes ok at live short =
    let v : SlotEntry = record e { len = length bytes } in
    let k =
      in_page p.free_space_end e live (All-at (InPage p.free_space_end) p.slots i e ok.inside at) in
    let within = get_inside p.slots i e at in
    let count = length-put_slot p.slots i v within in
    let inside : e.offset + length bytes ≤ length p.memory = omega (arith, k.1, short, ok.size) in
    let shrinks : Shrinks e v = (refl, short) in
    let kept : IsPage (overwrite p i e bytes) = record {
      size = length-store e.offset bytes p.memory inside ∙ ok.size;
      start = omega (arith, ok.start, count);
      room = omega (arith, ok.room, count);
      inside =
          All-put_slot (InPage p.free_space_end) p.slots i v ok.inside
            (InPage-shrink p.free_space_end e v shrinks (inr k));
      apart = Pairwise-shrink p.slots i e v ok.apart at shrinks;
      fits = omega (arith, total-put_slot p.slots i v, len_at_lem p.slots i e at, short, ok.fits);
      few = omega (arith, count, ok.few);
      fresh = inl (omega (arith, within, count));
    } in
    record {
      kept = kept;
      reads = λ j.
          if_at i j _ _ _
            (λ same.
              subst
                (λ n.
                  read_at (store e.offset bytes p.memory) (put_slot p.slots i v) n
                  ≡ (if length bytes == 0 then none else some bytes))
                same
                (read_at-some (store e.offset bytes p.memory) (put_slot p.slots i v) i v
                    (get-put_slot p.slots i v (omega (arith, within)))
                  ∙ read_new p.memory e bytes inside))
            (λ other.
              read_at_frame p.memory (store e.offset bytes p.memory) p.slots (put_slot p.slots i v)
                j (get-put_slot_ne p.slots i j v (omega (arith, within)) other)
                (λ f q. read_slot-store e.offset bytes p.memory f inside (
                  Clear-of e f (length bytes) live short
                    (Pairwise-at p.slots i j e f ok.apart other at q))));
    }

-- `erase` of a live record
pub erase_lem :
    (p : SlottedPage) (i : ℕ) (e : SlotEntry)
    → IsPage p
    → get_elem? p.slots i ≡ some e
    → 0 < e.len
    → Puts p (erase p i e) i none
unfolding overwrite
erase_lem p i e ok at live =
    subst
      (λ m.
        Puts p (record p { memory = m; slots = put_slot p.slots i (record e { len = 0 }) }) i none)
      (store-nil e.offset p.memory) (overwrite_lem p i e [] ok at live (omega arith))
