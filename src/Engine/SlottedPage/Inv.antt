-- ===== src/Engine/SlottedPage/Inv.antt =====
-- The invariant of a slotted page, and the writes of one slot (src/storage_engine.c).
use inventixdb.Base.{
  ℕ, zero, suc, ◌+◌, ◌-◌, ◌*◌, ◌%◌, ◌^◌, ◌<◌, ◌≤◌, ◌≡◌, ◌≢◌, ◌⊎◌, inl, inr, refl, subst, ap, ◌∙◌,
  true, false, List, [], ◌∷◌, Option, some, arith, Bytes, Bool-cases, ==_iff, ◌==◌, leb,
  if◌then◌else◌, Option-cases, length, get_elem?, All, load, store, load-store_same, length-store,
  ℕ_discrete,
}
use inventixdb.Engine.SlottedPage.{
  SlotEntry, SlottedPage, page_size, max_slot_count, header_size, sub16, slotted_page_free_space,
  put_slot, place, read_slot, read_at, slotted_page_get,
}
use inventixdb.Engine.SlottedPage.Slots.{
  InPage, Clear, Apart, Pairwise, total, total-put_slot, length-put_slot, length-put_slot_end,
  get-put_slot, get-put_slot_ne, All-at, All-map, All-put_slot, Apart-sym, Pairwise-put_slot,
  read_slot-store,
}

-- The directory, and room for one more entry, end before the records; the records lie in the page,
-- apart from each other.
pub record IsPage (p : SlottedPage) : Type 0 where
  pub size : length p.memory ≡ page_size
  pub start : p.free_space_start ≡ 16 + 4 * length p.slots
  pub room : 20 + 4 * length p.slots ≤ p.free_space_end
  pub inside : All (InPage p.free_space_end) p.slots
  pub apart : Pairwise p.slots
  pub fits : total p.slots + p.free_space_end ≤ page_size
  pub few : length p.slots ≤ max_slot_count
  pub fresh : (0 < length p.slots) ⊎ (p.free_space_end ≡ page_size)

-- The page is in order, and only slot `i` reads otherwise than before.
pub record Puts (p q : SlottedPage) (i : ℕ) (r : Option Bytes) : Type 0 where
  pub kept : IsPage q
  pub reads : (j : ℕ) → slotted_page_get q j ≡ (if i == j then r else slotted_page_get p j)

pub sub16_lem : (a b : ℕ) → b ≤ a → a ≤ page_size → sub16 a b ≡ a - b
unfolding sub16
sub16_lem a b h k = omega arith

-- The free space never wraps.
pub free_space_lem :
    (p : SlottedPage)
    → IsPage p
    → slotted_page_free_space p + (20 + 4 * length p.slots) ≡ p.free_space_end
unfolding slotted_page_free_space
free_space_lem p ok =
    let small : p.free_space_end ≤ page_size = omega (arith, ok.fits) in
    let above : leb p.free_space_end (16 + length p.slots * 4) ≡ false = ground (arith, ok.room) in
    rw (above) (omega (arith, ok.room, small))

pub if_at {ℓ} :
    {A : Type ℓ} (i j : ℕ) (x a b : A)
    → (i ≡ j → x ≡ a)
    → (i ≢ j → x ≡ b)
    → x ≡ (if i == j then a else b)
if_at i j x a b f g = elim (ℕ_discrete i j) [
  | yes same ↦ let test : (i == j) ≡ true = (==_iff i j).1 same in rw (test) (f same)
  | no other ↦ let test : (i == j) ≡ false = ground (arith, other) in rw (test) (g other)
]

-- A slot that still holds its entry reads the same when its bytes do.
pub read_at_frame :
    (m n : Bytes) (es fs : List SlotEntry) (j : ℕ)
    → get_elem? fs j ≡ get_elem? es j
    → ((e : SlotEntry) → get_elem? es j ≡ some e → read_slot n e ≡ read_slot m e)
    → read_at n fs j ≡ read_at m es j
unfolding read_at
read_at_frame m n es fs j same bytes = elim (Option-cases (get_elem? es j)) [
  | inl empty ↦ rw (same, empty, read_at) refl
  | inr (e, at) ↦ rw (same, at, read_at) (bytes e at)
]

pub read_at-some :
    (m : Bytes) (es : List SlotEntry) (j : ℕ) (e : SlotEntry)
    → get_elem? es j ≡ some e
    → read_at m es j ≡ read_slot m e
unfolding read_at
read_at-some m es j e at = rw (at, read_at) refl

pub read_slot_live :
    (m : Bytes) (e : SlotEntry) → 0 < e.len → read_slot m e ≡ some (load e.offset e.len m)
unfolding read_slot
read_slot_live m e h = let live : (e.len == 0) ≡ false = ground (arith, h) in rw (live) refl

pub InPage-lower : (lo hi : ℕ) (e : SlotEntry) → lo ≤ hi → InPage hi e → InPage lo e
InPage-lower lo hi e h (inl z) = inl z
InPage-lower lo hi e h (inr k) = inr (omega (arith, k.0), k.1)

pub Clear-below : (hi o n : ℕ) (e : SlotEntry) → o + n ≤ hi → InPage hi e → Clear o n e
Clear-below hi o n e h (inl z) = inl z
Clear-below hi o n e h (inr k) = inr (inr (omega (arith, h, k.0)))

-- The number of slots when slot `i` is in use
abbrev pub next_count : ℕ → ℕ → ℕ
next_count count i = if leb count i then suc count else count

length-next_count :
    (es : List SlotEntry) (i : ℕ) (v : SlotEntry)
    → i ≤ length es
    → length (put_slot es i v) ≡ next_count (length es) i
length-next_count es i v h = elim (Bool-cases (leb (length es) i)) [
  | inl at_end ↦
      let here : i ≡ length es = ground arith in
      rw (at_end) (ap (λ n. length (put_slot es n v)) here ∙ length-put_slot_end es v)
  | inr within ↦ rw (within) (length-put_slot es i v (ground arith))
]

next_count_few :
    (count i : ℕ)
    → i < max_slot_count
    → count ≤ max_slot_count
    → next_count count i ≤ max_slot_count
next_count_few count i h k = elim (Bool-cases (leb count i)) [
  | inl at_end ↦ let below : count ≤ i = ground arith in rw (at_end) (omega (arith, below, h))
  | inr within ↦ rw (within) k
]

-- A record written below all others
record Below (p q : SlottedPage) (i : ℕ) (v : SlotEntry) (bytes : Bytes) : Type 0 where
  pub slots : q.slots ≡ put_slot p.slots i v
  pub memory : q.memory ≡ store v.offset bytes p.memory
  pub lower : q.free_space_end ≡ v.offset
  pub start : q.free_space_start ≡ 16 + 4 * length q.slots
  pub len : v.len ≡ length bytes
  pub end : v.offset + v.len ≡ p.free_space_end
  pub room : 20 + 4 * length q.slots ≤ v.offset

put_slot_more : (es : List SlotEntry) (i : ℕ) (v : SlotEntry) → 0 < length (put_slot es i v)
unfolding put_slot
put_slot_more [] i v = omega arith
put_slot_more (e ∷ es) zero v = omega arith
put_slot_more (e ∷ es) (suc i) v = omega arith

Below-IsPage :
    (p q : SlottedPage) (i : ℕ) (v : SlotEntry) (bytes : Bytes)
    → IsPage p
    → i ≤ length p.slots
    → i < max_slot_count
    → Below p q i v bytes
    → IsPage q
Below-IsPage p q i v bytes ok at few b =
    let small : v.offset + v.len ≤ page_size = omega (arith, ok.fits, b.end) in
    let under : (f : SlotEntry) → InPage p.free_space_end f → Apart f v = λ f k.
      Apart-sym v f
        (inr (Clear-below p.free_space_end v.offset v.len f (omega (arith, b.end)) k)) in
    record {
      size =
          rw (b.memory)
            (length-store v.offset bytes p.memory (omega (arith, small, b.len, ok.size)) ∙ ok.size);
      start = b.start;
      room = omega (arith, b.room, b.lower);
      inside =
          rw (b.slots, b.lower)
            (All-put_slot (InPage v.offset) p.slots i v
              (All-map (InPage p.free_space_end) (InPage v.offset) p.slots
                (λ f. InPage-lower v.offset p.free_space_end f (omega (arith, b.end))) ok.inside)
              (inr (omega arith, small)));
      apart = rw (b.slots) (
          Pairwise-put_slot p.slots i v ok.apart
            (All-map (InPage p.free_space_end) (λ f. Apart f v) p.slots under ok.inside));
      fits = rw (b.slots, b.lower) (omega (arith, total-put_slot p.slots i v, b.end, ok.fits));
      few = rw (b.slots) (
          omega (
            arith,
            length-next_count p.slots i v at,
            next_count_few (length p.slots) i few ok.few,
          ));
      fresh = rw (b.slots) (inl (put_slot_more p.slots i v));
    }

Below-reads :
    (p q : SlottedPage) (i : ℕ) (v : SlotEntry) (bytes : Bytes)
    → IsPage p
    → i ≤ length p.slots
    → 0 < length bytes
    → Below p q i v bytes
    → (j : ℕ) → slotted_page_get q j ≡ (if i == j then some bytes else slotted_page_get p j)
unfolding slotted_page_get
Below-reads p q i v bytes ok at more b j =
    let inside : v.offset + length bytes ≤ length p.memory =
      omega (arith, ok.fits, b.end, b.len, ok.size) in
    let new : read_slot (store v.offset bytes p.memory) v ≡ some bytes =
      read_slot_live (store v.offset bytes p.memory) v (omega (arith, b.len, more))
      ∙ ap (λ n. some (load v.offset n (store v.offset bytes p.memory))) b.len
      ∙ ap some (load-store_same v.offset bytes p.memory inside) in
    if_at i j (read_at q.memory q.slots j) (some bytes) (read_at p.memory p.slots j)
      (λ same.
        subst (λ n. read_at q.memory q.slots n ≡ some bytes) same
          (rw (b.slots, b.memory)
            (read_at-some (store v.offset bytes p.memory) _ i v (get-put_slot p.slots i v at)
              ∙ new)))
      (λ other.
        read_at_frame p.memory q.memory p.slots q.slots j
          (ap (λ es. get_elem? es j) b.slots ∙ get-put_slot_ne p.slots i j v at other)
          (λ e k.
            ap (λ m. read_slot m e) b.memory
            ∙ read_slot-store v.offset bytes p.memory e inside (
                Clear-below p.free_space_end v.offset (length bytes) e (omega (arith, b.end, b.len))
                  (All-at (InPage p.free_space_end) p.slots j e ok.inside k))))

start_lem :
    (count n i start : ℕ)
    → start ≡ 16 + 4 * count
    → n ≡ next_count count i
    → 20 + 4 * n ≤ page_size
    → (if leb count i then header_size n % 2 ^ 16 else start) ≡ 16 + 4 * n
start_lem count n i start h k small = elim (Bool-cases (leb count i)) [
  | inl at_end ↦ rw (at_end) (omega (arith, small))
  | inr within ↦
      let same : n ≡ count = k ∙ ap (λ b. if b then suc count else count) within in
      rw (within) (omega (arith, h, same))
]

pub place_lem :
    (p : SlottedPage) (i : ℕ) (bytes : Bytes)
    → IsPage p
    → i ≤ length p.slots
    → i < max_slot_count
    → 0 < length bytes
    → length bytes + (20 + 4 * next_count (length p.slots) i) ≤ p.free_space_end
    → Puts p (place i bytes p) i (some bytes)
unfolding place
place_lem p i bytes ok at few more fits =
    let small : p.free_space_end ≤ page_size = omega (arith, ok.fits) in
    let offset : sub16 p.free_space_end (length bytes) ≡ p.free_space_end - length bytes =
      sub16_lem p.free_space_end (length bytes) (omega (arith, fits)) small in
    let len : length bytes % 2 ^ 16 ≡ length bytes = omega (arith, fits, small) in
    let v : SlotEntry = record {
      offset = sub16 p.free_space_end (length bytes);
      len = length bytes % 2 ^ 16;
    } in
    let count = length-next_count p.slots i v at in
    let b : Below p (place i bytes p) i v bytes = record {
      slots = refl;
      memory = refl;
      lower = refl;
      start =
          start_lem (length p.slots) (length (put_slot p.slots i v)) i p.free_space_start ok.start
            count (omega (arith, count, fits, small));
      len = len;
      end = omega (arith, offset, len, fits);
      room = omega (arith, offset, count, fits);
    } in
    record {
      kept = Below-IsPage p (place i bytes p) i v bytes ok at few b;
      reads = Below-reads p (place i bytes p) i v bytes ok at more b;
    }
