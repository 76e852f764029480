-- ===== src/Page/Pool/Get.antt =====
-- What `buffer_pool_get_page` of src/buffer_pool.c returns, and what it leaves alone.
use inventixdb.Base.{
  ℕ, ◌+◌, ◌<◌, ◌≡◌, ◌≢◌, refl, sym, ap, ◌∙◌, ◌⊎◌, inl, inr, Option, none, some, arith, Bytes,
  Option-cases, length, length-set, subst, ℕ_discrete,
}
use inventixdb.Page.Pager.{table_max_pages}
use inventixdb.Page.Pager.ReadWrite.{pager_read_whole}
use inventixdb.Page.Pool.{
  BufferPool, Frame, frame, no_page, index_of, touch, fill, fill_evicted, load_page, get_page,
  lru_scan, max_time, pointer, evict, cleared, write_back,
}
use inventixdb.Page.Pool.Inv.{
  IsPool, content, page_bytes, frame-set_self, frame-set_ne, index_of-some, index_of-none,
  index_of_same,
}
use inventixdb.Page.Pool.Inv.Evict.{IsLru, lru_scan_lem, NoneBefore}
use inventixdb.Page.Pool.Replace.{content_absent, content_present, replaced}
use inventixdb.Page.Pool.Keep.{
  Keeps, Keeps-trans, same_page-Keeps, fill-Keeps, filled, evict-Keeps, Keeps-refl,
}

-- Slot `i` of `c` holds the page that `id` stands for in `b`, with one more pin than the slot had, and
-- no other slot has a pin more or less.
pub record Got (b : BufferPool) (id : ℕ) (c : BufferPool) (i : ℕ) : Type 0 where
  pub keeps : Keeps b c
  pub page : (frame c.frames i).page ≡ some (content b id)
  pub is_id : (frame c.frames i).page_id ≡ id
  pub is_pinned : (frame c.frames i).pin_count ≡ (frame b.frames i).pin_count + 1
  pub others : (j : ℕ) → i ≢ j → (frame c.frames j).pin_count ≡ (frame b.frames j).pin_count

-- No slot is free or may be evicted.
abbrev pub IsStuck : BufferPool → Type 0
IsStuck b =
    ((j : ℕ) → j < length b.frames → (frame b.frames j).page_id ≢ no_page)
    × NoneBefore b.frames max_time

abbrev pub Outcome : BufferPool → ℕ → BufferPool × Option ℕ → Type 0
Outcome b id r =
    ((r.1 ≡ none) × IsStuck b × Keeps b r.0) ⊎ ((i : ℕ) × (r.1 ≡ some i) × Got b id r.0 i)

-- `pool->clock++`
abbrev ticked : BufferPool → BufferPool
ticked b = record b { clock = b.clock + 1 }

ticked-Keeps : (b : BufferPool) → IsPool b → Keeps b (ticked b)
unfolding content
ticked-Keeps b ok = record {
  valid = record { distinct = ok.distinct; held = ok.held; free = ok.free };
  contents = λ q h. refl;
  pinned = λ i h. (refl, refl, omega arith);
}

touch_lem :
    (b : BufferPool) (id i : ℕ)
    → IsPool b
    → id < table_max_pages
    → index_of id b.frames ≡ some i
    → Outcome b id (touch b i)
unfolding touch
touch_lem b id i ok small found =
    let (hi, e) = index_of-some id b.frames i found in
    let used : (frame b.frames i).page_id ≢ no_page = λ z. omega arith in
    let h = ok.held i used in
    let f = frame b.frames i in
    let f' = record f { pin_count = f.pin_count + 1; last_used = b.clock } in
    let self = frame-set_self b.frames i f' hi in
    inr (
      i,
      ap (pointer i) h.is_page,
      record {
        keeps = same_page-Keeps b i f' hi ok used refl refl (λ d. d) (omega arith);
        page =
            ap (λ (x : Frame). x.page) self
            ∙ h.is_page
            ∙ ap some (sym (content_present b id i found ∙ ap page_bytes h.is_page));
        is_id = ap (λ (x : Frame). x.page_id) self ∙ e;
        is_pinned = ap (λ (x : Frame). x.pin_count) self;
        others = λ j ne. ap (λ (x : Frame). x.pin_count) (frame-set_ne b.frames i j f' ne);
      },
    )

fill_lem :
    (b : BufferPool) (i id : ℕ) (garbage : Bytes)
    → IsPool b
    → id < table_max_pages
    → i < length b.frames
    → (frame b.frames i).page_id ≡ no_page
    → index_of id b.frames ≡ none
    → Outcome b id (fill b i id garbage)
unfolding fill
fill_lem b i id garbage ok small hi empty absent =
    let self = frame-set_self b.frames i (filled b i id garbage hi ok) hi in
    inr (
      i,
      refl,
      record {
        keeps = fill-Keeps b i id garbage hi ok empty small absent;
        page =
            ap (λ (x : Frame). x.page) self
            ∙ ap some
                ((pager_read_whole b.pager id garbage small).1 ∙ sym (content_absent b id absent));
        is_id = ap (λ (x : Frame). x.page_id) self;
        is_pinned = omega (arith, ap (λ (x : Frame). x.pin_count) self, ok.free i empty);
        others = λ j ne.
            ap (λ (x : Frame). x.pin_count)
              (frame-set_ne b.frames i j (filled b i id garbage hi ok) ne);
      },
    )

-- The outcome after a step that kept the pool's pages.
after_Keeps :
    (b c : BufferPool) (id : ℕ) (r : BufferPool × Option ℕ)
    → id < table_max_pages
    → Keeps b c
    → (IsStuck c → IsStuck b)
    → ((j : ℕ) → (frame c.frames j).pin_count ≡ (frame b.frames j).pin_count)
    → Outcome c id r
    → Outcome b id r
after_Keeps b c id r small k stuck pins (inl (e, s, l)) = inl (e, stuck s, Keeps-trans k l)
after_Keeps b c id r small k stuck pins (inr (i, e, g)) = inr (
  i,
  e,
  record {
    keeps = Keeps-trans k g.keeps;
    page = g.page ∙ ap some (k.contents id small);
    is_id = g.is_id;
    is_pinned = g.is_pinned ∙ ap (λ n. n + 1) (pins i);
    others = λ j ne. g.others j ne ∙ pins j;
  },
)

-- The pool once the frame `v` was evicted.
abbrev victim_gone : BufferPool → ℕ → BufferPool
victim_gone b v = replaced b (write_back b.pager (frame b.frames v)) v (cleared (frame b.frames v))

load_page_free :
    (b : BufferPool) (id : ℕ) (garbage : Bytes) (i : ℕ)
    → index_of no_page b.frames ≡ some i
    → load_page b id garbage ≡ fill b i id garbage
unfolding load_page
load_page_free b id garbage i e = rw (e, load_page)

load_page_full :
    (b : BufferPool) (id : ℕ) (garbage : Bytes)
    → index_of no_page b.frames ≡ none
    → load_page b id garbage ≡ fill_evicted (evict b) id garbage
unfolding load_page
load_page_full b id garbage e = rw (e, load_page)

evict-none : (b : BufferPool) → lru_scan b.frames 0 max_time none ≡ none → evict b ≡ (b, none)
unfolding evict
evict-none b e = rw (e, evict)

evict-some :
    (b : BufferPool) (v : ℕ)
    → lru_scan b.frames 0 max_time none ≡ some v
    → evict b ≡ (victim_gone b v, some v)
unfolding evict
evict-some b v e = rw (e, evict)

load_page_lem :
    (b : BufferPool) (id : ℕ) (garbage : Bytes)
    → IsPool b
    → id < table_max_pages
    → index_of id b.frames ≡ none
    → Outcome b id (load_page b id garbage)
unfolding fill_evicted
load_page_lem b id garbage ok small absent = elim (Option-cases (index_of no_page b.frames)) [
  | inr (i, e) ↦
      let (hi, empty) = index_of-some no_page b.frames i e in
      rw (load_page_free b id garbage i e) (fill_lem b i id garbage ok small hi empty absent)
  | inl full ↦ elim (lru_scan_lem b.frames) [
    | inl (e, n) ↦
        rw (load_page_full b id garbage full, evict-none b e)
          (inl (refl, ((λ j h. index_of-none no_page b.frames j full h), n), Keeps-refl ok))
    | inr (v, e, lru) ↦
        rw (load_page_full b id garbage full, evict-some b v e) (refilled v lru full)
  ]
]
  where
    refilled :
        (v : ℕ)
        → IsLru b.frames v
        → index_of no_page b.frames ≡ none
        → Outcome b id (fill (victim_gone b v) v id garbage)
    refilled v lru full =
        let c = victim_gone b v in
        let f' = cleared (frame b.frames v) in
        let hv = lru.in_range in
        let used = index_of-none no_page b.frames v full hv in
        let k = evict-Keeps b v hv ok used lru.unpinned in
        let len : v < length c.frames = rw (length-set b.frames v f') hv in
        let empty : (frame c.frames v).page_id ≡ no_page =
          ap (λ (x : Frame). x.page_id) (frame-set_self b.frames v f' hv) in
        let pins : (j : ℕ) → (frame c.frames j).pin_count ≡ (frame b.frames j).pin_count = λ j.
          elim (ℕ_discrete v j) [
            | yes same ↦
                subst (λ n. (frame c.frames n).pin_count ≡ (frame b.frames n).pin_count) same
                  (ap (λ (x : Frame). x.pin_count) (frame-set_self b.frames v f' hv)
                    ∙ sym lru.unpinned)
            | no ne ↦ ap (λ (x : Frame). x.pin_count) (frame-set_ne b.frames v j f' ne)
          ] in
        let gone : index_of id c.frames ≡ none =
          index_of_same id b.frames v f' (ground (arith, index_of-none id b.frames v absent hv))
          ∙ absent in
        after_Keeps b c id _ small k (λ s. absurd (s.0 v len empty)) pins
          (fill_lem c v id garbage k.valid small len empty gone)

-- A page in range is asked for from a valid pool. Either the caller gets a slot that holds the bytes
-- of that page, from the pool or the file, with one more pin than the slot had and every other slot's
-- pins as they were, or every slot is taken by a page that cannot be evicted and the
-- caller gets NULL. In both cases every page stands for the same bytes as before, what was changed
-- in an evicted frame included, each pinned frame still holds its page, and the pool is valid.
pub get_page_lem :
    (b : BufferPool) (id : ℕ) (garbage : Bytes)
    → IsPool b
    → id < table_max_pages
    → Outcome b id (get_page b id garbage)
unfolding get_page
get_page_lem b id garbage ok small =
    after_Keeps b (ticked b) id _ small (ticked-Keeps b ok) (λ s. s) (λ j. refl)
      (by_cases (Option-cases (index_of id b.frames)))
  where
    by_cases :
        (index_of id b.frames ≡ none) ⊎ ((i : ℕ) × (index_of id b.frames ≡ some i))
        → Outcome (ticked b) id (get_page b id garbage)
    by_cases (inl e) =
        rw (e, get_page) (load_page_lem (ticked b) id garbage (ticked-Keeps b ok).valid small e)
    by_cases (inr (i, e)) =
        rw (e, get_page) (touch_lem (ticked b) id i (ticked-Keeps b ok).valid small e)
