-- ===== src/Page/Pool.antt =====
-- The buffer pool (src/buffer_pool.c, include/buffer_pool.h). The parallel arrays of `BufferPool`
-- are one list of frames, and a page pointer is the index of the frame that holds the page.
pub mod Inv
pub mod Replace
pub mod Keep
pub mod Get
pub mod Flush
use inventixdb.Base.{
  ℕ, suc, ◌+◌, ◌-◌, ◌^◌, Bool, true, false, ◌&&◌, not, List, [], ◌∷◌, Option, none, some, Bytes,
  ltb, ◌==◌, if◌then◌else◌, get_or, set, replicate,
}
use inventixdb.Page.Pager.{Pager, pager_open, pager_read, pager_write}

abbrev pub pool_size : ℕ
pool_size = 10

-- `UINT32_MAX`, the page id of an empty slot
abbrev pub no_page : ℕ
no_page = 2 ^ 32 - 1

-- Slot `i` of `pages`, `page_ids`, `is_dirty`, `pin_count` and `last_used`
pub record Frame : Type 0 where
  pub page : Option Bytes
  pub page_id : ℕ
  pub is_dirty : Bool
  pub pin_count : ℕ
  pub last_used : ℕ

-- `BufferPool`
pub record BufferPool : Type 0 where
  pub pager : Pager
  pub frames : List Frame
  pub clock : ℕ

abbrev pub empty_frame : Frame
empty_frame = record {
  page = none;
  page_id = no_page;
  is_dirty = false;
  pin_count = 0;
  last_used = 0;
}

abbrev pub frame : List Frame → ℕ → Frame
frame fs i = get_or fs i empty_frame

-- `buffer_pool_init`
unfoldable pub buffer_pool_init : Bytes → BufferPool
buffer_pool_init file = record {
  pager = pager_open file;
  frames = replicate pool_size empty_frame;
  clock = 0;
}

abbrev pub next_index : Option ℕ → Option ℕ
next_index none = none
next_index (some i) = some (suc i)

-- `for (i = 0; i < POOL_SIZE; i++) if (page_ids[i] == id) …`: the first such slot
unfoldable pub index_of : ℕ → List Frame → Option ℕ
index_of id [] = none
index_of id (f ∷ fs) = if f.page_id == id then some 0 else next_index (index_of id fs)

-- The scan of `buffer_pool_evict` from slot `i` on, with `min_time` and `lru_idx` so far
unfoldable pub lru_scan : List Frame → ℕ → ℕ → Option ℕ → Option ℕ
lru_scan [] i min_time lru = lru
lru_scan (f ∷ fs) i min_time lru =
    let better = (f.pin_count == 0) && ltb f.last_used min_time in
    lru_scan fs (i + 1) (if better then f.last_used else min_time) (if better then some i else lru)

abbrev pub max_time : ℕ
max_time = 0x7FFFFFFF

abbrev pub write_page : Pager → ℕ → Option Bytes → Pager
write_page g id none = g
write_page g id (some page) = pager_write g id page

-- `if (is_dirty[i]) pager_write(…)`. A dirty slot without a page, where the code would write from
-- NULL, is ruled out by `Inv.IsPool`.
unfoldable pub write_back : Pager → Frame → Pager
write_back g f = if f.is_dirty then write_page g f.page_id f.page else g

abbrev pub cleared : Frame → Frame
cleared f = record f { page = none; page_id = no_page; is_dirty = false; pin_count = 0 }

-- `buffer_pool_evict`; `none` is -1
unfoldable pub evict : BufferPool → BufferPool × Option ℕ
evict b = elim (lru_scan b.frames 0 max_time none) [
  | none ↦ (b, none)
  | some i ↦ (
    record b {
      pager = write_back b.pager (frame b.frames i);
      frames = set b.frames i (cleared (frame b.frames i));
    },
    some i,
  )
]

abbrev pub update : BufferPool → ℕ → Frame → BufferPool
update b i f = record b { frames = set b.frames i f }

-- `pages[i]`, which is NULL in an empty slot
abbrev pub pointer : ℕ → Option Bytes → Option ℕ
pointer i none = none
pointer i (some page) = some i

-- The page is in slot `i`: `last_used[i] = clock; pin_count[i]++; return pages[i]`.
unfoldable pub touch : BufferPool → ℕ → BufferPool × Option ℕ
touch b i =
    let f = frame b.frames i in
    (update b i (record f { pin_count = f.pin_count + 1; last_used = b.clock }), pointer i f.page)

-- The page is read into slot `i`; `garbage` is what `malloc` returned.
unfoldable pub fill : BufferPool → ℕ → ℕ → Bytes → BufferPool × Option ℕ
fill b i id garbage = (
  update b i (record {
    page = some (pager_read b.pager id garbage);
    page_id = id;
    is_dirty = false;
    pin_count = 1;
    last_used = b.clock;
  }),
  some i,
)

-- `if (slot == -1) return NULL`
unfoldable pub fill_evicted : BufferPool × Option ℕ → ℕ → Bytes → BufferPool × Option ℕ
fill_evicted (b, none) id garbage = (b, none)
fill_evicted (b, some i) id garbage = fill b i id garbage

-- A free slot is filled, or else an evicted one.
unfoldable pub load_page : BufferPool → ℕ → Bytes → BufferPool × Option ℕ
load_page b id garbage = elim (index_of no_page b.frames) [
  | some i ↦ fill b i id garbage
  | none ↦ fill_evicted (evict b) id garbage
]

-- `buffer_pool_get_page`; `none` is NULL
unfoldable pub get_page : BufferPool → ℕ → Bytes → BufferPool × Option ℕ
get_page b id garbage =
    let ticked = record b { clock = b.clock + 1 } in
    elim (index_of id b.frames) [ some i ↦ touch ticked i | none ↦ load_page ticked id garbage ]

-- The loops that change the first slot with the page id, if there is one
unfoldable pub update_page : BufferPool → ℕ → (Frame → Frame) → BufferPool
update_page b id change = elim (index_of id b.frames) [
  | none ↦ b
  | some i ↦ update b i (change (frame b.frames i))
]

-- `buffer_pool_pin`
unfoldable pub pin : BufferPool → ℕ → BufferPool
pin b id = update_page b id (λ f. record f { pin_count = f.pin_count + 1 })

-- `buffer_pool_unpin`; the count stops at 0, as subtraction does
unfoldable pub unpin : BufferPool → ℕ → BufferPool
unpin b id = update_page b id (λ f. record f { pin_count = f.pin_count - 1 })

-- `buffer_pool_mark_dirty`
unfoldable pub mark_dirty : BufferPool → ℕ → BufferPool
mark_dirty b id = update_page b id (λ f. record f { is_dirty = true })

-- The loop of `buffer_pool_flush_all`
unfoldable pub flush_frames : Pager → List Frame → Pager × List Frame
flush_frames g [] = (g, [])
flush_frames g (f ∷ fs) =
    let g' = if not (f.page_id == no_page) then write_back g f else g in
    let f' = if not (f.page_id == no_page) then record f { is_dirty = false } else f in
    let (g'', fs') = flush_frames g' fs in (g'', f' ∷ fs')

-- `buffer_pool_flush_all`
unfoldable pub flush_all : BufferPool → BufferPool
flush_all b = let (g, fs) = flush_frames b.pager b.frames in record b { pager = g; frames = fs }

-- `buffer_pool_close`: what is left is the file.
unfoldable pub close : BufferPool → Bytes
close b = (flush_all b).pager.file
