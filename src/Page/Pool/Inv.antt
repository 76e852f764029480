-- ===== src/Page/Pool/Inv.antt =====
-- The invariant of the buffer pool (src/buffer_pool.c), and the pages that a pool stands for.
pub mod Evict
use inventixdb.Base.{
  ℕ, zero, suc, ◌+◌, ◌^◌, ◌<◌, ◌≡◌, ◌≢◌, refl, sym, ap, subst, ◌∙◌, ◌⊎◌, inl, inr, Bool, true,
  false, List, [], ◌∷◌, Option, none, some, arith, Bytes, ◌==◌, ==_iff, Bool-cases, Option-cases,
  if◌then◌else◌, length, set, get_or-set_self, get_or-set_ne, ℕ_discrete,
}
use inventixdb.Page.Pager.{Pager, page_size, table_max_pages, pager_read}
use inventixdb.Page.Pool.{BufferPool, Frame, empty_frame, frame, no_page, index_of, next_index}

-- An occupied frame: its page, whole, is that of the file unless it was changed.
pub record Held (g : Pager) (f : Frame) : Type 0 where
  pub bytes : Bytes
  pub is_page : f.page ≡ some bytes
  pub whole : length bytes ≡ page_size
  pub id_lt : f.page_id < table_max_pages
  pub clean : f.is_dirty ≡ false → pager_read g f.page_id [] ≡ bytes

pub record IsPool (b : BufferPool) : Type 0 where
  pub distinct :
      (i j : ℕ)
      → (frame b.frames i).page_id ≡ (frame b.frames j).page_id
      → (frame b.frames i).page_id ≢ no_page
      → i ≡ j
  pub held : (i : ℕ) → (frame b.frames i).page_id ≢ no_page → Held b.pager (frame b.frames i)
  pub free : (i : ℕ) → (frame b.frames i).page_id ≡ no_page → (frame b.frames i).pin_count ≡ 0

-- The bytes of a page: in its frame if it has one, and else in the file.
abbrev pub page_bytes : Option Bytes → Bytes
page_bytes none = []
page_bytes (some d) = d

unfoldable pub content : BufferPool → ℕ → Bytes
content b q = elim (index_of q b.frames) [
  | some i ↦ page_bytes (frame b.frames i).page
  | none ↦ pager_read b.pager q []
]

pub frame-set_self :
    (fs : List Frame) (i : ℕ) (f : Frame) → i < length fs → frame (set fs i f) i ≡ f
frame-set_self fs i f h = get_or-set_self fs i f empty_frame h

pub frame-set_ne :
    (fs : List Frame) (i j : ℕ) (f : Frame) → i ≢ j → frame (set fs i f) j ≡ frame fs j
frame-set_ne fs i j f ne = get_or-set_ne fs i j f empty_frame ne

pub index_of-some :
    (id : ℕ) (fs : List Frame) (i : ℕ)
    → index_of id fs ≡ some i
    → (i < length fs) × ((frame fs i).page_id ≡ id)
unfolding index_of
index_of-some id [] i e = cc
index_of-some id (f ∷ fs) zero e = ground (arith, Option-cases (index_of id fs))
index_of-some id (f ∷ fs) (suc i) e =
    ground (arith, Option-cases (index_of id fs), index_of-some id fs i)

pub index_of-none :
    (id : ℕ) (fs : List Frame) (i : ℕ)
    → index_of id fs ≡ none
    → i < length fs
    → (frame fs i).page_id ≢ id
unfolding index_of
index_of-none id [] i e h = absurd (omega arith)
index_of-none id (f ∷ fs) zero e h = ground arith
index_of-none id (f ∷ fs) (suc i) e h = ground (arith, index_of-none id fs i)

-- Where the page ids are those of another list, the loop ends at the same slot.
pub index_of_same :
    (id : ℕ) (fs : List Frame) (i : ℕ) (f : Frame)
    → (f.page_id == id) ≡ ((frame fs i).page_id == id)
    → index_of id (set fs i f) ≡ index_of id fs
unfolding index_of
index_of_same id [] i f e = refl
index_of_same id (g ∷ fs) zero f e = rw e
index_of_same id (g ∷ fs) (suc i) f e = rw (index_of_same id fs i f e)

pub frame_outside : (fs : List Frame) (i : ℕ) → (frame fs i).page_id ≢ no_page → i < length fs
frame_outside [] i h = absurd (h refl)
frame_outside (f ∷ fs) zero h = omega arith
frame_outside (f ∷ fs) (suc i) h = omega (arith, frame_outside fs i h)

-- In a pool each page has one frame, which the loops find.
pub index_of_at :
    (b : BufferPool) (i id : ℕ)
    → IsPool b
    → (frame b.frames i).page_id ≡ id
    → id ≢ no_page
    → index_of id b.frames ≡ some i
index_of_at b i id ok e ne = elim (Option-cases (index_of id b.frames)) [
  | inl missing ↦
      absurd
        (index_of-none id b.frames i missing (frame_outside b.frames i (λ z. ne (sym e ∙ z))) e)
  | inr (j, found) ↦
      let (_, ej) = index_of-some id b.frames j found in
      found ∙ ap some (ok.distinct j i (ej ∙ sym e) (λ z. ne (sym ej ∙ z)))
]
