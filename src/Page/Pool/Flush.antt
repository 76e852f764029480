-- ===== src/Page/Pool/Flush.antt =====
-- `buffer_pool_flush_all` and `buffer_pool_close` of src/buffer_pool.c bring every page to the file.
use inventixdb.Base.{
  ℕ, suc, ◌<◌, ◌≡◌, ◌≢◌, refl, sym, ap, ◌∙◌, ◌⊎◌, inl, inr, true, false, List, [], ◌∷◌, none, some,
  arith, Bytes, ◌==◌, ==_iff, Bool-cases, Option-cases, ℕ_discrete, subst,
}
use inventixdb.Page.Pager.{Pager, table_max_pages, pager_read, pager_open}
use inventixdb.Page.Pager.ReadWrite.{pager_read-pager_write}
use inventixdb.Page.Pool.{
  BufferPool, Frame, frame, no_page, index_of, write_back, flush_frames, flush_all, close,
  buffer_pool_init,
}
use inventixdb.Page.Pool.Inv.{IsPool, Held, content, page_bytes, index_of-some}

-- What the invariant of the pool says of a list of frames.
abbrev Frames : Pager → List Frame → Type 0
Frames g [] = Unit
Frames g (f ∷ fs) = (f.page_id ≢ no_page → Held g f × (index_of f.page_id fs ≡ none)) × Frames g fs

-- The content of a page over these frames and this file.
content_of : Pager → List Frame → ℕ → Bytes
content_of g fs q = elim (index_of q fs) [
  | some i ↦ page_bytes (frame fs i).page
  | none ↦ pager_read g q []
]

pool-Frames :
    (g : Pager) (fs : List Frame)
    → ((i j : ℕ)
        → (frame fs i).page_id ≡ (frame fs j).page_id
        → (frame fs i).page_id ≢ no_page
        → i ≡ j)
    → ((i : ℕ) → (frame fs i).page_id ≢ no_page → Held g (frame fs i))
    → Frames g fs
pool-Frames g [] distinct held = tt
pool-Frames g (f ∷ fs) distinct held = (
  λ used. (held 0 used, alone used (Option-cases (index_of f.page_id fs))),
  pool-Frames g fs (λ i j e used. ground (arith, distinct (suc i) (suc j) e used))
      (λ i. held (suc i)),
)
  where
    alone :
        f.page_id ≢ no_page
        → (index_of f.page_id fs ≡ none) ⊎ ((i : ℕ) × (index_of f.page_id fs ≡ some i))
        → index_of f.page_id fs ≡ none
    alone used (inl e) = e
    alone used (inr (i, e)) =
        absurd (omega (arith, distinct 0 (suc i) (sym (index_of-some f.page_id fs i e).1) used))

-- The file after one frame was written back.
write_back_lem :
    (g : Pager) (f : Frame) (h : Held g f)
    → (pager_read (write_back g f) f.page_id [] ≡ h.bytes)
      × ((q : ℕ)
          → q < table_max_pages
          → f.page_id ≢ q
          → pager_read (write_back g f) q [] ≡ pager_read g q [])
unfolding write_back
write_back_lem g f h = elim (Bool-cases f.is_dirty) [
  | inl dirty ↦
      rw (dirty, h.is_page)
        (
          (pager_read-pager_write g f.page_id f.page_id h.bytes [] h.id_lt h.id_lt h.whole).0,
          λ q hq ne. (pager_read-pager_write g f.page_id q h.bytes [] h.id_lt hq h.whole).1 ne,
        )
  | inr clean ↦ rw clean (h.clean clean, λ q hq ne. refl)
]

index_of_cons_none :
    (id : ℕ) (f : Frame) (fs : List Frame)
    → index_of id (f ∷ fs) ≡ none
    → (f.page_id ≢ id) × (index_of id fs ≡ none)
unfolding index_of
index_of_cons_none id f fs e = ground (arith, Option-cases (index_of id fs))

-- The other frames hold what they held.
keep_Frames :
    (g : Pager) (f : Frame) (h : Held g f) (fs : List Frame)
    → index_of f.page_id fs ≡ none
    → Frames g fs
    → Frames (write_back g f) fs
keep_Frames g f h [] alone k = tt
keep_Frames g f h (e ∷ fs) alone k = (
  λ used. (held_after used (k.0 used).0, (k.0 used).1),
  keep_Frames g f h fs (index_of_cons_none f.page_id e fs alone).1 k.1,
)
  where
    apart : e.page_id ≢ f.page_id
    apart = (index_of_cons_none f.page_id e fs alone).0

    held_after : e.page_id ≢ no_page → Held g e → Held (write_back g f) e
    held_after used m = record {
      bytes = m.bytes;
      is_page = m.is_page;
      whole = m.whole;
      id_lt = m.id_lt;
      clean = λ c. (write_back_lem g f h).1 e.page_id m.id_lt (λ z. apart (sym z)) ∙ m.clean c;
    }

content_of_self :
    (g : Pager) (f : Frame) (fs : List Frame) → content_of g (f ∷ fs) f.page_id ≡ page_bytes f.page
unfolding content_of index_of
content_of_self g f fs = rw ((==_iff f.page_id f.page_id).1 refl, content_of)

content_of_absent :
    (g : Pager) (fs : List Frame) (q : ℕ)
    → index_of q fs ≡ none
    → content_of g fs q ≡ pager_read g q []
unfolding content_of
content_of_absent g fs q e = rw (e, content_of)

content_of_cons :
    (g : Pager) (f : Frame) (fs : List Frame) (q : ℕ)
    → f.page_id ≢ q
    → content_of g (f ∷ fs) q ≡ content_of g fs q
unfolding content_of index_of
content_of_cons g f fs q ne = elim (Option-cases (index_of q fs)) [
  | inl e ↦ rw (differs, e, index_of, content_of)
  | inr (i, e) ↦ rw (differs, e, index_of, content_of)
]
  where
    differs : (f.page_id == q) ≡ false
    differs = ground arith

content_of_file :
    (g h : Pager) (fs : List Frame) (q : ℕ)
    → pager_read g q [] ≡ pager_read h q []
    → content_of g fs q ≡ content_of h fs q
unfolding content_of
content_of_file g h fs q same = elim (Option-cases (index_of q fs)) [
  | inl e ↦ rw (e, content_of) same
  | inr (i, e) ↦ rw (e, content_of)
]

same_content : (b : BufferPool) (q : ℕ) → content_of b.pager b.frames q ≡ content b q
unfolding content_of content
same_content b q = refl

-- A pool that was just opened stands for its file.
content_init :
    (b : BufferPool) (q : ℕ)
    → q < table_max_pages
    → content (buffer_pool_init b.pager.file) q ≡ pager_read b.pager q []
unfolding content buffer_pool_init index_of pager_open pager_read
content_init b q hq = ground arith

flush_frames_lem :
    (g : Pager) (fs : List Frame) (q : ℕ)
    → Frames g fs
    → q < table_max_pages
    → pager_read (flush_frames g fs).0 q [] ≡ content_of g fs q
unfolding flush_frames index_of
flush_frames_lem g [] q k hq = sym (content_of_absent g [] q refl)
flush_frames_lem g (f ∷ fs) q k hq = elim (ℕ_discrete f.page_id no_page) [
  | yes unused ↦
      rw (unused_test unused)
        (flush_frames_lem g fs q k.1 hq ∙ sym (content_of_cons g f fs q (λ z. omega arith)))
  | no used ↦
      let (h, alone) = k.0 used in
      rw (used_test used) (
        flushed h alone
          (flush_frames_lem (write_back g f) fs q (keep_Frames g f h fs alone k.1) hq))
]
  where
    unused_test : f.page_id ≡ no_page → (f.page_id == no_page) ≡ true
    unused_test e = ground arith

    used_test : f.page_id ≢ no_page → (f.page_id == no_page) ≡ false
    used_test ne = ground arith

    flushed :
        (h : Held g f)
        → index_of f.page_id fs ≡ none
        → pager_read (flush_frames (write_back g f) fs).0 q [] ≡ content_of (write_back g f) fs q
        → pager_read (flush_frames (write_back g f) fs).0 q [] ≡ content_of g (f ∷ fs) q
    flushed h alone ih = elim (ℕ_discrete f.page_id q) [
      | yes same ↦
          let absent = subst (λ k. index_of k fs ≡ none) same alone in
          let read =
            subst (λ k. pager_read (write_back g f) k [] ≡ h.bytes) same (write_back_lem g f h).0 in
          ih
          ∙ content_of_absent (write_back g f) fs q absent
          ∙ read
          ∙ sym (
              subst (λ k. content_of g (f ∷ fs) k ≡ h.bytes) same
                (content_of_self g f fs ∙ ap page_bytes h.is_page))
      | no other ↦
          ih
          ∙ content_of_file (write_back g f) g fs q ((write_back_lem g f h).1 q hq other)
          ∙ sym (content_of_cons g f fs q other)
    ]

-- A flush brings the content of every page in range to the file, which is what closing the pool
-- leaves: a pool opened on that file stands for the same pages.
pub content-close :
    (b : BufferPool) (q : ℕ)
    → IsPool b
    → q < table_max_pages
    → (pager_read (flush_all b).pager q [] ≡ content b q)
      × (content (buffer_pool_init (close b)) q ≡ content b q)
unfolding flush_all close
content-close b q ok hq = (flushed, content_init (flush_all b) q hq ∙ flushed)
  where
    flushed : pager_read (flush_all b).pager q [] ≡ content b q
    flushed =
        flush_frames_lem b.pager b.frames q (pool-Frames b.pager b.frames ok.distinct ok.held) hq
        ∙ same_content b q
