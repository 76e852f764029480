-- ===== src/Page/Pool/Replace.antt =====
-- One frame of the pool, and the file, change: what the operations of src/buffer_pool.c share.
use inventixdb.Base.{
  ℕ, ◌<◌, ◌≡◌, ◌≢◌, refl, sym, ap, subst, ◌∙◌, ◌⊎◌, inl, inr, none, some, arith, ◌==◌, [],
  Option-cases, length, set, ℕ_discrete,
}
use inventixdb.Page.Pager.{Pager, pager_read}
use inventixdb.Page.Pool.{BufferPool, Frame, frame, no_page, index_of}
use inventixdb.Page.Pool.Inv.{
  IsPool, Held, content, page_bytes, frame-set_self, frame-set_ne, index_of-some, index_of_same,
  index_of_at,
}

-- Without a frame, the content is that of the file.
pub content_absent :
    (b : BufferPool) (q : ℕ) → index_of q b.frames ≡ none → content b q ≡ pager_read b.pager q []
unfolding content
content_absent b q e = rw (e, content)

pub content_present :
    (b : BufferPool) (q i : ℕ)
    → index_of q b.frames ≡ some i
    → content b q ≡ page_bytes (frame b.frames i).page
unfolding content
content_present b q i e = rw (e, content)

abbrev pub replaced : BufferPool → Pager → ℕ → Frame → BufferPool
replaced b g i f = record b { pager = g; frames = set b.frames i f }

module _ (b : BufferPool) (g : Pager) (i : ℕ) (f : Frame) (hi : i < length b.frames) where
  at_self : frame (set b.frames i f) i ≡ f
  at_self = frame-set_self b.frames i f hi

  at_other : (j : ℕ) → i ≢ j → frame (set b.frames i f) j ≡ frame b.frames j
  at_other j ne = frame-set_ne b.frames i j f ne

  pub replace-IsPool :
      IsPool b
      → ((j : ℕ) → i ≢ j → (frame b.frames j).page_id ≢ no_page → Held g (frame b.frames j))
      → (f.page_id ≢ no_page → Held g f)
      → (f.page_id ≡ no_page → f.pin_count ≡ 0)
      → ((j : ℕ) → i ≢ j → f.page_id ≡ (frame b.frames j).page_id → f.page_id ≡ no_page)
      → IsPool (replaced b g i f)
  replace-IsPool ok others own empty new = record {
    distinct = distinct;
    held = λ j used. elim (ℕ_discrete i j) [
      | yes same ↦
          subst (λ k. Held g (frame (set b.frames i f) k)) same
            (rw at_self (own (rw (← same, at_self) at used)))
      | no ne ↦ rw (at_other j ne) (others j ne (rw (at_other j ne) at used))
    ];
    free = λ j unused. elim (ℕ_discrete i j) [
      | yes same ↦ rw (← same, at_self) (empty (rw (← same, at_self) at unused))
      | no ne ↦ rw (at_other j ne) (ok.free j (rw (at_other j ne) at unused))
    ];
  }
    where
      distinct :
          (j k : ℕ)
          → (frame (set b.frames i f) j).page_id ≡ (frame (set b.frames i f) k).page_id
          → (frame (set b.frames i f) j).page_id ≢ no_page
          → j ≡ k
      distinct j k e used = elim (ℕ_discrete i j) [
        | yes ij ↦ elim (ℕ_discrete i k) [
          | yes ik ↦ sym ij ∙ ik
          | no nk ↦
              let used' = rw (← ij, at_self) at used in
              let e' = rw (← ij, at_self, at_other k nk) at e in absurd (used' (new k nk e'))
        ]
        | no nj ↦ elim (ℕ_discrete i k) [
          | yes ik ↦
              let used' = rw (at_other j nj) at used in
              let e' = rw (← ik, at_self, at_other j nj) at e in
              absurd (used' (e' ∙ new j nj (sym e')))
          | no nk ↦
              ok.distinct j k (rw (at_other j nj, at_other k nk) at e) (rw (at_other j nj) at used)
        ]
      ]

  -- A page that neither the old frame nor the new one holds.
  pub replace-content_other :
      (q : ℕ)
      → (frame b.frames i).page_id ≢ q
      → f.page_id ≢ q
      → pager_read g q [] ≡ pager_read b.pager q []
      → content (replaced b g i f) q ≡ content b q
  replace-content_other q old new file = by_cases (Option-cases (index_of q b.frames))
    where
      same_index : index_of q (set b.frames i f) ≡ index_of q b.frames
      same_index = index_of_same q b.frames i f (ground arith)

      by_cases :
          (index_of q b.frames ≡ none) ⊎ ((j : ℕ) × (index_of q b.frames ≡ some j))
          → content (replaced b g i f) q ≡ content b q
      by_cases (inl e) =
          content_absent (replaced b g i f) q (same_index ∙ e) ∙ file ∙ sym (content_absent b q e)
      by_cases (inr (j, e)) =
          let apart : i ≢ j = λ same.
            old (ap (λ k. (frame b.frames k).page_id) same ∙ (index_of-some q b.frames j e).1) in
          content_present (replaced b g i f) q j (same_index ∙ e)
          ∙ ap (λ (x : Frame). page_bytes x.page) (at_other j apart)
          ∙ sym (content_present b q j e)

  -- The page that both hold.
  pub replace-content_same :
      IsPool b
      → (frame b.frames i).page_id ≢ no_page
      → f.page_id ≡ (frame b.frames i).page_id
      → f.page ≡ (frame b.frames i).page
      → content (replaced b g i f) (frame b.frames i).page_id ≡ content b (frame b.frames i).page_id
  replace-content_same ok used same page =
      let id = (frame b.frames i).page_id in
      let found = index_of_at b i id ok refl used in
      content_present (replaced b g i f) id i
        (index_of_same id b.frames i f (ap (λ t. t == id) same) ∙ found)
      ∙ ap (λ (x : Frame). page_bytes x.page) at_self
      ∙ ap page_bytes page
      ∙ sym (content_present b id i found)

  -- A page that the new frame holds, and no other frame did.
  pub replace-content_new :
      (ok' : IsPool (replaced b g i f))
      → f.page_id ≢ no_page
      → content (replaced b g i f) f.page_id ≡ page_bytes f.page
  replace-content_new ok' used =
      content_present (replaced b g i f) f.page_id i
        (index_of_at (replaced b g i f) i f.page_id ok' (ap (λ x. x.page_id) at_self) used)
      ∙ ap (λ (x : Frame). page_bytes x.page) at_self
