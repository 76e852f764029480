-- ===== src/Page/Pool/Keep.antt =====
-- The parts of `buffer_pool_get_page` (src/buffer_pool.c) each keep the pool's pages.
use inventixdb.Base.{
  ℕ, ◌<◌, ◌≤◌, ◌≡◌, ◌≢◌, refl, sym, ap, subst, ◌∙◌, inl, inr, false, none, some, [], arith, Bytes,
  Bool-cases, Option-cases, length, ℕ_discrete,
}
use inventixdb.Page.Pager.{table_max_pages, pager_read}
use inventixdb.Page.Pager.ReadWrite.{pager_read-pager_write, pager_read_whole}
use inventixdb.Page.Pool.{BufferPool, Frame, frame, no_page, index_of, write_back, cleared}
use inventixdb.Page.Pool.Inv.{
  IsPool, Held, content, page_bytes, frame-set_self, frame-set_ne, index_of-some, index_of-none,
  index_of_at, frame_outside,
}
use inventixdb.Page.Pool.Replace.{
  replaced, replace-IsPool, replace-content_other, replace-content_same, replace-content_new,
  content_absent, content_present,
}

-- The pool `c` stands for the same pages as `b`, and a frame pinned in `b` still holds its page.
pub record Keeps (b c : BufferPool) : Type 0 where
  pub valid : IsPool c
  pub contents : (q : ℕ) → q < table_max_pages → content c q ≡ content b q
  pub pinned :
      (i : ℕ)
      → 0 < (frame b.frames i).pin_count
      → ((frame c.frames i).page ≡ (frame b.frames i).page)
        × ((frame c.frames i).page_id ≡ (frame b.frames i).page_id)
        × ((frame b.frames i).pin_count ≤ (frame c.frames i).pin_count)

pub Keeps-trans : {b c d : BufferPool} → Keeps b c → Keeps c d → Keeps b d
Keeps-trans {b} {c} {d} k l = record {
  valid = l.valid;
  contents = λ q h. l.contents q h ∙ k.contents q h;
  pinned = λ i h.
      let p = k.pinned i h in
      let r = l.pinned i (omega (arith, p)) in (r.0 ∙ p.0, r.1 ∙ p.1, omega (arith, p, r));
}

pub Keeps-refl : {b : BufferPool} → IsPool b → Keeps b b
Keeps-refl ok = record {
  valid = ok;
  contents = λ q h. refl;
  pinned = λ i h. (refl, refl, omega arith);
}

-- A change of one frame that leaves its page, its id and its file alone.
module _ (b : BufferPool) (i : ℕ) (f : Frame) (hi : i < length b.frames) (ok : IsPool b)
    (used : (frame b.frames i).page_id ≢ no_page) (id : f.page_id ≡ (frame b.frames i).page_id)
    (page : f.page ≡ (frame b.frames i).page)
    (dirty : f.is_dirty ≡ false → (frame b.frames i).is_dirty ≡ false) where
  pub same_page-IsPool : IsPool (replaced b b.pager i f)
  same_page-IsPool =
      replace-IsPool b b.pager i f hi ok (λ j ne. ok.held j) (λ _. own)
        (λ z. absurd (used (sym id ∙ z)))
        (λ j ne e. absurd (ne (ok.distinct i j (sym id ∙ e) used)))
    where
      h : Held b.pager (frame b.frames i)
      h = ok.held i used

      own : Held b.pager f
      own = record {
        bytes = h.bytes;
        is_page = page ∙ h.is_page;
        whole = h.whole;
        id_lt = rw id h.id_lt;
        clean = λ c. rw id (h.clean (dirty c));
      }

  pub same_page-content : (q : ℕ) → content (replaced b b.pager i f) q ≡ content b q
  same_page-content q = elim (ℕ_discrete (frame b.frames i).page_id q) [
    | yes same ↦
        subst (λ k. content (replaced b b.pager i f) k ≡ content b k) same
          (replace-content_same b b.pager i f hi ok used id page)
    | no other ↦ replace-content_other b b.pager i f hi q other (λ z. other (sym id ∙ z)) refl
  ]

  pub same_page-Keeps :
      (frame b.frames i).pin_count ≤ f.pin_count → Keeps b (replaced b b.pager i f)
  same_page-Keeps pin = record {
    valid = same_page-IsPool;
    contents = λ q hq. same_page-content q;
    pinned = λ j h. elim (ℕ_discrete i j) [
      | yes same ↦
          let e = ap (λ k. frame b.frames k) (sym same) in
          let e' =
            ap (λ k. frame (replaced b b.pager i f).frames k) (sym same)
            ∙ frame-set_self b.frames i f hi in
          (
            ap (λ (x : Frame). x.page) e' ∙ page ∙ ap (λ (x : Frame). x.page) (sym e),
            ap (λ (x : Frame). x.page_id) e' ∙ id ∙ ap (λ (x : Frame). x.page_id) (sym e),
            omega (arith, ap (λ (x : Frame). x.pin_count) e, ap (λ (x : Frame). x.pin_count) e'),
          )
      | no ne ↦ rw (frame-set_ne b.frames i j f ne) (refl, refl, omega arith)
    ];
  }

-- A page is read into a free frame.
module _ (b : BufferPool) (i id : ℕ) (garbage : Bytes) (hi : i < length b.frames)
    (ok : IsPool b) where
  abbrev pub filled : Frame
  filled = record {
    page = some (pager_read b.pager id garbage);
    page_id = id;
    is_dirty = false;
    pin_count = 1;
    last_used = b.clock;
  }

  pub fill-Keeps :
      (frame b.frames i).page_id ≡ no_page
      → id < table_max_pages
      → index_of id b.frames ≡ none
      → Keeps b (replaced b b.pager i filled)
  fill-Keeps empty small absent = record {
    valid = valid;
    contents = λ q hq. elim (ℕ_discrete id q) [
      | yes same ↦
          subst (λ k. content (replaced b b.pager i filled) k ≡ content b k) same
            (replace-content_new b b.pager i filled hi valid (omega arith)
              ∙ (pager_read_whole b.pager id garbage small).1
              ∙ sym (content_absent b id absent))
      | no other ↦ replace-content_other b b.pager i filled hi q (λ z. omega arith) other refl
    ];
    pinned = λ j h. elim (ℕ_discrete i j) [
      | yes same ↦
          absurd (omega (arith, ok.free i empty, ap (λ k. (frame b.frames k).pin_count) same))
      | no ne ↦ rw (frame-set_ne b.frames i j filled ne) (refl, refl, omega arith)
    ];
  }
    where
      own : Held b.pager filled
      own = record {
        bytes = pager_read b.pager id garbage;
        is_page = refl;
        whole = (pager_read_whole b.pager id garbage small).0;
        id_lt = small;
        clean = λ _. sym (pager_read_whole b.pager id garbage small).1;
      }

      valid : IsPool (replaced b b.pager i filled)
      valid =
          replace-IsPool b b.pager i filled hi ok (λ j ne. ok.held j) (λ _. own) (λ z. omega arith)
            (λ j ne e. absurd (
              index_of-none id b.frames j absent
                (frame_outside b.frames j (λ z. omega (arith, z, e, small))) (sym e)))

-- The victim of an eviction is written back if it was changed, and leaves the pool.
module _ (b : BufferPool) (v : ℕ) (hv : v < length b.frames) (ok : IsPool b) where
  -- The file after the eviction: the victim's page is what its frame held, and no other changed.
  written :
      (h : Held b.pager (frame b.frames v))
      → (pager_read (write_back b.pager (frame b.frames v)) (frame b.frames v).page_id [] ≡ h.bytes)
        × ((q : ℕ)
            → q < table_max_pages
            → (frame b.frames v).page_id ≢ q
            → pager_read (write_back b.pager (frame b.frames v)) q [] ≡ pager_read b.pager q [])
  unfolding write_back
  written h = elim (Bool-cases (frame b.frames v).is_dirty) [
    | inl dirty ↦
        rw (dirty, h.is_page)
          (
            (pager_read-pager_write b.pager _ _ h.bytes [] h.id_lt h.id_lt h.whole).0,
            λ q hq ne. (pager_read-pager_write b.pager _ q h.bytes [] h.id_lt hq h.whole).1 ne,
          )
    | inr clean ↦ rw clean (h.clean clean, λ q hq ne. refl)
  ]

  abbrev pub evicted : BufferPool
  evicted = replaced b (write_back b.pager (frame b.frames v)) v (cleared (frame b.frames v))

  pub evict-Keeps :
      (frame b.frames v).page_id ≢ no_page → (frame b.frames v).pin_count ≡ 0 → Keeps b evicted
  evict-Keeps used unpinned = record {
    valid = valid;
    contents = λ q hq. elim (ℕ_discrete (frame b.frames v).page_id q) [
      | yes same ↦
          subst (λ k. content evicted k ≡ content b k) same
            (content_absent evicted _ gone
              ∙ (written h).0
              ∙ sym (
                  content_present b _ v (index_of_at b v _ ok refl used) ∙ ap page_bytes h.is_page))
      | no other ↦
          replace-content_other b evicted.pager v (cleared (frame b.frames v)) hv q other
            (λ z. omega arith) ((written h).1 q hq other)
    ];
    pinned = λ j p. elim (ℕ_discrete v j) [
      | yes same ↦ absurd (omega (arith, ap (λ k. (frame b.frames k).pin_count) same))
      | no ne ↦ rw (frame-set_ne b.frames v j _ ne) (refl, refl, omega arith)
    ];
  }
    where
      h : Held b.pager (frame b.frames v)
      h = ok.held v used

      not_here : (j : ℕ) → (frame evicted.frames j).page_id ≢ (frame b.frames v).page_id
      not_here j e = elim (ℕ_discrete v j) [
        | yes same ↦ used (
            sym e
            ∙ ap (λ k. (frame evicted.frames k).page_id) (sym same)
            ∙ ap (λ (x : Frame). x.page_id)
                (frame-set_self b.frames v (cleared (frame b.frames v)) hv))
        | no ne ↦ ne (
            ok.distinct v j
              (sym e
                ∙ ap (λ (x : Frame). x.page_id)
                    (frame-set_ne b.frames v j (cleared (frame b.frames v)) ne))
              used)
      ]

      gone : index_of (frame b.frames v).page_id evicted.frames ≡ none
      gone = elim (Option-cases (index_of (frame b.frames v).page_id evicted.frames)) [
        | inl e ↦ e
        | inr (j, e) ↦ absurd (not_here j (index_of-some _ evicted.frames j e).1)
      ]

      others :
          (j : ℕ)
          → v ≢ j
          → (frame b.frames j).page_id ≢ no_page
          → Held evicted.pager (frame b.frames j)
      others j ne used' =
          let g = ok.held j used' in
          record {
            bytes = g.bytes;
            is_page = g.is_page;
            whole = g.whole;
            id_lt = g.id_lt;
            clean = λ c. (written h).1 _ g.id_lt (λ e. ne (ok.distinct v j e used)) ∙ g.clean c;
          }

      valid : IsPool evicted
      valid =
          replace-IsPool b evicted.pager v (cleared (frame b.frames v)) hv ok others
            (λ z. absurd (z refl)) (λ _. refl) (λ j ne e. refl)
