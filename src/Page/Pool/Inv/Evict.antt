-- ===== src/Page/Pool/Inv/Evict.antt =====
-- The scan of `buffer_pool_evict` (src/buffer_pool.c): which slot it frees.
use inventixdb.Base.{
  ℕ, zero, suc, ◌+◌, ◌<◌, ◌≤◌, ◌≡◌, refl, ap, ◌∙◌, ◌⊎◌, inl, inr, List, [], ◌∷◌, Option, none, some,
  arith, ◌&&◌, ltb, ◌==◌, Bool-cases, length,
}
use inventixdb.Page.Pool.{Frame, frame, lru_scan, max_time}

-- Slot `v` may be evicted, and was used no later than any other such slot of the list.
pub record IsLru (fs : List Frame) (v : ℕ) : Type 0 where
  pub in_range : v < length fs
  pub unpinned : (frame fs v).pin_count ≡ 0
  pub recent : (frame fs v).last_used < max_time
  pub oldest :
      (j : ℕ)
      → j < length fs
      → (frame fs j).pin_count ≡ 0
      → (frame fs v).last_used ≤ (frame fs j).last_used

-- Every slot that may be evicted was last used at `time` or later.
abbrev pub NoneBefore : List Frame → ℕ → Type 0
NoneBefore fs time =
    (j : ℕ) → j < length fs → (frame fs j).pin_count ≡ 0 → time ≤ (frame fs j).last_used

-- How a scan of `fs` from slot `i` on ends: with the victim that it started with, or with a better
-- one of its own.
data Scan (fs : List Frame) (i time : ℕ) (lru r : Option ℕ) : Type 0 where
  kept : r ≡ lru → NoneBefore fs time → Scan fs i time lru r
  better :
      (v : ℕ)
      → r ≡ some (i + v)
      → v < length fs
      → (frame fs v).pin_count ≡ 0
      → (frame fs v).last_used < time
      → NoneBefore fs (frame fs v).last_used
      → Scan fs i time lru r

cons-NoneBefore :
    (f : Frame) (fs : List Frame) (time : ℕ)
    → (f.pin_count ≡ 0 → time ≤ f.last_used)
    → NoneBefore fs time
    → NoneBefore (f ∷ fs) time
cons-NoneBefore f fs time h n zero lt pinned = h pinned
cons-NoneBefore f fs time h n (suc j) lt pinned = n j (omega arith) pinned

-- The slot is better than the victim so far.
Scan-better :
    (f : Frame) (fs : List Frame) (i time : ℕ) (lru r : Option ℕ)
    → f.pin_count ≡ 0
    → f.last_used < time
    → Scan fs (i + 1) f.last_used (some i) r
    → Scan (f ∷ fs) i time lru r
Scan-better f fs i time lru r pinned lt (kept e n) =
    better 0 (e ∙ ap some (omega arith)) (omega arith) pinned lt
      (cons-NoneBefore f fs f.last_used (λ _. omega arith) n)
Scan-better f fs i time lru r pinned lt (better v e hv pv lv n) =
    better (suc v) (e ∙ ap some (omega arith)) (omega arith) pv (omega arith)
      (cons-NoneBefore f fs (frame fs v).last_used (λ _. omega arith) n)

-- It is not.
Scan-worse :
    (f : Frame) (fs : List Frame) (i time : ℕ) (lru r : Option ℕ)
    → (f.pin_count ≡ 0 → time ≤ f.last_used)
    → Scan fs (i + 1) time lru r
    → Scan (f ∷ fs) i time lru r
Scan-worse f fs i time lru r h (kept e n) = kept e (cons-NoneBefore f fs time h n)
Scan-worse f fs i time lru r h (better v e hv pv lv n) =
    better (suc v) (e ∙ ap some (omega arith)) (omega arith) pv lv
      (cons-NoneBefore f fs (frame fs v).last_used (λ p. omega (arith, h p)) n)

lru_scan-Scan :
    (fs : List Frame) (i time : ℕ) (lru : Option ℕ) → Scan fs i time lru (lru_scan fs i time lru)
unfolding lru_scan
lru_scan-Scan [] i time lru = kept refl (λ j h. absurd (omega arith))
lru_scan-Scan (f ∷ fs) i time lru = elim (Bool-cases ((f.pin_count == 0) && ltb f.last_used time)) [
  | inl yes_better ↦ rw yes_better (
      Scan-better f fs i time lru _ (ground arith) (ground arith)
        (lru_scan-Scan fs (i + 1) f.last_used (some i)))
  | inr no_better ↦
      rw no_better
        (Scan-worse f fs i time lru _ (λ p. ground arith) (lru_scan-Scan fs (i + 1) time lru))
]

-- The scan finds the least recently used slot that is not pinned; it finds none exactly when every
-- slot is pinned or was used at the largest time.
pub lru_scan_lem :
    (fs : List Frame)
    → ((lru_scan fs 0 max_time none ≡ none) × NoneBefore fs max_time)
      ⊎ ((v : ℕ) × (lru_scan fs 0 max_time none ≡ some v) × IsLru fs v)
lru_scan_lem fs = outcome (lru_scan-Scan fs 0 max_time none)
  where
    outcome :
        Scan fs 0 max_time none (lru_scan fs 0 max_time none)
        → ((lru_scan fs 0 max_time none ≡ none) × NoneBefore fs max_time)
          ⊎ ((v : ℕ) × (lru_scan fs 0 max_time none ≡ some v) × IsLru fs v)
    outcome (kept e n) = inl (e, n)
    outcome (better v e hv pv lv n) = inr (
      v,
      e ∙ ap some (omega arith),
      record { in_range = hv; unpinned = pv; recent = lv; oldest = n },
    )
