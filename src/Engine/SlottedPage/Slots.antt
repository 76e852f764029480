-- ===== src/Engine/SlottedPage/Slots.antt =====
-- The slot directory of a page (src/storage_engine.c): entries changed, and records that lie apart.
use inventixdb.Base.{
  ℕ, zero, suc, ◌+◌, ◌<◌, ◌≤◌, ◌≡◌, ◌≢◌, ◌⊎◌, inl, inr, refl, subst, ap, List, [], ◌∷◌, none, some,
  arith, Bytes, Bool-cases, ◌==◌, if◌then◌else◌, length, get_elem?, All, store, load-store_after,
  load-store_before,
}
use inventixdb.Engine.SlottedPage.{SlotEntry, page_size, put_slot, free_slot, read_slot, read_at}

-- A deleted record, or one between `lo` and the end of the page
abbrev pub InPage : ℕ → SlotEntry → Type 0
InPage lo e = (e.len ≡ 0) ⊎ ((lo ≤ e.offset) × (e.offset + e.len ≤ page_size))

-- The bytes from `o`, `n` of them, are none of the record's.
abbrev pub Clear : ℕ → ℕ → SlotEntry → Type 0
Clear o n e = (e.len ≡ 0) ⊎ ((e.offset + e.len ≤ o) ⊎ (o + n ≤ e.offset))

abbrev pub Apart : SlotEntry → SlotEntry → Type 0
Apart e f = (e.len ≡ 0) ⊎ Clear e.offset e.len f

abbrev pub Pairwise : List SlotEntry → Type 0
Pairwise [] = Unit
Pairwise (e ∷ es) = All (Apart e) es × Pairwise es

-- The bytes that the records take
unfoldable pub total : List SlotEntry → ℕ
total [] = 0
total (e ∷ es) = e.len + total es

unfoldable pub len_at : List SlotEntry → ℕ → ℕ
len_at [] i = 0
len_at (e ∷ es) zero = e.len
len_at (e ∷ es) (suc i) = len_at es i

pub total-put_slot :
    (es : List SlotEntry) (i : ℕ) (v : SlotEntry)
    → total (put_slot es i v) + len_at es i ≡ total es + v.len
unfolding total put_slot len_at
total-put_slot [] i v = omega arith
total-put_slot (e ∷ es) zero v = omega arith
total-put_slot (e ∷ es) (suc i) v = omega (arith, total-put_slot es i v)

pub len_at_lem :
    (es : List SlotEntry) (i : ℕ) (e : SlotEntry) → get_elem? es i ≡ some e → len_at es i ≡ e.len
unfolding len_at
len_at_lem [] i e h = absurd (cc h)
len_at_lem (x ∷ xs) zero e h = ap (λ o. elim o [ none ↦ 0 | some y ↦ y.len ]) h
len_at_lem (x ∷ xs) (suc i) e h = len_at_lem xs i e h

pub length-put_slot :
    (es : List SlotEntry) (i : ℕ) (v : SlotEntry)
    → i < length es
    → length (put_slot es i v) ≡ length es
unfolding put_slot
length-put_slot [] i v h = absurd (omega arith)
length-put_slot (e ∷ es) zero v h = refl
length-put_slot (e ∷ es) (suc i) v h = ap suc (length-put_slot es i v (omega arith))

pub length-put_slot_end :
    (es : List SlotEntry) (v : SlotEntry) → length (put_slot es (length es) v) ≡ suc (length es)
unfolding put_slot
length-put_slot_end [] v = refl
length-put_slot_end (e ∷ es) v = ap suc (length-put_slot_end es v)

pub get-put_slot :
    (es : List SlotEntry) (i : ℕ) (v : SlotEntry)
    → i ≤ length es
    → get_elem? (put_slot es i v) i ≡ some v
unfolding put_slot
get-put_slot [] zero v h = refl
get-put_slot [] (suc i) v h = absurd (omega arith)
get-put_slot (e ∷ es) zero v h = refl
get-put_slot (e ∷ es) (suc i) v h = get-put_slot es i v (omega arith)

pub get-put_slot_ne :
    (es : List SlotEntry) (i j : ℕ) (v : SlotEntry)
    → i ≤ length es
    → i ≢ j
    → get_elem? (put_slot es i v) j ≡ get_elem? es j
unfolding put_slot
get-put_slot_ne [] zero zero v h n = absurd (n refl)
get-put_slot_ne [] zero (suc j) v h n = refl
get-put_slot_ne [] (suc i) j v h n = absurd (omega arith)
get-put_slot_ne (e ∷ es) zero zero v h n = absurd (n refl)
get-put_slot_ne (e ∷ es) zero (suc j) v h n = refl
get-put_slot_ne (e ∷ es) (suc i) zero v h n = refl
get-put_slot_ne (e ∷ es) (suc i) (suc j) v h n =
    get-put_slot_ne es i j v (omega arith) (λ q. n (ap suc q))

pub get_inside :
    (es : List SlotEntry) (i : ℕ) (e : SlotEntry) → get_elem? es i ≡ some e → i < length es
get_inside [] i e h = absurd (cc h)
get_inside (x ∷ xs) zero e h = omega arith
get_inside (x ∷ xs) (suc i) e h = omega (arith, get_inside xs i e h)

pub All-at {κ} :
    (P : SlotEntry → Type κ) (es : List SlotEntry) (i : ℕ) (e : SlotEntry)
    → All P es
    → get_elem? es i ≡ some e
    → P e
All-at P [] i e a h = absurd (cc h)
All-at P (x ∷ xs) zero e a h = subst (λ o. elim o [ none ↦ Unit | some y ↦ P y ]) h a.0
All-at P (x ∷ xs) (suc i) e a h = All-at P xs i e a.1 h

pub All-map {κ μ} :
    (P : SlotEntry → Type κ) (Q : SlotEntry → Type μ) (es : List SlotEntry)
    → ((e : SlotEntry) → P e → Q e)
    → All P es
    → All Q es
All-map P Q [] f a = tt
All-map P Q (x ∷ xs) f a = (f x a.0, All-map P Q xs f a.1)

pub All-put_slot {κ} :
    (P : SlotEntry → Type κ) (es : List SlotEntry) (i : ℕ) (v : SlotEntry)
    → All P es
    → P v
    → All P (put_slot es i v)
unfolding put_slot
All-put_slot P [] i v a p = (p, tt)
All-put_slot P (e ∷ es) zero v a p = (p, a.1)
All-put_slot P (e ∷ es) (suc i) v a p = (a.0, All-put_slot P es i v a.1 p)

pub Apart-sym : (e f : SlotEntry) → Apart e f → Apart f e
Apart-sym e f (inl z) = inr (inl z)
Apart-sym e f (inr (inl z)) = inl z
Apart-sym e f (inr (inr (inl before))) = inr (inr (inr before))
Apart-sym e f (inr (inr (inr after))) = inr (inr (inl after))

-- An entry in the place of another, no longer than it
abbrev pub Shrinks : SlotEntry → SlotEntry → Type 0
Shrinks e v = (v.offset ≡ e.offset) × (v.len ≤ e.len)

Apart-shrink : (x e v : SlotEntry) → Shrinks e v → Apart x e → Apart x v
Apart-shrink x e v s (inl z) = inl z
Apart-shrink x e v s (inr (inl z)) = inr (inl (omega (arith, s.1, z)))
Apart-shrink x e v s (inr (inr (inl before))) = inr (inr (inl (omega (arith, s.0, s.1, before))))
Apart-shrink x e v s (inr (inr (inr after))) = inr (inr (inr (omega (arith, s.0, after))))

pub Pairwise-shrink :
    (es : List SlotEntry) (i : ℕ) (e v : SlotEntry)
    → Pairwise es
    → get_elem? es i ≡ some e
    → Shrinks e v
    → Pairwise (put_slot es i v)
unfolding put_slot
Pairwise-shrink [] i e v p h s = absurd (cc h)
Pairwise-shrink (x ∷ xs) zero e v p h s = (
  All-map (Apart x) (Apart v) xs
      (λ f a.
        Apart-sym f v (Apart-shrink f e v s (Apart-sym e f (subst (λ y. Apart y f) (same h) a))))
      p.0,
  p.1,
)
  where
    same : some x ≡ some e → x ≡ e
    same q = ap (λ o. elim o [ none ↦ x | some y ↦ y ]) q
Pairwise-shrink (x ∷ xs) (suc i) e v p h s = (
  All-put_slot (Apart x) xs i v p.0 (Apart-shrink x e v s (All-at (Apart x) xs i e p.0 h)),
  Pairwise-shrink xs i e v p.1 h s,
)

pub Pairwise-put_slot :
    (es : List SlotEntry) (i : ℕ) (v : SlotEntry)
    → Pairwise es
    → All (λ f. Apart f v) es
    → Pairwise (put_slot es i v)
unfolding put_slot
Pairwise-put_slot [] i v p a = (tt, tt)
Pairwise-put_slot (x ∷ xs) zero v p a =
    (All-map (λ f. Apart f v) (Apart v) xs (λ f. Apart-sym f v) a.1, p.1)
Pairwise-put_slot (x ∷ xs) (suc i) v p a =
    (All-put_slot (Apart x) xs i v p.0 a.0, Pairwise-put_slot xs i v p.1 a.1)

pub Pairwise-at :
    (es : List SlotEntry) (i j : ℕ) (e f : SlotEntry)
    → Pairwise es
    → i ≢ j
    → get_elem? es i ≡ some e
    → get_elem? es j ≡ some f
    → Apart e f
Pairwise-at [] i j e f p n h k = absurd (cc h)
Pairwise-at (x ∷ xs) zero zero e f p n h k = absurd (n refl)
Pairwise-at (x ∷ xs) zero (suc j) e f p n h k =
    subst (λ o. elim o [ none ↦ Unit | some y ↦ Apart y f ]) h (All-at (Apart x) xs j f p.0 k)
Pairwise-at (x ∷ xs) (suc i) zero e f p n h k =
    Apart-sym f e
      (subst (λ o. elim o [ none ↦ Unit | some y ↦ Apart y e ]) k (All-at (Apart x) xs i e p.0 h))
Pairwise-at (x ∷ xs) (suc i) (suc j) e f p n h k =
    Pairwise-at xs i j e f p.1 (λ q. n (ap suc q)) h k

-- The free slot is one of a deleted record, or new.
pub free_slot_lem :
    (m : Bytes) (es : List SlotEntry)
    → (free_slot es ≤ length es) × (read_at m es (free_slot es) ≡ none)
unfolding free_slot read_at read_slot
free_slot_lem m [] = (omega arith, refl)
free_slot_lem m (x ∷ xs) = elim (Bool-cases (x.len == 0)) [
  | inl deleted ↦ rw (deleted) (omega arith, rw (deleted, read_slot) refl)
  | inr live ↦ let f = free_slot_lem m xs in rw (live) (omega (arith, f.0), f.1)
]

-- A write where the record has no byte
pub read_slot-store :
    (o : ℕ) (bs m : Bytes) (e : SlotEntry)
    → o + length bs ≤ length m
    → Clear o (length bs) e
    → read_slot (store o bs m) e ≡ read_slot m e
unfolding read_slot
read_slot-store o bs m e h (inl deleted) = rw (deleted) refl
read_slot-store o bs m e h (inr (inl before)) =
    ap (λ r. if e.len == 0 then none else some r) (load-store_before o e.offset e.len bs m before)
read_slot-store o bs m e h (inr (inr after)) =
    ap (λ r. if e.len == 0 then none else some r) (load-store_after o e.offset e.len bs m after h)
