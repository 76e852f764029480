-- ===== src/Page/Pager/ReadWrite.antt =====
-- What `pager_write` of src/pager.c stores, `pager_read` returns, and no other page changes.
use inventixdb.Base.{
  ℕ, zero, suc, ◌+◌, ◌-◌, ◌≤◌, ◌<◌, ◌≡◌, ◌≢◌, refl, sym, subst, ap, ◌∙◌, ◌⊎◌, inl, inr, [], ◌∷◌,
  ◌++◌, false, arith, Bytes, leb, length, drop, take, replicate, load, dec_lt,
}
use inventixdb.Page.Pager.{
  Pager, page_size, table_max_pages, page_offset, pager_read, write_at, pager_write,
}

-- `n` bytes at `o`, with zeros behind the end of the file.
read_zeros : ℕ → ℕ → Bytes → Bytes
read_zeros o zero m = []
read_zeros zero (suc n) [] = 0 ∷ read_zeros zero n []
read_zeros zero (suc n) (x ∷ m) = x ∷ read_zeros zero n m
read_zeros (suc o) (suc n) [] = read_zeros o (suc n) []
read_zeros (suc o) (suc n) (x ∷ m) = read_zeros o (suc n) m

abbrev padded : ℕ → Bytes → Bytes
padded n bs = bs ++ replicate (n - length bs) 0

padded-cons : (n x : ℕ) (bs : Bytes) → padded (suc n) (x ∷ bs) ≡ x ∷ padded n bs
padded-cons n x bs = ap (λ k. x ∷ (bs ++ replicate k 0)) (omega arith)

zeros-read_zeros : (o n : ℕ) → replicate n 0 ≡ read_zeros o n []
unfolding read_zeros
zeros-read_zeros o zero = refl
zeros-read_zeros zero (suc n) = ap (λ t. 0 ∷ t) (zeros-read_zeros zero n)
zeros-read_zeros (suc o) (suc n) = zeros-read_zeros o (suc n)

load-zero_bytes : (o : ℕ) (m : Bytes) → load o 0 m ≡ []
unfolding load
load-zero_bytes zero m = refl
load-zero_bytes (suc o) [] = refl
load-zero_bytes (suc o) (x ∷ m) = load-zero_bytes o m

no_bytes : (n : ℕ) → padded n [] ≡ replicate n 0
no_bytes n = let e : n - 0 ≡ n = omega arith in ap (λ k. replicate k 0) e

load-read_zeros : (o n : ℕ) (m : Bytes) → padded n (load o n m) ≡ read_zeros o n m
unfolding load read_zeros
load-read_zeros o zero m = rw (load-zero_bytes o m)
load-read_zeros zero (suc n) [] = no_bytes (suc n) ∙ zeros-read_zeros zero (suc n)
load-read_zeros zero (suc n) (x ∷ m) =
    padded-cons n x (take n m) ∙ ap (λ t. x ∷ t) (load-read_zeros zero n m)
load-read_zeros (suc o) (suc n) [] = no_bytes (suc n) ∙ zeros-read_zeros (suc o) (suc n)
load-read_zeros (suc o) (suc n) (x ∷ m) = load-read_zeros o (suc n) m

read_front : (bs rest : Bytes) → read_zeros 0 (length bs) (bs ++ rest) ≡ bs
unfolding read_zeros
read_front [] rest = refl
read_front (b ∷ bs) rest = ap (λ t. b ∷ t) (read_front bs rest)

read_same : (off : ℕ) (bs m : Bytes) → read_zeros off (length bs) (write_at off bs m) ≡ bs
unfolding read_zeros write_at
read_same off [] m = refl
read_same zero (b ∷ bs) m = read_front (b ∷ bs) (drop (suc (length bs)) m)
read_same (suc off) (b ∷ bs) [] = read_same off (b ∷ bs) []
read_same (suc off) (b ∷ bs) (x ∷ m) = read_same off (b ∷ bs) m

read_before :
    (off o n : ℕ) (bs m : Bytes)
    → o + n ≤ off
    → read_zeros o n (write_at off bs m) ≡ read_zeros o n m
unfolding read_zeros write_at
read_before off o zero bs m h = refl
read_before zero o (suc n) bs m h = absurd (omega arith)
read_before (suc off) zero (suc n) bs [] h =
    ap (λ t. 0 ∷ t) (read_before off zero n bs [] (omega arith))
read_before (suc off) zero (suc n) bs (x ∷ m) h =
    ap (λ t. x ∷ t) (read_before off zero n bs m (omega arith))
read_before (suc off) (suc o) (suc n) bs [] h = read_before off o (suc n) bs [] (omega arith)
read_before (suc off) (suc o) (suc n) bs (x ∷ m) h = read_before off o (suc n) bs m (omega arith)

drop-nil : (n : ℕ) → drop {A = ℕ} n [] ≡ []
drop-nil zero = refl
drop-nil (suc n) = refl

read_past :
    (bs m : Bytes) (o n : ℕ)
    → length bs ≤ o
    → read_zeros o n (bs ++ drop (length bs) m) ≡ read_zeros o n m
unfolding read_zeros
read_past bs m o zero h = refl
read_past [] m o (suc n) h = refl
read_past (b ∷ bs) m zero (suc n) h = absurd (omega arith)
read_past (b ∷ bs) [] (suc o) (suc n) h =
    ap (λ t. read_zeros o (suc n) (bs ++ t)) (sym (drop-nil (length bs)))
    ∙ read_past bs [] o (suc n) (omega arith)
read_past (b ∷ bs) (x ∷ m) (suc o) (suc n) h = read_past bs m o (suc n) (omega arith)

read_after :
    (off o n : ℕ) (bs m : Bytes)
    → off + length bs ≤ o
    → read_zeros o n (write_at off bs m) ≡ read_zeros o n m
unfolding read_zeros write_at
read_after off o zero bs m h = refl
read_after zero o (suc n) bs m h = read_past bs m o (suc n) (omega arith)
read_after (suc off) zero (suc n) bs m h = absurd (omega arith)
read_after (suc off) (suc o) (suc n) bs [] h = read_after off o (suc n) bs [] (omega arith)
read_after (suc off) (suc o) (suc n) bs (x ∷ m) h = read_after off o (suc n) bs m (omega arith)

in_file :
    (g : Pager) (p : ℕ) (garbage : Bytes)
    → p < table_max_pages
    → pager_read g p garbage ≡ read_zeros (page_offset p) page_size g.file
unfolding pager_read
in_file g p garbage h =
    let small : leb 100 p ≡ false = ground arith in
    rw small (load-read_zeros (page_offset p) page_size g.file)

-- Pages do not overlap.
pages_apart :
    (p q : ℕ)
    → p < table_max_pages
    → q < table_max_pages
    → p ≢ q
    → (page_offset q + page_size ≤ page_offset p) ⊎ (page_offset p + page_size ≤ page_offset q)
pages_apart p q hp hq ne = elim (dec_lt p q) [
  | yes lt ↦ inr (omega arith)
  | no ge ↦ inl (omega arith)
]

-- A page that was written is read back, and every other page reads as before, whatever the buffer
-- held.
pub pager_read-pager_write :
    (g : Pager) (p q : ℕ) (page garbage : Bytes)
    → p < table_max_pages
    → q < table_max_pages
    → length page ≡ page_size
    → (pager_read (pager_write g p page) p garbage ≡ page)
      × (p ≢ q → pager_read (pager_write g p page) q garbage ≡ pager_read g q garbage)
unfolding pager_write
pager_read-pager_write g p q page garbage hp hq len = (
  in_file (pager_write g p page) p garbage hp
      ∙ subst (λ n. read_zeros (page_offset p) n (write_at (page_offset p) page g.file) ≡ page) len
          (read_same (page_offset p) page g.file),
  λ ne.
      in_file (pager_write g p page) q garbage hq
      ∙ other (pages_apart p q hp hq ne)
      ∙ sym (in_file g q garbage hq),
)
  where
    other :
        (page_offset q + page_size ≤ page_offset p) ⊎ (page_offset p + page_size ≤ page_offset q)
        → read_zeros (page_offset q) page_size (write_at (page_offset p) page g.file)
          ≡ read_zeros (page_offset q) page_size g.file
    other (inl before) = read_before (page_offset p) (page_offset q) page_size page g.file before
    other (inr after) =
        read_after (page_offset p) (page_offset q) page_size page g.file (omega (arith, len))

length-read_zeros : (o n : ℕ) (m : Bytes) → length (read_zeros o n m) ≡ n
unfolding read_zeros
length-read_zeros o zero m = refl
length-read_zeros zero (suc n) [] = ap suc (length-read_zeros zero n [])
length-read_zeros zero (suc n) (x ∷ m) = ap suc (length-read_zeros zero n m)
length-read_zeros (suc o) (suc n) [] = length-read_zeros o (suc n) []
length-read_zeros (suc o) (suc n) (x ∷ m) = length-read_zeros o (suc n) m

-- A page in range is read whole, and does not show what the buffer held.
pub pager_read_whole :
    (g : Pager) (p : ℕ) (garbage : Bytes)
    → p < table_max_pages
    → (length (pager_read g p garbage) ≡ page_size) × (pager_read g p garbage ≡ pager_read g p [])
pager_read_whole g p garbage h = (
  ap length (in_file g p garbage h) ∙ length-read_zeros (page_offset p) page_size g.file,
  in_file g p garbage h ∙ sym (in_file g p [] h),
)
