-- ===== src/Engine/Compress/RoundTrip.antt =====
-- A page of src/storage_engine.c compressed and decompressed again.
use inventixdb.Base.{
  ℕ, zero, suc, ◌+◌, ◌-◌, ◌%◌, ◌<◌, ◌≤◌, ◌≡◌, refl, sym, ap, ◌∙◌, inr, true, [], ◌∷◌, ◌++◌, Bytes,
  ltb, ◌==◌, length, take, drop, load, store, arith, length-load, ◌≢◌, take-drop_append,
  length-take_sub,
}
use inventixdb.Engine.Lz4.{compress_lz4, decompress_lz4, no_fifteen}
use inventixdb.Engine.Lz4.RoundTrip.{decompress-compress_tail}
use inventixdb.Engine.SlottedPage.{SlottedPage, page_size}
use inventixdb.Engine.Compress.{
  compression_threshold, slotted_page_is_compressed, data_size, page_data, replace_data,
  slotted_page_compress, slotted_page_decompress, decompressed,
}

take-append_past :
    (n : ℕ) (xs ys : Bytes) → length xs ≤ n → take n (xs ++ ys) ≡ xs ++ take (n - length xs) ys
take-append_past n [] ys h = let same : n - 0 ≡ n = omega arith in rw same refl
take-append_past zero (x ∷ xs) ys h = absurd (omega arith)
take-append_past (suc n) (x ∷ xs) ys h =
    let same : suc n - suc (length xs) ≡ n - length xs = omega arith in
    rw same (ap (λ t. x ∷ t) (take-append_past n xs ys (omega arith)))

-- What is read from the place of a write that is not longer begins with what was written.
load-store_front :
    (off n : ℕ) (bs m : Bytes)
    → length bs ≤ n
    → off + length bs ≤ length m
    → (t : Bytes) × (load off n (store off bs m) ≡ bs ++ t)
unfolding load store
load-store_front zero n bs m h k = (_, take-append_past n bs (drop (length bs) m) h)
load-store_front (suc off) n bs [] h k = absurd (omega arith)
load-store_front (suc off) n bs (x ∷ m) h k = load-store_front off n bs m h (omega arith)

drop_past :
    (n : ℕ) (bs m : Bytes)
    → length bs ≤ n
    → length bs ≤ length m
    → drop n (bs ++ drop (length bs) m) ≡ drop n m
drop_past n [] m h k = refl
drop_past n (b ∷ bs) [] h k = absurd (omega arith)
drop_past zero (b ∷ bs) (x ∷ m) h k = absurd (omega arith)
drop_past (suc n) (b ∷ bs) (x ∷ m) h k = drop_past n bs m (omega arith) (omega arith)

-- Writing back what was there undoes a write inside it.
store-load :
    (off n : ℕ) (bs m : Bytes)
    → length bs ≤ n
    → off + n ≤ length m
    → store off (load off n m) (store off bs m) ≡ m
unfolding load store
store-load zero n bs m h k =
    ap (λ w. take n m ++ drop w (bs ++ drop (length bs) m)) (length-take_sub n m (omega arith))
    ∙ ap (λ t. take n m ++ t) (drop_past n bs m h (omega arith))
    ∙ sym (take-drop_append n m)
store-load (suc off) n bs [] h k = absurd (omega arith)
store-load (suc off) n bs (x ∷ m) h k = ap (λ t. x ∷ t) (store-load off n bs m h (omega arith))

-- A block that compression makes shorter than its buffer is read back, whatever follows it.
decompress-compress_block :
    (dst : ℕ → ℕ) (bs tail : Bytes)
    → 0 < length bs
    → length bs ≤ page_size
    → length (compress_lz4 bs page_size) + 3 ≤ page_size
    → no_fifteen (length bs) [] bs ≡ true
    → decompress_lz4 dst (compress_lz4 bs page_size ++ tail) page_size ≡ bs
decompress-compress_block dst [] tail h k s n = absurd (omega arith)
decompress-compress_block dst (x ∷ xs) tail h k s n =
    decompress-compress_tail dst x xs tail page_size page_size (omega arith) (omega arith) (inr s) k
      n

compress_cases :
    (p : SlottedPage)
    → (slotted_page_compress p).1 ≡ true
    → ((slotted_page_compress p).0
        ≡ replace_data p (compress_lz4 (page_data p) page_size) (p.flags + 1))
      × (p.flags % 2 ≢ 1)
      × (compression_threshold ≤ data_size p)
      × (length (compress_lz4 (page_data p) page_size) < data_size p - 64)
unfolding slotted_page_compress slotted_page_is_compressed
compress_cases p h = ground arith

same_page :
    (p : SlottedPage) (memory : Bytes) (flags : ℕ)
    → memory ≡ p.memory
    → flags ≡ p.flags
    → record p { memory = memory; flags = flags } ≡ p
same_page p memory flags e f = rw (e, f) refl

-- A page of 4096 bytes whose records have no match of exactly 15 bytes is the same page again after it
-- was compressed and decompressed.
pub decompress-compress :
    (dst : ℕ → ℕ) (p : SlottedPage)
    → length p.memory ≡ page_size
    → p.free_space_end ≤ page_size
    → (slotted_page_compress p).1 ≡ true
    → no_fifteen (data_size p) [] (page_data p) ≡ true
    → slotted_page_decompress dst (slotted_page_compress p).0 ≡ (p, decompressed)
unfolding slotted_page_decompress slotted_page_is_compressed replace_data
decompress-compress dst p size inside done n =
    let (e, raw, large, small) = compress_cases p done in
    let c = compress_lz4 (page_data p) page_size in
    let (tail, front) =
      load-store_front p.free_space_end (data_size p) c p.memory (omega arith) (omega arith) in
    let full : length (page_data p) ≡ data_size p =
      length-load p.free_space_end (data_size p) p.memory (omega arith) in
    let back : decompress_lz4 dst (c ++ tail) page_size ≡ page_data p =
      decompress-compress_block dst (page_data p) tail (omega arith) (omega arith) (omega arith)
        (rw full n) in
    let flag : ((p.flags + 1) % 2 == 1) ≡ true = ground arith in
    let some_bytes : ltb 0 (length (page_data p)) ≡ true = ground arith in
    rw (e, flag, front, back, some_bytes)
      (ap (λ q. (q, decompressed))
        (same_page p _ _
          (store-load p.free_space_end (data_size p) c p.memory (omega arith) (omega arith))
          (omega arith)))
