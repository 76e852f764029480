-- ===== src/Engine/Rle/RoundTrip.antt =====
-- Run-length compression of src/storage_engine.c: the way back.
use inventixdb.Base.{
  ℕ, zero, suc, ◌+◌, ◌-◌, ◌*◌, ◌^◌, ◌<◌, ◌≤◌, ◌≡◌, refl, sym, ap, ◌∙◌, inl, inr, [], ◌∷◌, ◌++◌,
  true, false, arith, Bytes, Bool-cases, ltb, leb, ◌==◌, ==_iff, le→ltb, length, drop, replicate,
  from_le-le_bytes, fread-le_bytes,
}
use inventixdb.Engine.Rle.{run, rle_loop, compress_rle, unpack, decompress_rle}

-- The run is at most as long as the budget, and what it counts is there.
run_lem :
    (budget x : ℕ) (ys : Bytes)
    → (run budget x ys ≤ budget)
      × (replicate (run budget x ys) x ++ drop (run budget x ys) ys ≡ ys)
      × (length (drop (run budget x ys) ys) + run budget x ys ≡ length ys)
unfolding run
run_lem zero x ys = (omega arith, refl, omega arith)
run_lem (suc budget) x [] = (omega arith, refl, refl)
run_lem (suc budget) x (y ∷ ys) = elim (Bool-cases (y == x)) [
  | inl same ↦
      let r = run_lem budget x ys in
      let next : run budget x ys + 1 ≡ suc (run budget x ys) = omega arith in
      let head : x ≡ y = sym ((==_iff y x).0 same) in
      rw (same, next)
        (omega (arith, r.0), ap (λ t. x ∷ t) r.1 ∙ ap (λ c. c ∷ ys) head, omega (arith, r.2))
  | inr other ↦ rw other (omega arith, refl, omega arith)
]

unpack-rle_loop :
    (fuel : ℕ) (xs : Bytes) (room : ℕ)
    → length xs ≤ fuel
    → 2 * length xs ≤ room
    → unpack (rle_loop fuel xs room) (length xs) ≡ xs
unfolding rle_loop unpack
unpack-rle_loop zero [] room h k = refl
unpack-rle_loop zero (x ∷ xs) room h k = absurd (omega arith)
unpack-rle_loop (suc fuel) [] room h k = refl
unpack-rle_loop (suc fuel) (x ∷ xs) room h k =
    let r = run_lem 254 x xs in
    let n = run 254 x xs in
    let open_room : leb 2 room ≡ true = ground arith in
    let all_fits : ltb (suc (length xs)) (n + 1) ≡ false = ground (arith, r.2) in
    let some_left : (suc (length xs) == 0) ≡ false = ground arith in
    let left : suc (length xs) - (n + 1) ≡ length (drop n xs) = omega (arith, r.2) in
    let next : n + 1 ≡ suc n = omega arith in
    rw (open_room, all_fits, some_left, left, next)
      (ap (λ t. x ∷ (replicate n x ++ t))
          (unpack-rle_loop fuel (drop n xs) (room - 2) (omega (arith, r.2)) (omega (arith, r.2)))
        ∙ ap (λ t. x ∷ t) r.1)

-- A nonempty block shorter than 4 GB, compressed into a buffer with four bytes and two more for each
-- byte of the block, is given back by decompression into a buffer of at least the block's length.
pub decompress-compress_rle :
    (x : ℕ) (xs : Bytes) (capacity target : ℕ)
    → length (x ∷ xs) < 2 ^ 32
    → 4 + 2 * length (x ∷ xs) ≤ capacity
    → length (x ∷ xs) ≤ target
    → decompress_rle (compress_rle (x ∷ xs) capacity) target ≡ x ∷ xs
unfolding compress_rle decompress_rle
decompress-compress_rle x xs capacity target small h k =
    let block = rle_loop (length (x ∷ xs)) (x ∷ xs) (capacity - 4) in
    let fits : ltb capacity 4 ≡ false = ground arith in
    rw
      (
        fits,
        fread-le_bytes 4 (length (x ∷ xs)) block,
        from_le-le_bytes 4 (length (x ∷ xs)) (omega arith),
        le→ltb target (length (x ∷ xs)) k,
        decompress_rle,
      )
      (unpack-rle_loop (length (x ∷ xs)) (x ∷ xs) (capacity - 4) (omega arith) (omega arith))
