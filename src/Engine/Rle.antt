-- ===== src/Engine/Rle.antt =====
-- Run-length compression (src/storage_engine.c, `compress_rle` and `decompress_rle`). A result is the
-- part of `dst` that was written, so the returned size is its length, and 0 is the empty list.
pub mod RoundTrip
use inventixdb.Base.{
  ℕ, zero, suc, ◌+◌, ◌-◌, [], ◌∷◌, ◌++◌, Option, none, some, Bytes, ltb, leb, ◌==◌, if◌then◌else◌,
  length, drop, replicate, le_bytes, from_le, fread,
}

-- `run_length`, without the first byte: how many of at most `budget` further bytes are equal to it.
unfoldable pub run : ℕ → ℕ → Bytes → ℕ
run zero x ys = 0
run (suc budget) x [] = 0
run (suc budget) x (y ∷ ys) = if y == x then run budget x ys + 1 else 0

-- The loop on the bytes that are left, with `room` bytes free in `dst`. Each round takes a byte, so
-- that the length of the input is enough fuel.
unfoldable pub rle_loop : ℕ → Bytes → ℕ → Bytes
rle_loop zero xs room = []
rle_loop (suc fuel) [] room = []
rle_loop (suc fuel) (x ∷ xs) room =
    let n = run 254 x xs in
    let rest = rle_loop fuel (drop n xs) (room - 2) in if leb 2 room then (n + 1) ∷ x ∷ rest else []

unfoldable pub compress_rle : Bytes → ℕ → Bytes
compress_rle [] capacity = []
compress_rle (x ∷ xs) capacity =
    if ltb capacity 4
    then []
    else le_bytes 4 (length (x ∷ xs)) ++ rle_loop (length (x ∷ xs)) (x ∷ xs) (capacity - 4)

-- The loop of `decompress_rle`, with `left` bytes missing.
unfoldable pub unpack : Bytes → ℕ → Bytes
unpack [] left = []
unpack (count ∷ []) left = []
unpack (count ∷ value ∷ rest) left =
    let n = if ltb left count then left else count in
    let further = unpack rest (left - n) in if left == 0 then [] else replicate n value ++ further

unfoldable pub decompress_rle : Bytes → ℕ → Bytes
decompress_rle src capacity = elim (fread 4 src) [
  | none ↦ []
  | some (size, rest) ↦ if ltb capacity (from_le size) then [] else unpack rest (from_le size)
]
