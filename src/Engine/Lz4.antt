-- ===== src/Engine/Lz4.antt =====
-- Page compression (src/storage_engine.c, `compress_lz4` and `decompress_lz4`). A result is the part
-- of `dst` that was written, so the returned size is its length, and 0 is the empty list.
pub mod Match
pub mod RoundTrip
use inventixdb.Base.{
  ℕ, zero, suc, ◌+◌, ◌-◌, ◌%◌, List, [], ◌∷◌, ◌++◌, Bool, true, false, ◌&&◌, ◌||◌, not, Option,
  none, some, Bytes, ltb, leb, ◌==◌, if◌then◌else◌, length, take, drop, get_or, le_bytes, from_le,
  fread,
}

-- How many of at most `budget` bytes of `ahead` agree with those of `earlier`, which ends where the
-- bytes ahead begin.
unfoldable pub common : ℕ → Bytes → Bytes → ℕ
common zero earlier ahead = 0
common (suc budget) [] ahead = 0
common (suc budget) (x ∷ xs) [] = 0
common (suc budget) (x ∷ xs) (y ∷ ys) = if x == y then common budget xs ys + 1 else 0

-- The best match from the starts in the window on, as its length and its offset, where `found` is the
-- best one so far.
unfoldable pub best_match : Bytes → Bytes → ℕ × ℕ → ℕ × ℕ
best_match [] ahead found = found
best_match (x ∷ xs) ahead found =
    let n = common 255 (x ∷ xs) ahead in
    best_match xs ahead (if leb 4 n && ltb found.0 n then (n, length (x ∷ xs)) else found)

-- At most the last 255 bytes
unfoldable pub window : Bytes → Bytes
window past = drop (length past - 255) past

-- The match for the bytes ahead, of length 0 when there is none of at least four bytes
abbrev pub find_match : Bytes → Bytes → ℕ × ℕ
find_match past ahead = best_match (window past) ahead (0, 0)

-- The bytes of a match of length `n`: token, offset, and the rest of the length beyond 15
unfoldable pub emit_match : ℕ × ℕ → Bytes
emit_match (n, offset) =
    if ltb 15 n
    then 143 ∷ (offset % 256) ∷ ((n - 15) % 256) ∷ []
    else (128 + n) ∷ (offset % 256) ∷ []

-- What one round emits for the bytes ahead, of which the first is `x`, and how many it takes
unfoldable pub emit : ℕ × ℕ → ℕ → Bytes × ℕ
emit (n, offset) x = if leb 4 n then (emit_match (n, offset), n) else (0 ∷ x ∷ [], 1)

-- Whether the round has room for what it emits
unfoldable pub has_room : ℕ → ℕ → Bool
has_room n room = leb 2 room && (if leb 4 n then leb 3 room else true)

-- The loop on the bytes `ahead` after `past`, with `room` bytes free in `dst`. Each round takes a
-- byte, so that the length of the input is enough fuel.
unfoldable pub lz4_loop : ℕ → Bytes → Bytes → ℕ → Bytes
lz4_loop zero past ahead room = []
lz4_loop (suc fuel) past [] room = []
lz4_loop (suc fuel) past (x ∷ xs) room =
    let found = find_match past (x ∷ xs) in
    let out = emit found x in
    let rest =
      lz4_loop fuel (past ++ take out.1 (x ∷ xs)) (drop out.1 (x ∷ xs)) (room - length out.0) in
    if has_room found.0 room then out.0 ++ rest else []

unfoldable pub compress_lz4 : Bytes → ℕ → Bytes
compress_lz4 [] capacity = []
compress_lz4 (x ∷ xs) capacity =
    if ltb capacity 4
    then []
    else le_bytes 4 (length (x ∷ xs)) ++ lz4_loop (length (x ∷ xs)) [] (x ∷ xs) (capacity - 4)

-- The byte that a match copies to the end of the output; what `dst` held stays where the offset
-- points before its start.
unfoldable pub copied_byte : (ℕ → ℕ) → ℕ → Bytes → ℕ
copied_byte dst offset out =
    if (offset == 0) || ltb (length out) offset
    then dst (length out)
    else get_or out (length out - offset) 0

-- The loop that copies at most `n` bytes, while the output is shorter than `size`
unfoldable pub copy : (ℕ → ℕ) → ℕ → ℕ → ℕ → Bytes → Bytes
copy dst size zero offset out = out
copy dst size (suc n) offset out =
    let rest = copy dst size n offset (out ++ copied_byte dst offset out ∷ []) in
    if ltb (length out) size then rest else out

-- The length of a match, a `uint8_t`, and what follows its bytes
unfoldable pub match_length : ℕ → Bytes → ℕ × Bytes
match_length n [] = (n, [])
match_length n (b ∷ rest) = if n == 15 then ((n + b) % 256, rest) else (n, b ∷ rest)

-- One round on a match or on a literal: the output and the input after it; `none` leaves the loop.
unfoldable pub read_match : (ℕ → ℕ) → ℕ → Bytes → ℕ → Bytes → Option (Bytes × Bytes)
read_match dst size out n [] = none
read_match dst size out n (offset ∷ src) =
    let m = match_length n src in some (copy dst size m.0 offset out, m.1)

unfoldable pub read_literal : Bytes → Bytes → Option (Bytes × Bytes)
read_literal out [] = none
read_literal out (b ∷ src) = some (out ++ b ∷ [], src)

unfoldable pub read_token : (ℕ → ℕ) → ℕ → Bytes → Bytes → Option (Bytes × Bytes)
read_token dst size out [] = none
read_token dst size out (token ∷ src) =
    if ltb (length out) size
    then (if ltb token 128 then read_literal out src else read_match dst size out (token % 16) src)
    else none

-- The loop of `decompress_lz4`; each round takes a byte of the input.
unfoldable pub lz4_unpack : ℕ → (ℕ → ℕ) → ℕ → Bytes → Bytes → Bytes
lz4_unpack zero dst size out src = out
lz4_unpack (suc fuel) dst size out src = elim (read_token dst size out src) [
  | none ↦ out
  | some (out', src') ↦ lz4_unpack fuel dst size out' src'
]

-- `decompress_lz4`; `dst` is what the buffer holds before.
unfoldable pub decompress_lz4 : (ℕ → ℕ) → Bytes → ℕ → Bytes
decompress_lz4 dst src capacity = elim (fread 4 src) [
  | none ↦ []
  | some (size, rest) ↦
      if ltb capacity (from_le size)
      then []
      else lz4_unpack (length rest) dst (from_le size) [] rest
]

-- Whether the loop meets no match of exactly 15 bytes
unfoldable pub no_fifteen : ℕ → Bytes → Bytes → Bool
no_fifteen zero past ahead = true
no_fifteen (suc fuel) past [] = true
no_fifteen (suc fuel) past (x ∷ xs) =
    let found = find_match past (x ∷ xs) in
    let out = emit found x in
    let rest = no_fifteen fuel (past ++ take out.1 (x ∷ xs)) (drop out.1 (x ∷ xs)) in
    not (found.0 == 15) && rest
