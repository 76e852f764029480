-- ===== src/Engine/Lz4/RoundTrip.antt =====
-- Page compression of src/storage_engine.c: the way back.
use inventixdb.Base.{
  ℕ, zero, suc, ◌+◌, ◌-◌, ◌*◌, ◌%◌, ◌^◌, ◌<◌, ◌≤◌, ◌≡◌, ◌≢◌, ◌⊎◌, refl, sym, ap, ◌∙◌, inl, inr, [],
  ◌∷◌, ◌++◌, true, false, some, arith, Bytes, Bool-cases, ltb, leb, ◌==◌, length-le_bytes, length,
  take, drop, take-drop_append, length-drop_sub, length-take_sub, append-nil, append_assoc,
  length-append, subst, le_bytes, from_le, from_le-le_bytes, fread-le_bytes,
}
use inventixdb.Engine.Lz4.{
  find_match, emit, emit_match, has_room, lz4_loop, compress_lz4, copy, match_length, read_match,
  read_literal, read_token, lz4_unpack, decompress_lz4, no_fifteen,
}
use inventixdb.Engine.Lz4.Match.{IsMatch, find_match-Found, copy-append}

-- The copy that a match asks for appends the bytes that the match stands for.
copy-IsMatch :
    (dst : ℕ → ℕ) (past ahead : Bytes) (n offset : ℕ)
    → IsMatch past ahead n offset
    → copy dst (length past + length ahead) n offset past ≡ past ++ take n ahead
copy-IsMatch dst past ahead n offset m =
    rw (m.splits, m.offset_is, sym m.agrees)
      (copy-append dst (length (m.before ++ m.source) + length ahead) n m.before m.source m.inside
        (omega (arith, length-append m.before m.source, m.within)))

match_length-other : (n : ℕ) (rest : Bytes) → n ≢ 15 → match_length n rest ≡ (n, rest)
unfolding match_length
match_length-other n [] h = refl
match_length-other n (b ∷ rest) h = let other : (n == 15) ≡ false = ground arith in rw other refl

match_length-long :
    (n : ℕ) (rest : Bytes)
    → 15 < n
    → n ≤ 255
    → match_length 15 (((n - 15) % 256) ∷ rest) ≡ (n, rest)
unfolding match_length
match_length-long n rest h k =
    let size : (15 + (n - 15) % 256) % 256 ≡ n = omega arith in rw size refl

-- Decompression reads what a match emits.
read-emit_match :
    (dst : ℕ → ℕ) (past ahead rest : Bytes) (n offset : ℕ)
    → 4 ≤ n
    → n ≢ 15
    → IsMatch past ahead n offset
    → read_token dst (length past + length ahead) past (emit_match (n, offset) ++ rest)
      ≡ some (past ++ take n ahead, rest)
unfolding emit_match read_token read_match
read-emit_match dst past ahead rest n offset h k m =
    let fits : ltb (length past) (length past + length ahead) ≡ true = ground (arith, m.within) in
    let far : offset % 256 ≡ offset = omega (arith, m.offset_is, m.near) in
    elim (Bool-cases (ltb 15 n)) [
      | inl long ↦
          rw
            (
              long,
              fits,
              far,
              match_length-long n rest (ground arith) m.short,
              copy-IsMatch dst past ahead n offset m,
            )
            refl
      | inr brief ↦
          let token : ltb (128 + n) 128 ≡ false = ground arith in
          let size : (128 + n) % 16 ≡ n = ground arith in
          rw
            (
              brief,
              fits,
              token,
              size,
              far,
              match_length-other n rest k,
              copy-IsMatch dst past ahead n offset m,
            )
            refl
    ]

read-emit :
    (dst : ℕ → ℕ) (past xs rest : Bytes) (x : ℕ)
    → (find_match past (x ∷ xs)).0 ≢ 15
    → read_token dst
        (length past + length (x ∷ xs))
        past
        ((emit (find_match past (x ∷ xs)) x).0 ++ rest)
      ≡ some (past ++ take (emit (find_match past (x ∷ xs)) x).1 (x ∷ xs), rest)
unfolding emit read_token read_literal
read-emit dst past xs rest x k = elim (Bool-cases (leb 4 (find_match past (x ∷ xs)).0)) [
  | inl found ↦ elim (find_match-Found past (x ∷ xs)) [
    | inl e ↦ absurd (ground arith)
    | inr m ↦ rw found (
        read-emit_match dst past (x ∷ xs) rest (find_match past (x ∷ xs)).0
          (find_match past (x ∷ xs)).1 (ground arith) k m)
  ]
  | inr missing ↦
      let fits : ltb (length past) (length past + suc (length xs)) ≡ true = ground arith in
      rw (missing, fits) refl
]

-- A round takes at least one byte and at most all, and emits at most two bytes for each.
emit_lem :
    (past xs : Bytes) (x : ℕ)
    → (1 ≤ (emit (find_match past (x ∷ xs)) x).1)
      × ((emit (find_match past (x ∷ xs)) x).1 ≤ length (x ∷ xs))
      × (1 ≤ length (emit (find_match past (x ∷ xs)) x).0)
      × (length (emit (find_match past (x ∷ xs)) x).0 ≤ 2 * (emit (find_match past (x ∷ xs)) x).1)
unfolding emit emit_match
emit_lem past xs x = elim (find_match-Found past (x ∷ xs)) [
  | inl e ↦ ground arith
  | inr m ↦ let w = m.within in ground arith
]

-- The whole block is written: the room is there from the start, or seen to be left at the end.
abbrev Fits : ℕ → Bytes → Bytes → ℕ → Type 0
Fits fuel past ahead room =
    (2 * length ahead ≤ room) ⊎ (length (lz4_loop fuel past ahead room) + 3 ≤ room)

has_room_lem :
    (fuel : ℕ) (past xs : Bytes) (x room : ℕ)
    → Fits (suc fuel) past (x ∷ xs) room
    → has_room (find_match past (x ∷ xs)).0 room ≡ true
unfolding has_room lz4_loop
has_room_lem fuel past xs x room h = elim (find_match-Found past (x ∷ xs)) [
  | inl e ↦ ground arith
  | inr m ↦ let w = m.within in ground arith
]

lz4_loop_step :
    (fuel : ℕ) (past xs : Bytes) (x room : ℕ)
    → Fits (suc fuel) past (x ∷ xs) room
    → lz4_loop (suc fuel) past (x ∷ xs) room
      ≡ (emit (find_match past (x ∷ xs)) x).0
        ++ lz4_loop fuel
            (past ++ take (emit (find_match past (x ∷ xs)) x).1 (x ∷ xs))
            (drop (emit (find_match past (x ∷ xs)) x).1 (x ∷ xs))
            (room - length (emit (find_match past (x ∷ xs)) x).0)
unfolding lz4_loop
lz4_loop_step fuel past xs x room h = rw (has_room_lem fuel past xs x room h) refl

lz4_unpack_step :
    (fuel size : ℕ) (dst : ℕ → ℕ) (out src out' src' : Bytes)
    → read_token dst size out src ≡ some (out', src')
    → lz4_unpack (suc fuel) dst size out src ≡ lz4_unpack fuel dst size out' src'
unfolding lz4_unpack
lz4_unpack_step fuel size dst out src out' src' e = rw (e, lz4_unpack) refl

lz4_unpack_end :
    (fuel size : ℕ) (dst : ℕ → ℕ) (out src : Bytes)
    → length out ≡ size
    → lz4_unpack fuel dst size out src ≡ out ++ []
unfolding lz4_unpack read_token
lz4_unpack_end zero size dst out src e = sym (append-nil out)
lz4_unpack_end (suc fuel) size dst out [] e = sym (append-nil out)
lz4_unpack_end (suc fuel) size dst out (b ∷ src) e =
    let done : ltb (length out) size ≡ false = ground arith in
    rw (done, lz4_unpack, read_token) (sym (append-nil out))

-- The loop of the decompressor undoes the loop of the compressor, whatever follows.
unpack-lz4_loop :
    (dst : ℕ → ℕ) (fuel fuel' size room : ℕ) (past ahead tail : Bytes)
    → length ahead ≤ fuel
    → Fits fuel past ahead room
    → length past + length ahead ≡ size
    → no_fifteen fuel past ahead ≡ true
    → length (lz4_loop fuel past ahead room) ≤ fuel'
    → lz4_unpack fuel' dst size past (lz4_loop fuel past ahead room ++ tail) ≡ past ++ ahead
unfolding lz4_loop no_fifteen
unpack-lz4_loop dst zero fuel' size room past [] tail h k s n f =
    lz4_unpack_end fuel' size dst past tail (omega arith)
unpack-lz4_loop dst zero fuel' size room past (x ∷ xs) tail h k s n f = absurd (omega arith)
unpack-lz4_loop dst (suc fuel) fuel' size room past [] tail h k s n f =
    lz4_unpack_end fuel' size dst past tail (omega arith)
unpack-lz4_loop dst (suc fuel) zero size room past (x ∷ xs) tail h k s n f =
    let e = emit_lem past xs x in
    let more = ap length (lz4_loop_step fuel past xs x room k) in
    absurd (omega (arith, e.2, length-append (emit (find_match past (x ∷ xs)) x).0))
unpack-lz4_loop dst (suc fuel) (suc fuel') size room past (x ∷ xs) tail h k s n f =
    let e = emit_lem past xs x in
    let step = lz4_loop_step fuel past xs x room k in
    let more = ap length step in
    let out = emit (find_match past (x ∷ xs)) x in
    let past' = past ++ take out.1 (x ∷ xs) in
    let ahead' = drop out.1 (x ∷ xs) in
    let rest = lz4_loop fuel past' ahead' (room - length out.0) in
    let not_fifteen : (find_match past (x ∷ xs)).0 ≢ 15 = ground arith in
    let later : no_fifteen fuel past' ahead' ≡ true = ground arith in
    let token : read_token dst size past (out.0 ++ (rest ++ tail)) ≡ some (past', rest ++ tail) =
      subst (λ z. read_token dst z past (out.0 ++ (rest ++ tail)) ≡ some (past', rest ++ tail)) s
        (read-emit dst past xs (rest ++ tail) x not_fifteen) in
    let left = length-drop_sub out.1 (x ∷ xs) in
    let taken = length-take_sub out.1 (x ∷ xs) e.1 in
    let sum = length-append past (take out.1 (x ∷ xs)) in
    let total = length-append out.0 rest in
    let fits : Fits fuel past' ahead' (room - length out.0) = ground (arith, e.0, e.1, e.3) in
    ap (λ b. lz4_unpack (suc fuel') dst size past (b ++ tail)) step
    ∙ ap (lz4_unpack (suc fuel') dst size past) (append_assoc out.0 rest tail)
    ∙ lz4_unpack_step fuel' size dst past (out.0 ++ (rest ++ tail)) past' (rest ++ tail) token
    ∙ unpack-lz4_loop dst fuel fuel' size (room - length out.0) past' ahead' tail
        (omega (arith, e.0, e.1)) fits (omega (arith, e.1)) later (omega (arith, e.2))
    ∙ append_assoc past (take out.1 (x ∷ xs)) (drop out.1 (x ∷ xs))
    ∙ ap (λ t. past ++ t) (sym (take-drop_append out.1 (x ∷ xs)))

-- A block that was written whole is read back, whatever follows it.
pub decompress-compress_tail :
    (dst : ℕ → ℕ) (x : ℕ) (xs tail : Bytes) (capacity target : ℕ)
    → length (x ∷ xs) < 2 ^ 32
    → 4 ≤ capacity
    → (4 + 2 * length (x ∷ xs) ≤ capacity)
      ⊎ (length (compress_lz4 (x ∷ xs) capacity) + 3 ≤ capacity)
    → length (x ∷ xs) ≤ target
    → no_fifteen (length (x ∷ xs)) [] (x ∷ xs) ≡ true
    → decompress_lz4 dst (compress_lz4 (x ∷ xs) capacity ++ tail) target ≡ x ∷ xs
unfolding compress_lz4 decompress_lz4
decompress-compress_tail dst x xs tail capacity target small c h k n =
    let block = lz4_loop (length (x ∷ xs)) [] (x ∷ xs) (capacity - 4) in
    let roomy : ltb capacity 4 ≡ false = ground arith in
    let wide : ltb target (length (x ∷ xs)) ≡ false = ground arith in
    let size : from_le (le_bytes 4 (length (x ∷ xs))) ≡ length (x ∷ xs) =
      from_le-le_bytes 4 (length (x ∷ xs)) small in
    let joined = length-append (le_bytes 4 (length (x ∷ xs))) block in
    let four = length-le_bytes 4 (length (x ∷ xs)) in
    let both = length-append block tail in
    let fits : Fits (length (x ∷ xs)) [] (x ∷ xs) (capacity - 4) = ground (arith, h) in
    rw
      (
        roomy,
        append_assoc (le_bytes 4 (length (x ∷ xs))) block tail,
        fread-le_bytes 4 (length (x ∷ xs)) (block ++ tail),
        size,
        wide,
        decompress_lz4,
      )
      (unpack-lz4_loop dst (length (x ∷ xs)) (length (block ++ tail)) (length (x ∷ xs))
        (capacity - 4) [] (x ∷ xs) tail (omega arith) fits (omega arith) n (omega arith))

-- A nonempty block shorter than 4 GB in which the compressor meets no match of exactly 15 bytes,
-- compressed into a buffer with four bytes and two more for each byte of the block, is given back by
-- decompression into a buffer of at least the block's length, whatever that held before.
pub decompress-compress_lz4 :
    (dst : ℕ → ℕ) (x : ℕ) (xs : Bytes) (capacity target : ℕ)
    → length (x ∷ xs) < 2 ^ 32
    → 4 + 2 * length (x ∷ xs) ≤ capacity
    → length (x ∷ xs) ≤ target
    → no_fifteen (length (x ∷ xs)) [] (x ∷ xs) ≡ true
    → decompress_lz4 dst (compress_lz4 (x ∷ xs) capacity) target ≡ x ∷ xs
decompress-compress_lz4 dst x xs capacity target small h k n =
    ap (λ b. decompress_lz4 dst b target) (sym (append-nil (compress_lz4 (x ∷ xs) capacity)))
    ∙ decompress-compress_tail dst x xs [] capacity target small (omega arith) (inl h) k n
