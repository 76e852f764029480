-- ===== src/Engine/Bloom.antt =====
-- The Bloom filter of an SSTable (src/storage_engine.c). A filter of `size` bytes is the list of its
-- `size * 8` bits: bit `i % 8` of byte `i / 8` is element `i`.
use inventixdb.Base.{
  ℕ, zero, suc, ◌+◌, ◌-◌, ◌*◌, ◌%◌, ◌^◌, ◌<◌, ◌≡◌, refl, sym, ap, ◌∙◌, Bool, true, false, ◌&&◌,
  List, [], ◌∷◌, arith, Bytes, length, get_or, set, get_or-set_self, get_or-set_ne, length-set,
  ℕ_discrete, ltb, if◌then◌else◌,
}

-- `c = *key++` with a signed `char`, as an unsigned number of 64 bits
unfoldable pub extended : ℕ → ℕ
extended c = if ltb c 128 then c else 2 ^ 64 - 256 + c

unfoldable pub hash1_from : ℕ → Bytes → ℕ
hash1_from h [] = h
hash1_from h (c ∷ cs) = hash1_from (((h * 32) % 2 ^ 64 + h + extended c) % 2 ^ 64) cs

unfoldable pub hash2_from : ℕ → Bytes → ℕ
hash2_from h [] = h
hash2_from h (c ∷ cs) =
    hash2_from ((extended c + (h * 64) % 2 ^ 64 + (h * 65536) % 2 ^ 64 + (2 ^ 64 - h)) % 2 ^ 64) cs

abbrev pub bloom_hash1 : Bytes → ℕ
bloom_hash1 k = hash1_from 5381 k

abbrev pub bloom_hash2 : Bytes → ℕ
bloom_hash2 k = hash2_from 0 k

-- The index of round `i`
unfoldable pub bloom_index : ℕ → Bytes → ℕ → ℕ
bloom_index bits k i = ((bloom_hash1 k + (i * bloom_hash2 k) % 2 ^ 64) % 2 ^ 64) % bits

-- The rounds below `i`, of which the code makes four
unfoldable pub add_rounds : ℕ → Bytes → List Bool → List Bool
add_rounds zero k filter = filter
add_rounds (suc i) k filter = set (add_rounds i k filter) (bloom_index (length filter) k i) true

unfoldable pub bloom_add : List Bool → Bytes → List Bool
bloom_add filter k = add_rounds 4 k filter

unfoldable pub test_rounds : ℕ → Bytes → List Bool → Bool
test_rounds zero k filter = true
test_rounds (suc i) k filter =
    test_rounds i k filter && get_or filter (bloom_index (length filter) k i) false

unfoldable pub bloom_may_contain : List Bool → Bytes → Bool
bloom_may_contain filter k = test_rounds 4 k filter

-- No bit is cleared.
abbrev pub Grows : List Bool → List Bool → Type 0
Grows f g = (length g ≡ length f) × ((i : ℕ) → get_or f i false ≡ true → get_or g i false ≡ true)

set-Grows : (f : List Bool) (i : ℕ) → i < length f → Grows f (set f i true)
set-Grows f i h = (
  length-set f i true,
  λ j e. elim (ℕ_discrete i j) [
    | yes same ↦
        ap (λ n. get_or (set f i true) n false) (sym same) ∙ get_or-set_self f i true false h
    | no other ↦ get_or-set_ne f i j true false other ∙ e
  ],
)

bloom_index_lt : (bits : ℕ) (k : Bytes) (i : ℕ) → 0 < bits → bloom_index bits k i < bits
unfolding bloom_index
bloom_index_lt bits k i h = grind arith

add_rounds-Grows : (n : ℕ) (k : Bytes) (f : List Bool) → 0 < length f → Grows f (add_rounds n k f)
unfolding add_rounds
add_rounds-Grows zero k f h = (refl, λ j e. e)
add_rounds-Grows (suc n) k f h =
    let g = add_rounds-Grows n k f h in
    let s =
      set-Grows (add_rounds n k f) (bloom_index (length f) k n)
        (omega (arith, g.0, bloom_index_lt (length f) k n h)) in
    (s.0 ∙ g.0, λ j e. s.1 j (g.1 j e))

pub bloom_add-Grows : (f : List Bool) (k : Bytes) → 0 < length f → Grows f (bloom_add f k)
unfolding bloom_add
bloom_add-Grows f k h = add_rounds-Grows 4 k f h

and_true : (a b : Bool) → (a && b) ≡ true → (a ≡ true) × (b ≡ true)
and_true true b h = (refl, h)
and_true false b h = absurd (cc h)

test_rounds-Grows :
    (n : ℕ) (k : Bytes) (f g : List Bool)
    → Grows f g
    → test_rounds n k f ≡ true
    → test_rounds n k g ≡ true
unfolding test_rounds
test_rounds-Grows zero k f g gr h = refl
test_rounds-Grows (suc n) k f g gr h =
    let p = and_true (test_rounds n k f) _ h in
    let bit : get_or g (bloom_index (length g) k n) false ≡ true =
      ap (λ m. get_or g (bloom_index m k n) false) gr.0 ∙ gr.1 _ p.1 in
    rw (test_rounds-Grows n k f g gr p.0, bit) refl

-- A key that may be contained stays so.
pub may_contain-Grows :
    (f g : List Bool) (k : Bytes)
    → Grows f g
    → bloom_may_contain f k ≡ true
    → bloom_may_contain g k ≡ true
unfolding bloom_may_contain
may_contain-Grows f g k gr h = test_rounds-Grows 4 k f g gr h

test-add_rounds :
    (n : ℕ) (k : Bytes) (f : List Bool) → 0 < length f → test_rounds n k (add_rounds n k f) ≡ true
unfolding test_rounds add_rounds
test-add_rounds zero k f h = refl
test-add_rounds (suc n) k f h =
    let g = add_rounds-Grows n k f h in
    let inside : bloom_index (length f) k n < length (add_rounds n k f) =
      omega (arith, g.0, bloom_index_lt (length f) k n h) in
    let at = bloom_index (length f) k n in
    let s = set-Grows (add_rounds n k f) at inside in
    let bit : get_or (set (add_rounds n k f) at true)
          (bloom_index (length (set (add_rounds n k f) at true)) k n) false
        ≡ true =
      ap (λ m. get_or (set (add_rounds n k f) at true) (bloom_index m k n) false) (s.0 ∙ g.0)
      ∙ get_or-set_self (add_rounds n k f) at true false inside in
    rw
      (
        test_rounds-Grows n k (add_rounds n k f) (set (add_rounds n k f) at true) s
            (test-add_rounds n k f h),
        bit,
      )
      refl

-- A key that was added may be contained.
pub may_contain-add :
    (f : List Bool) (k : Bytes) → 0 < length f → bloom_may_contain (bloom_add f k) k ≡ true
unfolding bloom_may_contain bloom_add
may_contain-add f k h = test-add_rounds 4 k f h
