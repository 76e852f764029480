-- ===== src/Base/Memory.antt =====
-- A block of memory, or a file, as its bytes: reads and writes at an offset.
use Prim.Native.Nat.{ℕ, zero, suc, ◌+◌, ◌≤◌}
use mathlib.Core.Path.{◌≡◌, refl, ap, ◌∙◌}
use mathlib.Core.List.{[], ◌∷◌, ◌++◌, append-nil}
use native.Mathlib.Omega.{arith}
use inventixdb.Base.Lists.{length, take, drop, take_append_length}
use inventixdb.Base.Text.{Bytes}

-- `n` bytes at `off`
unfoldable pub load : ℕ → ℕ → Bytes → Bytes
load zero n m = take n m
load (suc off) n [] = []
load (suc off) n (x ∷ m) = load off n m

-- `memcpy` of `bs` to `off`, for a target inside the block
unfoldable pub store : ℕ → Bytes → Bytes → Bytes
store zero bs m = bs ++ drop (length bs) m
store (suc off) bs [] = []
store (suc off) bs (x ∷ m) = x ∷ store off bs m

pub store-nil : (off : ℕ) (m : Bytes) → store off [] m ≡ m
unfolding store
store-nil zero m = refl
store-nil (suc off) [] = refl
store-nil (suc off) (x ∷ m) = ap (λ t. x ∷ t) (store-nil off m)

pub load-store_same :
    (off : ℕ) (bs m : Bytes)
    → off + length bs ≤ length m
    → load off (length bs) (store off bs m) ≡ bs
unfolding load store
load-store_same zero bs m h = take_append_length bs (drop (length bs) m)
load-store_same (suc off) bs [] h = absurd (omega arith)
load-store_same (suc off) bs (x ∷ m) h = load-store_same off bs m (omega arith)

load_past :
    (bs m : Bytes) (o n : ℕ)
    → length bs ≤ o
    → length bs ≤ length m
    → load o n (bs ++ drop (length bs) m) ≡ load o n m
unfolding load
load_past [] m o n h k = refl
load_past (b ∷ bs) [] o n h k = absurd (omega arith)
load_past (b ∷ bs) (x ∷ m) zero n h k = absurd (omega arith)
load_past (b ∷ bs) (x ∷ m) (suc o) n h k = load_past bs m o n (omega arith) (omega arith)

pub load-store_after :
    (off o n : ℕ) (bs m : Bytes)
    → off + length bs ≤ o
    → off + length bs ≤ length m
    → load o n (store off bs m) ≡ load o n m
unfolding load store
load-store_after zero o n bs m h k = load_past bs m o n (omega arith) (omega arith)
load-store_after (suc off) zero n bs m h k = absurd (omega arith)
load-store_after (suc off) (suc o) n bs [] h k = refl
load-store_after (suc off) (suc o) n bs (x ∷ m) h k =
    load-store_after off o n bs m (omega arith) (omega arith)

take-store : (n off : ℕ) (bs m : Bytes) → n ≤ off → take n (store off bs m) ≡ take n m
unfolding store
take-store zero off bs m h = refl
take-store (suc n) zero bs m h = absurd (omega arith)
take-store (suc n) (suc off) bs [] h = refl
take-store (suc n) (suc off) bs (x ∷ m) h = ap (λ t. x ∷ t) (take-store n off bs m (omega arith))

pub load-store_before :
    (off o n : ℕ) (bs m : Bytes) → o + n ≤ off → load o n (store off bs m) ≡ load o n m
unfolding load store
load-store_before off zero n bs m h = take-store n off bs m (omega arith)
load-store_before zero (suc o) n bs m h = absurd (omega arith)
load-store_before (suc off) (suc o) n bs [] h = refl
load-store_before (suc off) (suc o) n bs (x ∷ m) h = load-store_before off o n bs m (omega arith)

length_overwrite :
    (bs m : Bytes) → length bs ≤ length m → length (bs ++ drop (length bs) m) ≡ length m
length_overwrite [] m h = refl
length_overwrite (b ∷ bs) [] h = absurd (omega arith)
length_overwrite (b ∷ bs) (x ∷ m) h = ap suc (length_overwrite bs m (omega arith))

pub length-store :
    (off : ℕ) (bs m : Bytes) → off + length bs ≤ length m → length (store off bs m) ≡ length m
unfolding store
length-store zero bs m h = length_overwrite bs m (omega arith)
length-store (suc off) bs [] h = absurd (omega arith)
length-store (suc off) bs (x ∷ m) h = ap suc (length-store off bs m (omega arith))

pub length-load : (off n : ℕ) (m : Bytes) → off + n ≤ length m → length (load off n m) ≡ n
unfolding load
length-load zero zero m h = refl
length-load zero (suc n) [] h = absurd (omega arith)
length-load zero (suc n) (x ∷ m) h = ap suc (length-load zero n m (omega arith))
length-load (suc off) n [] h = absurd (omega arith)
length-load (suc off) n (x ∷ m) h = length-load off n m (omega arith)

take-take : (n k : ℕ) (m : Bytes) → n ≤ k → take n (take k m) ≡ take n m
take-take zero k m h = refl
take-take (suc n) zero m h = absurd (omega arith)
take-take (suc n) (suc k) [] h = refl
take-take (suc n) (suc k) (x ∷ m) h = ap (λ t. x ∷ t) (take-take n k m (omega arith))

-- The first part of what a longer read gives.
pub take-load : (off n k : ℕ) (m : Bytes) → n ≤ k → take n (load off k m) ≡ load off n m
unfolding load
take-load zero n k m h = take-take n k m h
take-load (suc off) zero k [] h = refl
take-load (suc off) (suc n) k [] h = refl
take-load (suc off) n k (x ∷ m) h = take-load off n k m h

-- The end of a block copied to its place in another block of the same length.
pub load-store-drop :
    (pos o n : ℕ) (t m : Bytes)
    → pos ≤ o
    → length t ≡ length m
    → load o n (store pos (drop pos t) m) ≡ load o n t
unfolding load store
load-store-drop zero o n t m h k =
    ap (load o n) (ap (λ r. t ++ r) (ap (λ c. drop c m) k ∙ drop_all m) ∙ append-nil t)
  where
    drop_all : (r : Bytes) → drop (length r) r ≡ []
    drop_all [] = refl
    drop_all (x ∷ r) = drop_all r
load-store-drop (suc pos) zero n t m h k = absurd (omega arith)
load-store-drop (suc pos) (suc o) n [] [] h k = refl
load-store-drop (suc pos) (suc o) n (y ∷ t) [] h k = absurd (omega arith)
load-store-drop (suc pos) (suc o) n [] (x ∷ m) h k = absurd (omega arith)
load-store-drop (suc pos) (suc o) n (y ∷ t) (x ∷ m) h k =
    load-store-drop pos o n t m (omega arith) (omega arith)
