-- ===== src/Memory/Pool/Blocks.antt =====
-- How often a block is free, and how often it is given out, in a pool of src/memory.c.
use inventixdb.Base.{
  ℕ, zero, suc, ◌+◌, ◌*◌, ◌^◌, ◌<◌, ◌≤◌, ◌≡◌, ◌≢◌, refl, true, ◌&&◌, List, [], ◌∷◌, none, some, ltb,
  ◌==◌, if◌then◌else◌, length, arith, Bool-cases, ltb→lt, inl, inr, ◌⊎◌, subst, ap,
}
use inventixdb.Memory.{sub64}
use inventixdb.Memory.Pool.{
  Pointer, MemPool, free_blocks, take_block, without, pointer_to, give_back, pool_owns, new_pool,
}

-- How often an offset stands in a list of offsets
abbrev pub occurs : ℕ → List ℕ → ℕ
occurs o [] = 0
occurs o (x ∷ xs) = (if x == o then 1 else 0) + occurs o xs

-- How often a block is among the pointers that are given out
abbrev pub given : ℕ → ℕ → List Pointer → ℕ
given m o [] = 0
given m o (q ∷ qs) = (if (q.memory == m) && (q.offset == o) then 1 else 0) + given m o qs

-- How many of the pointers given out point into a piece of memory
abbrev pub given_in : ℕ → List Pointer → ℕ
given_in m [] = 0
given_in m (q ∷ qs) = (if q.memory == m then 1 else 0) + given_in m qs

-- One pool and the pointers that are given out: each of its blocks is either free or given out, once,
-- and the counters tell how many are which.
pub record IsPool (live : List Pointer) (c : MemPool) : Type 0 where
  pub blocks :
      (o : ℕ)
      → occurs o c.free_list + given c.memory o live
        ≡ occurs o (free_blocks c.block_count c.block_size)
  pub used : c.used_count ≡ given_in c.memory live
  pub counted : c.used_count + length c.free_list ≡ c.block_count
  pub wide : 0 < c.block_size
  pub total : c.total_size ≡ c.block_count * c.block_size
  pub few : c.block_count < 2 ^ 64

free_blocks-none : (n size o : ℕ) → 0 < size → n * size ≤ o → occurs o (free_blocks n size) ≡ 0
unfolding free_blocks
free_blocks-none zero size o w h = refl
free_blocks-none (suc n) size o w h =
    let rest = free_blocks-none n size o w (omega (arith, h)) in ground (arith, w, h)

-- No block is twice in the list of a new pool.
pub free_blocks-once : (n size o : ℕ) → 0 < size → occurs o (free_blocks n size) ≤ 1
unfolding free_blocks
free_blocks-once zero size o w = omega arith
free_blocks-once (suc n) size o w = elim (Bool-cases (n * size == o)) [
  | inl e ↦ let gone = free_blocks-none n size o w (ground arith) in rw e (omega (arith, gone))
  | inr e ↦ rw e (omega (arith, free_blocks-once n size o w))
]

free_blocks_inside : (n size o : ℕ) → 0 < size → 0 < occurs o (free_blocks n size) → o < n * size
free_blocks_inside n size o w h = elim (Bool-cases (ltb o (n * size))) [
  | inl e ↦ ltb→lt o (n * size) e
  | inr e ↦ absurd (omega (arith, h, free_blocks-none n size o w (ground arith)))
]

pub length-free_blocks : (n size : ℕ) → length (free_blocks n size) ≡ n
unfolding free_blocks
length-free_blocks zero size = refl
length-free_blocks (suc n) size = omega (arith, length-free_blocks n size)

-- Lists of pointers that agree on what they give out of a pool are the same for it.
pub IsPool-same :
    (live live' : List Pointer) (c : MemPool)
    → ((o : ℕ) → given c.memory o live' ≡ given c.memory o live)
    → given_in c.memory live' ≡ given_in c.memory live
    → IsPool live c
    → IsPool live' c
IsPool-same live live' c g h p = record {
  blocks = λ o. omega (arith, g o, p.blocks o);
  used = omega (arith, h, p.used);
  counted = p.counted;
  wide = p.wide;
  total = p.total;
  few = p.few;
}

-- A pointer into another piece of memory does not matter.
pub IsPool-cons :
    (live : List Pointer) (q : Pointer) (c : MemPool)
    → q.memory ≢ c.memory
    → IsPool live c
    → IsPool (q ∷ live) c
IsPool-cons live q c n = IsPool-same live (q ∷ live) c (λ o. ground arith) (ground arith)

pub IsPool-uncons :
    (live : List Pointer) (q : Pointer) (c : MemPool)
    → q.memory ≢ c.memory
    → IsPool (q ∷ live) c
    → IsPool live c
IsPool-uncons live q c n = IsPool-same (q ∷ live) live c (λ o. ground arith) (ground arith)

pub new_pool-IsPool :
    (live : List Pointer) (m size count : ℕ)
    → 0 < size
    → count * size < 2 ^ 64
    → ((o : ℕ) → given m o live ≡ 0)
    → given_in m live ≡ 0
    → IsPool live (new_pool m size count)
unfolding new_pool
new_pool-IsPool live m size count w h g k = record {
  blocks = λ o. omega (arith, g o);
  used = omega (arith, k);
  counted = omega (arith, length-free_blocks count size);
  wide = w;
  total = ground (arith, h);
  few = grind (arith, h, w);
}

take_block_split :
    (c : MemPool) (free : List ℕ)
    → c.free_list ≡ free
    → (take_block c ≡ none)
      ⊎ ((o : ℕ) × (os : List ℕ) × (c.free_list ≡ o ∷ os)
          × (take_block c ≡ some (without c os, pointer_to c o)))
unfolding take_block without
take_block_split c [] e = inl (rw (e, take_block) refl)
take_block_split c (o ∷ os) e = inr (o, os, e, rw (e, take_block) refl)

pub take_block_cases :
    (c : MemPool)
    → (take_block c ≡ none)
      ⊎ ((o : ℕ) × (os : List ℕ) × (c.free_list ≡ o ∷ os)
          × (take_block c ≡ some (without c os, pointer_to c o)))
take_block_cases c = take_block_split c c.free_list refl

-- Taking the first free block gives out the pointer to it.
pub without-IsPool :
    (live : List Pointer) (c : MemPool) (o : ℕ) (os : List ℕ)
    → c.free_list ≡ o ∷ os
    → IsPool live c
    → IsPool (pointer_to c o ∷ live) (without c os)
unfolding without
without-IsPool live c o os e p = record {
  blocks = λ x.
      let b : occurs x (o ∷ os) + given c.memory x live
          ≡ occurs x (free_blocks c.block_count c.block_size) =
        subst
          (λ f.
            occurs x f + given c.memory x live ≡ occurs x (free_blocks c.block_count c.block_size))
          e (p.blocks x) in
      ground arith;
  used = let u = p.used in ground arith;
  counted = omega (arith, p.counted, ap length e);
  wide = p.wide;
  total = p.total;
  few = p.few;
}

-- Giving back a pointer that was given out
pub give_back-IsPool :
    (live : List Pointer) (c : MemPool) (q : Pointer)
    → q.memory ≡ c.memory
    → IsPool (q ∷ live) c
    → IsPool live (give_back c q.offset) × (pool_owns c q ≡ true)
unfolding give_back pool_owns sub64
give_back-IsPool live c q e p =
    let here = p.blocks q.offset in
    let used = p.used in
    let inside = free_blocks_inside c.block_count c.block_size q.offset p.wide (ground arith) in
    (
      record {
        blocks = λ o. let b = p.blocks o in ground (arith, b, e);
        used = ground (arith, p.few, p.counted);
        counted = ground (arith, p.few, p.counted);
        wide = p.wide;
        total = p.total;
        few = p.few;
      },
      ground (arith, p.total),
    )

-- A block that is given out was not given out before.
pub IsPool-once :
    (live : List Pointer) (q : Pointer) (c : MemPool)
    → q.memory ≡ c.memory
    → IsPool (q ∷ live) c
    → given q.memory q.offset live ≡ 0
IsPool-once live q c e p =
    let b = p.blocks q.offset in
    let once = free_blocks-once c.block_count c.block_size q.offset p.wide in rw e (ground arith)
