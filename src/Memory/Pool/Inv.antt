-- ===== src/Memory/Pool/Inv.antt =====
-- The chain of pools of src/memory.c: what `pool_alloc`, `pool_free` and `pool_reset` keep.
use inventixdb.Base.{
  ℕ, zero, suc, ◌*◌, ◌^◌, ◌<◌, ◌≤◌, ◌≡◌, ◌≢◌, ◌⊎◌, inl, inr, refl, false, List, [], ◌∷◌, none, some,
  ◌==◌, if◌then◌else◌, arith, Bool-cases,
}
use inventixdb.Memory.Pool.{
  Pointer, MemPool, PoolChain, free_blocks, pool_default_blocks, pool_block_size, new_pool, without,
  pointer_to, take_block, take_chain, from_root, from_expansions, take_free, expand, give_back,
  pool_owns, free_chain, pool_free,
}
use inventixdb.Memory.Pool.Blocks.{
  given, given_in, IsPool, IsPool-cons, IsPool-uncons, new_pool-IsPool, take_block_cases,
  without-IsPool, IsPool-once, give_back-IsPool,
}

-- Expansions, the newest first: their pieces of memory have falling numbers between two bounds.
abbrev pub IsChain : List Pointer → ℕ → ℕ → List MemPool → Type 0
IsChain live low high [] = Unit
IsChain live low high (c ∷ cs) =
    IsPool live c × (low < c.memory) × (c.memory < high) × IsChain live low c.memory cs

IsChain-cons :
    (live : List Pointer) (low high : ℕ) (q : Pointer) (cs : List MemPool)
    → (q.memory ≤ low) ⊎ (high ≤ q.memory)
    → IsChain live low high cs
    → IsChain (q ∷ live) low high cs
IsChain-cons live low high q [] o h = tt
IsChain-cons live low high q (c ∷ cs) o (p, l, u, h) = (
  IsPool-cons live q c (ground arith) p,
  l,
  u,
  IsChain-cons live low c.memory q cs (ground arith) h,
)

IsChain-uncons :
    (live : List Pointer) (low high : ℕ) (q : Pointer) (cs : List MemPool)
    → (q.memory ≤ low) ⊎ (high ≤ q.memory)
    → IsChain (q ∷ live) low high cs
    → IsChain live low high cs
IsChain-uncons live low high q [] o h = tt
IsChain-uncons live low high q (c ∷ cs) o (p, l, u, h) = (
  IsPool-uncons live q c (ground arith) p,
  l,
  u,
  IsChain-uncons live low c.memory q cs (ground arith) h,
)

take_chain_cases :
    (live : List Pointer) (low high : ℕ) (cs : List MemPool)
    → IsChain live low high cs
    → (take_chain cs ≡ none)
      ⊎ ((ds : List MemPool) × (q : Pointer) × (take_chain cs ≡ some (ds, q))
          × IsChain (q ∷ live) low high ds
          × (low < q.memory)
          × (q.memory < high)
          × (given q.memory q.offset live ≡ 0))
unfolding take_chain without
take_chain_cases live low high [] h = inl refl
take_chain_cases live low high (c ∷ cs) (p, l, u, h) = elim (take_block_cases c) [
  | inr (o, os, e, t) ↦ inr (
    without c os ∷ cs,
    pointer_to c o,
    rw (t, take_chain) refl,
    (
      without-IsPool live c o os e p,
      l,
      u,
      IsChain-cons live low c.memory (pointer_to c o) cs (inr (omega arith)) h,
    ),
    l,
    u,
    IsPool-once live (pointer_to c o) (without c os) refl (without-IsPool live c o os e p),
  )
  | inl t ↦ elim (take_chain_cases live low c.memory cs h) [
    | inl t' ↦ inl (rw (t, t', take_chain) refl)
    | inr (ds, q, t', k, a, b, f) ↦ inr (
      c ∷ ds,
      q,
      rw (t, t', take_chain) refl,
      (IsPool-cons live q c (ground arith) p, l, u, k),
      a,
      omega arith,
      f,
    )
  ]
]

not_owner : (c : MemPool) (q : Pointer) → (q.memory == c.memory) ≡ false → pool_owns c q ≡ false
unfolding pool_owns
not_owner c q e = ground arith

free_chain-IsChain :
    (live : List Pointer) (low high : ℕ) (q : Pointer) (cs : List MemPool)
    → IsChain (q ∷ live) low high cs
    → IsChain live low high (free_chain cs q)
unfolding free_chain give_back
free_chain-IsChain live low high q [] h = tt
free_chain-IsChain live low high q (c ∷ cs) (p, l, u, h) =
    elim (Bool-cases (q.memory == c.memory)) [
      | inl e ↦
          let g = give_back-IsPool live c q (ground arith) p in
          rw (g.1) (g.0, l, u, IsChain-uncons live low c.memory q cs (inr (ground arith)) h)
      | inr e ↦
          let no_owner : pool_owns c q ≡ false = not_owner c q e in
          rw no_owner (
            IsPool-uncons live q c (ground arith) p,
            l,
            u,
            free_chain-IsChain live low c.memory q cs h,
          )
    ]

-- A root with its expansions: every pool accounts for its blocks, no two have the same piece of memory,
-- and no pointer leads to a piece that is not there yet.
pub record IsPoolChain (live : List Pointer) (p : PoolChain) : Type 0 where
  pub root : IsPool live p.root
  pub rest : IsChain live p.root.memory p.next_memory p.expansions
  pub newest : p.root.memory < p.next_memory
  pub fresh : (m : ℕ) → p.next_memory ≤ m → given_in m live ≡ 0
  pub room : p.root.block_count * pool_block_size p.root.block_size < 2 ^ 64
  pub wide : 0 < pool_block_size p.root.block_size
  pub some_blocks : 0 < p.root.block_count

given_le : (m o : ℕ) (live : List Pointer) → given m o live ≤ given_in m live
given_le m o [] = omega arith
given_le m o (q ∷ live) = let rest = given_le m o live in ground arith

pub take_free_cases :
    (live : List Pointer) (p : PoolChain)
    → IsPoolChain live p
    → ((take_free p ≡ none) × (take_block p.root ≡ none) × (take_chain p.expansions ≡ none))
      ⊎ ((r : PoolChain) × (q : Pointer) × (take_free p ≡ some (r, q))
          × IsPoolChain (q ∷ live) r
          × (given q.memory q.offset live ≡ 0))
unfolding take_free without
take_free_cases live p h = elim (take_block_cases p.root) [
  | inr (o, os, e, t) ↦ inr (
    from_root p (without p.root os),
    pointer_to p.root o,
    rw (t, take_free) refl,
    record {
      root = without-IsPool live p.root o os e h.root;
      rest =
          IsChain-cons live p.root.memory p.next_memory (pointer_to p.root o) p.expansions
            (inl (omega arith)) h.rest;
      newest = h.newest;
      fresh = λ m k. let f = h.fresh m k in let n = h.newest in ground arith;
      room = h.room;
      wide = h.wide;
      some_blocks = h.some_blocks;
    },
    IsPool-once live (pointer_to p.root o) (without p.root os) refl
        (without-IsPool live p.root o os e h.root),
  )
  | inl t ↦ elim (take_chain_cases live p.root.memory p.next_memory p.expansions h.rest) [
    | inl t' ↦ inl (rw (t, t', take_free) refl, t, t')
    | inr (cs, q, t', k, a, b, once) ↦ inr (
      from_expansions p cs,
      q,
      rw (t, t', take_free) refl,
      record {
        root = IsPool-cons live q p.root (ground arith) h.root;
        rest = k;
        newest = h.newest;
        fresh = λ m l. let f = h.fresh m l in ground arith;
        room = h.room;
        wide = h.wide;
        some_blocks = h.some_blocks;
      },
      once,
    )
  ]
]

pub expand-IsPoolChain :
    (live : List Pointer) (p : PoolChain) → IsPoolChain live p → IsPoolChain live (expand p)
unfolding expand new_pool
expand-IsPoolChain live p h = record {
  root = h.root;
  rest = (new, h.newest, omega arith, h.rest);
  newest = omega (arith, h.newest);
  fresh = λ m k. h.fresh m (omega arith);
  room = h.room;
  wide = h.wide;
  some_blocks = h.some_blocks;
}
  where
    count : (p.root.block_count == 0) ≡ false
    count = let n = h.some_blocks in ground arith

    new : IsPool live (
        new_pool p.next_memory
          (pool_block_size p.root.block_size)
          (if p.root.block_count == 0 then pool_default_blocks else p.root.block_count))
    new = rw count (
        new_pool-IsPool live p.next_memory (pool_block_size p.root.block_size) p.root.block_count
          h.wide h.room
          (λ o. omega (arith, given_le p.next_memory o live, h.fresh p.next_memory (omega arith)))
          (h.fresh p.next_memory (omega arith)))

new_pool_takes : (m size n : ℕ) → 0 < n → take_block (new_pool m size n) ≢ none
unfolding take_block new_pool free_blocks
new_pool_takes m size zero h = absurd (omega arith)
new_pool_takes m size (suc n) h = λ e. ground arith

take_chain-none :
    (c : MemPool) (cs : List MemPool) → take_chain (c ∷ cs) ≡ none → take_block c ≡ none
unfolding take_chain
take_chain-none c cs h = ground arith

-- After an expansion there is a free block.
pub take_free-expand :
    (live : List Pointer) (p : PoolChain)
    → IsPoolChain live p
    → (r : PoolChain) × (q : Pointer) × (take_free (expand p) ≡ some (r, q))
      × IsPoolChain (q ∷ live) r
      × (given q.memory q.offset live ≡ 0)
unfolding expand
take_free-expand live p h = elim (take_free_cases live (expand p) (expand-IsPoolChain live p h)) [
  | inr found ↦ found
  | inl (e, t, t') ↦ absurd (
      new_pool_takes p.next_memory (pool_block_size p.root.block_size) _
        (ground (arith, h.some_blocks)) (take_chain-none _ p.expansions t'))
]

pub pool_free-IsPoolChain :
    (live : List Pointer) (p : PoolChain) (q : Pointer)
    → IsPoolChain (q ∷ live) p
    → IsPoolChain live (pool_free p q)
unfolding pool_free give_back
pool_free-IsPoolChain live p q h = elim (Bool-cases (q.memory == p.root.memory)) [
  | inl e ↦
      let g = give_back-IsPool live p.root q (ground arith) h.root in
      rw (g.1) (record {
        root = g.0;
        rest =
            IsChain-uncons live p.root.memory p.next_memory q p.expansions (inl (ground arith))
              h.rest;
        newest = h.newest;
        fresh = λ m k. let f = h.fresh m k in ground arith;
        room = h.room;
        wide = h.wide;
        some_blocks = h.some_blocks;
      })
  | inr e ↦ rw (not_owner p.root q e) (record {
    root = IsPool-uncons live q p.root (ground arith) h.root;
    rest = free_chain-IsChain live p.root.memory p.next_memory q p.expansions h.rest;
    newest = h.newest;
    fresh = λ m k. let f = h.fresh m k in ground arith;
    room = h.room;
    wide = h.wide;
    some_blocks = h.some_blocks;
  })
]
