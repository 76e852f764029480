-- ===== src/Memory/Pool/Calls.antt =====
-- Histories of a pool of src/memory.c: allocations, releases of blocks that are given out, and resets.
use inventixdb.Base.{
  ℕ, zero, suc, ◌+◌, ◌-◌, ◌*◌, ◌^◌, ◌<◌, ◌≤◌, ◌≡◌, ◌⊎◌, inl, inr, refl, ◌∙◌, Bool, true, false,
  ◌&&◌, List, [], ◌∷◌, Option, none, some, ◌==◌, length, map, arith, Bool-cases,
}
use inventixdb.Memory.{align_up}
use inventixdb.Memory.Pool.{
  Pointer, MemPool, PoolChain, pool_block_size, new_pool, pool_create_named, pool_alloc, pool_free,
  reset_one, pool_reset, pool_get_free, sum_of,
}
use inventixdb.Memory.Pool.Blocks.{
  given, given_in, IsPool, IsPool-same, new_pool-IsPool, length-free_blocks,
}
use inventixdb.Memory.Pool.Inv.{
  IsChain, IsPoolChain, take_free_cases, take_free-expand, pool_free-IsPoolChain,
}

pub data Call : Type 0 where
  allocs : Bool → Call
  frees : ℕ → Call
  resets : Call

-- The pointer at a place of the list, and the others
abbrev pick : ℕ → List Pointer → Option (Pointer × List Pointer)
pick i [] = none
pick zero (q ∷ qs) = some (q, qs)
pick (suc i) (q ∷ qs) = elim (pick i qs) [ none ↦ none | some (r, rs) ↦ some (r, q ∷ rs) ]

abbrev with_new : List Pointer → Option Pointer → List Pointer
with_new live none = live
with_new live (some q) = q ∷ live

-- A pool and the pointers into it that are given out; a call that frees names one of these, and a reset
-- takes all of them back.
abbrev pub step : PoolChain × List Pointer → Call → PoolChain × List Pointer
step (p, live) (allocs malloc_ok) = let r = pool_alloc malloc_ok p in (r.0, with_new live r.1)
step (p, live) (frees i) = elim (pick i live) [
  | none ↦ (p, live)
  | some (q, rest) ↦ (pool_free p q, rest)
]
step (p, live) resets = (pool_reset p, [])

abbrev pub after_calls : PoolChain × List Pointer → List Call → PoolChain × List Pointer
after_calls s [] = s
after_calls s (c ∷ cs) = after_calls (step s c) cs

pick_cases :
    (i : ℕ) (live : List Pointer)
    → (pick i live ≡ none)
      ⊎ ((q : Pointer) × (rest : List Pointer) × (pick i live ≡ some (q, rest))
          × ((m o : ℕ) → given m o (q ∷ rest) ≡ given m o live)
          × ((m : ℕ) → given_in m (q ∷ rest) ≡ given_in m live))
pick_cases i [] = inl refl
pick_cases zero (q ∷ qs) = inr (q, qs, refl, λ m o. refl, λ m. refl)
pick_cases (suc i) (q ∷ qs) = elim (pick_cases i qs) [
  | inl e ↦ inl (rw (e, pick) refl)
  | inr (r, rs, e, g, h) ↦
      inr (r, q ∷ rs, rw (e, pick) refl, λ m o. omega (arith, g m o), λ m. omega (arith, h m))
]

IsChain-same :
    (live live' : List Pointer) (low high : ℕ) (cs : List MemPool)
    → ((m o : ℕ) → given m o live' ≡ given m o live)
    → ((m : ℕ) → given_in m live' ≡ given_in m live)
    → IsChain live low high cs
    → IsChain live' low high cs
IsChain-same live live' low high [] g h d = tt
IsChain-same live live' low high (c ∷ cs) g h (p, l, u, d) = (
  IsPool-same live live' c (g c.memory) (h c.memory) p,
  l,
  u,
  IsChain-same live live' low c.memory cs g h d,
)

IsPoolChain-same :
    (live live' : List Pointer) (p : PoolChain)
    → ((m o : ℕ) → given m o live' ≡ given m o live)
    → ((m : ℕ) → given_in m live' ≡ given_in m live)
    → IsPoolChain live p
    → IsPoolChain live' p
IsPoolChain-same live live' p g h d = record {
  root = IsPool-same live live' p.root (g p.root.memory) (h p.root.memory) d.root;
  rest = IsChain-same live live' p.root.memory p.next_memory p.expansions g h d.rest;
  newest = d.newest;
  fresh = λ m k. h m ∙ d.fresh m k;
  room = d.room;
  wide = d.wide;
  some_blocks = d.some_blocks;
}

reset_one-IsPool : (live : List Pointer) (c : MemPool) → IsPool live c → IsPool [] (reset_one c)
unfolding reset_one
reset_one-IsPool live c p = record {
  blocks = λ o. omega arith;
  used = refl;
  counted = omega (arith, length-free_blocks c.block_count c.block_size);
  wide = p.wide;
  total = p.total;
  few = p.few;
}

reset-IsChain :
    (live : List Pointer) (low high : ℕ) (cs : List MemPool)
    → IsChain live low high cs
    → IsChain [] low high (map reset_one cs)
unfolding reset_one
reset-IsChain live low high [] d = tt
reset-IsChain live low high (c ∷ cs) (p, l, u, d) =
    (reset_one-IsPool live c p, l, u, reset-IsChain live low c.memory cs d)

pool_alloc_cases :
    (live : List Pointer) (p : PoolChain) (malloc_ok : Bool)
    → IsPoolChain live p
    → (pool_alloc malloc_ok p ≡ (p, none))
      ⊎ ((r : PoolChain) × (q : Pointer) × (pool_alloc malloc_ok p ≡ (r, some q))
          × IsPoolChain (q ∷ live) r
          × (given q.memory q.offset live ≡ 0))
unfolding pool_alloc
pool_alloc_cases live p malloc_ok h = elim (take_free_cases live p h) [
  | inr (r, q, e, k, f) ↦ inr (r, q, rw (e, pool_alloc) refl, k, f)
  | inl (e, t, t') ↦
      let (r, q, e', k, f) = take_free-expand live p h in
      elim (Bool-cases (p.can_expand && malloc_ok)) [
        | inl b ↦ inr (r, q, rw (e, b, e', pool_alloc) refl, k, f)
        | inr b ↦ inl (rw (e, b, pool_alloc) refl)
      ]
]

-- A pool that accounts for its blocks and may grow gives out a block whenever `malloc` succeeds, and one
-- that is not given out; it then accounts for that one too.
pub pool_alloc-new :
    (live : List Pointer) (p : PoolChain)
    → IsPoolChain live p
    → p.can_expand ≡ true
    → (r : PoolChain) × (q : Pointer) × (pool_alloc true p ≡ (r, some q))
      × IsPoolChain (q ∷ live) r
      × (given q.memory q.offset live ≡ 0)
unfolding pool_alloc
pool_alloc-new live p h e = elim (take_free_cases live p h) [
  | inr (r, q, t, k, f) ↦ (r, q, rw (t, pool_alloc) refl, k, f)
  | inl (t, u, u') ↦
      let (r, q, t', k, f) = take_free-expand live p h in
      let grows : p.can_expand && true ≡ true = ground arith in
      (r, q, rw (t, grows, t', pool_alloc) refl, k, f)
]

step-IsPoolChain :
    (p : PoolChain) (live : List Pointer) (c : Call)
    → IsPoolChain live p
    → IsPoolChain (step (p, live) c).1 (step (p, live) c).0
unfolding pool_reset reset_one
step-IsPoolChain p live (allocs malloc_ok) h = elim (pool_alloc_cases live p malloc_ok h) [
  | inl e ↦ rw e h
  | inr (r, q, e, k, f) ↦ rw e k
]
step-IsPoolChain p live (frees i) h = elim (pick_cases i live) [
  | inl e ↦ rw (e, step) h
  | inr (q, rest, e, g, k) ↦
      rw (e, step) (pool_free-IsPoolChain rest p q (IsPoolChain-same live (q ∷ rest) p g k h))
]
step-IsPoolChain p live resets h = record {
  root = reset_one-IsPool live p.root h.root;
  rest = reset-IsChain live p.root.memory p.next_memory p.expansions h.rest;
  newest = h.newest;
  fresh = λ m k. refl;
  room = h.room;
  wide = h.wide;
  some_blocks = h.some_blocks;
}

calls-IsPoolChain :
    (p : PoolChain) (live : List Pointer) (cs : List Call)
    → IsPoolChain live p
    → IsPoolChain (after_calls (p, live) cs).1 (after_calls (p, live) cs).0
calls-IsPoolChain p live [] h = h
calls-IsPoolChain p live (c ∷ cs) h =
    calls-IsPoolChain (step (p, live) c).0 (step (p, live) c).1 cs (step-IsPoolChain p live c h)

-- Blocks of a pool of at least `size` bytes are wide enough, and aligning their size again changes
-- nothing.
pool_block_size_lem :
    (size : ℕ)
    → size + 15 < 2 ^ 64
    → (0 < pool_block_size size)
      × (size ≤ pool_block_size size)
      × (pool_block_size (pool_block_size size) ≡ pool_block_size size)
unfolding pool_block_size align_up
pool_block_size_lem size h = ground arith

-- After any allocations, releases and resets of a new pool whose memory fits `size_t`, each block of
-- each of its pieces of memory is free once or given out once and not both, no other block is free, and
-- the counters of every piece tell how many blocks are given out and how many are free.
pub after_calls-IsPoolChain :
    (size count : ℕ) (cs : List Call)
    → size + 15 < 2 ^ 64
    → 0 < count
    → count * pool_block_size size < 2 ^ 64
    → IsPoolChain
        (after_calls (pool_create_named size count, []) cs).1
        (after_calls (pool_create_named size count, []) cs).0
unfolding pool_create_named new_pool
after_calls-IsPoolChain size count cs h n k =
    let s = pool_block_size_lem size h in
    let some_count : (count == 0) ≡ false = ground arith in
    calls-IsPoolChain (pool_create_named size count) [] cs (
      rw some_count (record {
        root = new_pool-IsPool [] 0 (pool_block_size size) count s.0 k (λ o. refl) refl;
        rest = tt;
        newest = omega arith;
        fresh = λ m l. refl;
        room = rw (s.2) k;
        wide = rw (s.2) (s.0);
        some_blocks = n;
      }))

-- The number of free blocks of a chain
abbrev pub free_total : List MemPool → ℕ
free_total [] = 0
free_total (c ∷ cs) = length c.free_list + free_total cs

sum-free :
    (live : List Pointer) (low high : ℕ) (cs : List MemPool)
    → IsChain live low high cs
    → sum_of (λ c. c.block_count - c.used_count) cs ≡ free_total cs
unfolding sum_of
sum-free live low high [] h = refl
sum-free live low high (c ∷ cs) (p, l, u, h) =
    omega (arith, p.counted, sum-free live low c.memory cs h)

-- `pool_get_free` counts the free blocks.
pub pool_get_free_lem :
    (live : List Pointer) (p : PoolChain)
    → IsPoolChain live p
    → pool_get_free p ≡ free_total (p.root ∷ p.expansions)
unfolding pool_get_free
pool_get_free_lem live p h =
    omega (arith, h.root.counted, sum-free live p.root.memory p.next_memory p.expansions h.rest)
