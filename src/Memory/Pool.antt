-- ===== src/Memory/Pool.antt =====
-- Pools of blocks of one size (src/memory.c). A pointer is a piece of memory that `malloc` gave, by its
-- number, and an offset in it. The chain of free blocks is the list of their offsets, which stands for
-- it while no block is freed twice. The statistics shared by all pools are left out.
pub mod Blocks
pub mod Inv
pub mod Calls
mod Tests
use inventixdb.Base.{
  ℕ, zero, suc, ◌+◌, ◌-◌, ◌*◌, ◌%◌, ◌^◌, Bool, true, false, ◌&&◌, not, List, [], ◌∷◌, Option, none,
  some, ltb, ◌==◌, if◌then◌else◌, map,
}
use inventixdb.Memory.{align_up, sub64}

pub record Pointer : Type 0 where
  pub memory : ℕ
  pub offset : ℕ

-- One `MemPool` of a chain: `memory` is the number of its piece of memory.
pub record MemPool : Type 0 where
  pub memory : ℕ
  pub free_list : List ℕ
  pub block_size : ℕ
  pub block_count : ℕ
  pub used_count : ℕ
  pub total_size : ℕ
  pub free_count : ℕ

-- A root `MemPool` with its expansions, the newest first, and the fields that only the root uses;
-- `next_memory` is the number of the next piece of memory.
pub record PoolChain : Type 0 where
  pub root : MemPool
  pub expansions : List MemPool
  pub can_expand : Bool
  pub alloc_count : ℕ
  pub peak_usage : ℕ
  pub next_memory : ℕ

-- The free list of a new pool, the last block first
unfoldable pub free_blocks : ℕ → ℕ → List ℕ
free_blocks zero size = []
free_blocks (suc n) size = n * size ∷ free_blocks n size

abbrev pub pool_default_blocks : ℕ
pool_default_blocks = 256

-- The block size that a pool of at least `size` bytes for each block has
unfoldable pub pool_block_size : ℕ → ℕ
pool_block_size size = align_up (if ltb size 8 then 8 else size)

-- A pool whose block size is given
unfoldable pub new_pool : ℕ → ℕ → ℕ → MemPool
new_pool memory size count = record {
  memory = memory;
  free_list = free_blocks count size;
  block_size = size;
  block_count = count;
  used_count = 0;
  total_size = (size * count) % 2 ^ 64;
  free_count = 0;
}

-- `pool_create_named`, where both allocations succeed
unfoldable pub pool_create_named : ℕ → ℕ → PoolChain
pool_create_named size count = record {
  root = new_pool 0 (pool_block_size size) (if count == 0 then pool_default_blocks else count);
  expansions = [];
  can_expand = true;
  alloc_count = 0;
  peak_usage = 0;
  next_memory = 1;
}

-- A pool without the first of its free blocks, which is taken
unfoldable pub without : MemPool → List ℕ → MemPool
without c os = record c { free_list = os; used_count = c.used_count + 1 }

abbrev pub pointer_to : MemPool → ℕ → Pointer
pointer_to c o = record { memory = c.memory; offset = o }

-- The first free block of one pool
unfoldable pub take_block : MemPool → Option (MemPool × Pointer)
take_block c = elim c.free_list [ [] ↦ none | o ∷ os ↦ some (without c os, pointer_to c o) ]

-- The first free block of a chain
unfoldable pub take_chain : List MemPool → Option (List MemPool × Pointer)
take_chain [] = none
take_chain (c ∷ cs) = elim (take_block c) [
  | some (d, q) ↦ some (d ∷ cs, q)
  | none ↦ elim (take_chain cs) [ some (ds, q) ↦ some (c ∷ ds, q) | none ↦ none ]
]

-- The root took a block and is now `c`.
abbrev pub from_root : PoolChain → MemPool → PoolChain
from_root p c = record p {
  root = c;
  alloc_count = p.alloc_count + 1;
  peak_usage = if ltb p.peak_usage c.used_count then c.used_count else p.peak_usage;
}

-- An expansion took a block, and they are now `cs`.
abbrev pub from_expansions : PoolChain → List MemPool → PoolChain
from_expansions p cs = record p { expansions = cs; alloc_count = p.alloc_count + 1 }

-- `pool_alloc` without the expansion
unfoldable pub take_free : PoolChain → Option (PoolChain × Pointer)
take_free p = elim (take_block p.root) [
  | some (c, q) ↦ some (from_root p c, q)
  | none ↦ elim (take_chain p.expansions) [
    | some (cs, q) ↦ some (from_expansions p cs, q)
    | none ↦ none
  ]
]

-- The pool with a new expansion, which `pool_create_named` makes with the root's block size
unfoldable pub expand : PoolChain → PoolChain
expand p = record p {
  expansions =
      new_pool p.next_memory (pool_block_size p.root.block_size)
        (if p.root.block_count == 0 then pool_default_blocks else p.root.block_count)
      ∷ p.expansions;
  next_memory = p.next_memory + 1;
}

-- `pool_alloc`; the call of itself after an expansion finds a block of the new pool.
unfoldable pub pool_alloc : Bool → PoolChain → PoolChain × Option Pointer
pool_alloc malloc_ok p = elim (take_free p) [
  | some (r, q) ↦ (r, some q)
  | none ↦
      if p.can_expand && malloc_ok
      then (elim (take_free (expand p)) [ some (r, q) ↦ (r, some q) | none ↦ (expand p, none) ])
      else (p, none)
]

unfoldable pub pool_owns : MemPool → Pointer → Bool
pool_owns c q = (q.memory == c.memory) && ltb q.offset c.total_size

-- The pool with the block back in its free list
unfoldable pub give_back : MemPool → ℕ → MemPool
give_back c o = record c {
  free_list = o ∷ c.free_list;
  used_count = sub64 c.used_count 1;
  free_count = c.free_count + 1;
}

-- The chain after the block is given back to its owner; without an owner nothing happens.
unfoldable pub free_chain : List MemPool → Pointer → List MemPool
free_chain [] q = []
free_chain (c ∷ cs) q =
    let rest = free_chain cs q in if pool_owns c q then give_back c q.offset ∷ cs else c ∷ rest

unfoldable pub pool_free : PoolChain → Pointer → PoolChain
pool_free p q =
    if pool_owns p.root q
    then record p { root = give_back p.root q.offset }
    else record p { expansions = free_chain p.expansions q }

unfoldable pub reset_one : MemPool → MemPool
reset_one c = record c { free_list = free_blocks c.block_count c.block_size; used_count = 0 }

-- `pool_reset`. It is called for each expansion, which resets those behind it again.
unfoldable pub pool_reset : PoolChain → PoolChain
pool_reset p = record p { root = reset_one p.root; expansions = map reset_one p.expansions }

unfoldable pub sum_of : (MemPool → ℕ) → List MemPool → ℕ
sum_of f [] = 0
sum_of f (c ∷ cs) = f c + sum_of f cs

unfoldable pub pool_get_used : PoolChain → ℕ
pool_get_used p = p.root.used_count + sum_of (λ c. c.used_count) p.expansions

unfoldable pub pool_get_free : PoolChain → ℕ
pool_get_free p =
    p.root.block_count - p.root.used_count + sum_of (λ c. c.block_count - c.used_count) p.expansions

abbrev pub pool_is_full : PoolChain → Bool
pool_is_full p = elim p.root.free_list [ [] ↦ not p.can_expand | _ ∷ _ ↦ false ]
