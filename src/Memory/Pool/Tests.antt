-- ===== src/Memory/Pool/Tests.antt =====
-- Runs of a pool of src/memory.c with two blocks, which grows once.
use inventixdb.Base.{◌≡◌, refl, true, false, List, [], ◌∷◌, some, arith}
use inventixdb.Memory.{align_up}
use inventixdb.Memory.Pool.{
  Pointer, PoolChain, free_blocks, pool_block_size, new_pool, pool_create_named, without,
  take_block, take_chain, take_free, expand, pool_alloc, pool_owns, give_back, pool_free,
}
use inventixdb.Memory.Pool.Blocks.{given}
use inventixdb.Memory.Pool.Inv.{IsPoolChain}
use inventixdb.Memory.Pool.Calls.{
  Call, allocs, frees, after_calls, after_calls-IsPoolChain, pool_alloc-new,
}

abbrev some_calls : List Call
some_calls = allocs true ∷ allocs true ∷ allocs false ∷ allocs true ∷ frees 1 ∷ []

abbrev ran : PoolChain × List Pointer
ran = after_calls (pool_create_named 20 2, []) some_calls

two_live : ran.1 ≡ record { memory = 1; offset = 32 } ∷ record { memory = 0; offset = 32 } ∷ []
unfolding pool_create_named pool_block_size align_up new_pool free_blocks pool_alloc take_free
    take_block take_chain without expand pool_free pool_owns give_back
two_live = refl

after_calls-IsPoolChain_example : IsPoolChain ran.1 ran.0
unfolding pool_block_size align_up
after_calls-IsPoolChain_example =
    after_calls-IsPoolChain 20 2 some_calls (omega arith) (omega arith) (omega arith)

pool_alloc-new_example :
    (r : PoolChain) × (q : Pointer) × (pool_alloc true ran.0 ≡ (r, some q))
    × IsPoolChain (q ∷ ran.1) r
    × (given q.memory q.offset ran.1 ≡ 0)
unfolding pool_create_named pool_block_size align_up new_pool free_blocks pool_alloc take_free
    take_block take_chain without expand pool_free pool_owns give_back
pool_alloc-new_example = pool_alloc-new ran.1 ran.0 after_calls-IsPoolChain_example refl
