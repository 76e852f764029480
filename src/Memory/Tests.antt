-- ===== src/Memory/Tests.antt =====
-- Runs of src/memory.c on a new arena.
use inventixdb.Base.{ℕ, ◌≡◌, refl, Bool, true, false, List, [], ◌∷◌, some, All, arith}
use inventixdb.Memory.{
  Arena, arena_create_with_quota, arena_restore, arena_checkpoint, initial_block_size, sum_used,
}
use inventixdb.Memory.Apart.{alloc_all, IsGrant, AllDisjoint, alloc_all-AllDisjoint}
use inventixdb.Memory.Restore.{IsArena, Restores, restore-alloc_all}

-- The third request gets no new block, the others do.
abbrev some_requests : List (Bool × ℕ)
some_requests = (true, 100) ∷ (true, 70000) ∷ (false, 200000) ∷ (true, 80000) ∷ []

alloc_all-AllDisjoint_example :
    All IsGrant (alloc_all (arena_create_with_quota 0 0) [] some_requests).1
    × AllDisjoint (alloc_all (arena_create_with_quota 0 0) [] some_requests).1
alloc_all-AllDisjoint_example =
    alloc_all-AllDisjoint 0 0 some_requests
      (omega arith, (omega arith, (omega arith, (omega arith, tt))))

abbrev new_arena : Arena
new_arena = arena_create_with_quota 0 500000

new_arena-IsArena : IsArena new_arena
unfolding arena_create_with_quota initial_block_size sum_used
new_arena-IsArena = record {
  last = refl;
  newest = omega arith;
  used = refl;
  allocated = omega arith;
}

restore-alloc_all_example :
    (r : Arena) × ((arena_restore
          (alloc_all new_arena [] some_requests).0
          (arena_checkpoint new_arena)
        ≡ some r)
      × Restores new_arena r)
restore-alloc_all_example = restore-alloc_all new_arena some_requests new_arena-IsArena
