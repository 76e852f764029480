-- ===== src/Memory.antt =====
-- The arena allocator (src/memory.c, include/memory.h). An address is a block and an offset in it, and a
-- block has a number that no other has. `malloc_ok` says whether `malloc` of a new block succeeds;
-- `size_t` wraps. The statistics shared by all arenas are left out.
pub mod Apart
pub mod Restore
pub mod Pool
pub mod Session
mod Tests
use inventixdb.Base.{
  ℕ, ◌+◌, ◌-◌, ◌*◌, ◌/◌, ◌%◌, ◌^◌, Bool, true, false, List, [], ◌∷◌, Option, none, some, ltb, leb,
  ◌==◌, if◌then◌else◌,
}

-- `ArenaBlock`
pub record ArenaBlock : Type 0 where
  pub id : ℕ
  pub size : ℕ
  pub used : ℕ

-- `Arena`. Its chain is `before`, the nearest first, then `current`, then `behind`; `quota` is `none`
-- when it is not enabled. `next_id` is the number of the next block.
pub record Arena : Type 0 where
  pub before : List ArenaBlock
  pub current : ArenaBlock
  pub behind : List ArenaBlock
  pub total_allocated : ℕ
  pub total_used : ℕ
  pub block_count : ℕ
  pub default_block_size : ℕ
  pub quota : Option ℕ
  pub alloc_count : ℕ
  pub peak_usage : ℕ
  pub next_id : ℕ

-- What an allocation of `asked` bytes gives: `size` bytes at `offset` in a block of `block_size` bytes
pub record Grant : Type 0 where
  pub asked : ℕ
  pub block : ℕ
  pub offset : ℕ
  pub size : ℕ
  pub block_size : ℕ

-- `(size + 15) & ~15`
unfoldable pub align_up : ℕ → ℕ
align_up size = ((size + 15) % 2 ^ 64) / 16 * 16

abbrev pub max_size : ℕ
max_size = 16777216

-- A size of 0 stands for the default; `quota` 0 is no quota.
unfoldable pub initial_block_size : ℕ → ℕ
initial_block_size n = if n == 0 then 65536 else (if ltb max_size n then max_size else n)

unfoldable pub arena_create_with_quota : ℕ → ℕ → Arena
arena_create_with_quota initial quota = record {
  before = [];
  current = record { id = 0; size = initial_block_size initial; used = 0 };
  behind = [];
  total_allocated = initial_block_size initial;
  total_used = 0;
  block_count = 1;
  default_block_size = initial_block_size initial;
  quota = if quota == 0 then none else some quota;
  alloc_count = 0;
  peak_usage = 0;
  next_id = 1;
}

unfoldable pub over_quota : Arena → ℕ → Bool
over_quota a n = elim a.quota [ none ↦ false | some q ↦ ltb q ((a.total_used + n) % 2 ^ 64) ]

-- The counters after an allocation of `n` bytes
unfoldable pub count_use : ℕ → Arena → Arena
count_use n a =
    let used = (a.total_used + n) % 2 ^ 64 in
    record a {
      total_used = used;
      alloc_count = a.alloc_count + 1;
      peak_usage = if ltb a.peak_usage used then used else a.peak_usage;
    }

unfoldable pub use_current : ℕ → Arena → Arena
use_current n a =
    count_use n (record a { current = record a.current { used = (a.current.used + n) % 2 ^ 64 } })

unfoldable pub new_block_size : ℕ → Arena → ℕ
new_block_size n a = if ltb a.default_block_size n then (n * 2) % 2 ^ 64 else a.default_block_size

-- `block->next = new_block`: the blocks that were behind are no longer in the chain.
unfoldable pub grow : ℕ → Arena → Arena
grow n a = count_use n (record a {
  before = a.current ∷ a.before;
  current = record { id = a.next_id; size = new_block_size n a; used = n };
  behind = [];
  total_allocated = (a.total_allocated + new_block_size n a) % 2 ^ 64;
  block_count = a.block_count + 1;
  next_id = a.next_id + 1;
})

-- An aligned size in the current block or in a new one
unfoldable pub alloc_aligned : Bool → ℕ → ℕ → Arena → Arena × Option Grant
alloc_aligned malloc_ok asked n a =
    if leb ((a.current.used + n) % 2 ^ 64) a.current.size
    then (
      use_current n a,
      some (record {
        asked = asked;
        block = a.current.id;
        offset = a.current.used;
        size = n;
        block_size = a.current.size;
      }),
    )
    else (if malloc_ok
        then (
          grow n a,
          some (record {
            asked = asked;
            block = a.next_id;
            offset = 0;
            size = n;
            block_size = new_block_size n a;
          }),
        )
        else (a, none))

unfoldable pub arena_alloc : Bool → Arena → ℕ → Arena × Option Grant
arena_alloc malloc_ok a size =
    if size == 0
    then (a, none)
    else (if over_quota a (align_up size)
        then (a, none)
        else alloc_aligned malloc_ok size (align_up size) a)

unfoldable pub clear_used : List ArenaBlock → List ArenaBlock
clear_used [] = []
clear_used (b ∷ bs) = record b { used = 0 } ∷ clear_used bs

-- `b` and `bs` in front of it, the nearest first, as a chain: its first block and the others
unfoldable pub rewind :
    List ArenaBlock → ArenaBlock → List ArenaBlock → ArenaBlock × List ArenaBlock
rewind [] b behind = (b, behind)
rewind (p ∷ ps) b behind = rewind ps p (b ∷ behind)

abbrev pub first_of : Arena → ArenaBlock × List ArenaBlock
first_of a = rewind a.before a.current a.behind

unfoldable pub arena_reset : Arena → Arena
arena_reset a = record a {
  before = [];
  current = record (first_of a).0 { used = 0 };
  behind = clear_used (first_of a).1;
  total_used = 0;
  alloc_count = 0;
}

-- The sizes of the blocks that are freed
unfoldable pub sum_sizes : List ArenaBlock → ℕ
sum_sizes [] = 0
sum_sizes (b ∷ bs) = b.size + sum_sizes bs

unfoldable pub count_blocks : List ArenaBlock → ℕ
count_blocks [] = 0
count_blocks (b ∷ bs) = 1 + count_blocks bs

unfoldable pub sum_used : List ArenaBlock → ℕ
sum_used [] = 0
sum_used (b ∷ bs) = b.used + sum_used bs

-- `a - b` as a `size_t`
unfoldable pub sub64 : ℕ → ℕ → ℕ
sub64 a b = (a + 2 ^ 64 - b % 2 ^ 64) % 2 ^ 64

unfoldable pub arena_clear : Arena → Arena
arena_clear a =
    let freed = (first_of a).1 in
    record a {
      before = [];
      current = record (first_of a).0 { used = 0 };
      behind = [];
      total_allocated = sub64 a.total_allocated (sum_sizes freed);
      block_count = a.block_count - count_blocks freed;
      total_used = 0;
    }

-- `ArenaCheckpoint`
pub record ArenaCheckpoint : Type 0 where
  pub block : ℕ
  pub used : ℕ

unfoldable pub arena_checkpoint : Arena → ArenaCheckpoint
arena_checkpoint a = record { block = a.current.id; used = a.current.used }

-- A place in the chain: the blocks before it, the nearest first, the block, and those behind it
pub record Place : Type 0 where
  pub before : List ArenaBlock
  pub block : ArenaBlock
  pub behind : List ArenaBlock

-- The block that a pointer names, from the last block of `bs` backwards
unfoldable pub seek : ℕ → List ArenaBlock → List ArenaBlock → Option Place
seek id [] behind = none
seek id (b ∷ bs) behind =
    let further = seek id bs (b ∷ behind) in
    if b.id == id then some (record { before = bs; block = b; behind = behind }) else further

-- The same from the block behind the current one on
unfoldable pub seek_ahead : ℕ → List ArenaBlock → List ArenaBlock → Option Place
seek_ahead id before [] = none
seek_ahead id before (b ∷ bs) =
    let further = seek_ahead id (b ∷ before) bs in
    if b.id == id then some (record { before = before; block = b; behind = bs }) else further

unfoldable pub restore_at : Arena → ℕ → Place → Arena
restore_at a used p = record a {
  before = p.before;
  current = record p.block { used = used };
  behind = [];
  total_allocated = sub64 a.total_allocated (sum_sizes p.behind);
  block_count = a.block_count - count_blocks p.behind;
  total_used = (sum_used p.before + used) % 2 ^ 64;
}

-- `none`: the block of the checkpoint is no longer in the chain, and the pointer may dangle.
unfoldable pub arena_restore : Arena → ArenaCheckpoint → Option Arena
arena_restore a cp = elim (seek cp.block (a.current ∷ a.before) a.behind) [
  | some p ↦ some (restore_at a cp.used p)
  | none ↦ elim (seek_ahead cp.block (a.current ∷ a.before) a.behind) [
    | some p ↦ some (restore_at a cp.used p)
    | none ↦ none
  ]
]
