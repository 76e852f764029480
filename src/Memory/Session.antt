-- ===== src/Memory/Session.antt =====
-- Quotas, the memory of a session and the other callers of the arena (src/memory.c). The thresholds of
-- a quota are products of floating-point numbers and so arguments; its callbacks are left out.
pub mod Bounds
mod Tests
use inventixdb.Base.{
  ℕ, zero, suc, ◌+◌, ◌-◌, ◌*◌, ◌/◌, ◌%◌, ◌^◌, Bool, true, false, ◌&&◌, not, List, [], ◌∷◌, ◌++◌,
  Option, none, some, Bytes, ltb, leb, ◌==◌, if◌then◌else◌, length, take, min,
}
use inventixdb.Memory.{Arena, Grant, arena_create_with_quota, arena_alloc, arena_reset}
use inventixdb.Memory.Pool.{PoolChain, Pointer, pool_create_named, pool_alloc}

-- Whether a number is one of the powers of two below `2 ^ n`
unfoldable pub is_power_of_two : ℕ → ℕ → Bool
is_power_of_two zero a = false
is_power_of_two (suc n) a = if 2 ^ n == a then true else is_power_of_two n a

-- An alignment that is no power of two is replaced, but 0 is kept.
unfoldable pub used_alignment : ℕ → ℕ
used_alignment a = if a == 0 then 0 else (if is_power_of_two 64 a then a else 16)

-- `(addr + a - 1) & ~(a - 1)`
unfoldable pub align_address : ℕ → ℕ → ℕ
align_address addr a = if a == 0 then 0 else ((addr + a - 1) % 2 ^ 64) / a * a

-- `arena_alloc_aligned`; `base` is the address of the data of a block, and 0 is NULL.
unfoldable pub arena_alloc_aligned : Bool → (ℕ → ℕ) → Arena → ℕ → ℕ → Arena × ℕ
arena_alloc_aligned malloc_ok base a size alignment =
    let r = arena_alloc malloc_ok a ((size + used_alignment alignment) % 2 ^ 64) in
    if size == 0 then (a, 0) else (
      r.0,
      elim r.1 [
        | none ↦ 0
        | some g ↦ align_address (base g.block + g.offset) (used_alignment alignment)
      ],
    )

-- `arena_strdup` of the string `s`: the block and its bytes with the final NUL
unfoldable pub arena_strdup : Bool → Arena → Bytes → Arena × Option (Grant × Bytes)
arena_strdup malloc_ok a s =
    let r = arena_alloc malloc_ok a (length s + 1) in
    (r.0, elim r.1 [ none ↦ none | some g ↦ some (g, s ++ 0 ∷ []) ])

-- `arena_strndup`
unfoldable pub arena_strndup : Bool → Arena → Bytes → ℕ → Arena × Option (Grant × Bytes)
arena_strndup malloc_ok a s max_len =
    let cut = take (min max_len (length s)) s in
    let r = arena_alloc malloc_ok a (length cut + 1) in
    (r.0, elim r.1 [ none ↦ none | some g ↦ some (g, cut ++ 0 ∷ []) ])

-- `arena_realloc`: `old` is the bytes of the old block, `none` a NULL pointer, and the result has the
-- bytes that are copied to the front of the new block.
unfoldable pub arena_realloc : Bool → Arena → Option Bytes → ℕ → Arena × Option (Grant × Bytes)
arena_realloc malloc_ok a none new_size =
    let r = arena_alloc malloc_ok a new_size in
    (r.0, elim r.1 [ none ↦ none | some g ↦ some (g, []) ])
arena_realloc malloc_ok a (some old) new_size =
    let r = arena_alloc malloc_ok a new_size in
    if new_size == 0
    then (a, none)
    else (r.0, elim r.1 [ none ↦ none | some g ↦ some (g, take (min (length old) new_size) old) ])

-- `QuotaStatus`
pub data QuotaStatus : Type 0 where
  quota_ok quota_exceeded quota_warning quota_critical : QuotaStatus

-- `MemQuota`
pub record MemQuota : Type 0 where
  pub limit : ℕ
  pub used : ℕ
  pub peak : ℕ
  pub alloc_count : ℕ
  pub warning_threshold : ℕ
  pub critical_threshold : ℕ

abbrev pub quota_default : ℕ
quota_default = 33554432

-- `quota_create_named`; the thresholds of a limit are `warning` and `critical`.
unfoldable pub quota_create_named : (ℕ → ℕ) → (ℕ → ℕ) → ℕ → MemQuota
quota_create_named warning critical n =
    let limit = if n == 0 then quota_default else n in
    record {
      limit = limit;
      used = 0;
      peak = 0;
      alloc_count = 0;
      warning_threshold = warning limit;
      critical_threshold = critical limit;
    }

-- `quota_request`; `size_t` wraps.
unfoldable pub quota_request : MemQuota → ℕ → MemQuota × Bool
quota_request q size =
    let used = (q.used + size) % 2 ^ 64 in
    if ltb q.limit used then (q, false) else (
      record q {
        used = used;
        alloc_count = q.alloc_count + 1;
        peak = if ltb q.peak used then used else q.peak;
      },
      true,
    )

unfoldable pub quota_release : MemQuota → ℕ → MemQuota
quota_release q size = record q { used = if ltb q.used size then 0 else q.used - size }

unfoldable pub quota_reset : MemQuota → MemQuota
quota_reset q = record q { used = 0; alloc_count = 0 }

unfoldable pub quota_status : MemQuota → QuotaStatus
quota_status q =
    if leb q.limit q.used
    then quota_exceeded
    else (if leb q.critical_threshold q.used
        then quota_critical
        else (if leb q.warning_threshold q.used then quota_warning else quota_ok))

unfoldable pub quota_remaining : MemQuota → ℕ
quota_remaining q = if ltb q.used q.limit then q.limit - q.used else 0

-- `SessionMemory`; `none` is a session without a quota, or a pool that could not be made.
pub record SessionMemory : Type 0 where
  pub arena : Arena
  pub query_arena : Arena
  pub small_pool : Option PoolChain
  pub medium_pool : Option PoolChain
  pub quota : Option MemQuota
  pub total_allocated : ℕ
  pub query_count : ℕ

-- `session_memory_create`, where all allocations succeed
unfoldable pub session_memory_create : (ℕ → ℕ) → (ℕ → ℕ) → ℕ → SessionMemory
session_memory_create warning critical quota_limit = record {
  arena = arena_create_with_quota 65536 0;
  query_arena = arena_create_with_quota 16384 0;
  small_pool = some (pool_create_named 64 256);
  medium_pool = some (pool_create_named 256 64);
  quota = if quota_limit == 0 then none else some (quota_create_named warning critical quota_limit);
  total_allocated = 0;
  query_count = 0;
}

unfoldable pub session_memory_reset_query : SessionMemory → SessionMemory
session_memory_reset_query s = record s {
  query_arena = arena_reset s.query_arena;
  query_count = s.query_count + 1;
}

-- The session after its quota was asked for `size` bytes, and the answer
unfoldable pub ask_quota : SessionMemory → ℕ → SessionMemory × Bool
ask_quota s size = elim s.quota [
  | none ↦ (s, true)
  | some q ↦ let r = quota_request q size in (record s { quota = some r.0 }, r.1)
]

-- Where an allocation of a session lies
pub data SessionPlace : Type 0 where
  in_small in_medium : Pointer → SessionPlace
  in_arena : Grant → SessionPlace

-- The part of `session_alloc` behind the quota
unfoldable pub alloc_small : Bool → SessionMemory → PoolChain → SessionMemory × Option SessionPlace
alloc_small malloc_ok s p =
    let r = pool_alloc malloc_ok p in
    (record s { small_pool = some r.0 }, elim r.1 [ none ↦ none | some q ↦ some (in_small q) ])

unfoldable pub alloc_medium : Bool → SessionMemory → PoolChain → SessionMemory × Option SessionPlace
alloc_medium malloc_ok s p =
    let r = pool_alloc malloc_ok p in
    (record s { medium_pool = some r.0 }, elim r.1 [ none ↦ none | some q ↦ some (in_medium q) ])

unfoldable pub alloc_large : Bool → SessionMemory → ℕ → SessionMemory × Option SessionPlace
alloc_large malloc_ok s size =
    let r = arena_alloc malloc_ok s.arena size in
    elim r.1 [
      | none ↦ (record s { arena = r.0 }, none)
      | some g ↦ (
        record s { arena = r.0; total_allocated = (s.total_allocated + size) % 2 ^ 64 },
        some (in_arena g),
      )
    ]

unfoldable pub try_medium : Bool → SessionMemory → ℕ → SessionMemory × Option SessionPlace
try_medium malloc_ok s size = elim s.medium_pool [
  | none ↦ alloc_large malloc_ok s size
  | some p ↦ if leb size 256 then alloc_medium malloc_ok s p else alloc_large malloc_ok s size
]

unfoldable pub alloc_by_size : Bool → SessionMemory → ℕ → SessionMemory × Option SessionPlace
alloc_by_size malloc_ok s size = elim s.small_pool [
  | none ↦ try_medium malloc_ok s size
  | some p ↦ if leb size 64 then alloc_small malloc_ok s p else try_medium malloc_ok s size
]

unfoldable pub session_alloc : Bool → SessionMemory → ℕ → SessionMemory × Option SessionPlace
session_alloc malloc_ok s size =
    let r = ask_quota s size in if r.1 then alloc_by_size malloc_ok r.0 size else (r.0, none)

unfoldable pub session_alloc_query : Bool → SessionMemory → ℕ → SessionMemory × Option Grant
session_alloc_query malloc_ok s size =
    let r = ask_quota s size in
    let b = arena_alloc malloc_ok r.0.query_arena size in
    if r.1 then (record r.0 { query_arena = b.0 }, b.1) else (r.0, none)
