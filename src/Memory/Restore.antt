-- ===== src/Memory/Restore.antt =====
-- `arena_restore` takes back all allocations since the checkpoint (src/memory.c).
use inventixdb.Base.{
  ℕ, ◌+◌, ◌%◌, ◌^◌, ◌<◌, ◌≡◌, inl, inr, refl, sym, ap, ◌∙◌, Bool, true, false, List, [], ◌∷◌, ◌++◌,
  Option, some, arith, Bool-cases, ◌==◌, leb, All,
}
use inventixdb.Memory.{
  ArenaBlock, Arena, Grant, Place, align_up, over_quota, count_use, use_current, grow,
  alloc_aligned, arena_alloc, sum_sizes, sum_used, count_blocks, sub64, seek, restore_at,
  arena_checkpoint, arena_restore,
}
use inventixdb.Memory.Apart.{alloc_all, with_grant}

-- Where the chain of `b` still has the blocks of `a`: as they were but for the used part of the last one,
-- or behind newer blocks.
data Top (a b : Arena) : Type 0 where
  same :
      (u : ℕ)
      → b.current ≡ record a.current { used = u }
      → b.before ≡ a.before
      → b.total_allocated ≡ a.total_allocated
      → b.block_count ≡ a.block_count
      → Top a b
  above :
      (u : ℕ) (newer : List ArenaBlock)
      → a.current.id < b.current.id
      → All (λ x. a.current.id < x.id) newer
      → b.before ≡ newer ++ record a.current { used = u } ∷ a.before
      → b.total_allocated ≡ (a.total_allocated + (b.current.size + sum_sizes newer)) % 2 ^ 64
      → b.block_count ≡ a.block_count + (1 + count_blocks newer)
      → Top a b

record Grown (a b : Arena) : Type 0 where
  pub behind : b.behind ≡ []
  pub newest : a.current.id < b.next_id
  pub top : Top a b

abbrev refill : ℕ → ArenaBlock → ArenaBlock
refill n x = record x { used = n }

use_current-Grown : (a b : Arena) (n : ℕ) → Grown a b → Grown a (use_current n b)
unfolding use_current count_use
use_current-Grown a b n g = record { behind = g.behind; newest = g.newest; top = moved g.top }
  where
    moved : Top a b → Top a (use_current n b)
    moved (same u c before total count) =
        same ((b.current.used + n) % 2 ^ 64) (ap (refill ((b.current.used + n) % 2 ^ 64)) c) before
          total count
    moved (above u newer newest ids before total count) =
        above u newer newest ids before total count

grow-Grown : (a b : Arena) (n : ℕ) → Grown a b → Grown a (grow n b)
unfolding grow count_use sum_sizes count_blocks
grow-Grown a b n g = record { behind = refl; newest = omega (arith, g.newest); top = moved g.top }
  where
    moved : Top a b → Top a (grow n b)
    moved (same u c before total count) =
        above u [] g.newest tt
          (ap (λ x. x ∷ b.before) c ∙ ap (λ t. record a.current { used = u } ∷ t) before)
          (omega (arith, total)) (omega (arith, count))
    moved (above u newer newest ids before total count) =
        above u (b.current ∷ newer) g.newest (newest, ids) (ap (λ t. b.current ∷ t) before)
          (omega (arith, total)) (omega (arith, count))

alloc_Grown :
    (malloc_ok : Bool) (a b : Arena) (size : ℕ)
    → Grown a b
    → Grown a (arena_alloc malloc_ok b size).0
unfolding arena_alloc alloc_aligned
alloc_Grown malloc_ok a b size g = elim (Bool-cases (size == 0)) [
  | inl empty ↦ rw (empty) g
  | inr some_bytes ↦ elim (Bool-cases (over_quota b (align_up size))) [
    | inl over ↦ rw (some_bytes, over) g
    | inr allowed ↦
        elim (Bool-cases (leb ((b.current.used + align_up size) % 2 ^ 64) b.current.size)) [
          | inl fits ↦ rw (some_bytes, allowed, fits) (use_current-Grown a b (align_up size) g)
          | inr full ↦ elim (Bool-cases malloc_ok) [
            | inl given ↦ rw (some_bytes, allowed, full, given) (grow-Grown a b (align_up size) g)
            | inr refused ↦ rw (some_bytes, allowed, full, refused) g
          ]
        ]
  ]
]

alloc_all-Grown :
    (a b : Arena) (gs : List Grant) (requests : List (Bool × ℕ))
    → Grown a b
    → Grown a (alloc_all b gs requests).0
unfolding alloc_all
alloc_all-Grown a b gs [] g = g
alloc_all-Grown a b gs ((malloc_ok, size) ∷ more) g =
    alloc_all-Grown a (arena_alloc malloc_ok b size).0
      (with_grant gs (arena_alloc malloc_ok b size).1) more (alloc_Grown malloc_ok a b size g)

-- What `seek` finds behind newer blocks
record Found (newer rest behind : List ArenaBlock) (x : ArenaBlock) (o : Option Place)
    : Type 0 where
  pub place : Place
  pub at : o ≡ some place
  pub before : place.before ≡ rest
  pub block : place.block ≡ x
  pub sizes : sum_sizes place.behind ≡ sum_sizes newer + sum_sizes behind
  pub count : count_blocks place.behind ≡ count_blocks newer + count_blocks behind

seek_lem :
    (id : ℕ) (newer rest behind : List ArenaBlock) (x : ArenaBlock)
    → All (λ y. id < y.id) newer
    → x.id ≡ id
    → Found newer rest behind x (seek id (newer ++ x ∷ rest) behind)
unfolding seek sum_sizes count_blocks
seek_lem id [] rest behind x h e =
    let here : (x.id == id) ≡ true = ground (arith, e) in
    record {
      place = record { before = rest; block = x; behind = behind };
      at = rw (here) refl;
      before = refl;
      block = refl;
      sizes = omega arith;
      count = omega arith;
    }
seek_lem id (y ∷ ys) rest behind x h e =
    let past : (y.id == id) ≡ false = ground (arith, h.0) in
    let f = seek_lem id ys rest (y ∷ behind) x h.1 e in
    record {
      place = f.place;
      at = rw (past) f.at;
      before = f.before;
      block = f.block;
      sizes = omega (arith, f.sizes);
      count = omega (arith, f.count);
    }

-- An arena whose current block is its last, and whose counters are those of its chain
pub record IsArena (a : Arena) : Type 0 where
  pub last : a.behind ≡ []
  pub newest : a.current.id < a.next_id
  pub used : a.total_used ≡ (sum_used a.before + a.current.used) % 2 ^ 64
  pub allocated : a.total_allocated < 2 ^ 64

-- The chain of `b` and its counters of used bytes, of allocated bytes and of blocks are those of `a`.
pub record Restores (a b : Arena) : Type 0 where
  pub before : b.before ≡ a.before
  pub current : b.current ≡ a.current
  pub behind : b.behind ≡ a.behind
  pub total_used : b.total_used ≡ a.total_used
  pub total_allocated : b.total_allocated ≡ a.total_allocated
  pub block_count : b.block_count ≡ a.block_count

sub64_lem : (t s : ℕ) → t < 2 ^ 64 → sub64 ((t + s) % 2 ^ 64) s ≡ t
unfolding sub64
sub64_lem t s h = omega arith

-- The chain of `b`, the nearest block first, with the blocks that are newer than those of `a`
record Chain (a b : Arena) : Type 0 where
  pub newer : List ArenaBlock
  pub u : ℕ
  pub shape : b.current ∷ b.before ≡ newer ++ record a.current { used = u } ∷ a.before
  pub ids : All (λ x. a.current.id < x.id) newer
  pub total : b.total_allocated ≡ (a.total_allocated + sum_sizes newer) % 2 ^ 64
  pub count : b.block_count ≡ a.block_count + count_blocks newer

Chain-of : (a b : Arena) → a.total_allocated < 2 ^ 64 → Top a b → Chain a b
unfolding sum_sizes count_blocks
Chain-of a b small (same u c before total count) = record {
  newer = [];
  u = u;
  shape = ap (λ x. x ∷ b.before) c ∙ ap (λ t. record a.current { used = u } ∷ t) before;
  ids = tt;
  total = omega (arith, small, total);
  count = omega (arith, count);
}
Chain-of a b small (above u newer newest ids before total count) = record {
  newer = b.current ∷ newer;
  u = u;
  shape = ap (λ t. b.current ∷ t) before;
  ids = (newest, ids);
  total = total;
  count = count;
}

restores_lem :
    (a b : Arena)
    → IsArena a
    → Grown a b
    → (r : Arena) × ((arena_restore b (arena_checkpoint a) ≡ some r) × Restores a r)
unfolding arena_restore arena_checkpoint restore_at
restores_lem a b ok g =
    let c = Chain-of a b ok.allocated g.top in
    let x : ArenaBlock = record a.current { used = c.u } in
    let f = seek_lem a.current.id c.newer a.before b.behind x c.ids refl in
    let at : seek a.current.id (b.current ∷ b.before) b.behind ≡ some f.place =
      ap (λ l. seek a.current.id l b.behind) c.shape ∙ f.at in
    let no_more : sum_sizes b.behind ≡ 0 = rw (g.behind) (unfold sum_sizes in refl) in
    let none_more : count_blocks b.behind ≡ 0 = rw (g.behind) (unfold count_blocks in refl) in
    let freed : sum_sizes f.place.behind ≡ sum_sizes c.newer = omega (arith, f.sizes, no_more) in
    let left : count_blocks f.place.behind ≡ count_blocks c.newer =
      omega (arith, f.count, none_more) in
    (
      restore_at b a.current.used f.place,
      (
        rw (at, arena_restore) refl,
        record {
          before = f.before;
          current = ap (refill a.current.used) f.block;
          behind = sym ok.last;
          total_used = ap (λ l. (sum_used l + a.current.used) % 2 ^ 64) f.before ∙ sym ok.used;
          total_allocated =
              ap (λ t. sub64 t (sum_sizes f.place.behind)) c.total
              ∙ ap (sub64 ((a.total_allocated + sum_sizes c.newer) % 2 ^ 64)) freed
              ∙ sub64_lem a.total_allocated (sum_sizes c.newer) ok.allocated;
          block_count = omega (arith, c.count, left);
        },
      ),
    )

-- A checkpoint of an arena whose current block is its last and whose counters are those of its chain,
-- restored after any requests whichever calls of `malloc` succeed, gives back the chain, the used bytes
-- of its blocks, and the counters of used bytes, of allocated bytes and of blocks. The number of
-- allocations and the peak are not given back.
pub restore-alloc_all :
    (a : Arena) (requests : List (Bool × ℕ))
    → IsArena a
    → (r : Arena) × ((arena_restore (alloc_all a [] requests).0 (arena_checkpoint a) ≡ some r)
        × Restores a r)
restore-alloc_all a requests ok = restores_lem a (alloc_all a [] requests).0 ok (
    alloc_all-Grown a a [] requests (record {
      behind = ok.last;
      newest = ok.newest;
      top = same a.current.used refl refl refl refl;
    }))
