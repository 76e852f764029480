-- ===== src/Memory/Apart.antt =====
-- The bytes that an arena (src/memory.c) gives to different allocations.
use inventixdb.Base.{
  ℕ, ◌+◌, ◌%◌, ◌^◌, ◌<◌, ◌≤◌, ◌≡◌, ◌⊎◌, inl, inr, refl, Bool, true, List, [], ◌∷◌, Option, none,
  some, arith, Bool-cases, ltb, leb, ◌==◌, All,
}
use inventixdb.Memory.{
  Arena, Grant, align_up, initial_block_size, arena_create_with_quota, over_quota, count_use,
  use_current, new_block_size, grow, alloc_aligned, arena_alloc,
}

-- The grants after one request
abbrev pub with_grant : List Grant → Option Grant → List Grant
with_grant gs none = gs
with_grant gs (some g) = g ∷ gs

-- The requests, each with the outcome of `malloc`, in order; the grants, the last first
unfoldable pub alloc_all : Arena → List Grant → List (Bool × ℕ) → Arena × List Grant
alloc_all a gs [] = (a, gs)
alloc_all a gs ((malloc_ok, size) ∷ more) =
    let r = arena_alloc malloc_ok a size in alloc_all r.0 (with_grant gs r.1) more

-- Enough bytes, inside the block
abbrev pub IsGrant : Grant → Type 0
IsGrant g = (g.asked ≤ g.size) × (g.offset + g.size ≤ g.block_size)

abbrev pub Disjoint : Grant → Grant → Type 0
Disjoint g h =
    ((g.block < h.block) ⊎ (h.block < g.block))
    ⊎ ((g.offset + g.size ≤ h.offset) ⊎ (h.offset + h.size ≤ g.offset))

abbrev pub AllDisjoint : List Grant → Type 0
AllDisjoint [] = Unit
AllDisjoint (g ∷ gs) = All (Disjoint g) gs × AllDisjoint gs

-- In an older block, or below the used part of the current one
abbrev Under : Arena → Grant → Type 0
Under a g =
    (g.block < a.current.id) ⊎ ((g.block ≡ a.current.id) × (g.offset + g.size ≤ a.current.used))

-- What allocations keep
record Holds (a : Arena) (gs : List Grant) : Type 0 where
  pub inside : a.current.used ≤ a.current.size
  pub small : a.current.size < 2 ^ 63
  pub small_default : a.default_block_size < 2 ^ 63
  pub newest : a.current.id < a.next_id
  pub under : All (Under a) gs
  pub granted : All IsGrant gs
  pub disjoint : AllDisjoint gs

All-grant {κ μ} :
    (P : Grant → Type κ) (Q : Grant → Type μ) (gs : List Grant)
    → ((g : Grant) → P g → Q g)
    → All P gs
    → All Q gs
All-grant P Q [] f h = tt
All-grant P Q (g ∷ gs) f h = (f g h.0, All-grant P Q gs f h.1)

align_up_lem : (size : ℕ) → size < 2 ^ 61 → (size ≤ align_up size) × (align_up size < 2 ^ 62)
unfolding align_up
align_up_lem size h = (omega arith, omega arith)

use_current_Holds :
    (a : Arena) (gs : List Grant) (asked n : ℕ)
    → Holds a gs
    → asked ≤ n
    → n < 2 ^ 62
    → leb ((a.current.used + n) % 2 ^ 64) a.current.size ≡ true
    → Holds (use_current n a) (
        record {
          asked = asked;
          block = a.current.id;
          offset = a.current.used;
          size = n;
          block_size = a.current.size;
        }
        ∷ gs)
unfolding use_current count_use
use_current_Holds a gs asked n k enough small fits =
    let used : (a.current.used + n) % 2 ^ 64 ≡ a.current.used + n =
      omega (arith, k.inside, k.small, small) in
    let room : a.current.used + n ≤ a.current.size = ground (arith, used, fits) in
    let g : Grant = record {
      asked = asked;
      block = a.current.id;
      offset = a.current.used;
      size = n;
      block_size = a.current.size;
    } in
    record {
      inside = omega (arith, used, room);
      small = k.small;
      small_default = k.small_default;
      newest = k.newest;
      under = (
        inr (refl, omega (arith, used)),
        All-grant (Under a) (Under (use_current n a)) gs
            (λ h u. elim u [
              | inl older ↦ inl older
              | inr same ↦ inr (same.0, omega (arith, used, same.1))
            ])
            k.under,
      );
      granted = ((enough, room), k.granted);
      disjoint = (
        All-grant (Under a) (Disjoint g) gs
            (λ h u. elim u [ inl older ↦ inl (inr older) | inr same ↦ inr (inr same.1) ]) k.under,
        k.disjoint,
      );
    }

grow_Holds :
    (a : Arena) (gs : List Grant) (asked n : ℕ)
    → Holds a gs
    → asked ≤ n
    → n < 2 ^ 62
    → Holds (grow n a) (
        record {
          asked = asked;
          block = a.next_id;
          offset = 0;
          size = n;
          block_size = new_block_size n a;
        }
        ∷ gs)
unfolding grow count_use
grow_Holds a gs asked n k enough small =
    let fits : (n ≤ new_block_size n a) × (new_block_size n a < 2 ^ 63) =
      size_lem a n k.small_default small in
    let g : Grant = record {
      asked = asked;
      block = a.next_id;
      offset = 0;
      size = n;
      block_size = new_block_size n a;
    } in
    let older : (h : Grant) → Under a h → h.block < a.next_id = λ h u. elim u [
      | inl o ↦ omega (arith, o, k.newest)
      | inr same ↦ omega (arith, same.0, k.newest)
    ] in
    record {
      inside = fits.0;
      small = fits.1;
      small_default = k.small_default;
      newest = omega arith;
      under = (
        inr (refl, omega arith),
        All-grant (Under a) (Under (grow n a)) gs (λ h u. inl (older h u)) k.under,
      );
      granted = ((enough, omega (arith, fits.0)), k.granted);
      disjoint =
          (All-grant (Under a) (Disjoint g) gs (λ h u. inl (inr (older h u))) k.under, k.disjoint);
    }
  where
    size_lem :
        (b : Arena) (m : ℕ)
        → b.default_block_size < 2 ^ 63
        → m < 2 ^ 62
        → (m ≤ new_block_size m b) × (new_block_size m b < 2 ^ 63)
    size_lem b m h l =
        unfold new_block_size in
        elim (Bool-cases (ltb b.default_block_size m)) [
          | inl big ↦ rw (big) (omega arith, omega arith)
          | inr usual ↦ rw (usual) (ground arith, h)
        ]

alloc_aligned_Holds :
    (malloc_ok : Bool) (asked n : ℕ) (a : Arena) (gs : List Grant)
    → Holds a gs
    → asked ≤ n
    → n < 2 ^ 62
    → Holds
        (alloc_aligned malloc_ok asked n a).0
        (with_grant gs (alloc_aligned malloc_ok asked n a).1)
unfolding alloc_aligned
alloc_aligned_Holds malloc_ok asked n a gs k enough small =
    elim (Bool-cases (leb ((a.current.used + n) % 2 ^ 64) a.current.size)) [
      | inl fits ↦ rw (fits) (use_current_Holds a gs asked n k enough small fits)
      | inr full ↦ elim (Bool-cases malloc_ok) [
        | inl given ↦ rw (full, given) (grow_Holds a gs asked n k enough small)
        | inr refused ↦ rw (full, refused) k
      ]
    ]

arena_alloc_Holds :
    (malloc_ok : Bool) (a : Arena) (size : ℕ) (gs : List Grant)
    → Holds a gs
    → size < 2 ^ 61
    → Holds (arena_alloc malloc_ok a size).0 (with_grant gs (arena_alloc malloc_ok a size).1)
unfolding arena_alloc
arena_alloc_Holds malloc_ok a size gs k small = elim (Bool-cases (size == 0)) [
  | inl empty ↦ rw (empty) k
  | inr some_bytes ↦ elim (Bool-cases (over_quota a (align_up size))) [
    | inl over ↦ rw (some_bytes, over) k
    | inr allowed ↦
        let n = align_up_lem size small in
        rw (some_bytes, allowed) (alloc_aligned_Holds malloc_ok size (align_up size) a gs k n.0 n.1)
  ]
]

alloc_all_Holds :
    (a : Arena) (gs : List Grant) (requests : List (Bool × ℕ))
    → Holds a gs
    → All (λ r. r.1 < 2 ^ 61) requests
    → Holds (alloc_all a gs requests).0 (alloc_all a gs requests).1
unfolding alloc_all
alloc_all_Holds a gs [] k h = k
alloc_all_Holds a gs ((malloc_ok, size) ∷ more) k h =
    alloc_all_Holds (arena_alloc malloc_ok a size).0
      (with_grant gs (arena_alloc malloc_ok a size).1) more
      (arena_alloc_Holds malloc_ok a size gs k h.0) h.1

create_Holds : (initial quota : ℕ) → Holds (arena_create_with_quota initial quota) []
unfolding arena_create_with_quota
create_Holds initial quota =
    let small : initial_block_size initial < 2 ^ 63 = size_small initial in
    record {
      inside = omega arith;
      small = small;
      small_default = small;
      newest = omega arith;
      under = tt;
      granted = tt;
      disjoint = tt;
    }
  where
    size_small : (n : ℕ) → initial_block_size n < 2 ^ 63
    size_small n = unfold initial_block_size in ground arith

-- The grants of any requests to a new arena, each of less than `2 ^ 61` bytes and whichever calls of
-- `malloc` succeed, have at least the bytes that were asked for, lie inside their blocks and are
-- disjoint.
pub alloc_all-AllDisjoint :
    (initial quota : ℕ) (requests : List (Bool × ℕ))
    → All (λ r. r.1 < 2 ^ 61) requests
    → All IsGrant (alloc_all (arena_create_with_quota initial quota) [] requests).1
      × AllDisjoint (alloc_all (arena_create_with_quota initial quota) [] requests).1
alloc_all-AllDisjoint initial quota requests h =
    let k =
      alloc_all_Holds (arena_create_with_quota initial quota) [] requests
        (create_Holds initial quota) h in
    (k.granted, k.disjoint)
