-- ===== src/Cluster/Raft/Entries.antt =====
-- The shape of the Raft log of src/cluster.c.
use inventixdb.Base.{
  ℕ, zero, suc, ◌+◌, ◌≤◌, ◌<◌, ◌≡◌, refl, false, List, [], ◌∷◌, ◌++◌, length, ltb, arith,
}
use inventixdb.Cluster.{RaftLogEntry, ClusterState}
use inventixdb.Cluster.Raft.{mark_committed}

-- The entries from the position `n` on: numbered from `n + 1`, with terms that do not fall and lie
-- between `low` and `high`, and committed just where the position is below `applied`
abbrev pub Entries : ℕ → ℕ → ℕ → ℕ → List RaftLogEntry → Type 0
Entries n applied low high [] = low ≤ high
Entries n applied low high (e ∷ es) =
    (e.index ≡ n + 1)
    × (low ≤ e.term)
    × (e.committed ≡ ltb n applied)
    × Entries (n + 1) applied e.term high es

-- The shape of a log with the node's term, the number of applied entries and the capacity
abbrev pub IsLog : List RaftLogEntry → ℕ → ℕ → ℕ → Type 0
IsLog log term applied capacity =
    Entries 0 applied 0 term log × (applied ≤ length log) × (length log ≤ capacity) × (0 < capacity)

abbrev pub HasLog : ClusterState → Type 0
HasLog s = IsLog s.raft.log s.raft.current_term s.raft.last_applied s.raft.log_capacity

pub Entries-raise :
    (n a low high high' : ℕ) (es : List RaftLogEntry)
    → high ≤ high'
    → Entries n a low high es
    → Entries n a low high' es
Entries-raise n a low high high' [] h d = omega arith
Entries-raise n a low high high' (e ∷ es) h (i, t, c, d) =
    (i, t, c, Entries-raise (n + 1) a e.term high high' es h d)

pub Entries-append :
    (n a low high : ℕ) (es : List RaftLogEntry) (e : RaftLogEntry)
    → a ≤ n + length es
    → e.index ≡ n + length es + 1
    → e.term ≡ high
    → e.committed ≡ false
    → Entries n a low high es
    → Entries n a low high (es ++ e ∷ [])
Entries-append n a low high [] e h i t c d = ground arith
Entries-append n a low high (x ∷ es) e h i t c (xi, xt, xc, d) =
    (xi, xt, xc, Entries-append (n + 1) a x.term high es e (omega arith) (omega arith) t c d)

-- The entries behind the applied ones do not tell how many those are.
Entries-behind :
    (n a b low high : ℕ) (es : List RaftLogEntry)
    → a ≤ n
    → b ≤ n
    → Entries n a low high es
    → Entries n b low high es
Entries-behind n a b low high [] h k d = d
Entries-behind n a b low high (e ∷ es) h k (i, t, c, d) =
    (i, t, ground arith, Entries-behind (n + 1) a b e.term high es (omega arith) (omega arith) d)

pub Entries-mark :
    (n i a low high : ℕ) (es : List RaftLogEntry)
    → i < length es
    → a ≡ n + i
    → Entries n a low high es
    → Entries n (a + 1) low high (mark_committed i es)
unfolding mark_committed
Entries-mark n i a low high [] h e d = absurd (omega arith)
Entries-mark n zero a low high (x ∷ es) h e (i, t, c, d) = (
  i,
  t,
  ground arith,
  Entries-behind (n + 1) a (a + 1) x.term high es (omega arith) (omega arith) d,
)
Entries-mark n (suc i) a low high (x ∷ es) h e (xi, t, c, d) =
    (xi, t, ground arith, Entries-mark (n + 1) i a x.term high es (omega arith) (omega arith) d)

pub length-mark_committed :
    (i : ℕ) (es : List RaftLogEntry) → length (mark_committed i es) ≡ length es
unfolding mark_committed
length-mark_committed i [] = refl
length-mark_committed zero (e ∷ es) = refl
length-mark_committed (suc i) (e ∷ es) = omega (arith, length-mark_committed i es)
