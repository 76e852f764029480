-- ===== src/Cluster/Raft/Grows.antt =====
-- The Raft log of src/cluster.c as an append-only record.
use inventixdb.Base.{
  ℕ, zero, suc, ◌≡◌, inl, inr, refl, ◌∙◌, true, ◌&&◌, List, [], ◌∷◌, ◌++◌, Bytes, All, length, ltb,
  arith, Bool-cases,
}
use inventixdb.Cluster.{
  RaftLogEntry, RaftState, ClusterState, Clock, health_check_nodes, cluster_add_node,
}
use inventixdb.Cluster.Raft.{
  raft_append_log, raft_commit_to, append_entry, apply_to, apply_next, mark_committed,
}
use inventixdb.Cluster.Raft.Calls.{
  Call, requested, heard, appended, elects, beats, proposes, commits, checks, adds, removes, step,
  play, IsSound,
}
use inventixdb.Cluster.Raft.LogInv.{
  SameLog, heard-SameLog, requested-SameLog, appended-SameLog, elects-SameLog, beats-SameLog,
  removes-SameLog, proposes_cases,
}
use inventixdb.Cluster.Raft.Votes.{HasRoom, step-HasRoom}

-- Every entry of the first log is in the second at the same place, with the same index, term and
-- command, and committed if it was.
abbrev pub Grows : List RaftLogEntry → List RaftLogEntry → Type 0
Grows [] ys = Unit
Grows (x ∷ xs) [] = ⊥
Grows (x ∷ xs) (y ∷ ys) =
    (y.index ≡ x.index)
    × (y.term ≡ x.term)
    × (y.command ≡ x.command)
    × (x.committed ≡ true → y.committed ≡ true)
    × Grows xs ys

Grows-refl : (xs : List RaftLogEntry) → Grows xs xs
Grows-refl [] = tt
Grows-refl (x ∷ xs) = (refl, refl, refl, λ h. h, Grows-refl xs)

Grows-trans : (xs ys zs : List RaftLogEntry) → Grows xs ys → Grows ys zs → Grows xs zs
Grows-trans [] ys zs g h = tt
Grows-trans (x ∷ xs) [] zs g h = absurd g
Grows-trans (x ∷ xs) (y ∷ ys) [] g h = absurd h
Grows-trans (x ∷ xs) (y ∷ ys) (z ∷ zs) (i, t, c, m, g) (j, u, d, n, h) =
    (j ∙ i, u ∙ t, d ∙ c, λ e. n (m e), Grows-trans xs ys zs g h)

Grows-append : (xs ys : List RaftLogEntry) → Grows xs (xs ++ ys)
Grows-append [] ys = tt
Grows-append (x ∷ xs) ys = (refl, refl, refl, λ h. h, Grows-append xs ys)

Grows-mark_committed : (i : ℕ) (xs : List RaftLogEntry) → Grows xs (mark_committed i xs)
unfolding mark_committed
Grows-mark_committed i [] = tt
Grows-mark_committed zero (x ∷ xs) = (refl, refl, refl, λ h. refl, Grows-refl xs)
Grows-mark_committed (suc i) (x ∷ xs) = (refl, refl, refl, λ h. h, Grows-mark_committed i xs)

apply_to-Grows : (fuel index : ℕ) (r : RaftState) → Grows r.log (apply_to fuel index r).log
unfolding apply_to apply_next
apply_to-Grows zero index r = Grows-refl r.log
apply_to-Grows (suc fuel) index r =
    elim (Bool-cases (ltb r.last_applied index && ltb r.last_applied (length r.log))) [
      | inl more ↦ rw more (
          Grows-trans r.log (mark_committed r.last_applied r.log) _
            (Grows-mark_committed r.last_applied r.log) (apply_to-Grows fuel index (apply_next r)))
      | inr done ↦ rw done (Grows-refl r.log)
    ]

SameLog-Grows : (s t : ClusterState) → SameLog s t → Grows s.raft.log t.raft.log
SameLog-Grows s t (l, a, c, h) = rw l (Grows-refl s.raft.log)

proposes-Grows :
    (s : ClusterState) (command : Bytes) (k : Clock)
    → Grows s.raft.log (raft_append_log s command k).0.raft.log
unfolding append_entry
proposes-Grows s command k = elim (proposes_cases s command k) [
  | inl e ↦ rw e (Grows-refl s.raft.log)
  | inr e ↦ rw e (Grows-append s.raft.log _)
]

step-Grows :
    (s : ClusterState) (x : Clock × Call) (n : ℕ)
    → HasRoom s (suc n)
    → Grows s.raft.log (step s x).raft.log
unfolding raft_commit_to health_check_nodes cluster_add_node
step-Grows s (k, requested q) n h =
    SameLog-Grows s (step s (k, requested q)) (requested-SameLog s q k)
step-Grows s (k, heard m) n h = SameLog-Grows s (step s (k, heard m)) (heard-SameLog s m k)
step-Grows s (k, appended q) n h = SameLog-Grows s (step s (k, appended q)) (appended-SameLog s q k)
step-Grows s (k, elects net b) n h =
    SameLog-Grows s (step s (k, elects net b)) (elects-SameLog s net b k (omega (arith, h.0)))
step-Grows s (k, beats net) n h = SameLog-Grows s (step s (k, beats net)) (beats-SameLog s net k)
step-Grows s (k, proposes command) n h = proposes-Grows s command k
step-Grows s (k, commits index) n h = apply_to-Grows (length s.raft.log) index s.raft
step-Grows s (k, checks) n h = Grows-refl s.raft.log
step-Grows s (k, adds id name) n h = Grows-refl s.raft.log
step-Grows s (k, removes id) n h = SameLog-Grows s (step s (k, removes id)) (removes-SameLog s id)

-- No history of calls in which no term comes near the end of `uint64_t` removes or changes an entry of
-- the log: each stays at its place with its index, term and command, and stays committed once it is.
pub play-Grows :
    (s : ClusterState) (calls : List (Clock × Call))
    → HasRoom s (length calls)
    → All IsSound calls
    → Grows s.raft.log (play s calls).raft.log
play-Grows s [] h sound = Grows-refl s.raft.log
play-Grows s (x ∷ xs) h sound =
    Grows-trans s.raft.log (step s x).raft.log (play (step s x) xs).raft.log
      (step-Grows s x (length xs) h)
      (play-Grows (step s x) xs (step-HasRoom s x (length xs) sound.0 h) sound.1)
