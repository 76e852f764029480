-- ===== src/Cluster/Raft/LogInv.antt =====
-- The Raft log of src/cluster.c: its shape, which every call keeps, and that it only grows.
use inventixdb.Base.{
  ◌⊎◌, Bool-cases, inl, inr, length-append, ◌^◌, ℕ, zero, suc, ◌+◌, ◌≤◌, ◌<◌, ◌≡◌, refl, Bool, ◌&&◌,
  List, [], ◌∷◌, Option, Bytes, All, length, ltb, arith, min, max,
}
use inventixdb.Cluster.{
  RaftState, ClusterState, ClusterConfig, Clock, cluster_init, health_check_nodes, cluster_add_node,
  cluster_remove_node,
}
use inventixdb.Cluster.Raft.{
  VoteRequest, HeartbeatMessage, AppendEntriesRequest, Beat, raft_handle_vote_request,
  heartbeat_handle, heartbeat_send_all, raft_handle_append_entries, raft_start_election,
  raft_append_log, raft_commit_to, stand, follow_term, accept_beat, vote, send_all, count_votes,
  win, lose, accept_leader, append_entry, apply_to, apply_next,
}
use inventixdb.Cluster.Raft.Calls.{
  Call, requested, heard, appended, elects, beats, proposes, commits, checks, adds, removes, step,
  play, IsSound, or_same,
}
use inventixdb.Cluster.Raft.Entries.{
  IsLog, HasLog, Entries-raise, Entries-append, Entries-mark, length-mark_committed,
}
use inventixdb.Cluster.Raft.Votes.{HasRoom, step-HasRoom}

-- The fields that the log's shape is about do not change, and the term does not fall.
abbrev pub SameLog : ClusterState → ClusterState → Type 0
SameLog s t =
    (t.raft.log ≡ s.raft.log)
    × (t.raft.last_applied ≡ s.raft.last_applied)
    × (t.raft.log_capacity ≡ s.raft.log_capacity)
    × (s.raft.current_term ≤ t.raft.current_term)

pub heard-SameLog :
    (s : ClusterState) (m : HeartbeatMessage) (k : Clock) → SameLog s (heartbeat_handle s m k)
unfolding heartbeat_handle follow_term accept_beat
heard-SameLog s m k = ground arith

pub requested-SameLog :
    (s : ClusterState) (q : VoteRequest) (k : Clock) → SameLog s (raft_handle_vote_request s q k).0
unfolding raft_handle_vote_request follow_term vote
requested-SameLog s q k = ground arith

pub appended-SameLog :
    (s : ClusterState) (q : AppendEntriesRequest) (k : Clock)
    → SameLog s (raft_handle_append_entries s q k).0
unfolding raft_handle_append_entries accept_leader
appended-SameLog s q k = ground arith

pub elects-SameLog :
    (s : ClusterState) (net : VoteRequest → Option Bool) (b : HeartbeatMessage → Beat) (k : Clock)
    → s.raft.current_term + 1 < 2 ^ 64
    → SameLog s (raft_start_election s net b k)
unfolding raft_start_election stand count_votes win lose send_all
elects-SameLog s net b k h = ground arith

pub beats-SameLog :
    (s : ClusterState) (net : HeartbeatMessage → Beat) (k : Clock)
    → SameLog s (heartbeat_send_all s net k)
unfolding heartbeat_send_all send_all
beats-SameLog s net k = ground arith

pub removes-SameLog : (s : ClusterState) (id : ℕ) → SameLog s (or_same s (cluster_remove_node s id))
unfolding cluster_remove_node
removes-SameLog s id = ground arith

pub proposes_cases :
    (s : ClusterState) (command : Bytes) (k : Clock)
    → ((raft_append_log s command k).0 ≡ s)
      ⊎ ((raft_append_log s command k).0 ≡ record s { raft = append_entry s.raft command k.now })
unfolding raft_append_log
proposes_cases s command k = ground arith

SameLog-HasLog : (s t : ClusterState) → SameLog s t → HasLog s → HasLog t
SameLog-HasLog s t (l, a, c, h) (d, e, f, g) =
    rw (l, a, c)
      (
        Entries-raise 0 s.raft.last_applied 0 s.raft.current_term t.raft.current_term s.raft.log h
            d,
        e,
        f,
        g,
      )

abbrev RaftIsLog : RaftState → Type 0
RaftIsLog r = IsLog r.log r.current_term r.last_applied r.log_capacity

append_entry-IsLog :
    (r : RaftState) (command : Bytes) (now : ℕ)
    → RaftIsLog r
    → RaftIsLog (append_entry r command now)
unfolding append_entry
append_entry-IsLog r command now (d, e, f, g) = (
  Entries-append 0 r.last_applied 0 r.current_term r.log _ (omega arith) (omega arith) refl refl d,
  omega (arith, length-append r.log),
  rw (length-append r.log) (ground arith),
  ground arith,
)

proposes-HasLog :
    (s : ClusterState) (command : Bytes) (k : Clock)
    → HasLog s
    → HasLog (raft_append_log s command k).0
unfolding raft_append_log
proposes-HasLog s command k d = elim (proposes_cases s command k) [
  | inl e ↦ rw e d
  | inr e ↦ rw e (append_entry-IsLog s.raft command k.now d)
]

apply_to-IsLog : (fuel index : ℕ) (r : RaftState) → RaftIsLog r → RaftIsLog (apply_to fuel index r)
unfolding apply_to apply_next
apply_to-IsLog zero index r d = d
apply_to-IsLog (suc fuel) index r (d, e, f, g) =
    elim (Bool-cases (ltb r.last_applied index && ltb r.last_applied (length r.log))) [
      | inl more ↦ rw more (
          apply_to-IsLog fuel index (apply_next r) (
            Entries-mark 0 r.last_applied r.last_applied 0 r.current_term r.log (ground arith)
                (omega arith) d,
            rw (length-mark_committed r.last_applied r.log) (ground arith),
            rw (length-mark_committed r.last_applied r.log) f,
            g,
          ))
      | inr done ↦ rw done (d, e, f, g)
    ]

-- Every call keeps the shape of the log.
step-HasLog :
    (s : ClusterState) (x : Clock × Call) (n : ℕ) → HasRoom s (suc n) → HasLog s → HasLog (step s x)
unfolding raft_commit_to health_check_nodes cluster_add_node
step-HasLog s (k, requested q) n h d =
    SameLog-HasLog s (step s (k, requested q)) (requested-SameLog s q k) d
step-HasLog s (k, heard m) n h d = SameLog-HasLog s (step s (k, heard m)) (heard-SameLog s m k) d
step-HasLog s (k, appended q) n h d =
    SameLog-HasLog s (step s (k, appended q)) (appended-SameLog s q k) d
step-HasLog s (k, elects net b) n h d =
    SameLog-HasLog s (step s (k, elects net b)) (elects-SameLog s net b k (omega (arith, h.0))) d
step-HasLog s (k, beats net) n h d =
    SameLog-HasLog s (step s (k, beats net)) (beats-SameLog s net k) d
step-HasLog s (k, proposes command) n h d = proposes-HasLog s command k d
step-HasLog s (k, commits index) n h d = apply_to-IsLog (length s.raft.log) index s.raft d
step-HasLog s (k, checks) n h d = d
step-HasLog s (k, adds id name) n h d = d
step-HasLog s (k, removes id) n h d =
    SameLog-HasLog s (step s (k, removes id)) (removes-SameLog s id) d

play-HasLog_from :
    (s : ClusterState) (calls : List (Clock × Call))
    → HasRoom s (length calls)
    → All IsSound calls
    → HasLog s
    → HasLog (play s calls)
play-HasLog_from s [] h sound d = d
play-HasLog_from s (x ∷ xs) h sound d =
    play-HasLog_from (step s x) xs (step-HasRoom s x (length xs) sound.0 h) sound.1
      (step-HasLog s x (length xs) h d)

-- After any history of a new node whose messages' terms are below 2 ^ 63 and that has at most 2 ^ 63
-- calls, the entries of the log are numbered from 1, their terms do not fall and are not above the
-- node's, just the applied ones are marked as committed, and the log fits its array.
pub play-HasLog :
    (c : ClusterConfig) (k : Clock) (calls : List (Clock × Call))
    → length calls ≤ 2 ^ 63
    → All IsSound calls
    → HasLog (play (cluster_init c k) calls)
unfolding cluster_init
play-HasLog c k calls h sound =
    play-HasLog_from (cluster_init c k) calls (omega arith, h) sound
      (omega arith, omega arith, omega arith, omega arith)

apply_to-last_applied :
    (fuel index : ℕ) (r : RaftState)
    → length r.log ≤ r.last_applied + fuel
    → r.last_applied ≤ length r.log
    → (apply_to fuel index r).last_applied ≡ max r.last_applied (min index (length r.log))
unfolding apply_to apply_next
apply_to-last_applied zero index r h a = omega arith
apply_to-last_applied (suc fuel) index r h a =
    elim (Bool-cases (ltb r.last_applied index && ltb r.last_applied (length r.log))) [
      | inl more ↦
          let size = length-mark_committed r.last_applied r.log in
          let rest = apply_to-last_applied fuel index (apply_next r) (omega arith) (ground arith) in
          rw more (ground arith)
      | inr done ↦ rw done (ground arith)
    ]

-- `raft_commit_to` applies the entries up to the index or to the end of the log, and none again: its
-- loop ends, and what was applied before stays applied.
pub raft_commit_to-Applied :
    (s : ClusterState) (index : ℕ)
    → s.raft.last_applied ≤ length s.raft.log
    → (raft_commit_to s index).raft.last_applied
      ≡ max s.raft.last_applied (min index (length s.raft.log))
unfolding raft_commit_to
raft_commit_to-Applied s index h =
    apply_to-last_applied (length s.raft.log) index s.raft (omega arith) h
