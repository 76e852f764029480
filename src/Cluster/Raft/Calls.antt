-- ===== src/Cluster/Raft/Calls.antt =====
-- Histories of one node: the calls of src/cluster.c that change its state, in any order, and the votes
-- that it gives in them. A turn of the heartbeat thread is a few of these calls.
use inventixdb.Base.{
  ℕ, ◌^◌, ◌<◌, ◌≢◌, ◌≡◌, ◌⊎◌, Bool, List, [], ◌∷◌, Option, none, some, Bytes, if◌then◌else◌,
}
use inventixdb.Cluster.{
  ClusterState, Clock, health_check_nodes, cluster_add_node, cluster_remove_node,
}
use inventixdb.Cluster.Raft.{
  VoteRequest, HeartbeatMessage, AppendEntriesRequest, Beat, raft_handle_vote_request,
  heartbeat_handle, heartbeat_send_all, raft_handle_append_entries, raft_start_election,
  raft_append_log, raft_commit_to, stand,
}

pub data Call : Type 0 where
  requested : VoteRequest → Call
  heard : HeartbeatMessage → Call
  appended : AppendEntriesRequest → Call
  elects : (VoteRequest → Option Bool) → (HeartbeatMessage → Beat) → Call
  beats : (HeartbeatMessage → Beat) → Call
  proposes : Bytes → Call
  commits : ℕ → Call
  checks : Call
  adds : ℕ → Bytes → Call
  removes : ℕ → Call

abbrev pub or_same : ClusterState → Option ClusterState → ClusterState
or_same s none = s
or_same s (some t) = t

abbrev pub step : ClusterState → Clock × Call → ClusterState
step s (k, requested q) = (raft_handle_vote_request s q k).0
step s (k, heard m) = heartbeat_handle s m k
step s (k, appended q) = (raft_handle_append_entries s q k).0
step s (k, elects net replies) = raft_start_election s net replies k
step s (k, beats net) = heartbeat_send_all s net k
step s (k, proposes command) = (raft_append_log s command k).0
step s (k, commits index) = raft_commit_to s index
step s (k, checks) = health_check_nodes s k.now
step s (k, adds id name) = cluster_add_node s id name k
step s (k, removes id) = or_same s (cluster_remove_node s id)

abbrev pub play : ClusterState → List (Clock × Call) → ClusterState
play s [] = s
play s (c ∷ cs) = play (step s c) cs

-- The term and the candidate of the vote that a call gives
abbrev pub vote_of : ClusterState → Clock × Call → Option (ℕ × ℕ)
vote_of s (k, requested q) =
    if (raft_handle_vote_request s q k).1.vote_granted then some (q.term, q.sender_id) else none
vote_of s (k, elects net replies) = some ((stand s).raft.current_term, s.config.self_node_id)
vote_of s (k, _) = none

-- The history from `s` on has a vote in the term `t` for the candidate `c`.
abbrev pub Voted : ClusterState → List (Clock × Call) → ℕ → ℕ → Type 0
Voted s [] t c = ⊥
Voted s (x ∷ xs) t c = (vote_of s x ≡ some (t, c)) ⊎ Voted (step s x) xs t c

-- Terms that the clock of terms can count on from, and candidates with an id
abbrev pub IsSound : Clock × Call → Type 0
IsSound (k, requested q) = (q.term < 2 ^ 63) × (q.sender_id ≢ 0)
IsSound (k, heard m) = m.term < 2 ^ 63
IsSound (k, appended q) = q.term < 2 ^ 63
IsSound (k, _) = Unit
