-- ===== src/Cluster/Raft/Votes.antt =====
-- One vote for each term: what the calls of src/cluster.c do to a node's term and vote.
use inventixdb.Base.{
  ℕ, zero, suc, Bytes, ◌+◌, ◌^◌, ◌<◌, ◌≤◌, ◌≢◌, ◌≡◌, ◌⊎◌, inl, inr, refl, sym, ◌∙◌, Bool, true,
  List, [], ◌∷◌, Option, some, All, length, arith,
}
use inventixdb.Cluster.{
  RaftState, ClusterState, Clock, health_check_nodes, cluster_add_node, cluster_remove_node,
}
use inventixdb.Cluster.Raft.{
  VoteRequest, HeartbeatMessage, AppendEntriesRequest, Beat, raft_handle_vote_request,
  heartbeat_handle, heartbeat_send_all, raft_handle_append_entries, raft_start_election,
  raft_append_log, raft_commit_to, stand, follow_term, accept_beat, vote, can_grant, send_all,
  count_votes, win, lose, accept_leader, append_entry, apply_to, apply_next,
}
use inventixdb.Cluster.Raft.Calls.{
  Call, requested, heard, appended, elects, beats, proposes, commits, checks, adds, removes, step,
  vote_of, Voted, IsSound, or_same,
}

-- How the term and the vote of a node move: not at all, to a newer term, or from no vote to one.
abbrev Moves : ClusterState → ClusterState → Type 0
Moves s t =
    ((t.raft.current_term ≡ s.raft.current_term) × (t.raft.voted_for ≡ s.raft.voted_for))
    ⊎ ((s.raft.current_term < t.raft.current_term)
        ⊎ ((t.raft.current_term ≡ s.raft.current_term) × (s.raft.voted_for ≡ 0)))

-- The vote of a term that is over does not count; in the current term it is the node's vote.
abbrev Stands : ClusterState → ℕ → ℕ → Type 0
Stands s t c = (t < s.raft.current_term) ⊎ ((t ≡ s.raft.current_term) × (s.raft.voted_for ≡ c))

beats-Moves :
    (s : ClusterState) (net : HeartbeatMessage → Beat) (k : Clock)
    → Moves s (heartbeat_send_all s net k)
unfolding heartbeat_send_all send_all
beats-Moves s net k = ground arith

heard-Moves :
    (s : ClusterState) (m : HeartbeatMessage) (k : Clock) → Moves s (heartbeat_handle s m k)
unfolding heartbeat_handle follow_term accept_beat
heard-Moves s m k = ground arith

requested-Moves :
    (s : ClusterState) (q : VoteRequest) (k : Clock) → Moves s (raft_handle_vote_request s q k).0
unfolding raft_handle_vote_request follow_term vote can_grant
requested-Moves s q k = ground arith

appended-Moves :
    (s : ClusterState) (q : AppendEntriesRequest) (k : Clock)
    → Moves s (raft_handle_append_entries s q k).0
unfolding raft_handle_append_entries accept_leader
appended-Moves s q k = ground arith

elects-Moves :
    (s : ClusterState) (net : VoteRequest → Option Bool) (b : HeartbeatMessage → Beat) (k : Clock)
    → s.raft.current_term + 1 < 2 ^ 64
    → Moves s (raft_start_election s net b k)
unfolding raft_start_election stand count_votes win lose send_all
elects-Moves s net b k h = ground arith

proposes-Moves :
    (s : ClusterState) (command : Bytes) (k : Clock) → Moves s (raft_append_log s command k).0
unfolding raft_append_log append_entry
proposes-Moves s command k = ground arith

pub apply_to-keeps :
    (fuel index : ℕ) (r : RaftState)
    → ((apply_to fuel index r).current_term ≡ r.current_term)
      × ((apply_to fuel index r).voted_for ≡ r.voted_for)
unfolding apply_to apply_next
apply_to-keeps zero index r = (refl, refl)
apply_to-keeps (suc fuel) index r =
    let rest = apply_to-keeps fuel index (apply_next r) in ground arith

removes-Moves : (s : ClusterState) (id : ℕ) → Moves s (or_same s (cluster_remove_node s id))
unfolding cluster_remove_node
removes-Moves s id = ground arith

granted-Stands :
    (s : ClusterState) (q : VoteRequest) (k : Clock)
    → (raft_handle_vote_request s q k).1.vote_granted ≡ true
    → Stands (raft_handle_vote_request s q k).0 q.term q.sender_id
unfolding raft_handle_vote_request follow_term vote can_grant
granted-Stands s q k h = ground arith

granted-again :
    (s : ClusterState) (q : VoteRequest) (k : Clock) (c : ℕ)
    → (raft_handle_vote_request s q k).1.vote_granted ≡ true
    → Stands s q.term c
    → c ≢ 0
    → c ≡ q.sender_id
unfolding raft_handle_vote_request follow_term vote can_grant
granted-again s q k c h v n = ground arith

-- A history of `n` calls cannot reach the end of the terms.
abbrev pub HasRoom : ClusterState → ℕ → Type 0
HasRoom s n = (s.raft.current_term + n < 2 ^ 64) × (n ≤ 2 ^ 63)

step-Moves : (s : ClusterState) (x : Clock × Call) (n : ℕ) → HasRoom s (suc n) → Moves s (step s x)
unfolding raft_commit_to health_check_nodes cluster_add_node
step-Moves s (k, requested q) n h = requested-Moves s q k
step-Moves s (k, heard m) n h = heard-Moves s m k
step-Moves s (k, appended q) n h = appended-Moves s q k
step-Moves s (k, elects net b) n h = elects-Moves s net b k (omega (arith, h.0))
step-Moves s (k, beats net) n h = beats-Moves s net k
step-Moves s (k, proposes command) n h = proposes-Moves s command k
step-Moves s (k, commits index) n h = inl (apply_to-keeps (length s.raft.log) index s.raft)
step-Moves s (k, checks) n h = inl (refl, refl)
step-Moves s (k, adds id name) n h = inl (refl, refl)
step-Moves s (k, removes id) n h = removes-Moves s id

-- One call moves the term by one at most, or to the term of a message.
step-term :
    (s : ClusterState) (x : Clock × Call)
    → IsSound x
    → ((step s x).raft.current_term ≤ s.raft.current_term + 1)
      ⊎ ((step s x).raft.current_term < 2 ^ 63)
unfolding raft_handle_vote_request heartbeat_handle raft_handle_append_entries raft_start_election
    heartbeat_send_all raft_append_log append_entry raft_commit_to health_check_nodes
    cluster_add_node cluster_remove_node follow_term accept_beat vote can_grant accept_leader stand
    count_votes win lose send_all
step-term s (k, requested q) h = ground arith
step-term s (k, heard m) h = ground arith
step-term s (k, appended q) h = ground arith
step-term s (k, elects net b) h = ground arith
step-term s (k, beats net) h = ground arith
step-term s (k, proposes command) h = ground arith
step-term s (k, commits index) h =
    let same = (apply_to-keeps (length s.raft.log) index s.raft).0 in ground arith
step-term s (k, checks) h = ground arith
step-term s (k, adds id name) h = ground arith
step-term s (k, removes id) h = ground arith

pub step-HasRoom :
    (s : ClusterState) (x : Clock × Call) (n : ℕ)
    → IsSound x
    → HasRoom s (suc n)
    → HasRoom (step s x) n
step-HasRoom s x n h room = let bound = step-term s x h in ground arith

step-Stands :
    (s : ClusterState) (x : Clock × Call) (n t c : ℕ)
    → HasRoom s (suc n)
    → c ≢ 0
    → Stands s t c
    → Stands (step s x) t c
step-Stands s x n t c room nz v = let m = step-Moves s x n room in ground arith

vote_of-Stands :
    (s : ClusterState) (x : Clock × Call) (t c : ℕ)
    → vote_of s x ≡ some (t, c)
    → Stands (step s x) t c
unfolding raft_start_election stand count_votes win lose send_all
vote_of-Stands s (k, requested q) t c e = let stands = granted-Stands s q k in ground arith
vote_of-Stands s (k, elects net b) t c e = ground arith
vote_of-Stands s (k, _) t c e = ground arith

vote_of-again :
    (s : ClusterState) (x : Clock × Call) (n t c d : ℕ)
    → HasRoom s (suc n)
    → c ≢ 0
    → Stands s t c
    → vote_of s x ≡ some (t, d)
    → c ≡ d
unfolding stand
vote_of-again s (k, requested q) n t c d room nz v e =
    let again = granted-again s q k c in ground arith
vote_of-again s (k, elects net b) n t c d room nz v e = ground arith
vote_of-again s (k, _) n t c d room nz v e = ground arith

vote_of-nonzero :
    (s : ClusterState) (x : Clock × Call) (t c : ℕ)
    → s.config.self_node_id ≢ 0
    → IsSound x
    → vote_of s x ≡ some (t, c)
    → c ≢ 0
vote_of-nonzero s (k, requested q) t c self h e = ground arith
vote_of-nonzero s (k, elects net b) t c self h e = ground arith
vote_of-nonzero s (k, _) t c self h e = ground arith

pub step_self :
    (s : ClusterState) (x : Clock × Call) → (step s x).config.self_node_id ≡ s.config.self_node_id
unfolding raft_handle_vote_request heartbeat_handle raft_handle_append_entries raft_start_election
    heartbeat_send_all raft_append_log append_entry raft_commit_to health_check_nodes
    cluster_add_node cluster_remove_node follow_term accept_beat vote can_grant accept_leader stand
    count_votes win lose send_all
step_self s (k, requested q) = ground arith
step_self s (k, heard m) = ground arith
step_self s (k, appended q) = ground arith
step_self s (k, elects net b) = ground arith
step_self s (k, beats net) = ground arith
step_self s (k, proposes command) = ground arith
step_self s (k, commits index) = refl
step_self s (k, checks) = refl
step_self s (k, adds id name) = refl
step_self s (k, removes id) = ground arith

-- A vote that stands is the only one of its term from there on.
stays :
    (s : ClusterState) (calls : List (Clock × Call)) (t c d : ℕ)
    → HasRoom s (length calls)
    → All IsSound calls
    → c ≢ 0
    → Stands s t c
    → Voted s calls t d
    → c ≡ d
stays s [] t c d room sound nz v w = absurd w
stays s (x ∷ xs) t c d room sound nz v (inl e) = vote_of-again s x (length xs) t c d room nz v e
stays s (x ∷ xs) t c d room sound nz v (inr w) =
    stays (step s x) xs t c d (step-HasRoom s x (length xs) sound.0 room) sound.1 nz
      (step-Stands s x (length xs) t c room nz v) w

-- In any history of calls of a node with an id, in which no term comes near the end of `uint64_t` and
-- every request for a vote comes from a node with an id, two votes that the node gives in one term are
-- for the same candidate.
pub Voted-unique :
    (s : ClusterState) (calls : List (Clock × Call)) (t c d : ℕ)
    → HasRoom s (length calls)
    → All IsSound calls
    → s.config.self_node_id ≢ 0
    → Voted s calls t c
    → Voted s calls t d
    → c ≡ d
Voted-unique s [] t c d room sound self v w = absurd v
Voted-unique s (x ∷ xs) t c d room sound self (inl e) (inl e') = ground arith
Voted-unique s (x ∷ xs) t c d room sound self (inl e) (inr w) =
    stays (step s x) xs t c d (step-HasRoom s x (length xs) sound.0 room) sound.1
      (vote_of-nonzero s x t c self sound.0 e) (vote_of-Stands s x t c e) w
Voted-unique s (x ∷ xs) t c d room sound self (inr v) (inl e) = sym (
    stays (step s x) xs t d c (step-HasRoom s x (length xs) sound.0 room) sound.1
      (vote_of-nonzero s x t d self sound.0 e) (vote_of-Stands s x t d e) v)
Voted-unique s (x ∷ xs) t c d room sound self (inr v) (inr w) =
    Voted-unique (step s x) xs t c d (step-HasRoom s x (length xs) sound.0 room) sound.1
      (λ z. self (sym (step_self s x) ∙ z)) v w
