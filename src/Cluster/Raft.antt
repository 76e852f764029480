-- ===== src/Cluster/Raft.antt =====
-- Raft in src/cluster.c: heartbeats, elections, votes and the log. What a node reads from a peer is a
-- function of the message that it sends. `uint64_t` wraps; the vote of a node is one handler call.
pub mod Calls
pub mod Votes
pub mod Leader
pub mod Entries
pub mod Grows
pub mod LogInv
use inventixdb.Base.{
  ℕ, ◌+◌, ◌-◌, ◌*◌, ◌/◌, ◌%◌, ◌^◌, suc, zero, Bool, true, false, ◌&&◌, ◌||◌, not, List, [], ◌∷◌,
  ◌++◌, Option, none, some, Bytes, ltb, leb, ◌==◌, if◌then◌else◌, length, get_elem?, replicate,
}
use inventixdb.Cluster.{
  NodeRole, follower, candidate, leader, healthy, degraded, is_dead, is_healthy, ClusterNode,
  RaftLogEntry, RaftState, ClusterState, Clock, next_deadline,
}

-- `HeartbeatMessage`, with the fields of its header that are read
pub record HeartbeatMessage : Type 0 where
  pub sender_id : ℕ
  pub receiver_id : ℕ
  pub term : ℕ
  pub commit_index : ℕ
  pub leader_id : ℕ

-- `VoteRequest`
pub record VoteRequest : Type 0 where
  pub sender_id : ℕ
  pub receiver_id : ℕ
  pub term : ℕ
  pub last_log_index : ℕ
  pub last_log_term : ℕ

-- `VoteResponse`
pub record VoteResponse : Type 0 where
  pub sender_id : ℕ
  pub receiver_id : ℕ
  pub term : ℕ
  pub vote_granted : Bool

-- `AppendEntriesRequest`
pub record AppendEntriesRequest : Type 0 where
  pub sender_id : ℕ
  pub term : ℕ
  pub prev_log_index : ℕ
  pub prev_log_term : ℕ
  pub leader_commit : ℕ

-- What comes of a heartbeat: no connection, no acknowledgement, or one
pub data Beat : Type 0 where
  no_connection no_ack acked : Beat

-- `last_heartbeat` and `status` of a node after a heartbeat to it
unfoldable pub after_beat : ℕ → Beat → ClusterNode → ClusterNode
after_beat now no_connection n = if is_healthy n.status then record n { status = degraded } else n
after_beat now no_ack n = n
after_beat now acked n = record n { last_heartbeat = now; status = healthy }

unfoldable pub send_beats :
    ℕ → ℕ → HeartbeatMessage → (HeartbeatMessage → Beat) → List ClusterNode → List ClusterNode
send_beats self now m net [] = []
send_beats self now m net (n ∷ ns) =
    (if (n.node_id == self) || is_dead n.status
      then n
      else after_beat now (net (record m { receiver_id = n.node_id })) n)
    ∷ send_beats self now m net ns

-- `heartbeat_send_all` of a leader
unfoldable pub send_all : ClusterState → (HeartbeatMessage → Beat) → Clock → ClusterState
send_all s net k =
    let m : HeartbeatMessage = record {
      sender_id = s.config.self_node_id;
      receiver_id = 0;
      term = s.raft.current_term;
      commit_index = s.raft.commit_index;
      leader_id = s.config.self_node_id;
    } in
    record s {
      nodes = send_beats s.config.self_node_id k.now m net s.nodes;
      raft = record s.raft { last_heartbeat_sent = k.now };
    }

unfoldable pub heartbeat_send_all : ClusterState → (HeartbeatMessage → Beat) → Clock → ClusterState
heartbeat_send_all s net k = elim s.current_role [ leader ↦ send_all s net k | _ ↦ s ]

-- A term that is newer than the node's own makes it a follower without a vote.
unfoldable pub follow_term : ClusterState → ℕ → ClusterState
follow_term s term =
    if ltb s.raft.current_term term
    then record s {
      raft = record s.raft { current_term = term; voted_for = 0 };
      current_role = follower;
    }
    else s

-- The leader of a heartbeat whose term is not older than the node's own
unfoldable pub accept_beat : ClusterState → HeartbeatMessage → Clock → ClusterState
accept_beat s m k = record s {
  current_leader = m.leader_id;
  raft = record s.raft {
    election_deadline = next_deadline s.config k;
    commit_index =
        if ltb s.raft.commit_index m.commit_index then m.commit_index else s.raft.commit_index;
  };
}

unfoldable pub heartbeat_handle : ClusterState → HeartbeatMessage → Clock → ClusterState
heartbeat_handle s m k =
    let t = follow_term s m.term in if leb t.raft.current_term m.term then accept_beat t m k else t

-- The index and the term of the last entry of the log, and zeros for an empty log
unfoldable pub last_log : List RaftLogEntry → ℕ × ℕ
last_log [] = (0, 0)
last_log (e ∷ []) = (e.index, e.term)
last_log (e ∷ f ∷ es) = last_log (f ∷ es)

-- Whether a candidate's log is at least as up to date as the node's own
unfoldable pub up_to_date : VoteRequest → List RaftLogEntry → Bool
up_to_date q log =
    ltb (last_log log).1 q.last_log_term
    || ((q.last_log_term == (last_log log).1) && leb (last_log log).0 q.last_log_index)

-- Whether the node may vote for the sender, once it follows the term
unfoldable pub can_grant : ClusterState → VoteRequest → Bool
can_grant s q =
    ((s.raft.voted_for == 0) || (s.raft.voted_for == q.sender_id)) && up_to_date q s.raft.log

abbrev pub respond : ClusterState → VoteRequest → Bool → VoteResponse
respond s q granted = record {
  sender_id = s.config.self_node_id;
  receiver_id = q.sender_id;
  term = s.raft.current_term;
  vote_granted = granted;
}

-- The vote, once the node follows the term
unfoldable pub vote : ClusterState → VoteRequest → Clock → ClusterState × VoteResponse
vote s q k =
    if can_grant s q
    then (
      record s {
        raft = record s.raft {
          voted_for = q.sender_id;
          election_deadline = next_deadline s.config k;
        };
      },
      respond s q true,
    )
    else (s, respond s q false)

unfoldable pub raft_handle_vote_request :
    ClusterState → VoteRequest → Clock → ClusterState × VoteResponse
raft_handle_vote_request s q k =
    if ltb q.term s.raft.current_term
    then (s, respond s q false)
    else vote (follow_term s q.term) q k

-- The state in which a node asks for votes
unfoldable pub stand : ClusterState → ClusterState
stand s = record s {
  current_role = candidate;
  raft = record s.raft {
    current_term = (s.raft.current_term + 1) % 2 ^ 64;
    voted_for = s.config.self_node_id;
    votes_received = 1;
    election_in_progress = true;
  };
  total_elections = (s.total_elections + 1) % 2 ^ 64;
}

-- The request of a candidate to the node `id`
unfoldable pub vote_request : ClusterState → ℕ → VoteRequest
vote_request s id = record {
  sender_id = s.config.self_node_id;
  receiver_id = id;
  term = s.raft.current_term;
  last_log_index = (last_log s.raft.log).0;
  last_log_term = (last_log s.raft.log).1;
}

-- Whether a peer's answer counts: `none` when no vote response arrives
unfoldable pub is_grant : Option Bool → Bool
is_grant none = false
is_grant (some granted) = granted

-- The votes after the loop over the nodes, from `votes` before it
unfoldable pub ask_votes : ClusterState → (VoteRequest → Option Bool) → List ClusterNode → ℕ → ℕ
ask_votes s net [] votes = votes
ask_votes s net (n ∷ ns) votes = ask_votes s net ns (
    if (n.node_id == s.config.self_node_id) || is_dead n.status
    then votes
    else (if is_grant (net (vote_request s n.node_id)) then votes + 1 else votes))

-- The role of the node in its own list of nodes
unfoldable pub promote_self : List ClusterNode → List ClusterNode
promote_self [] = []
promote_self (n ∷ ns) = record n { role = leader } ∷ ns

unfoldable pub win : ClusterState → (HeartbeatMessage → Beat) → Clock → ClusterState
win s beats k =
    send_all
      (record s {
        current_role = leader;
        current_leader = s.config.self_node_id;
        nodes = promote_self s.nodes;
        raft = record s.raft {
          next_index = replicate (length s.nodes) (length s.raft.log + 1);
          match_index = replicate (length s.nodes) 0;
        };
      })
      beats k

unfoldable pub lose : ClusterState → Clock → ClusterState
lose s k = record s {
  current_role = follower;
  raft = record s.raft { election_deadline = next_deadline s.config k };
}

abbrev pub majority : ClusterState → ℕ
majority s = length s.nodes / 2 + 1

-- The end of an election with `votes` votes
unfoldable pub count_votes : ClusterState → ℕ → (HeartbeatMessage → Beat) → Clock → ClusterState
count_votes s votes beats k =
    let counted = record s { raft = record s.raft { votes_received = votes } } in
    let ended = if leb (majority s) votes then win counted beats k else lose counted k in
    record ended { raft = record ended.raft { election_in_progress = false } }

unfoldable pub raft_start_election :
    ClusterState → (VoteRequest → Option Bool) → (HeartbeatMessage → Beat) → Clock → ClusterState
raft_start_election s net beats k =
    count_votes (stand s) (ask_votes (stand s) net s.nodes 1) beats k

-- Whether the log has the entry before the new ones
unfoldable pub has_previous : List RaftLogEntry → AppendEntriesRequest → Bool
has_previous log q =
    if q.prev_log_index == 0
    then true
    else (if ltb (length log) q.prev_log_index
        then false
        else (elim (get_elem? log (q.prev_log_index - 1)) [
          | none ↦ false
          | some e ↦ e.term == q.prev_log_term
        ]))

unfoldable pub accept_leader : ClusterState → AppendEntriesRequest → Clock → ClusterState
accept_leader s q k = record s {
  current_role = follower;
  current_leader = q.sender_id;
  raft = record s.raft { current_term = q.term; election_deadline = next_deadline s.config k };
}

-- The commit index that a leader's commit index leads to
unfoldable pub commit_of : RaftState → ℕ → ℕ
commit_of r leader_commit =
    if ltb r.commit_index leader_commit
    then (if ltb leader_commit (length r.log) then leader_commit else length r.log)
    else r.commit_index

unfoldable pub raft_handle_append_entries :
    ClusterState → AppendEntriesRequest → Clock → ClusterState × Bool
raft_handle_append_entries s q k =
    let t = accept_leader s q k in
    if ltb q.term s.raft.current_term
    then (s, false)
    else (if has_previous t.raft.log q
        then (
          record t { raft = record t.raft { commit_index = commit_of t.raft q.leader_commit } },
          true,
        )
        else (t, false))

-- The capacity of the log doubles when it is full.
unfoldable pub append_entry : RaftState → Bytes → ℕ → RaftState
append_entry r command now = record r {
  log_capacity = if leb r.log_capacity (length r.log) then r.log_capacity * 2 else r.log_capacity;
  log =
      r.log
      ++ record {
        index = length r.log + 1;
        term = r.current_term;
        command = command;
        timestamp = now;
        committed = false;
      }
        ∷ [];
}

-- The state and the index of the entry; `none` is the result -1.
unfoldable pub raft_append_log : ClusterState → Bytes → Clock → ClusterState × Option ℕ
raft_append_log s command k = elim s.current_role [
  | leader ↦ (record s { raft = append_entry s.raft command k.now }, some (length s.raft.log + 1))
  | _ ↦ (s, none)
]

unfoldable pub mark_committed : ℕ → List RaftLogEntry → List RaftLogEntry
mark_committed i [] = []
mark_committed zero (e ∷ es) = record e { committed = true } ∷ es
mark_committed (suc i) (e ∷ es) = e ∷ mark_committed i es

unfoldable pub apply_next : RaftState → RaftState
apply_next r = record r {
  last_applied = r.last_applied + 1;
  log = mark_committed r.last_applied r.log;
}

-- The loop of `raft_commit_to`; a fuel of the length of the log is enough.
unfoldable pub apply_to : ℕ → ℕ → RaftState → RaftState
apply_to zero index r = r
apply_to (suc fuel) index r =
    let rest = apply_to fuel index (apply_next r) in
    if ltb r.last_applied index && ltb r.last_applied (length r.log) then rest else r

unfoldable pub raft_commit_to : ClusterState → ℕ → ClusterState
raft_commit_to s index = record s {
  raft = record (apply_to (length s.raft.log) index s.raft) { commit_index = index };
}
