-- ===== src/Cluster/Tests.antt =====
-- Histories of three nodes of src/cluster.c.
use inventixdb.Base.{
  inl, ℕ, ◌≡◌, refl, sym, subst, Bool, true, List, [], ◌∷◌, ◌++◌, Option, none, some, if◌then◌else◌,
  ◌==◌, ==_iff, arith, max, min,
}
use mathlib.Core.List.{Permᴰ, Memᴰ}
use inventixdb.Cluster.{
  ClusterConfig, ClusterState, Clock, cluster_init, with_defaults, cluster_add_node, node_ids,
}
use inventixdb.Cluster.Raft.{
  VoteRequest, HeartbeatMessage, Beat, acked, raft_handle_vote_request, raft_start_election,
  raft_append_log, raft_commit_to, append_entry, stand, vote_request, is_grant, ask_votes,
  count_votes, win, send_all, promote_self, last_log, up_to_date, can_grant, vote, follow_term,
}
use inventixdb.Cluster.Raft.Calls.{Call, requested, elects, proposes, commits, adds, play, Voted}
use inventixdb.Cluster.Raft.Votes.{Voted-unique}
use inventixdb.Cluster.Raft.Leader.{IsNode, Leads, Leads-unique}
use inventixdb.Cluster.Raft.Entries.{HasLog}
use inventixdb.Cluster.Raft.LogInv.{play-HasLog, raft_commit_to-Applied}
use inventixdb.Cluster.Raft.Grows.{Grows, play-Grows}

abbrev config : ℕ → ClusterConfig
config id = record {
  self_node_id = id;
  self_name = 110 ∷ [];
  heartbeat_interval = 0;
  election_timeout_min = 0;
  election_timeout_max = 0;
  node_timeout = 0;
  replication_factor = 0;
  rebalance_threshold_percent = 20;
}

abbrev clock : Clock
clock = record { now = 1000; rand = 7 }

abbrev start : ℕ → ClusterState
start id = cluster_init (config id) clock

abbrev request : ℕ → ℕ → ℕ → VoteRequest
request candidate peer term = record {
  sender_id = candidate;
  receiver_id = peer;
  term = term;
  last_log_index = 0;
  last_log_term = 0;
}

-- Only node 2 answers.
abbrev network : VoteRequest → Option Bool
network q = if q.receiver_id == 2 then some true else none

abbrev all_acked : HeartbeatMessage → Beat
all_acked m = acked

abbrev joined : List (Clock × Call)
joined = (clock, adds 2 (98 ∷ [])) ∷ (clock, adds 3 (99 ∷ [])) ∷ []

abbrev history : ℕ → List (Clock × Call)
history i =
    if i == 1
    then joined
      ++ (clock, elects network all_acked)
        ∷ (clock, proposes (65 ∷ []))
        ∷ (clock, commits 1)
        ∷ (clock, proposes (66 ∷ []))
        ∷ []
    else (if i == 2
        then (clock, requested (request 1 2 1)) ∷ (clock, requested (request 3 2 1)) ∷ []
        else [])

-- Node 2 votes for node 1 and then refuses node 3.
Voted-unique_example : ◌≡◌ {A = ℕ} 1 1
unfolding cluster_init with_defaults raft_handle_vote_request vote can_grant follow_term up_to_date
    last_log
Voted-unique_example =
    Voted-unique (start 2) (history 2) 1 1 1 (omega arith, omega arith)
      ((omega arith, λ e. omega (arith, e)), ((omega arith, λ e. omega (arith, e)), tt))
      (λ e. omega (arith, e)) (inl refl) (inl refl)

first-IsNode : IsNode (start 1) (history 1) 1
unfolding cluster_init with_defaults
first-IsNode = record {
  self = refl;
  nonzero = λ e. omega (arith, e);
  room = (omega arith, omega arith);
  sound = (tt, (tt, (tt, (tt, (tt, (tt, tt))))));
}

second-IsNode : IsNode (start 2) (history 2) 2
unfolding cluster_init with_defaults
second-IsNode = record {
  self = refl;
  nonzero = λ e. omega (arith, e);
  room = (omega arith, omega arith);
  sound = ((omega arith, λ e. omega (arith, e)), ((omega arith, λ e. omega (arith, e)), tt));
}

third-IsNode : IsNode (start 3) (history 3) 3
unfolding cluster_init with_defaults
third-IsNode = record {
  self = refl;
  nonzero = λ e. omega (arith, e);
  room = (omega arith, omega arith);
  sound = tt;
}

abbrev members : List ℕ
members = 1 ∷ 2 ∷ 3 ∷ []

nodes_are : (i : ℕ) → Memᴰ i members → IsNode (start i) (history i) i
nodes_are i (Memᴰ.head e) = subst (λ j. IsNode (start j) (history j) j) (sym e) first-IsNode
nodes_are i (Memᴰ.tail (Memᴰ.head e)) =
    subst (λ j. IsNode (start j) (history j) j) (sym e) second-IsNode
nodes_are i (Memᴰ.tail (Memᴰ.tail (Memᴰ.head e))) =
    subst (λ j. IsNode (start j) (history j) j) (sym e) third-IsNode
nodes_are i (Memᴰ.tail (Memᴰ.tail (Memᴰ.tail m))) = elim m [ ]

vote_of_2 : Voted (start 2) (history 2) 1 1
unfolding cluster_init with_defaults raft_handle_vote_request vote can_grant follow_term up_to_date
    last_log
vote_of_2 = inl refl

first-Leads : Leads start history members 1 1
unfolding cluster_init with_defaults cluster_add_node node_ids stand raft_start_election ask_votes
    count_votes win send_all vote_request is_grant promote_self
first-Leads = record {
  before = joined;
  after = (clock, proposes (65 ∷ [])) ∷ (clock, commits 1) ∷ (clock, proposes (66 ∷ [])) ∷ [];
  net = network;
  replies = all_acked;
  clock = clock;
  in_history = refl;
  term = refl;
  leads = refl;
  knows = Permᴰ.cons refl (Permᴰ.cons refl (Permᴰ.cons refl Permᴰ.nil));
  is_member = Memᴰ.head refl;
  answers = λ j e.
      subst (λ i. Voted (start i) (history i) 1 1) (sym ((==_iff j 2).0 (ground arith))) vote_of_2;
}

Leads-unique_example : ◌≡◌ {A = ℕ} 1 1
Leads-unique_example = Leads-unique start history members nodes_are 1 1 1 first-Leads first-Leads

play-HasLog_example : HasLog (play (start 1) (history 1))
play-HasLog_example =
    play-HasLog (config 1) clock (history 1) (omega arith) (tt, (tt, (tt, (tt, (tt, (tt, tt))))))

abbrev led : ClusterState
led =
    play (start 1) (joined ++ (clock, elects network all_acked) ∷ (clock, proposes (65 ∷ [])) ∷ [])

play-Grows_example :
    Grows led.raft.log (play led ((clock, commits 1) ∷ (clock, proposes (66 ∷ [])) ∷ [])).raft.log
unfolding raft_append_log raft_start_election count_votes stand cluster_add_node cluster_init
    ask_votes with_defaults is_grant vote_request win send_all append_entry
play-Grows_example =
    play-Grows led ((clock, commits 1) ∷ (clock, proposes (66 ∷ [])) ∷ [])
      (omega arith, omega arith) (tt, (tt, tt))

raft_commit_to-Applied_example : (raft_commit_to led 5).raft.last_applied ≡ max 0 (min 5 1)
unfolding raft_append_log raft_start_election count_votes stand cluster_add_node cluster_init
    ask_votes with_defaults is_grant vote_request win send_all append_entry
raft_commit_to-Applied_example = raft_commit_to-Applied led 5 (omega arith)
