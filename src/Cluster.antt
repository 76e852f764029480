-- ===== src/Cluster.antt =====
-- The state of a node of the cluster (src/cluster.c, include/cluster.h): the nodes it knows, its role,
-- its part of the Raft state and its partitions. Addresses, sockets, threads, callbacks, log messages
-- and the counters of traffic are left out; the network, the clock and `rand` are arguments of the calls.
pub mod Raft
pub mod Partition
mod Tests
use inventixdb.Base.{
  ℕ, ◌+◌, ◌-◌, ◌*◌, ◌/◌, ◌%◌, Bool, true, false, List, [], ◌∷◌, ◌++◌, Option, none, some, Bytes,
  ltb, ◌==◌, if◌then◌else◌, take,
}

-- `NodeRole`
pub data NodeRole : Type 0 where
  follower candidate leader : NodeRole

-- `NodeStatus`
pub data NodeStatus : Type 0 where
  unknown healthy degraded unreachable dead : NodeStatus

abbrev pub is_dead : NodeStatus → Bool
is_dead dead = true
is_dead _ = false

abbrev pub is_healthy : NodeStatus → Bool
is_healthy healthy = true
is_healthy _ = false

-- `ClusterNode`
pub record ClusterNode : Type 0 where
  pub node_id : ℕ
  pub name : Bytes
  pub role : NodeRole
  pub status : NodeStatus
  pub last_heartbeat : ℕ
  pub join_time : ℕ
  pub partitions : List ℕ

-- `RaftLogEntry`
pub record RaftLogEntry : Type 0 where
  pub index : ℕ
  pub term : ℕ
  pub command : Bytes
  pub timestamp : ℕ
  pub committed : Bool

-- `RaftState`; the log is the list of its entries, and a `voted_for` of 0 is no vote.
pub record RaftState : Type 0 where
  pub current_term : ℕ
  pub voted_for : ℕ
  pub commit_index : ℕ
  pub last_applied : ℕ
  pub log : List RaftLogEntry
  pub log_capacity : ℕ
  pub next_index : List ℕ
  pub match_index : List ℕ
  pub last_heartbeat_sent : ℕ
  pub election_deadline : ℕ
  pub votes_received : ℕ
  pub election_in_progress : Bool

-- `PartitionInfo`
pub record PartitionInfo : Type 0 where
  pub partition_id : ℕ
  pub primary_node : ℕ
  pub replica_nodes : List ℕ
  pub range_start : Option Bytes
  pub range_end : Option Bytes

-- The fields of `ClusterConfig` that the calls read
pub record ClusterConfig : Type 0 where
  pub self_node_id : ℕ
  pub self_name : Bytes
  pub heartbeat_interval : ℕ
  pub election_timeout_min : ℕ
  pub election_timeout_max : ℕ
  pub node_timeout : ℕ
  pub replication_factor : ℕ
  pub rebalance_threshold_percent : ℕ

-- `ClusterState`; the first node of the list is the node itself, `g_cluster->self`.
pub record ClusterState : Type 0 where
  pub config : ClusterConfig
  pub nodes : List ClusterNode
  pub current_role : NodeRole
  pub current_leader : ℕ
  pub raft : RaftState
  pub partitions : List PartitionInfo
  pub total_elections : ℕ
  pub total_rebalances : ℕ
  pub cluster_start_time : ℕ

-- What a call reads from outside: `time(NULL)` and `rand()`
pub record Clock : Type 0 where
  pub now : ℕ
  pub rand : ℕ

-- `random_election_delay`, where the longest timeout is not below the shortest one
unfoldable pub random_election_delay : ClusterConfig → Clock → ℕ
random_election_delay c k =
    c.election_timeout_min + k.rand % (c.election_timeout_max - c.election_timeout_min + 1)

unfoldable pub next_deadline : ClusterConfig → Clock → ℕ
next_deadline c k = k.now + random_election_delay c k / 1000

-- A setting that was not given takes its default.
abbrev pub default_for_zero : ℕ → ℕ → ℕ
default_for_zero n d = if n == 0 then d else n

unfoldable pub with_defaults : ClusterConfig → ClusterConfig
with_defaults c = record c {
  heartbeat_interval = default_for_zero c.heartbeat_interval 1000;
  election_timeout_min = default_for_zero c.election_timeout_min 3000;
  election_timeout_max = default_for_zero c.election_timeout_max 5000;
  node_timeout = default_for_zero c.node_timeout 10000;
  replication_factor = default_for_zero c.replication_factor 2;
}

-- `cluster_init`, when no cluster is there
unfoldable pub cluster_init : ClusterConfig → Clock → ClusterState
cluster_init c k = record {
  config = with_defaults c;
  nodes =
      record {
        node_id = c.self_node_id;
        name = c.self_name;
        role = follower;
        status = healthy;
        last_heartbeat = 0;
        join_time = k.now;
        partitions = [];
      }
      ∷ [];
  current_role = follower;
  current_leader = 0;
  raft = record {
    current_term = 0;
    voted_for = 0;
    commit_index = 0;
    last_applied = 0;
    log = [];
    log_capacity = 1000;
    next_index = [];
    match_index = [];
    last_heartbeat_sent = 0;
    election_deadline = next_deadline (with_defaults c) k;
    votes_received = 0;
    election_in_progress = false;
  };
  partitions = [];
  total_elections = 0;
  total_rebalances = 0;
  cluster_start_time = k.now;
}

-- The entry that `cluster_add_node` appends, whose id `generate_node_id` gave
unfoldable pub cluster_add_node : ClusterState → ℕ → Bytes → Clock → ClusterState
cluster_add_node s id name k = record s {
  nodes =
      s.nodes
      ++ record {
        node_id = id;
        name = take 31 name;
        role = follower;
        status = healthy;
        last_heartbeat = k.now;
        join_time = k.now;
        partitions = [];
      }
        ∷ [];
}

-- The list without its first node of this id
unfoldable pub remove_first : ℕ → List ClusterNode → Option (List ClusterNode)
remove_first id [] = none
remove_first id (n ∷ ns) =
    let rest = remove_first id ns in
    if n.node_id == id then some ns else elim rest [ none ↦ none | some ms ↦ some (n ∷ ms) ]

-- `cluster_remove_node`; `none` is the result -1.
unfoldable pub cluster_remove_node : ClusterState → ℕ → Option ClusterState
cluster_remove_node s id = elim (remove_first id s.nodes) [
  | none ↦ none
  | some ns ↦ some (record s { nodes = ns })
]

-- `cluster_get_node`
unfoldable pub find_node : ℕ → List ClusterNode → Option ClusterNode
find_node id [] = none
find_node id (n ∷ ns) = let rest = find_node id ns in if n.node_id == id then some n else rest

abbrev pub cluster_get_leader : ClusterState → Option ClusterNode
cluster_get_leader s = find_node s.current_leader s.nodes

-- The ids of the known nodes, in order
unfoldable pub node_ids : List ClusterNode → List ℕ
node_ids [] = []
node_ids (n ∷ ns) = n.node_id ∷ node_ids ns

-- One node in `health_check_nodes`, where the cluster does not rebalance itself; `elapsed` is the
-- time since its last heartbeat, in seconds.
unfoldable pub check_node : ℕ → ℕ → ClusterNode → ClusterNode
check_node elapsed timeout n =
    if ltb (timeout * 2) elapsed
    then record n { status = dead }
    else (if ltb timeout elapsed
        then (if is_healthy n.status then record n { status = degraded } else n)
        else (if ltb (timeout / 2) elapsed
            then n
            else (elim n.status [ degraded ↦ record n { status = healthy } | _ ↦ n ])))

unfoldable pub check_nodes : ClusterConfig → ℕ → List ClusterNode → List ClusterNode
check_nodes c now [] = []
check_nodes c now (n ∷ ns) =
    (if n.node_id == c.self_node_id
      then n
      else check_node (now - n.last_heartbeat) (c.node_timeout / 1000) n)
    ∷ check_nodes c now ns

unfoldable pub health_check_nodes : ClusterState → ℕ → ClusterState
health_check_nodes s now = record s { nodes = check_nodes s.config now s.nodes }
